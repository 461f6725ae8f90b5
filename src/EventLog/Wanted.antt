-- ===== src/EventLog/Wanted.antt =====
-- events.go: which events of a log a `read` with a cursor picks.
use zombiebox_gateway_core.Base.{
  ℕ, suc, ◌+◌, ◌^◌, ◌≤◌, ◌<◌, ◌≡◌, refl, ◌∙◌, String, Bool, true, false, ◌&&◌, ◌||◌, List, [], ◌∷◌,
  arith, length, keep, All, ltb, str_eq,
}
use zombiebox_gateway_core.Base.Text.{split}
use zombiebox_gateway_core.EventLog.{
  cursor_of, Event, EventLog, Publication, publish, number_in, wants,
}
use zombiebox_gateway_core.EventLog.Numbers.{IsEpoch, split-cursor_of, parse_uint-digits}

pub number_in-cursor_of :
    (epoch : List ℕ) (n : ℕ)
    → IsEpoch epoch
    → n < 2 ^ 64
    → number_in (split b':' (cursor_of epoch n)) ≡ n
number_in-cursor_of epoch n plain fits =
    rw (split-cursor_of epoch n plain, parse_uint-digits n fits) refl

module _ {ℓ} {A : Type ℓ} where
  -- An event of the epoch with a number up to a bound.
  pub record UpTo (epoch : List ℕ) (bound : ℕ) (event : Event A) : Type ℓ where
    pub number : ℕ
    pub small : number ≤ bound
    pub cursor : event.cursor ≡ cursor_of epoch number

  pub record LogInv (e : EventLog A) : Type ℓ where
    pub plain : IsEpoch e.epoch
    pub fits : e.sequence < 2 ^ 64
    pub known : All (UpTo e.epoch e.sequence) e.events

  -- The event that a publication becomes, and those that a series becomes.
  abbrev pub event_of : List ℕ → ℕ → Publication A → Event A
  event_of epoch n p = record {
    cursor = cursor_of epoch n;
    kind = p.kind;
    payload = p.payload;
    device_id = p.device;
  }

  unfoldable pub events_of : List ℕ → ℕ → List (Publication A) → List (Event A)
  events_of epoch n [] = []
  events_of epoch n (p ∷ ps) = event_of epoch (suc n) p ∷ events_of epoch (suc n) ps

  unfoldable pub publish_all : List (Publication A) → EventLog A → EventLog A
  publish_all [] e = e
  publish_all (p ∷ ps) e = publish_all ps (publish p e)

  -- For the device, or for all.
  abbrev pub addressed : String → Event A → Bool
  addressed device event = str_eq event.device_id "" || str_eq event.device_id device

  wants-number :
      (device : String) (seq n : ℕ) (epoch : List ℕ) (event : Event A)
      → IsEpoch epoch
      → n < 2 ^ 64
      → event.cursor ≡ cursor_of epoch n
      → wants device seq event ≡ (ltb seq n && addressed device event)
  unfolding wants
  wants-number device seq n epoch event plain fits e =
      rw (e, number_in-cursor_of epoch n plain fits) refl

  pub keep_old :
      (device : String) (epoch : List ℕ) (bound : ℕ) (es : List (Event A))
      → IsEpoch epoch
      → bound < 2 ^ 64
      → All (UpTo epoch bound) es
      → All (λ event. wants device bound event ≡ false) es
  keep_old device epoch bound [] plain fits a = tt
  keep_old device epoch bound (event ∷ es) plain fits (u, us) =
      let w =
        wants-number device bound u.number epoch event plain (le_lt u.number bound u.small fits)
          u.cursor in
      (w ∙ not_after u.number u.small, keep_old device epoch bound es plain fits us)
    where
      le_lt : (a b : ℕ) → a ≤ b → b < 2 ^ 64 → a < 2 ^ 64
      le_lt a b p q = omega arith

      not_after : (n : ℕ) → n ≤ bound → (ltb bound n && addressed device event) ≡ false
      not_after n le = ground arith

  pub keep_new :
      (device : String) (epoch : List ℕ) (bound n : ℕ) (ps : List (Publication A))
      → IsEpoch epoch
      → bound ≤ n
      → n + length ps < 2 ^ 64
      → keep (wants device bound) (events_of epoch n ps)
        ≡ keep (addressed device) (events_of epoch n ps)
  unfolding events_of
  keep_new device epoch bound n [] plain le fits = refl
  keep_new device epoch bound n (p ∷ ps) plain le fits =
      let rest = keep_new device epoch bound (suc n) ps plain (omega arith) (omega arith) in
      let w =
        wants-number device bound (suc n) epoch (event_of epoch (suc n) p) plain (omega arith)
          refl in
      let newer : ltb bound (suc n) ≡ true = ground arith in rw (w, newer, rest) refl
