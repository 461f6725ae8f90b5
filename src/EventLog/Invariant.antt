-- ===== src/EventLog/Invariant.antt =====
-- events.go: the size of the log and the numbers of its events, for `publish`.
use zombiebox_gateway_core.Base.{
  suc, ◌+◌, ◌-◌, ◌%◌, ◌^◌, ◌≤◌, ◌<◌, ◌≡◌, refl, List, [], ◌∷◌, ◌++◌, arith, length, drop, All,
  All-mono, All-drop, ltb, if-split, length-append, length-drop,
}
use zombiebox_gateway_core.EventLog.{Event, EventLog, Publication, last_256, publish}
use zombiebox_gateway_core.EventLog.Wanted.{UpTo, LogInv, event_of, publish_all}

module _ {ℓ} {A : Type ℓ} where
  -- A sound log that is within its bound.
  pub record Bounded (e : EventLog A) : Type ℓ where
    pub sound : LogInv e
    pub few : length e.events ≤ 256

  All-snoc :
      (P : Event A → Type ℓ) (xs : List (Event A)) (x : Event A)
      → All P xs
      → P x
      → All P (xs ++ x ∷ [])
  All-snoc P [] x a b = (b, tt)
  All-snoc P (y ∷ xs) x a b = (a.0, All-snoc P xs x a.1 b)

  last_256-few : (es : List (Event A)) → length es ≤ 257 → length (last_256 es) ≤ 256
  unfolding last_256
  last_256-few es h =
      if-split (λ (q : List (Event A)). length q ≤ 256) (ltb 256 (length es))
        (drop (length es - 256) es) es (λ _. omega (arith, length-drop (length es - 256) es))
        (λ short. ground arith)

  last_256-All : (P : Event A → Type ℓ) (es : List (Event A)) → All P es → All P (last_256 es)
  unfolding last_256
  last_256-All P es a =
      if-split (All P) (ltb 256 (length es)) (drop (length es - 256) es) es
        (λ _. All-drop P (length es - 256) es a) (λ _. a)

  publish-sequence :
      (p : Publication A) (e : EventLog A)
      → suc e.sequence < 2 ^ 64
      → (publish p e).sequence ≡ suc e.sequence
  unfolding publish
  publish-sequence p e fits = omega arith

  publish-Bounded :
      (p : Publication A) (e : EventLog A)
      → suc e.sequence < 2 ^ 64
      → Bounded e
      → Bounded (publish p e)
  unfolding publish
  publish-Bounded p e fits b =
      let n = suc e.sequence % 2 ^ 64 in
      let event : Event A = event_of e.epoch n p in
      record {
        sound = record {
          plain = b.sound.plain;
          fits = omega arith;
          known = last_256-All (UpTo e.epoch n) (e.events ++ event ∷ []) (
              All-snoc (UpTo e.epoch n) e.events event
                (All-mono (UpTo e.epoch e.sequence) (UpTo e.epoch n) e.events
                  (λ event u. record {
                    number = u.number;
                    small = omega (arith, u.small);
                    cursor = u.cursor;
                  })
                  b.sound.known)
                (record { number = n; small = omega arith; cursor = refl }));
        };
        few =
            last_256-few (e.events ++ event ∷ [])
              (omega (arith, length-append e.events (event ∷ []), b.few));
      }

  -- For every series of publications that keeps the numbers below 2^64, from a bounded log: the
  -- log holds at most 256 events, each with a number of the log's epoch that is not above its
  -- sequence.
  pub publish_all-Bounded :
      (ps : List (Publication A)) (e : EventLog A)
      → e.sequence + length ps < 2 ^ 64
      → Bounded e
      → Bounded (publish_all ps e)
  unfolding publish_all
  publish_all-Bounded [] e fits b = b
  publish_all-Bounded (p ∷ ps) e fits b =
      publish_all-Bounded ps (publish p e) (omega (arith, publish-sequence p e (omega arith)))
        (publish-Bounded p e (omega arith) b)
