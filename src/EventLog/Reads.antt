-- ===== src/EventLog/Reads.antt =====
-- events.go: a `read` after a series of `publish`.
use mathlib.Core.List.{append-nil, append_assoc}
use zombiebox_gateway_core.Base.{
  ℕ, suc, ◌+◌, ◌-◌, ◌%◌, ◌^◌, ◌≤◌, ◌<◌, ◌≡◌, refl, sym, ap, subst, ◌∙◌, String, true, false, List,
  [], ◌∷◌, ◌++◌, arith, length, drop, keep, All, ltb, if-split, length-append, drop-append,
  All-drop, keep-skip,
}
use zombiebox_gateway_core.EventLog.{
  cursor_of, Event, EventLog, Publication, last_256, publish, wants, read_after, read_parts, read,
}
use zombiebox_gateway_core.EventLog.Numbers.{
  IsEpoch, split-cursor_of, parse_uint-digits, same_refl, cursor_of-not-empty,
}
use zombiebox_gateway_core.EventLog.Wanted.{
  UpTo, LogInv, event_of, events_of, publish_all, addressed, keep_old, keep_new,
}

module _ {ℓ} {A : Type ℓ} where
  -- A list of events ends with the new ones, and the others have numbers up to a bound.
  pub record EndsWith (epoch : List ℕ) (bound : ℕ) (news events : List (Event A)) : Type ℓ where
    pub old : List (Event A)
    pub whole : events ≡ old ++ news
    pub below : All (UpTo epoch bound) old

  last_256-EndsWith :
      (epoch : List ℕ) (bound : ℕ) (news events : List (Event A))
      → length news ≤ 256
      → EndsWith epoch bound news events
      → EndsWith epoch bound news (last_256 events)
  unfolding last_256
  last_256-EndsWith epoch bound news events few s =
      if-split (EndsWith epoch bound news) (ltb 256 (length events))
        (drop (length events - 256) events) events
        (λ long. record {
          old = drop (length events - 256) s.old;
          whole =
              ap (λ es. drop (length events - 256) es) s.whole
              ∙ drop-append (length events - 256) s.old news (within long);
          below = All-drop (UpTo epoch bound) (length events - 256) s.old s.below;
        })
        (λ short. s)
    where
      within : ltb 256 (length events) ≡ true → length events - 256 ≤ length s.old
      within long = omega (arith, ap length s.whole ∙ length-append s.old news)

  -- After a series of at most 256 publications, the log ends with their events.
  record Grown (e : EventLog A) (bound k : ℕ) (news : List (Event A)) (g : EventLog A)
      : Type ℓ where
    epoch : g.epoch ≡ e.epoch
    sequence : g.sequence ≡ k
    ends : EndsWith e.epoch bound news g.events

  publish-Grown :
      (e : EventLog A) (bound k : ℕ) (news : List (Event A)) (g : EventLog A) (p : Publication A)
      → suc k < 2 ^ 64
      → length news < 256
      → Grown e bound k news g
      → Grown e bound (suc k) (news ++ event_of e.epoch (suc k) p ∷ []) (publish p g)
  unfolding publish
  publish-Grown e bound k news g p fits few s =
      let event : Event A = event_of g.epoch (suc g.sequence % 2 ^ 64) p in
      let same_ : event ≡ event_of e.epoch (suc k) p = rw (s.epoch, next) refl in
      record {
        epoch = s.epoch;
        sequence = next;
        ends =
            last_256-EndsWith e.epoch bound (news ++ event_of e.epoch (suc k) p ∷ [])
              (g.events ++ event ∷ [])
              (omega (arith, length-append news (event_of e.epoch (suc k) p ∷ [])))
              (record {
                old = s.ends.old;
                whole =
                    ap (λ q. q ++ event ∷ []) s.ends.whole
                    ∙ append_assoc s.ends.old news (event ∷ [])
                    ∙ ap (λ q. s.ends.old ++ (news ++ q ∷ [])) same_;
                below = s.ends.below;
              });
      }
    where
      next : suc g.sequence % 2 ^ 64 ≡ suc k
      next = omega (arith, s.sequence)

  Grown-cast :
      (e : EventLog A) (bound k l : ℕ) (news more : List (Event A)) (g : EventLog A)
      → k ≡ l
      → news ≡ more
      → Grown e bound k news g
      → Grown e bound l more g
  Grown-cast e bound k l news more g a b s =
      subst (λ n. Grown e bound n more g) a (subst (λ q. Grown e bound k q g) b s)

  publish_all-Grown :
      (e : EventLog A) (bound k : ℕ) (news : List (Event A)) (ps : List (Publication A))
      (g : EventLog A)
      → k + length ps < 2 ^ 64
      → length news + length ps ≤ 256
      → Grown e bound k news g
      → Grown e bound (k + length ps) (news ++ events_of e.epoch k ps) (publish_all ps g)
  unfolding publish_all events_of
  publish_all-Grown e bound k news [] g fits few s =
      Grown-cast e bound k (k + 0) news (news ++ []) g (omega arith) (sym (append-nil news)) s
  publish_all-Grown e bound k news (p ∷ ps) g fits few s =
      let event = event_of e.epoch (suc k) p in
      let more =
        publish_all-Grown e bound (suc k) (news ++ event ∷ []) ps (publish p g) (omega arith)
          (omega (arith, length-append news (event ∷ [])))
          (publish-Grown e bound k news g p (omega arith) (omega arith) s) in
      Grown-cast e bound (suc k + length ps) (k + suc (length ps))
        ((news ++ event ∷ []) ++ events_of e.epoch (suc k) ps)
        (news ++ event ∷ events_of e.epoch (suc k) ps) (publish_all ps (publish p g)) (omega arith)
        (append_assoc news (event ∷ []) (events_of e.epoch (suc k) ps)) more

  length-events_of :
      (epoch : List ℕ) (n : ℕ) (ps : List (Publication A))
      → length (events_of epoch n ps) ≡ length ps
  unfolding events_of
  length-events_of epoch n [] = refl
  length-events_of epoch n (p ∷ ps) = omega (arith, length-events_of epoch (suc n) ps)

  read-cursor_of :
      (device : String) (n : ℕ) (g : EventLog A)
      → IsEpoch g.epoch
      → n < 2 ^ 64
      → n ≤ g.sequence
      → g.sequence - n ≤ length g.events
      → read device (cursor_of g.epoch n) g
        ≡ (keep (wants device n) g.events, cursor_of g.epoch g.sequence, false)
  unfolding read read_parts read_after
  read-cursor_of device n g plain fits past held =
      let a : ltb g.sequence n ≡ false = ground arith in
      let b : ltb (length g.events) (g.sequence - n) ≡ false = ground arith in
      rw
        (
          split-cursor_of g.epoch n plain,
          same_refl g.epoch,
          parse_uint-digits n fits,
          a,
          b,
          cursor_of-not-empty g.epoch n,
        )
        refl

  grown :
      (e : EventLog A) (ps : List (Publication A))
      → LogInv e
      → e.sequence + length ps < 2 ^ 64
      → length ps ≤ 256
      → Grown e e.sequence
          (e.sequence + length ps)
          (events_of e.epoch e.sequence ps)
          (publish_all ps e)
  grown e ps v fits few =
      publish_all-Grown e e.sequence e.sequence [] ps e fits (omega arith) (record {
        epoch = refl;
        sequence = refl;
        ends = record { old = e.events; whole = sym (append-nil e.events); below = v.known };
      })

  -- For every log of its own numbers and every series of at most 256 publications, with which the
  -- numbers stay below 2^64: a device that reads with the cursor it was given before them gets
  -- exactly those for it or for all devices, in order and each once, with the cursor after the
  -- last one, and is not told to start again.
  pub read-publish_all :
      (device : String) (e : EventLog A) (ps : List (Publication A))
      → LogInv e
      → e.sequence + length ps < 2 ^ 64
      → length ps ≤ 256
      → read device (cursor_of e.epoch e.sequence) (publish_all ps e) ≡ (
        keep (addressed device) (events_of e.epoch e.sequence ps),
        cursor_of e.epoch (e.sequence + length ps),
        false,
      )
  read-publish_all device e ps v fits few =
      let s = grown e ps v fits few in
      let g = publish_all ps e in
      let news = events_of e.epoch e.sequence ps in
      let held : g.sequence - e.sequence ≤ length g.events = omega (
        arith,
        s.sequence,
        ap length s.ends.whole,
        length-append s.ends.old news,
        length-events_of e.epoch e.sequence ps,
      ) in
      let found : keep (wants device e.sequence) g.events ≡ keep (addressed device) news =
        ap (keep (wants device e.sequence)) s.ends.whole
        ∙ keep-skip (wants device e.sequence) s.ends.old news
            (keep_old device e.epoch e.sequence s.ends.old v.plain v.fits s.ends.below)
        ∙ keep_new device e.epoch e.sequence e.sequence ps v.plain (omega arith) fits in
      ap (λ epoch. read device (cursor_of epoch e.sequence) g) (sym s.epoch)
      ∙ read-cursor_of device e.sequence g (subst IsEpoch (sym s.epoch) v.plain) v.fits
          (omega (arith, s.sequence)) held
      ∙ rw (found, s.epoch, s.sequence) refl
