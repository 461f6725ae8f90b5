-- ===== src/Inbox/Fence.antt =====
-- service.go: what interrupts a Snapshot call, and the lease of the owner.
use zombiebox_gateway_core.Base.{
  ℕ, ◌+◌, ◌%◌, ◌^◌, ◌≡◌, ◌≢◌, refl, sym, ap, ◌∙◌, ◌⊎◌, inl, inr, String, Bool, true, false, not,
  ◌&&◌, ◌||◌, Option, none, some, ◌∷◌, arith, if-split, Bool-cases, str_eq, eq_iff, leb, ◌==◌,
  ==_iff,
}
use zombiebox_gateway_core.Domain.{Source}
use zombiebox_gateway_core.Inbox.Service.{
  Inbox, Plan, stopped, Refusal, busy, changed, granted, stop_at, stop_plan, call_cancel,
  next_generation, clear, expire, claim, owns, release, stand_by, standby,
}
use zombiebox_gateway_core.Inbox.Snapshot.{
  Poll, Chosen, leaving, refused, is_current, decide, commit, fail,
}
use zombiebox_gateway_core.Inbox.Selection.{Values}
use zombiebox_gateway_core.Inbox.Sessions.{stop_plan-plan}

-- What ends the epoch of a running call.
pub data Interrupt : Type 0 where
  by_release by_close by_standby : Interrupt
  by_claim : ℕ → ℕ → String → String → Interrupt

abbrev pub was_granted : Option Refusal → Bool
was_granted none = true
was_granted (some r) = false

-- A call was begun by the owner of `s`; a claim counts where it is granted.
pub interrupt : Interrupt → Inbox → Inbox
unfolding release clear standby claim
interrupt by_release s = release s.owner s
interrupt by_close s = clear s
interrupt by_standby s = standby s.owner s
interrupt (by_claim now later owner provider) s = (claim now later owner provider s).0

unfoldable pub interrupts : Interrupt → Inbox → Bool
unfolding claim
interrupts by_release s = true
interrupts by_close s = true
interrupts by_standby s = str_eq s.provider "universal"
interrupts (by_claim now later owner provider) s = was_granted (claim now later owner provider s).1

stop_at-generation : (o : Option Plan) (s : Inbox) → (stop_at o s).generation ≡ s.generation
stop_at-generation none s = refl
stop_at-generation (some p) s = refl

call_cancel-generation : (s : Inbox) → (call_cancel s).generation ≡ s.generation
call_cancel-generation s =
    if-split (λ t. t.generation ≡ s.generation) s.cancel _ s (λ e. refl) (λ e. refl)

abbrev next : ℕ → ℕ
next g = (g + 1) % 2 ^ 64

clear-generation : (s : Inbox) → (clear s).generation ≡ next s.generation
unfolding clear stop_plan
clear-generation s =
    let t = call_cancel (next_generation s) in
    stop_at-generation t.plan t ∙ call_cancel-generation (next_generation s)

stand_by-generation : (s : Inbox) → (stand_by s).generation ≡ next s.generation
unfolding stand_by stop_plan
stand_by-generation s =
    let t = call_cancel (next_generation s) in
    stop_at-generation t.plan t ∙ call_cancel-generation (next_generation s)

-- One or two steps never come back to the same generation.
next-next : (g : ℕ) → (next g ≢ g) × (next (next g) ≢ g)
next-next g = (λ e. omega arith, λ e. omega arith)

module _ (P : Inbox → Type 0) (now : ℕ) (s : Inbox) where
  expire-cases : P (clear s) → P s → P (expire now s)
  unfolding expire
  expire-cases cleared kept =
      if-split P (not (str_eq s.owner "") && leb s.expires now) (clear s) s (λ e. cleared)
        (λ e. kept)

-- Later by one or two steps, and without a plan.
record Ended (g : ℕ) (s : Inbox) : Type 0 where
  steps : (s.generation ≡ next g) ⊎ (s.generation ≡ next (next g))
  plan : s.plan ≡ none

clear-plan : (s : Inbox) → (clear s).plan ≡ none
unfolding clear
clear-plan s = stop_plan-plan (call_cancel (next_generation s))

clear-Ended : (s : Inbox) → Ended s.generation (clear s)
clear-Ended s = record { steps = inl (clear-generation s); plan = clear-plan s }

-- A claim that is granted clears, and may expire before.
claim-Ended :
    (now later : ℕ) (owner provider : String) (s : Inbox)
    → was_granted (claim now later owner provider s).1 ≡ true
    → Ended s.generation (claim now later owner provider s).0
unfolding claim
claim-Ended now later owner provider s =
    let t = expire now s in
    let g = s.generation in
    if-split {A = Inbox × Option Refusal} (λ r. was_granted r.1 ≡ true → Ended s.generation r.0)
      (not (str_eq t.owner "") && not (str_eq t.owner owner)) (t, some busy)
      (granted later owner provider (clear t), none) (λ e h. absurd (ground arith))
      λ e h. record {
        steps =
            expire-cases
              (λ u. ((clear u).generation ≡ next g) ⊎ ((clear u).generation ≡ next (next g))) now s
              (inr (clear-generation (clear s) ∙ ap next (clear-generation s)))
              (inl (clear-generation s));
        plan = clear-plan t;
      }

interrupt-Ended :
    (i : Interrupt) (s : Inbox) → interrupts i s ≡ true → Ended s.generation (interrupt i s)
unfolding interrupt interrupts release standby
interrupt-Ended by_release s h =
    if-split (Ended s.generation) (owns s.owner s) (clear s) s (λ e. clear-Ended s)
      (λ e. absurd (ground (arith, (eq_iff s.owner s.owner).1 refl)))
interrupt-Ended by_close s h = clear-Ended s
interrupt-Ended by_standby s h =
    if-split (Ended s.generation) (not (owns s.owner s) || not (str_eq s.provider "universal")) s
      (stand_by s) (λ e. absurd (ground (arith, (eq_iff s.owner s.owner).1 refl)))
      λ e. record { steps = inl (stand_by-generation s); plan = stand_by-plan s }
  where
    stand_by-plan : (s : Inbox) → (stand_by s).plan ≡ none
    stand_by-plan s = stop_plan-plan (call_cancel (next_generation s))
interrupt-Ended (by_claim now later owner provider) s h = claim-Ended now later owner provider s h

-- After an expiry too, the generation is another one and there is no plan.
Ended-expire :
    (g now : ℕ) (s : Inbox)
    → Ended g s
    → ((expire now s).generation ≢ g) × ((expire now s).plan ≡ none)
Ended-expire g now s v =
    expire-cases (λ t. (t.generation ≢ g) × (t.plan ≡ none)) now s
      (elim v.steps [
        | inl e ↦ (λ q. omega (arith, clear-generation s, e, q), clear-plan s)
        | inr e ↦ (λ q. omega (arith, clear-generation s, e, q), clear-plan s)
      ])
      (elim v.steps [
        | inl e ↦ (λ q. omega (arith, e, q), v.plan)
        | inr e ↦ (λ q. omega (arith, e, q), v.plan)
      ])

stale : (c : Poll) (s : Inbox) → (s.generation ≢ c.generation) → is_current c s ≡ false
unfolding is_current
stale c s ne = elim (Bool-cases (is_current c s)) [
  | inl e ↦ absurd (ne ((==_iff s.generation c.generation).0 (ground (arith, e))))
  | inr e ↦ e
]

is_current-generation :
    (c : Poll) (s : Inbox) → is_current c s ≡ true → (s.generation == c.generation) ≡ true
unfolding is_current
is_current-generation c s h = ground (arith, h)

-- What a call whose epoch has ended does with what it has read or started.
pub record Fenced (digest : Source → String) (now : ℕ) (c : Poll) (s : Inbox) : Type 0 where
  pub empty : (expire now s).plan ≡ none
  pub decides :
      (late : Option String) (values : Values)
      → decide digest now late c values s ≡ (expire now s, leaving (refused changed))
  pub fails : (e : String) → fail now c e s ≡ (expire now s, leaving (refused changed))
  pub commits :
      (x : Chosen) (plan : Plan)
      → commit now c x plan s ≡ (
        record (expire now s) { log = stopped plan.session ∷ (expire now s).log },
        leaving (refused changed),
      )

-- When a release, a close, a standby or a granted claim comes between the begin of a Snapshot
-- call and its return from the reads or from the start of a session, the call returns ErrChanged
-- and leaves the receiver without a plan; the session it has started is stopped.
pub interrupt-Fenced :
    (digest : Source → String) (now : ℕ) (i : Interrupt) (c : Poll) (s : Inbox)
    → is_current c s ≡ true
    → interrupts i s ≡ true
    → Fenced digest now c (interrupt i s)
unfolding decide commit fail
interrupt-Fenced digest now i c s h k =
    let u = interrupt i s in
    let same = same_generation c s h in
    let (moved, gone) = Ended-expire s.generation now u (interrupt-Ended i s k) in
    let old = stale c (expire now u) (λ e. moved (e ∙ sym same)) in
    record {
      empty = gone;
      decides = λ late values. rw old refl;
      fails = λ e. rw old refl;
      commits = λ x plan. rw old refl;
    }
  where
    same_generation : (c : Poll) (s : Inbox) → is_current c s ≡ true → s.generation ≡ c.generation
    same_generation c s h = (==_iff s.generation c.generation).0 (is_current-generation c s h)
