-- ===== src/Inbox/Lease.antt =====
-- service.go: how long a poll keeps the receiver for its owner.
use zombiebox_gateway_core.Base.{
  ℕ, ◌+◌, ◌<◌, ◌≤◌, ◌≡◌, ◌≢◌, refl, sym, ap, ◌∙◌, subst, inl, inr, String, Bool, true, false, not,
  ◌&&◌, Option, none, some, arith, if◌then◌else◌, Bool-cases, str_eq, eq_iff, leb,
}
use zombiebox_gateway_core.Inbox.Service.{Inbox, busy, lease, granted, clear, expire, claim, owns}
use zombiebox_gateway_core.Inbox.Snapshot.{Poll, begin}

-- A claim of another phone: refused before the lease ends, with nothing changed, and granted from
-- then on.
pub record Held (at : ℕ) (other provider : String) (s : Inbox) : Type 0 where
  pub kept : (now later : ℕ) → now < at + lease → claim now later other provider s ≡ (s, some busy)
  pub freed :
      (now later : ℕ)
      → at + lease ≤ now
      → claim now later other provider s ≡ (granted later other provider (clear (clear s)), none)

leb-false : (a b : ℕ) → b < a → leb a b ≡ false
leb-false a b h = ground (arith, h)

leb-true : (a b : ℕ) → a ≤ b → leb a b ≡ true
leb-true a b h = ground (arith, h)

pub expire-before : (now : ℕ) (s : Inbox) → now < s.expires → expire now s ≡ s
unfolding expire
expire-before now s h = rw (leb-false s.expires now h) (ground arith)

expire-after :
    (now : ℕ) (s : Inbox) → s.expires ≤ now → str_eq s.owner "" ≡ false → expire now s ≡ clear s
unfolding expire
expire-after now s h e = rw e (rw (leb-true s.expires now h) refl)

-- A claim by the state after the expiry.
claim-expired :
    (now later : ℕ) (other provider : String) (s t : Inbox)
    → expire now s ≡ t
    → claim now later other provider s ≡ (
        if not (str_eq t.owner "") && not (str_eq t.owner other)
        then (t, some busy)
        else (granted later other provider (clear t), none))
unfolding claim
claim-expired now later other provider s t e =
    ap
      (λ (u : Inbox).
        if not (str_eq u.owner "") && not (str_eq u.owner other)
        then (u, some busy)
        else (granted later other provider (clear u), none))
      e

differs : (x y : String) → x ≢ y → str_eq x y ≡ false
differs x y ne = elim (Bool-cases (str_eq x y)) [
  | inl e ↦ absurd (ne ((eq_iff x y).0 e))
  | inr e ↦ e
]

clear-owner : (s : Inbox) → (clear s).owner ≡ ""
unfolding clear
clear-owner s = refl

clear-test :
    (s : Inbox) (other : String)
    → (not (str_eq (clear s).owner "") && not (str_eq (clear s).owner other)) ≡ false
clear-test s other = rw (clear-owner s) refl

held :
    (at : ℕ) (other provider : String) (s : Inbox)
    → s.expires ≡ at + lease
    → str_eq s.owner "" ≡ false
    → str_eq s.owner other ≡ false
    → Held at other provider s
held at other provider s e some_owner another = record {
  kept = λ now later lt.
      claim-expired now later other provider s s (expire-before now s (omega (arith, e, lt)))
      ∙ rw some_owner (rw another refl);
  freed = λ now later le.
      claim-expired now later other provider s (clear s)
        (expire-after now s (omega (arith, e, le)) some_owner)
      ∙ rw (clear-test s other) refl;
}

begun_inbox :
    (now later : ℕ) (owner : String) (s : Inbox)
    → expire now s ≡ s
    → s.owner ≡ owner
    → (begin now later owner s).0 ≡ record s { expires = later + lease }
unfolding begin
begun_inbox now later owner s same o =
    pair_if (not (owns owner (expire now s))) _ _
    ∙ ap (λ (u : Inbox). (if not (owns owner u) then u else record u { expires = later + lease }))
        same
    ∙ rw ((eq_iff s.owner owner).1 o) refl
  where
    pair_if :
        (b : Bool) (x y : Inbox × Option Poll) → (if b then x else y).0 ≡ (if b then x.0 else y.0)
    pair_if true x y = refl
    pair_if false x y = refl

-- From the begin of a Snapshot call by the owner (here on a receiver whose lease has not ended),
-- a claim of any other phone is refused for 45 seconds and changes nothing, and from then on it is
-- granted, whatever plan was played.
pub begin-Held :
    (now later : ℕ) (owner other provider : String) (s : Inbox)
    → now < s.expires
    → s.owner ≡ owner
    → owner ≢ ""
    → owner ≢ other
    → Held later other provider (begin now later owner s).0
begin-Held now later owner other provider s lt o named another =
    let u : Inbox = record s { expires = later + lease } in
    let some_owner = ap (λ x. str_eq x "") o ∙ differs owner "" named in
    let not_other = ap (λ x. str_eq x other) o ∙ differs owner other another in
    subst (Held later other provider)
      (sym (begun_inbox now later owner s (expire-before now s lt) o))
      (held later other provider u refl some_owner not_other)
