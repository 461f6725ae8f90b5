-- ===== src/Companion/Consent/Target.antt =====
-- onboarding.go: joinTarget, the television that a phone names.
use zombiebox_gateway_core.Base.{
  ℕ, ◌<◌, ◌≡◌, refl, ◌⊎◌, inl, inr, String, Bool, true, false, not, ◌||◌, Option, none, some, arith,
  if◌then◌else◌, if-split, Bool-cases, leb, str_eq, eq_iff,
}
use zombiebox_gateway_core.Base.Assoc.{Assoc, find}
use zombiebox_gateway_core.Companion.Model.{
  Text, Invitation, Service, denied, expired, busy, invalid, storage, Io, within_of, Reply, ok,
  refuse,
}
use zombiebox_gateway_core.Companion.Onboarding.{
  Join, direct_at, usable, by_secret, with_code, by_code, join_direct, join_secret, join_code,
  join_target,
}

-- The phone shows the secret of an invitation that is unused, has not expired and approves by it.
pub record Consent (now : ℕ) (j : Join) (l : Assoc Invitation) (v : Invitation) : Type 0 where
  pub found : find j.invitation_id l ≡ some v
  pub secret : v.secret ≡ j.secret
  pub unused : v.used ≡ false
  pub in_time : now < v.expires
  pub approves : v.auto_approve ≡ true

-- What a resolved target is worth.
unfoldable pub TargetSound : ℕ → Join → Assoc Invitation → Reply (Invitation × Bool) → Type 0
TargetSound now j l (refuse e) = Unit
TargetSound now j l (ok (v, consent)) =
    (consent ≡ false) ⊎ (Consent now j l v × (str_eq v.id "" ≡ false))

module _ (io : Io) (now : ℕ) (j : Join) (s : Service) where
  abbrev pub Sound : Reply (Invitation × Bool) → Type 0
  Sound = TargetSound now j s.store.invitations

  direct_at-Sound : (target : String) (d : Option (Text × Text)) → Sound (direct_at target d)
  unfolding TargetSound direct_at
  direct_at-Sound target none = tt
  direct_at-Sound target (some d) = inl refl

  by_code-Sound : (v : Option Invitation) → Sound (by_code now v)
  unfolding TargetSound by_code usable
  by_code-Sound none = tt
  by_code-Sound (some v) =
      if-split Sound (str_eq v.id "" || v.used || leb v.expires now) (refuse expired)
        (ok (v, false)) (λ e. tt) (λ e. inl refl)

  by_secret-Sound :
      (o : Option Invitation)
      → find j.invitation_id s.store.invitations ≡ o
      → Sound (by_secret now j.secret o)
  unfolding TargetSound by_secret usable
  by_secret-Sound none h = tt
  by_secret-Sound (some v) h =
      let fine : Reply (Invitation × Bool) =
        if str_eq v.id "" || v.used || leb v.expires now
        then refuse expired
        else ok (v, v.auto_approve) in
      if-split Sound (not (str_eq v.secret j.secret)) (refuse denied) fine (λ e. tt)
        λ e.
          if-split Sound (str_eq v.id "" || v.used || leb v.expires now) (refuse expired)
            (ok (v, v.auto_approve)) (λ d. tt)
            λ d. elim (Bool-cases v.auto_approve) [
              | inr off ↦ inl off
              | inl on ↦ inr (
                record {
                  found = h;
                  secret = (eq_iff v.secret j.secret).0 (ground (arith, e));
                  unused = ground (arith, d);
                  in_time = ground (arith, d);
                  approves = on;
                },
                ground (arith, d),
              )
            ]

  join_direct-Sound : Sound (join_direct io now j s)
  unfolding join_direct TargetSound
  join_direct-Sound =
      let rest = direct_at j.target_id (find j.target_id s.store.devices) in
      if-split Sound _ (refuse invalid)
        (if not (within_of 15000 now (find j.target_id s.present))
            || not (io.gets "devices" j.target_id)
          then refuse busy
          else rest)
        (λ e. tt)
        λ e.
          if-split Sound _ (refuse busy) rest (λ d. tt)
            (λ d. direct_at-Sound j.target_id (find j.target_id s.store.devices))

  join_secret-Sound : Sound (join_secret io now j s)
  unfolding join_secret TargetSound
  join_secret-Sound =
      if-split Sound _ (refuse denied)
        (by_secret now j.secret (find j.invitation_id s.store.invitations)) (λ e. tt)
        (λ e. by_secret-Sound (find j.invitation_id s.store.invitations) refl)

  join_code-Sound : Sound (join_code io now j s)
  unfolding join_code TargetSound
  join_code-Sound =
      let rest = by_code now (with_code now j.code s.store.invitations) in
      if-split Sound _ (refuse denied)
        (if not (io.lists "companion-invitations") then refuse storage else rest) (λ e. tt)
        λ e.
          if-split Sound _ (refuse storage) rest (λ d. tt)
            (λ d. by_code-Sound (with_code now j.code s.store.invitations))

  pub join_target-Sound : Sound (join_target io now j s)
  unfolding join_target
  join_target-Sound =
      if-split Sound (not (str_eq j.target_id "")) (join_direct io now j s)
        (if not (str_eq j.invitation_id "") then join_secret io now j s else join_code io now j s)
        (λ e. join_direct-Sound)
        λ e.
          if-split Sound (not (str_eq j.invitation_id "")) (join_secret io now j s)
            (join_code io now j s) (λ d. join_secret-Sound) (λ d. join_code-Sound)
