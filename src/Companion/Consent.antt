-- ===== src/Companion/Consent.antt =====
-- pairing.go and onboarding.go: how a phone comes by a grant.
pub mod Target
use zombiebox_gateway_core.Base.{
  ℕ, suc, ◌+◌, ◌≤◌, ◌<◌, ◌≡◌, ◌⊎◌, String, true, some, List, [], ◌∷◌, length, if◌then◌else◌,
  Bool-cases, ltb, str_eq, ◌==◌,
}
use zombiebox_gateway_core.Base.Assoc.{Assoc, find, insert}
use zombiebox_gateway_core.Base.Text.{codes, byte_length}
use zombiebox_gateway_core.Companion.Model.{
  Text, Invitation, Grant, Store, Service, denied, expired, within_of,
}
use zombiebox_gateway_core.Companion.Onboarding.{
  Join, is_target_id, direct_at, direct, usable, by_secret, with_code, by_code, join_direct,
  join_secret, join_code, blocked,
}
use zombiebox_gateway_core.Companion.Joining.{JoinDraws}
use zombiebox_gateway_core.Companion.Consent.Target.{Consent}

-- The grant that a join writes: for the television of the invitation, with the name that the phone
-- gave and the digest of the token that it gets.
pub record IsGrant (digest : String → String) (now : ℕ) (d : JoinDraws) (name : Text)
    (v : Invitation) (g : Grant) : Type 0 where
  pub id : g.id ≡ d.id
  pub target : g.target_id ≡ v.target_id
  pub television : g.target_name ≡ v.target_name
  pub named : g.name ≡ name
  pub token : g.token_hash ≡ digest d.token
  pub created : g.created ≡ now

-- On consent the invitation is used, and one grant is written under the fresh id; under every other
-- id the grants are what they were.
pub record Consented (digest : String → String) (now : ℕ) (d : JoinDraws) (name : Text) (j : Join)
    (s t : Service) : Type 0 where
  pub invitation : Invitation
  pub consent : Consent now j s.store.invitations invitation
  pub spent : find invitation.id t.store.invitations ≡ some (record invitation { used = true })
  pub grant : Grant
  pub is_grant : IsGrant digest now d name invitation grant
  pub grants :
      (id : String)
      → find id t.store.grants ≡ (if str_eq d.id id then some grant else find id s.store.grants)
  pub room : length s.store.grants < 128
  pub one_more : length t.store.grants ≤ suc (length s.store.grants)

abbrev pub JoinSound : (String → String) → ℕ → JoinDraws → Text → Join → Service → Service → Type 0
JoinSound digest now d name j s t =
    (t.store.grants ≡ s.store.grants) ⊎ Consented digest now d name j s t

record JoinSoundIn {A : Type 0} (digest : String → String) (now : ℕ) (d : JoinDraws) (name : Text)
    (j : Join) (s : Service) (r : Service × A) : Type 0 where
  result : JoinSound digest now d name j s r.0
