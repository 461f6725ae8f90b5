-- ===== src/Companion/Verdict.antt =====
-- pairing.go: what a decision does, and what a second one finds.
use zombiebox_gateway_core.Base.{
  ℕ, ◌<◌, ◌≡◌, refl, sym, subst, ◌∙◌, ◌⊎◌, inl, inr, String, Bool, true, false, not, ◌||◌, Option,
  none, some, List, [], arith, length, if◌then◌else◌, if-split, leb, ltb, str_eq, eq_iff,
}
use zombiebox_gateway_core.Base.Assoc.{find, find-insert}
use zombiebox_gateway_core.Companion.Model.{
  Text, Request, Grant, Block, Service, Error, denied, expired, busy, storage, Io, valid_hex,
}
use zombiebox_gateway_core.Companion.Pairing.{cleanup, blocks_of}
use zombiebox_gateway_core.Companion.Decide.{
  set_blocks, grant_of, put_decided, accept_request, deny_request, decide_at, decide,
}

-- The request was pending for this television, in time, and accepted, below 128 grants.
pub record Accepted (now : ℕ) (target id : String) (accept : Bool) (s : Service) : Type 0 where
  pub request : Request
  pub found : find id s.store.requests ≡ some request
  pub for_target : request.target_id ≡ target
  pub was_pending : request.state ≡ "PENDING"
  pub in_time : now < request.expires
  pub asked : accept ≡ true
  pub few : length s.store.grants < 128

abbrev pub VerdictSound : ℕ → String → String → Bool → Service → Service → Type 0
VerdictSound now target id accept s t =
    (t.store.grants ≡ s.store.grants) ⊎ Accepted now target id accept s

-- A result that changes no grant.
record Ungranted (s : Service) (r : Service × Option Error) : Type 0 where
  same : r.0.store.grants ≡ s.store.grants

-- A result that is an error, or leaves the request decided.
record Settled (id : String) (r : Service × Option Error) : Type 0 where
  held :
      ((e : Error) × (r.1 ≡ some e))
      ⊎ ((q : Request) × (find id r.0.store.requests ≡ some q) × (str_eq q.state "PENDING" ≡ false))

put_decided-found :
    (r : Request) (grant : Option Grant) (bs : List Block) (s : Service)
    → find r.id (put_decided r grant bs s).store.requests ≡ some r
unfolding put_decided
put_decided-found r grant bs s =
    find-insert r.id r.id r s.store.requests ∙ rw ((eq_iff r.id r.id).1 refl) refl

module _ (io : Io) (now : ℕ) (target : String) (name : Text) (r : Request) (s : Service) where
  record AcceptSound (t : Service × Option Error) : Type 0 where
    grants : (t.0.store.grants ≡ s.store.grants) ⊎ (length s.store.grants < 128)
    settled : Settled r.id t

  accept-Sound : AcceptSound (accept_request io now target name r s)
  unfolding accept_request
  accept-Sound =
      let approved = record r { state = "APPROVED" } in
      let grant = some (grant_of now target name r) in
      let full : Service × Option Error = (put_decided approved grant [] s, none) in
      let stored : Service × Option Error = if not io.puts then (s, some storage) else full in
      let error : (e : Error) → AcceptSound (s, some e) =
        λ e. record { grants = inl refl; settled = record { held = inl (e, refl) } } in
      if-split AcceptSound (not (io.lists "companion-grants")) (s, some storage)
        (if leb 128 (length s.store.grants) then (s, some busy) else stored) (λ e. error storage)
        λ e.
          if-split AcceptSound (leb 128 (length s.store.grants)) (s, some busy) stored
            (λ e. error busy)
            λ few.
              if-split AcceptSound (not io.puts) (s, some storage) full (λ e. error storage)
                λ e. record {
                  grants = inr (ground (arith, few));
                  settled = record {
                    held = inr (approved, put_decided-found approved grant [] s, refl);
                  };
                }

  record DenySound (t : Service × Option Error) : Type 0 where
    grants : t.0.store.grants ≡ s.store.grants
    settled : Settled r.id t

  deny-Sound :
      (digest : String → String) (ignore : Bool) → DenySound (deny_request digest io now ignore r s)
  unfolding deny_request put_decided
  deny-Sound digest ignore =
      let (l, fine) = cleanup (λ (b : Block). b.expires) io.deletes now s.store.blocks in
      let t = set_blocks l s in
      let denial = record r { state = "DENIED" } in
      let bs = blocks_of digest now r in
      let plain : Service × Option Error = (put_decided denial none [] s, none) in
      let ignored : Service × Option Error = (put_decided denial none bs t, none) in
      let stored : Service × Option Error = if not io.puts then (t, some storage) else ignored in
      let roomy : Service × Option Error = if ltb 254 (length l) then (t, some busy) else stored in
      let cleaned : Service × Option Error = if not fine then (t, some storage) else roomy in
      let error : (u : Service) (e : Error)
          → u.store.grants ≡ s.store.grants
          → DenySound (u, some e) =
        λ u e g. record { grants = g; settled = record { held = inl (e, refl) } } in
      if-split DenySound (not ignore) (if not io.puts then (s, some storage) else plain)
        (if not (io.lists "companion-blocks") then (s, some storage) else cleaned)
        (λ e.
          if-split DenySound (not io.puts) (s, some storage) plain (λ e. error s storage refl)
            λ e. record {
              grants = refl;
              settled = record { held = inr (denial, put_decided-found denial none [] s, refl) };
            })
        λ e.
          if-split DenySound (not (io.lists "companion-blocks")) (s, some storage) cleaned
            (λ e. error s storage refl)
            λ e.
              if-split DenySound (not fine) (t, some storage) roomy (λ e. error t storage refl)
                λ e.
                  if-split DenySound (ltb 254 (length l)) (t, some busy) stored
                    (λ e. error t busy refl)
                    λ e.
                      if-split DenySound (not io.puts) (t, some storage) ignored
                        (λ e. error t storage refl)
                        λ e. record {
                          grants = refl;
                          settled = record {
                            held = inr (denial, put_decided-found denial none bs t, refl);
                          };
                        }

module _ (digest : String → String) where
  record DecideSound (now : ℕ) (target id : String) (accept : Bool) (s : Service)
      (t : Service × Option Error) : Type 0 where
    verdict : VerdictSound now target id accept s t.0
    settled : Settled id t

  decide_at-Sound :
      (io : Io) (now : ℕ) (target : String) (name : Text) (id : String) (r : Request)
      (accept ignore : Bool) (s : Service)
      → find id s.store.requests ≡ some r
      → r.id ≡ id
      → DecideSound now target id accept s
          (decide_at digest io now target name (some r) accept ignore s)
  unfolding decide_at
  decide_at-Sound io now target name id r accept ignore s f keyed =
      let Sound : Service × Option Error → Type 0 = DecideSound now target id accept s in
      let yes_ = accept_request io now target name r s in
      let no_ = deny_request digest io now ignore r s in
      let either_ : Service × Option Error = if accept then yes_ else no_ in
      let granted = accept-Sound io now target name r s in
      let refused = deny-Sound io now target name r s digest ignore in
      let at_id : (t : Service × Option Error) → Settled r.id t → Settled id t =
        λ t v. subst (λ k. Settled k t) keyed v in
      if-split Sound (not (str_eq r.target_id target)) (s, some denied)
        (if not (str_eq r.state "PENDING") || leb r.expires now then (s, some expired) else either_)
        (λ e. record { verdict = inl refl; settled = record { held = inl (denied, refl) } })
        λ mine.
          if-split Sound (not (str_eq r.state "PENDING") || leb r.expires now) (s, some expired)
            either_
            (λ e. record { verdict = inl refl; settled = record { held = inl (expired, refl) } })
            λ open_.
              if-split Sound accept yes_ no_
                (λ asked. record {
                  verdict = elim granted.grants [
                    | inl same ↦ inl same
                    | inr few ↦ inr (record {
                      request = r;
                      found = f;
                      for_target = (eq_iff r.target_id target).0 (ground (arith, mine));
                      was_pending = (eq_iff r.state "PENDING").0 (ground (arith, open_));
                      in_time = ground (arith, open_);
                      asked = asked;
                      few = few;
                    })
                  ];
                  settled = at_id yes_ granted.settled;
                })
                (λ e. record { verdict = inl refused.grants; settled = at_id no_ refused.settled })

  decide-Sound :
      (io : Io) (now : ℕ) (target : String) (name : Text) (id : String) (r : Request)
      (accept ignore : Bool) (s : Service)
      → find id s.store.requests ≡ some r
      → r.id ≡ id
      → DecideSound now target id accept s (decide digest io now target name id accept ignore s)
  unfolding decide
  decide-Sound io now target name id r accept ignore s f keyed =
      let Sound : Service × Option Error → Type 0 = DecideSound now target id accept s in
      if-split Sound (not (valid_hex id 32) || not (io.gets "companion-requests" id))
        (s, some denied)
        (decide_at digest io now target name (find id s.store.requests) accept ignore s)
        (λ e. record { verdict = inl refl; settled = record { held = inl (denied, refl) } })
        λ e.
          subst (λ o. Sound (decide_at digest io now target name o accept ignore s)) (sym f)
            (decide_at-Sound io now target name id r accept ignore s f keyed)

  -- On a request that is kept under its own id, a decision changes no grant, unless the television
  -- that it was made to accepts it while it is pending and in time, below 128 grants.
  pub decide-Accepted :
      (io : Io) (now : ℕ) (target : String) (name : Text) (id : String) (r : Request)
      (accept ignore : Bool) (s : Service)
      → find id s.store.requests ≡ some r
      → r.id ≡ id
      → VerdictSound now target id accept s (decide digest io now target name id accept ignore s).0
  decide-Accepted io now target name id r accept ignore s f keyed =
      (decide-Sound io now target name id r accept ignore s f keyed).verdict

  -- What a decided request answers.
  pub record Closed (s : Service) (t : Service × Option Error) : Type 0 where
    pub unchanged : t.0 ≡ s
    pub refused : (t.1 ≡ some denied) ⊎ (t.1 ≡ some expired)

  decide-Closed :
      (io : Io) (now : ℕ) (target : String) (name : Text) (id : String) (q : Request)
      (accept ignore : Bool) (s : Service)
      → find id s.store.requests ≡ some q
      → str_eq q.state "PENDING" ≡ false
      → Closed s (decide digest io now target name id accept ignore s)
  unfolding decide decide_at
  decide-Closed io now target name id q accept ignore s f decided =
      if-split (Closed s) (not (valid_hex id 32) || not (io.gets "companion-requests" id))
        (s, some denied)
        (decide_at digest io now target name (find id s.store.requests) accept ignore s)
        (λ e. record { unchanged = refl; refused = inl refl })
        λ e.
          subst (λ o. Closed s (decide_at digest io now target name o accept ignore s)) (sym f)
            (if-split (Closed s) (not (str_eq q.target_id target)) (s, some denied) _
              (λ e. record { unchanged = refl; refused = inl refl })
              λ e. rw decided (record { unchanged = refl; refused = inr refl }))

  -- A request that is kept under its own id is decided once: after a decision that succeeds, every
  -- further one on it, by whom and when ever, is refused as denied or expired and changes nothing.
  pub decide-decide :
      (io : Io) (now : ℕ) (target : String) (name : Text) (id : String) (r : Request)
      (accept ignore : Bool) (s : Service)
      → find id s.store.requests ≡ some r
      → r.id ≡ id
      → (decide digest io now target name id accept ignore s).1 ≡ none
      → (io' : Io) (now' : ℕ) (target' : String) (name' : Text) (accept' ignore' : Bool)
      → Closed (decide digest io now target name id accept ignore s).0 (
          decide digest io' now' target' name' id accept' ignore'
            (decide digest io now target name id accept ignore s).0)
  decide-decide io now target name id r accept ignore s f keyed fine io' now' target' name' accept'
        ignore' =
      let t = decide digest io now target name id accept ignore s in
      elim (decide-Sound io now target name id r accept ignore s f keyed).settled.held [
        | inl (e, failed) ↦ absurd (none-some e (sym fine ∙ failed))
        | inr (q, found, decided) ↦
            decide-Closed io' now' target' name' id q accept' ignore' t.0 found decided
      ]
    where
      none-some : (e : Error) → ◌≡◌ {A = Option Error} none (some e) → ⊥
      none-some e h = cc
