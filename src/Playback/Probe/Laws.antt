-- ===== src/Playback/Probe/Laws.antt =====
-- probe.go: the chosen probe, and the evidence behind each verdict.
use zombiebox_gateway_core.Base.{
  ℕ, ◌+◌, ◌≤◌, ◌<◌, ◌≡◌, refl, sym, ◌⊎◌, inl, inr, String, true, false, Option, none, some, List,
  [], ◌∷◌, Memᴰ, arith, All, str_eq,
}
use zombiebox_gateway_core.Domain.{Probe, Capabilities}
use zombiebox_gateway_core.Playback.Probe.{
  week, pick_probe, select_from, select_latest_probe, Verdict, pass, fail, unknown, verdict_of,
  probe_status,
}

-- A credible result for the probe: of its id, and not more than 300 s ahead.
abbrev pub Credible : String → ℕ → Probe → Type 0
Credible id now p = (str_eq p.id id ≡ true) × (p.tested_at ≤ now + 300)

-- No credible result among these is later than the chosen one, and if there is one, the chosen
-- one is credible.
abbrev pub Beaten : String → ℕ → Option Probe → Probe → Type 0
Beaten id now none q = str_eq q.id id ≡ false
Beaten id now (some p) q = Credible id now q → Credible id now p × (q.tested_at ≤ p.tested_at)

abbrev HasId : String → Option Probe → Type 0
HasId id none = Unit {0}
HasId id (some p) = str_eq p.id id ≡ true

pick-Beaten :
    (id : String) (now : ℕ) (latest : Option Probe) (p q : Probe)
    → Beaten id now latest q
    → Beaten id now (pick_probe id now latest p) q
unfolding pick_probe
pick-Beaten id now none p q b = ground arith
pick-Beaten id now (some l) p q b = ground arith

pick-Beaten_self :
    (id : String) (now : ℕ) (latest : Option Probe) (p : Probe)
    → HasId id latest
    → Beaten id now (pick_probe id now latest p) p
unfolding pick_probe
pick-Beaten_self id now none p h = ground arith
pick-Beaten_self id now (some l) p h = ground arith

pick-HasId :
    (id : String) (now : ℕ) (latest : Option Probe) (p : Probe)
    → HasId id latest
    → HasId id (pick_probe id now latest p)
unfolding pick_probe
pick-HasId id now none p h = ground arith
pick-HasId id now (some l) p h = ground arith

module _ (id : String) (now : ℕ) where
  select_from-Beaten :
      (latest : Option Probe) (ps : List Probe) (q : Probe)
      → Beaten id now latest q
      → Beaten id now (select_from id now latest ps) q
  unfolding select_from
  select_from-Beaten latest [] q b = b
  select_from-Beaten latest (p ∷ ps) q b =
      select_from-Beaten (pick_probe id now latest p) ps q (pick-Beaten id now latest p q b)

  select_from-All :
      (latest : Option Probe) (ps : List Probe)
      → HasId id latest
      → All (Beaten id now (select_from id now latest ps)) ps
        × HasId id (select_from id now latest ps)
  unfolding select_from
  select_from-All latest [] h = (tt, h)
  select_from-All latest (p ∷ ps) h =
      let next = pick_probe id now latest p in
      let rest = select_from-All next ps (pick-HasId id now latest p h) in
      ((select_from-Beaten next ps p (pick-Beaten_self id now latest p h), rest.0), rest.1)

  pick-from :
      (latest : Option Probe) (p : Probe) (r : Probe)
      → pick_probe id now latest p ≡ some r
      → (latest ≡ some r) ⊎ (p ≡ r)
  unfolding pick_probe
  pick-from none p r h = ground arith
  pick-from (some l) p r h = ground arith

  select_from-Mem :
      (latest : Option Probe) (ps : List Probe) (r : Probe)
      → select_from id now latest ps ≡ some r
      → (latest ≡ some r) ⊎ Memᴰ r ps
  unfolding select_from
  select_from-Mem latest [] r h = inl h
  select_from-Mem latest (p ∷ ps) r h = elim (select_from-Mem (pick_probe id now latest p) ps r h) [
    | inr m ↦ inr (Memᴰ.tail m)
    | inl e ↦ elim (pick-from latest p r e) [ inl f ↦ inl f | inr f ↦ inr (Memᴰ.head (sym f)) ]
  ]

-- What `selectLatestProbe` promises of its result: no result means no probe of the id, and a
-- result is one of the probes, has the id, and is credible and latest if any probe is credible.
abbrev pub Chosen : List Probe → String → ℕ → Option Probe → Type 0
Chosen probes id now none = All (λ q. str_eq q.id id ≡ false) probes
Chosen probes id now (some p) =
    Memᴰ p probes
    × (str_eq p.id id ≡ true)
    × All (λ q. Credible id now q → Credible id now p × (q.tested_at ≤ p.tested_at)) probes

Chosen-of :
    (probes : List Probe) (id : String) (now : ℕ) (r : Option Probe)
    → ((p : Probe) → r ≡ some p → Memᴰ p probes)
    → HasId id r
    → All (Beaten id now r) probes
    → Chosen probes id now r
Chosen-of probes id now none mem h all = all
Chosen-of probes id now (some p) mem h all = (mem p refl, h, all)

-- For all probes, ids and times, the selected probe is as `Chosen` says: nothing is selected
-- exactly when no probe has the id; a selected probe is one of the list with that id; and if any
-- probe of the id is not more than 300 s in the future, the selected one is not either, and no
-- such probe was tested later.
pub select_latest_probe-Chosen :
    (probes : List Probe) (id : String) (now : ℕ)
    → Chosen probes id now (select_latest_probe probes id now)
unfolding select_latest_probe
select_latest_probe-Chosen probes id now =
    let (all, h) = select_from-All id now none probes tt in
    Chosen-of probes id now (select_from id now none probes)
      (λ p e. elim (select_from-Mem id now none probes p e) [ inl f ↦ absurd (cc) | inr m ↦ m ]) h
      all

-- Fresh evidence that the device played the probe: a PASS within the last week and at most 300 s
-- ahead, with no stall, that reached 500 ms or the end.
pub record FreshPass (now : ℕ) (p : Probe) : Type 0 where
  pub tested : 0 < p.tested_at
  pub is_pass : str_eq p.status "PASS" ≡ true
  pub no_stall : p.stalled ≡ false
  pub recent : now < p.tested_at + week
  pub not_future : p.tested_at ≤ now + 300
  pub progress : (500 ≤ p.position_ms) ⊎ (p.completed ≡ true)

-- Fresh evidence that the probe failed or stalled.
pub record FreshFail (now : ℕ) (p : Probe) : Type 0 where
  pub tested : 0 < p.tested_at
  pub is_fail : (str_eq p.status "FAIL" ≡ true) ⊎ (p.stalled ≡ true)
  pub recent : now < p.tested_at + week
  pub not_future : p.tested_at ≤ now + 300

pub pass-FreshPass : (now : ℕ) (p : Probe) → verdict_of now (some p) ≡ pass → FreshPass now p
unfolding verdict_of
pass-FreshPass now p h = ground arith

fail-FreshFail :
    (now : ℕ) (p : Probe) → verdict_of now (some p) ≡ fail → FreshFail now p × (FreshPass now p → ⊥)
unfolding verdict_of
fail-FreshFail now p h = (ground arith, λ f. ground arith)

unknown-not-fresh :
    (now : ℕ) (p : Probe)
    → verdict_of now (some p) ≡ unknown
    → (FreshPass now p → ⊥) × (FreshFail now p → ⊥)
unfolding verdict_of
unknown-not-fresh now p h = (λ f. ground arith, λ f. ground arith)

-- The probe that decides: of the list, of the id, and tested no earlier than any other credible
-- one of the id.
abbrev pub Decides : List Probe → String → ℕ → Probe → Type 0
Decides probes id now p =
    Memᴰ p probes
    × (str_eq p.id id ≡ true)
    × All (λ q. Credible id now q → q.tested_at ≤ p.tested_at) probes

-- What each verdict says of the probes.
abbrev pub Explains : List Probe → String → ℕ → Verdict → Type 0
Explains probes id now pass = (p : Probe) × Decides probes id now p × FreshPass now p
Explains probes id now fail =
    (p : Probe) × Decides probes id now p × FreshFail now p × (FreshPass now p → ⊥)
Explains probes id now unknown =
    All (λ q. str_eq q.id id ≡ false) probes
    ⊎ ((p : Probe) × Memᴰ p probes
        × (str_eq p.id id ≡ true)
        × (FreshPass now p → ⊥)
        × (FreshFail now p → ⊥))

Latest-weaken :
    (id : String) (now : ℕ) (p : Probe) (qs : List Probe)
    → All (λ q. Credible id now q → Credible id now p × (q.tested_at ≤ p.tested_at)) qs
    → All (λ q. Credible id now q → q.tested_at ≤ p.tested_at) qs
Latest-weaken id now p [] a = tt
Latest-weaken id now p (q ∷ qs) a = (λ c. (a.0 c).1, Latest-weaken id now p qs a.1)

Explains-of :
    (probes : List Probe) (id : String) (now : ℕ) (r : Option Probe) (v : Verdict)
    → Chosen probes id now r
    → verdict_of now r ≡ v
    → Explains probes id now v
unfolding verdict_of
Explains-of probes id now none pass c e = absurd (cc)
Explains-of probes id now none fail c e = absurd (cc)
Explains-of probes id now none unknown c e = inl c
Explains-of probes id now (some p) pass (m, h, a) e =
    (p, (m, h, Latest-weaken id now p probes a), pass-FreshPass now p e)
Explains-of probes id now (some p) fail (m, h, a) e =
    let (f, g) = fail-FreshFail now p e in (p, (m, h, Latest-weaken id now p probes a), f, g)
Explains-of probes id now (some p) unknown (m, h, a) e =
    let (f, g) = unknown-not-fresh now p e in inr (p, m, h, f, g)

-- For all capabilities, ids and times, the verdict of a probe rests on one probe of the list.
-- PASS: a probe of the id, tested no earlier than any credible one of the id, is a fresh pass: it
-- was tested within the last week and at most 300 s ahead, has status PASS and no stall, and
-- reached 500 ms or completed. FAIL: such a latest probe is fresh, has status FAIL or stalled, and
-- is no fresh pass. UNKNOWN: no probe has the id, or a probe of it is neither.
pub probe_status-Explains :
    (caps : Capabilities) (id : String) (now : ℕ)
    → Explains caps.probes id now (probe_status caps id now)
unfolding probe_status
probe_status-Explains caps id now =
    Explains-of caps.probes id now (select_latest_probe caps.probes id now) _
      (select_latest_probe-Chosen caps.probes id now) refl
