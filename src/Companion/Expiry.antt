-- ===== src/Companion/Expiry.antt =====
-- remote.go: expire, and the last result of each grant.
use zombiebox_gateway_core.Base.{
  ℕ, String, Bool, List, [], ◌∷◌, length, keep, if◌then◌else◌, ltb, str_eq, ◌==◌,
}
use zombiebox_gateway_core.Base.Assoc.{Assoc, find_or, insert}
use zombiebox_gateway_core.Companion.Model.{Command, Result, Receipt, Service}

-- What a missing result reads as.
abbrev pub no_result : Result
no_result = record { id = ""; status = "" }

abbrev pub result_id : String → Assoc Result → String
result_id grant results = (find_or no_result grant results).id

-- A result changes only while it is about that command.
unfoldable pub note : String → String → String → Assoc Result → Assoc Result
note grant id status results =
    if str_eq (result_id grant results) id
    then insert grant (record { id = id; status = status }) results
    else results

abbrev pub is_fresh : ℕ → Command → Bool
is_fresh now c = ltb now c.expires

pub note_expired : ℕ → List Command → Assoc Result → Assoc Result
unfolding note
note_expired now [] results = results
note_expired now (c ∷ cs) results =
    note_expired now cs (if is_fresh now c then results else note c.grant_id c.id "EXPIRED" results)

-- The queues without what has expired, and without the queues that this empties.
unfoldable pub fresh_queues : ℕ → Assoc (List Command) → Assoc (List Command)
fresh_queues now [] = []
fresh_queues now ((target, cs) ∷ l) =
    let pending = keep (is_fresh now) cs in
    let rest = fresh_queues now l in if length pending == 0 then rest else (target, pending) ∷ rest

pub note_queues : ℕ → Assoc (List Command) → Assoc Result → Assoc Result
unfolding note_expired
note_queues now [] results = results
note_queues now ((target, cs) ∷ l) results = note_queues now l (note_expired now cs results)

unfoldable pub fresh_delivered : ℕ → Assoc Receipt → Assoc Receipt
fresh_delivered now [] = []
fresh_delivered now ((id, v) ∷ l) =
    let rest = fresh_delivered now l in if ltb now v.expires then (id, v) ∷ rest else rest

pub note_delivered : ℕ → Assoc Receipt → Assoc Result → Assoc Result
unfolding note
note_delivered now [] results = results
note_delivered now ((id, v) ∷ l) results =
    note_delivered now l (if ltb now v.expires then results else note v.grant id "EXPIRED" results)

unfoldable pub expire : ℕ → Service → Service
unfolding fresh_queues note_queues fresh_delivered note_delivered
expire now s = record s {
  queues = fresh_queues now s.queues;
  results = note_delivered now s.delivered (note_queues now s.queues s.results);
  delivered = fresh_delivered now s.delivered;
}
