-- ===== src/Airplay/Fence.antt =====
-- airplay_progress.go: a line that was open when the track changed.
use zombiebox_gateway_core.Base.{
  ℕ, String, ◌≡◌, refl, sym, ap, ◌∙◌, true, false, List, [], ◌∷◌, ◌++◌, All, Bool-cases, str_eq,
  eq_iff, inl, inr,
}
use zombiebox_gateway_core.Airplay.{
  Progress, new, finish_line, is_line_end, write_byte, write, has_partial_line, fresh,
  usable_revision, observe_track,
}

-- What is written is the same in whatever pieces it comes.
pub write-append :
    (now : ℕ) (xs ys : List ℕ) (p : Progress)
    → write now (xs ++ ys) p ≡ write now ys (write now xs p)
unfolding write
write-append now [] ys p = refl
write-append now (x ∷ xs) ys p = write-append now xs ys (write_byte now x p)

write-swallowed :
    (now : ℕ) (revision : String) (rest : List ℕ)
    → All (λ c. is_line_end c ≡ false) rest
    → write now rest (fresh true revision) ≡ fresh true revision
unfolding write write_byte
write-swallowed now revision [] a = refl
write-swallowed now revision (c ∷ rest) a = rw a.0 (write-swallowed now revision rest a.1)

write_byte-end :
    (now e : ℕ) (revision : String)
    → is_line_end e ≡ true
    → write_byte now e (fresh true revision) ≡ fresh false revision
unfolding write_byte finish_line
write_byte-end now e revision h = rw h refl

observe_track-fresh :
    (p : Progress) (revision : String)
    → str_eq (usable_revision revision) p.track_revision ≡ false
    → observe_track revision p ≡ fresh (has_partial_line p) (usable_revision revision)
unfolding observe_track
observe_track-fresh p revision h = rw h refl

observe_track-new :
    (revision : String) → observe_track revision new ≡ fresh false (usable_revision revision)
unfolding observe_track
observe_track-new revision = elim (Bool-cases (str_eq (usable_revision revision) "")) [
  | inl e ↦ rw e (ap (fresh false) (sym ((eq_iff (usable_revision revision) "").0 e)))
  | inr e ↦ rw e refl
]

-- Where a line is open when the track changes, all of it up to its end is ignored: what follows is
-- read as by a new progress of that track, and of the track before nothing remains.
pub observe_track-Fence :
    (p : Progress) (revision : String) (now e : ℕ) (rest more : List ℕ)
    → has_partial_line p ≡ true
    → str_eq (usable_revision revision) p.track_revision ≡ false
    → All (λ c. is_line_end c ≡ false) rest
    → is_line_end e ≡ true
    → write now (rest ++ e ∷ more) (observe_track revision p)
      ≡ write now more (observe_track revision new)
unfolding write
observe_track-Fence p revision now e rest more started changed inside end =
    let r = usable_revision revision in
    ap (write now (rest ++ e ∷ more)) (observe_track-fresh p revision changed)
    ∙ ap (λ b. write now (rest ++ e ∷ more) (fresh b r)) started
    ∙ write-append now rest (e ∷ more) (fresh true r)
    ∙ ap (write now (e ∷ more)) (write-swallowed now r rest inside)
    ∙ ap (write now more) (write_byte-end now e r end ∙ sym (observe_track-new revision))
