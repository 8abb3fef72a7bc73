-- ===== src/Preflight/Check/Holds.antt =====
-- Where the hold on the candidate stands: the prune brings no file.
use win_validator.Base.{
  ℕ, ◌≡◌, refl, ◌∙◌, subst, inl, inr, Bool, true, false, not, List, [], ◌∷◌, ◌++◌, Option, none,
  some, Text, text_eq_refl, keep, Outcome, ok, raised, arith, Bool-cases, if◌then◌else◌,
}
use win_validator.Chain.{Records}
use win_validator.Prune.{
  File, Setting, path_in, sweep, remove, find_file, prune_backups, held_backups, prune_all,
  without_stale, excess, prune_markers, is_stale_hold, is_hold, prune_candidates,
  is_stale_candidate, is_image, prune_sidecars, is_stale_sidecar, is_sidecar, is_stale_marker,
  is_marker, prune_old, is_kept, sort_files, backups_in, keep_paths, held_in,
}
use win_validator.Prune.Loops.{find_file-drop_name}
use win_validator.Preflight.Host.{Why, Host, Place, beside_image, beside_mirror, State}
use win_validator.Preflight.Check.{
  record_time, pruned, seeded, after_seed, prune_and_seed, after_mark, sweep_stranded_sources,
  is_source, is_stranded, seed_where, mark_in, swept_unless, seed_where, mark_in, swept_unless,
  released,
}

-- A loop brings no file.
pub stays_gone :
    (s : Setting) (dir n : Text) (test : List File → File → Bool) (l now : List File)
    → find_file n now ≡ none
    → find_file n (sweep s dir test l now) ≡ none
stays_gone s dir n test [] now h = h
stays_gone s dir n test (f ∷ l) now h =
    stays_gone s dir n test l (if test now f then remove s dir f.name now else now)
      (elim (Bool-cases (test now f)) [
        | inl asked ↦ rw asked (gone_behind_remove f.name)
        | inr left ↦ rw left h
      ])
  where
    gone_behind_remove : (m : Text) → find_file n (remove s dir m now) ≡ none
    gone_behind_remove m = elim (Bool-cases (s.removes (path_in dir m))) [
      | inl works ↦ rw works (find_file-drop_name n m now ∙ ground (arith, h))
      | inr fails ↦ rw fails h
    ]

-- Where files under a name are missing.
abbrev pub Missing : Text → List File → Type 0
Missing n fs = find_file n fs ≡ none

module _ (s : Setting) (n : Text) (fs : List File) (h : Missing n fs) where
  without_stale-Missing : (dir : Text) → Missing n (without_stale s dir fs)
  without_stale-Missing dir =
      stays_gone s dir n (λ _ f. is_stale_hold s f.name) (keep (λ f. is_hold f.name) fs) fs h

  candidates-Missing : (kept : List Text) → Missing n (prune_candidates s kept fs)
  candidates-Missing kept =
      stays_gone s s.backup_dir n (λ _. is_stale_candidate s kept) (keep (λ f. is_image f.name) fs)
        fs h

  sidecars-Missing : (kept : List Text) → Missing n (prune_sidecars s kept fs)
  sidecars-Missing kept =
      stays_gone s s.backup_dir n (is_stale_sidecar s kept) (keep (λ f. is_sidecar f.name) fs) fs h

  markers-Missing : (rec_t : Option ℕ) → Missing n (prune_markers s rec_t fs)
  markers-Missing none = h
  markers-Missing (some t) =
      stays_gone s s.backup_dir n (λ _. is_stale_marker s t) (keep (λ f. is_marker f.name) fs) fs h

  old-Missing : (kept : List Text) → Missing n (prune_old s kept fs)
  old-Missing kept =
      stays_gone s s.backup_dir n (λ _ f. not (is_kept s kept f.name))
        (excess s.keep_n (sort_files (backups_in fs))) fs h

-- The prune brings no file.
pruned_backups :
    (q : Host) (n : Text) (st : State) → Missing n st.backups → Missing n (pruned q st).backups
unfolding prune_backups held_backups prune_all
pruned_backups q n st h =
    let s = q.setting in
    let kept = keep_paths s q.keep none (held_in s st.backups ++ held_in s st.mirror) in
    let first = without_stale s s.backup_dir st.backups in
    let second = prune_candidates s kept first in
    let third = prune_sidecars s kept second in
    let no_first = without_stale-Missing s n st.backups h s.backup_dir in
    let no_third = sidecars-Missing s n second (candidates-Missing s n first no_first kept) kept in
    old-Missing s n (prune_markers s (record_time q st.records) third)
      (markers-Missing s n third no_third (record_time q st.records)) kept

pruned_mirror :
    (q : Host) (n : Text) (st : State) → Missing n st.mirror → Missing n (pruned q st).mirror
unfolding prune_backups held_backups
pruned_mirror q n st h = without_stale-Missing q.setting n st.mirror h q.setting.mirror_dir

-- A file under the name is missing, except that the hold may stand where it was written.
abbrev pub Only : Text → Option (Place × Text) → State → Type 0
Only n none st = Missing n st.backups × Missing n st.mirror
Only n (some (beside_image, m)) st = (n ≡ m) × Missing n st.mirror
Only n (some (beside_mirror, m)) st = (n ≡ m) × Missing n st.backups

-- A step that brings no file keeps that.
pub Only-step :
    (n : Text) (hold : Option (Place × Text)) (st end : State)
    → (Missing n st.backups → Missing n end.backups)
    → (Missing n st.mirror → Missing n end.mirror)
    → Only n hold st
    → Only n hold end
Only-step n none st end f g (h, k) = (f h, g k)
Only-step n (some (beside_image, m)) st end f g (e, k) = (e, g k)
Only-step n (some (beside_mirror, m)) st end f g (e, h) = (e, f h)

after_seed-Missing :
    (q : Host) (n : Text) (hold : Option (Place × Text)) (r : Outcome Why Records) (st : State)
    → Only n hold st
    → Only n hold (after_seed q r st).1
after_seed-Missing q n hold (ok r) st h = Only-step n hold st _ (λ k. k) (λ k. k) h
after_seed-Missing q n hold (raised e) st h = h

Only-seed_where :
    (q : Host) (n : Text) (hold : Option (Place × Text)) (there : Bool) (st : State)
    → Only n hold st
    → Only n hold (seed_where q there st).1
unfolding seed_where
Only-seed_where q n hold false st h = h
Only-seed_where q n hold true st h = after_seed-Missing q n hold (seeded q st.records) st h

Only-prune_and_seed :
    (q : Host) (n : Text) (hold : Option (Place × Text)) (st : State)
    → Only n hold st
    → Only n hold (prune_and_seed q st).1
unfolding prune_and_seed
Only-prune_and_seed q n hold st h =
    Only-seed_where q n hold q.disk_exists (pruned q st)
      (Only-step n hold st (pruned q st) (pruned_backups q n st) (pruned_mirror q n st) h)

-- The hold that is written, or none.
Only-after_mark :
    (q : Host) (n : Text) (p : Option Place) (st : State)
    → Only n (elim p [ none ↦ none | some place ↦ some (place, n) ]) st
    → let (v, hold, end) = after_mark q n (p, st) in Only n hold end
Only-after_mark q n none st h = h
Only-after_mark q n (some place) st h = Only-prune_and_seed q n (some (place, n)) st h

pub Only-marked :
    (q : Host) (n : Text) (backup mirror : Bool) (st : State)
    → Missing n st.backups
    → Missing n st.mirror
    → let (v, hold, end) = after_mark q n (mark_in q backup mirror n st) in Only n hold end
Only-marked q n true mirror st h k = Only-after_mark q n (some beside_image) _ (refl, k)
Only-marked q n false true st h k = Only-after_mark q n (some beside_mirror) _ (refl, h)
Only-marked q n false false st h k = (h, k)

pub Only-swept_unless :
    (q : Host) (n : Text) (odd : Bool) (hold : Option (Place × Text)) (st : State)
    → Only n hold st
    → let (v, left, end) = swept_unless q odd hold st in Only n left end
unfolding swept_unless sweep_stranded_sources
Only-swept_unless q n true hold st h = h
Only-swept_unless q n false hold st h =
    Only-step n hold st _
      (stays_gone q.setting q.setting.backup_dir n (λ _. is_stranded q)
        (keep (λ f. is_source f.name) st.backups) st.backups)
      (λ k. k) h

-- The hold is removed.
gone_from :
    (q : Host) (n dir : Text) (fs : List File)
    → q.setting.removes (path_in dir n) ≡ true
    → Missing n (remove q.setting dir n fs)
gone_from q n dir fs works = rw works (find_file-drop_name n n fs ∙ rw (text_eq_refl n) refl)

pub released-Missing :
    (q : Host) (n : Text) (hold : Option (Place × Text)) (st : State)
    → q.setting.removes (path_in q.setting.backup_dir n) ≡ true
    → q.setting.removes (path_in q.setting.mirror_dir n) ≡ true
    → Only n hold st
    → Missing n (released q hold st).backups × Missing n (released q hold st).mirror
released-Missing q n none st r s h = h
released-Missing q n (some (beside_image, m)) st r s (e, k) = (
  subst (λ m. Missing n (remove q.setting q.setting.backup_dir m st.backups)) e
      (gone_from q n q.setting.backup_dir st.backups r),
  k,
)
released-Missing q n (some (beside_mirror, m)) st r s (e, h) = (
  h,
  subst (λ m. Missing n (remove q.setting q.setting.mirror_dir m st.mirror)) e
      (gone_from q n q.setting.mirror_dir st.mirror s),
)
