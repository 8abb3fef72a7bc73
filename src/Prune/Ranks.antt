-- ===== src/Prune/Ranks.antt =====
-- What a prune leaves. The specification of the backups does not sort and has no loop: it counts the
-- newer backups of the folder.
use win_validator.Base.{
  ℕ, ◌≡◌, refl, sym, ap, ◌∙◌, subst, inl, inr, Bool, true, false, not, ◌&&◌, List, [], ◌∷◌, ◌++◌,
  Option, none, some, Text, text_eq, text_eq_sound, leb, arith, codes, Bool-cases, if◌then◌else◌,
}
use win_validator.Prune.{
  File, Setting, path_in, is_image, is_sidecar, is_hold, is_marker, is_backup_name, find_file,
  ends_with, build_hold, is_stale_hold, held_in, without_stale, held_backups, is_kept,
  is_stale_candidate, is_stale_sidecar, is_stale_marker, prune_candidates, prune_sidecars,
  prune_markers, sort_files, backups_in, excess, prune_old, prune_all, keep_paths, prune_backups,
}
use win_validator.Prune.Names.{is_image-build_hold, is_image-is_marker}
use win_validator.Prune.Order.{
  has_name, Distinct, newer_than, sort_files-IsSorted, has_name-take, find_file-sort_files,
  newer_than-sort_files, excess-eq-take,
}
use win_validator.Prune.Loops.{
  is_backup, is_stale_candidate_kept, spared_by, backups_in-without_stale,
  backups_in-prune_candidates, backups_in-prune_sidecars, backups_in-prune_markers,
  find_file-sweep_unkept,
}

-- The backups of a folder.
find_file-backups_in :
    (n : Text) (fs : List File)
    → (is_image n && is_backup_name n) ≡ true
    → find_file n (backups_in fs) ≡ find_file n fs
find_file-backups_in n [] backup = refl
find_file-backups_in n (f ∷ fs) backup = elim (Bool-cases (text_eq n f.name)) [
  | inl same ↦
      let f_backup : is_backup f ≡ true =
        subst (λ t. (is_image t && is_backup_name t) ≡ true) (text_eq_sound n f.name same) backup in
      rw f_backup (rw same refl)
  | inr other ↦ elim (Bool-cases (is_backup f)) [
    | inl f_backup ↦ rw (f_backup, other) (find_file-backups_in n fs backup)
    | inr not_backup ↦ rw (not_backup, other) (find_file-backups_in n fs backup)
  ]
]

has_name-backups_in :
    (n : Text) (fs : List File) → has_name n fs ≡ false → has_name n (backups_in fs) ≡ false
has_name-backups_in n [] h = refl
has_name-backups_in n (f ∷ fs) h = elim (Bool-cases (is_backup f)) [
  | inl backup ↦ rw backup (ground (arith, has_name-backups_in n fs))
  | inr other ↦ rw other (has_name-backups_in n fs (ground arith))
]

Distinct-backups_in : (fs : List File) → Distinct fs → Distinct (backups_in fs)
Distinct-backups_in [] d = tt
Distinct-backups_in (f ∷ fs) (fresh, d) = elim (Bool-cases (is_backup f)) [
  | inl backup ↦ rw backup (has_name-backups_in f.name fs fresh, Distinct-backups_in fs d)
  | inr other ↦ rw other (Distinct-backups_in fs d)
]

-- The slice has a backup exactly if enough backups are newer.
has_name-excess :
    (k : ℕ) (n : Text) (f : File) (baks : List File)
    → Distinct baks
    → find_file n baks ≡ some f
    → has_name n (excess k (sort_files baks)) ≡ leb k (newer_than f baks)
has_name-excess k n f baks d found =
    ap (has_name n) (excess-eq-take k (sort_files baks))
    ∙ has_name-take k n f (sort_files baks) (sort_files-IsSorted baks d)
        (find_file-sort_files n baks d ∙ found)
    ∙ ap (leb k) (newer_than-sort_files f baks)

&&-false : (b : Bool) → (b && false) ≡ false
&&-false true = refl
&&-false false = refl

module _ (s : Setting) where
  -- The folder in front of the last loop.
  abbrev before_last : Option ℕ → List Text → List File → List File
  before_last rec_t kept fs =
      prune_markers s rec_t
        (prune_sidecars s kept (prune_candidates s kept (without_stale s s.backup_dir fs)))

  backups_in-before_last :
      (rec_t : Option ℕ) (kept : List Text) (fs : List File)
      → backups_in (before_last rec_t kept fs) ≡ backups_in fs
  backups_in-before_last rec_t kept fs =
      let held = without_stale s s.backup_dir fs in
      let candidates = prune_candidates s kept held in
      let sidecars = prune_sidecars s kept candidates in
      backups_in-prune_markers s rec_t sidecars
      ∙ backups_in-prune_sidecars s kept candidates
      ∙ backups_in-prune_candidates s kept held
      ∙ backups_in-without_stale s s.backup_dir fs

  abbrev pub kept_paths : Option Text → Option Text → List File → List File → List Text
  kept_paths candidate also_keep fs mirror =
      keep_paths s candidate also_keep (held_in s fs ++ held_in s mirror)

  -- The abstract prune of one backup: it goes if nothing holds it, at least KEEP_N backups are newer,
  -- and `rm` works.
  abbrev pub ranked : List Text → List File → Text → File → Option File
  ranked kept fs n f =
      if leb s.keep_n (newer_than f (backups_in fs))
        && not (is_kept s kept n)
        && s.removes (path_in s.backup_dir n)
      then none
      else some f

  -- Where no name stands twice in the backup folder, a rollback backup of it goes from the folder
  -- exactly if nothing keeps it (the candidate, the backup that a split state names, an operator's or a
  -- running build's hold), at least KEEP_N backups there are newer (by modification time, then name) and
  -- its removal works; else it stands as before. The order of the listing does not matter.
  pub prune_backups-Ranks :
      (rec_t : Option ℕ) (candidate also_keep : Option Text) (fs mirror : List File)
      → Distinct fs
      → (n : Text) (f : File) → (is_image n && is_backup_name n) ≡ true
      → find_file n fs ≡ some f
      → find_file n (prune_backups s rec_t candidate also_keep fs mirror).0
        ≡ ranked (kept_paths candidate also_keep fs mirror) fs n f
  unfolding prune_backups held_backups prune_all
  prune_backups-Ranks rec_t candidate also_keep fs mirror d n f backup found =
      let kept = kept_paths candidate also_keep fs mirror in
      let now = before_last rec_t kept fs in
      let same = backups_in-before_last rec_t kept fs in
      let still : find_file n now ≡ some f =
        sym (find_file-backups_in n now backup)
        ∙ ap (find_file n) same
        ∙ find_file-backups_in n fs backup
        ∙ found in
      let listed : has_name n (excess s.keep_n (sort_files (backups_in now)))
          ≡ leb s.keep_n (newer_than f (backups_in fs)) =
        ap (λ b. has_name n (excess s.keep_n (sort_files b))) same
        ∙ has_name-excess s.keep_n n f (backups_in fs) (Distinct-backups_in fs d)
            (find_file-backups_in n fs backup ∙ found) in
      find_file-sweep_unkept s s.backup_dir n kept (excess s.keep_n (sort_files (backups_in now)))
        now
      ∙ rw (listed, still) refl

  module _ (n : Text) (image : is_image n ≡ true) (kept : List Text)
      (held : is_kept s kept n ≡ true) where
    stays_kept : (t : Text) → text_eq n t ≡ true → is_kept s kept t ≡ true
    stays_kept t same = subst (λ t. is_kept s kept t ≡ true) (text_eq_sound n t same) held

    find_file-without_stale :
        (fs : List File) → find_file n (without_stale s s.backup_dir fs) ≡ find_file n fs
    unfolding build_hold
    find_file-without_stale fs =
        spared_by s s.backup_dir n is_hold (λ _ f. is_stale_hold s f.name) fs
          λ f now same globbed.
            subst (λ t. is_stale_hold s t ≡ false) (text_eq_sound n f.name same)
              (rw (is_image-build_hold n image) (&&-false (not (ends_with (codes ".keep") n))))

    find_file-prune_candidates :
        (fs : List File) → find_file n (prune_candidates s kept fs) ≡ find_file n fs
    find_file-prune_candidates fs =
        spared_by s s.backup_dir n is_image (λ _. is_stale_candidate s kept) fs
          λ f now same globbed. is_stale_candidate_kept s kept f (stays_kept f.name same)

    find_file-prune_sidecars :
        (fs : List File) → find_file n (prune_sidecars s kept fs) ≡ find_file n fs
    find_file-prune_sidecars fs =
        spared_by s s.backup_dir n is_sidecar (is_stale_sidecar s kept) fs
          λ f now same globbed. rw (stays_kept f.name same) refl

    find_file-prune_markers :
        (rec_t : Option ℕ) (fs : List File)
        → find_file n (prune_markers s rec_t fs) ≡ find_file n fs
    find_file-prune_markers none fs = refl
    find_file-prune_markers (some t) fs =
        spared_by s s.backup_dir n is_marker (λ _. is_stale_marker s t) fs
          λ f now same globbed.
            let other =
              subst (λ t. is_marker t ≡ false) (text_eq_sound n f.name same)
                (is_image-is_marker n image) in
            cc

    find_file-prune_old : (fs : List File) → find_file n (prune_old s kept fs) ≡ find_file n fs
    find_file-prune_old fs =
        let baks = excess s.keep_n (sort_files (backups_in fs)) in
        find_file-sweep_unkept s s.backup_dir n kept baks fs ∙ rw held (ground arith)

  -- An image in the backup folder that is kept (the candidate that is about to be promoted or retried,
  -- the backup that a split state names, one that an operator or a running build holds) stands as before,
  -- however old it is and whatever KEEP_N is.
  pub prune_backups-spares :
      (rec_t : Option ℕ) (candidate also_keep : Option Text) (fs mirror : List File) (n : Text)
      → is_image n ≡ true
      → is_kept s (kept_paths candidate also_keep fs mirror) n ≡ true
      → find_file n (prune_backups s rec_t candidate also_keep fs mirror).0 ≡ find_file n fs
  unfolding prune_backups held_backups prune_all
  prune_backups-spares rec_t candidate also_keep fs mirror n image held =
      let kept = kept_paths candidate also_keep fs mirror in
      let first = without_stale s s.backup_dir fs in
      let second = prune_candidates s kept first in
      let third = prune_sidecars s kept second in
      find_file-prune_old n image kept held (prune_markers s rec_t third)
      ∙ find_file-prune_markers n image kept held rec_t third
      ∙ find_file-prune_sidecars n image kept held second
      ∙ find_file-prune_candidates n image kept held first
      ∙ find_file-without_stale n image kept held fs
