-- ===== src/Prune/Loops.antt =====
-- What the loops of a prune leave: a file that no loop asks for stands as before, and the loops in
-- front of the last one ask for no backup.
use win_validator.Base.{
  ℕ, ◌≡◌, refl, sym, ap, ◌∙◌, subst, inl, inr, Bool, true, false, not, ◌&&◌, ◌||◌, List, [], ◌∷◌,
  Option, none, some, Text, text_eq, text_eq_iff, text_eq_sound, All, keep, any, &&-true, arith,
  Bool-cases, if◌then◌else◌,
}
use win_validator.Prune.{
  File, Setting, path_in, is_image, is_sidecar, is_hold, is_marker, is_candidate, is_backup_name,
  drop_name, find_file, remove, sweep, is_stale_hold, without_stale, is_kept, is_stale_candidate,
  is_stale_sidecar, is_stale_marker, prune_candidates, prune_sidecars, prune_markers, backups_in,
}
use win_validator.Prune.Names.{
  is_odd, is_backup_name-plain, is_candidate-odd, is_sidecar-odd, is_hold-odd, is_marker-odd,
}
use win_validator.Prune.Order.{has_name}

pub find_file-drop_name :
    (n m : Text) (fs : List File)
    → find_file n (drop_name m fs) ≡ (if text_eq n m then none else find_file n fs)
find_file-drop_name n m [] = ground arith
find_file-drop_name n m (f ∷ fs) =
    ground (
      arith,
      text_eq_iff n m,
      text_eq_iff f.name m,
      text_eq_iff n f.name,
      find_file-drop_name n m fs,
    )

pub All-keep :
    (P : File → Type 0) (p : File → Bool) (fs : List File)
    → ((f : File) → p f ≡ true → P f)
    → All P (keep p fs)
All-keep P p [] h = tt
All-keep P p (f ∷ fs) h = elim (Bool-cases (p f)) [
  | inl yes_p ↦ rw yes_p (h f yes_p, All-keep P p fs h)
  | inr no_p ↦ rw no_p (All-keep P p fs h)
]

abbrev pub is_backup : File → Bool
is_backup f = is_image f.name && is_backup_name f.name

not_odd : (f : File) → is_backup f ≡ true → any is_odd f.name ≡ true → ⊥
not_odd f backup odd =
    let plain = is_backup_name-plain f.name (&&-true (is_image f.name) _ backup).1 in cc

backups_in-drop_name :
    (m : Text) (fs : List File)
    → (is_image m && is_backup_name m) ≡ false
    → backups_in (drop_name m fs) ≡ backups_in fs
backups_in-drop_name m [] other = refl
backups_in-drop_name m (f ∷ fs) other = elim (Bool-cases (text_eq f.name m)) [
  | inl same ↦
      let not_backup : is_backup f ≡ false =
        subst (λ t. (is_image t && is_backup_name t) ≡ false) (sym (text_eq_sound f.name m same))
          other in
      rw (same, not_backup) (backups_in-drop_name m fs other)
  | inr differs ↦ elim (Bool-cases (is_backup f)) [
    | inl backup ↦ rw (differs, backup) (ap (f ∷◌) (backups_in-drop_name m fs other))
    | inr not_backup ↦ rw (differs, not_backup) (backups_in-drop_name m fs other)
  ]
]

and_false : (k x y : Bool) → (not k && false && x && y) ≡ false
and_false true x y = refl
and_false false x y = refl

is_stale_candidate_other :
    (s : Setting) (kept : List Text) (f : File)
    → is_candidate f.name ≡ false
    → is_stale_candidate s kept f ≡ false
unfolding is_stale_candidate
is_stale_candidate_other s kept f other = rw other (and_false (is_kept s kept f.name) _ _)

pub is_stale_candidate_kept :
    (s : Setting) (kept : List Text) (f : File)
    → is_kept s kept f.name ≡ true
    → is_stale_candidate s kept f ≡ false
unfolding is_stale_candidate
is_stale_candidate_kept s kept f held = rw held refl

-- Where the last loop passes a file that is kept, and where it asks for one.
skip_kept :
    (same later held works : Bool)
    → (same ≡ true → held ≡ true)
    → (later && not held && works) ≡ ((same || later) && not held && works)
skip_kept same later held works h = ground (arith, h)

ask_free :
    {A : Type 0} (x y : A) (same later held works works_there : Bool)
    → (same ≡ true → held ≡ false)
    → (same ≡ true → works ≡ works_there)
    → (if later && not held && works then x else if works_there && same then x else y)
      ≡ (if (same || later) && not held && works then x else y)
ask_free x y same later held works works_there h k = ground (arith, h, k)

module _ (s : Setting) where
  find_file-remove :
      (dir n m : Text) (fs : List File)
      → text_eq n m ≡ false
      → find_file n (remove s dir m fs) ≡ find_file n fs
  find_file-remove dir n m fs other = ground (arith, find_file-drop_name n m fs)

  -- A loop that asks for no file of the name leaves it.
  abbrev Spares : (List File → File → Bool) → Text → File → Type 0
  Spares test n f = text_eq n f.name ≡ true → (now : List File) → test now f ≡ false

  find_file-sweep :
      (dir n : Text) (test : List File → File → Bool) (l now : List File)
      → All (Spares test n) l
      → find_file n (sweep s dir test l now) ≡ find_file n now
  find_file-sweep dir n test [] now h = refl
  find_file-sweep dir n test (f ∷ l) now (spared, h) = elim (Bool-cases (text_eq n f.name)) [
    | inl same ↦ rw (spared same now) (find_file-sweep dir n test l now h)
    | inr other ↦ elim (Bool-cases (test now f)) [
      | inl asked ↦ rw asked (
          find_file-sweep dir n test l (remove s dir f.name now) h
          ∙ find_file-remove dir n f.name now other)
      | inr not_asked ↦ rw not_asked (find_file-sweep dir n test l now h)
    ]
  ]

  -- The loop over a glob whose names all differ from this one, or are kept.
  pub spared_by :
      (dir n : Text) (glob : Text → Bool) (test : List File → File → Bool) (fs : List File)
      → ((f : File) (now : List File)
          → text_eq n f.name ≡ true
          → glob f.name ≡ true
          → test now f ≡ false)
      → find_file n (sweep s dir test (keep (λ f. glob f.name) fs) fs) ≡ find_file n fs
  spared_by dir n glob test fs h =
      find_file-sweep dir n test (keep (λ f. glob f.name) fs) fs
        (All-keep (Spares test n) (λ f. glob f.name) fs λ f globbed same now. h f now same globbed)

  -- The backups are the same behind a loop that asks for none of them.
  abbrev SparesBackups : (List File → File → Bool) → File → Type 0
  SparesBackups test f = is_backup f ≡ true → (now : List File) → test now f ≡ false

  backups_in-remove :
      (dir : Text) (m : Text) (fs : List File)
      → (is_image m && is_backup_name m) ≡ false
      → backups_in (remove s dir m fs) ≡ backups_in fs
  backups_in-remove dir m fs other = elim (Bool-cases (s.removes (path_in dir m))) [
    | inl works ↦ rw works (backups_in-drop_name m fs other)
    | inr fails ↦ rw fails refl
  ]

  backups_in-sweep :
      (dir : Text) (test : List File → File → Bool) (l now : List File)
      → All (SparesBackups test) l
      → backups_in (sweep s dir test l now) ≡ backups_in now
  backups_in-sweep dir test [] now h = refl
  backups_in-sweep dir test (f ∷ l) now (spared, h) = elim (Bool-cases (is_backup f)) [
    | inl backup ↦ rw (spared backup now) (backups_in-sweep dir test l now h)
    | inr other ↦ elim (Bool-cases (test now f)) [
      | inl asked ↦ rw asked (
          backups_in-sweep dir test l (remove s dir f.name now) h
          ∙ backups_in-remove dir f.name now other)
      | inr not_asked ↦ rw not_asked (backups_in-sweep dir test l now h)
    ]
  ]

  backups_spared_by :
      (dir : Text) (glob : Text → Bool) (test : List File → File → Bool) (fs : List File)
      → ((f : File) (now : List File)
          → is_backup f ≡ true
          → glob f.name ≡ true
          → test now f ≡ false)
      → backups_in (sweep s dir test (keep (λ f. glob f.name) fs) fs) ≡ backups_in fs
  backups_spared_by dir glob test fs h = backups_in-sweep dir test (keep (λ f. glob f.name) fs) fs (
      All-keep (SparesBackups test) (λ f. glob f.name) fs
        λ f globbed backup now. h f now backup globbed)

  pub backups_in-without_stale :
      (dir : Text) (fs : List File) → backups_in (without_stale s dir fs) ≡ backups_in fs
  backups_in-without_stale dir fs =
      backups_spared_by dir is_hold (λ _ f. is_stale_hold s f.name) fs
        λ f now backup globbed. absurd (not_odd f backup (is_hold-odd f.name globbed))

  pub backups_in-prune_candidates :
      (kept : List Text) (fs : List File) → backups_in (prune_candidates s kept fs) ≡ backups_in fs
  backups_in-prune_candidates kept fs =
      backups_spared_by s.backup_dir is_image (λ _. is_stale_candidate s kept) fs
        λ f now backup globbed. elim (Bool-cases (is_candidate f.name)) [
          | inl candidate ↦ absurd (not_odd f backup (is_candidate-odd f.name candidate))
          | inr other ↦ is_stale_candidate_other s kept f other
        ]

  pub backups_in-prune_sidecars :
      (kept : List Text) (fs : List File) → backups_in (prune_sidecars s kept fs) ≡ backups_in fs
  backups_in-prune_sidecars kept fs =
      backups_spared_by s.backup_dir is_sidecar (is_stale_sidecar s kept) fs
        λ f now backup globbed. absurd (not_odd f backup (is_sidecar-odd f.name globbed))

  pub backups_in-prune_markers :
      (rec_t : Option ℕ) (fs : List File) → backups_in (prune_markers s rec_t fs) ≡ backups_in fs
  backups_in-prune_markers none fs = refl
  backups_in-prune_markers (some t) fs =
      backups_spared_by s.backup_dir is_marker (λ _. is_stale_marker s t) fs
        λ f now backup globbed. absurd (not_odd f backup (is_marker-odd f.name globbed))

  find_file-removed :
      (dir n m : Text) (fs : List File)
      → find_file n (remove s dir m fs)
        ≡ (if s.removes (path_in dir m) && text_eq n m then none else find_file n fs)
  find_file-removed dir n m fs = ground (arith, find_file-drop_name n m fs)

  -- The last loop, which asks by the name alone.
  pub find_file-sweep_unkept :
      (dir n : Text) (kept : List Text) (l now : List File)
      → find_file n (sweep s dir (λ _ f. not (is_kept s kept f.name)) l now) ≡ (
          if has_name n l && not (is_kept s kept n) && s.removes (path_in dir n)
          then none
          else find_file n now)
  find_file-sweep_unkept dir n kept [] now = refl
  find_file-sweep_unkept dir n kept (f ∷ l) now =
      let as_f : text_eq n f.name ≡ true → n ≡ f.name = text_eq_sound n f.name in
      elim (Bool-cases (is_kept s kept f.name)) [
        | inl held ↦ rw held (
            find_file-sweep_unkept dir n kept l now
            ∙ ap (λ b. if b then none else find_file n now)
                (skip_kept (text_eq n f.name) (has_name n l) (is_kept s kept n)
                  (s.removes (path_in dir n))
                  λ same. subst (λ t. is_kept s kept t ≡ true) (sym (as_f same)) held))
        | inr free ↦ rw free (
            find_file-sweep_unkept dir n kept l (remove s dir f.name now)
            ∙ ap
                (λ o.
                  if has_name n l && not (is_kept s kept n) && s.removes (path_in dir n)
                  then none
                  else o)
                (find_file-removed dir n f.name now)
            ∙ ask_free none (find_file n now) (text_eq n f.name) (has_name n l) (is_kept s kept n)
                (s.removes (path_in dir n)) (s.removes (path_in dir f.name))
                (λ same. subst (λ t. is_kept s kept t ≡ false) (sym (as_f same)) free)
                (λ same. ap (λ t. s.removes (path_in dir t)) (as_f same)))
      ]
