-- ===== src/Locked/Ends.antt =====
-- How a rotation under the lock ends, and what its prune spares.
use win_validator.Base.{
  ℕ, ◌≡◌, refl, ap, ◌∙◌, Bool, true, false, List, [], ◌∷◌, ◌++◌, Option, none, some, Text, codes,
  text_eq, text_eq_refl, is_empty, mem_text, Outcome, ok, raised, arith, if◌then◌else◌,
}
use win_validator.Promotion.{Files, Result, promoted, nothing_published, split_state, promote}
use win_validator.Promotion.AllOrNothing.{Says, promote-Says}
use win_validator.Chain.{Records, chain_length}
use win_validator.Chain.Markers.{pruned_records, chain_length-pruned_records}
use win_validator.Prune.{File, path_in, is_image, resolved, find_file, held_in}
use win_validator.Prune.Loops.{find_file-drop_name}
use win_validator.Prune.Ranks.{prune_backups-spares}
use win_validator.Locked.{
  Store, Request, with_backup, Raise, not_published, split, written, keep_name, backups_after,
  mirror_after, recorded, finished, backup_path, after_promote, files_of, rotate_locked, now,
}

-- The names of the candidate and of the backup: images of the backup folder, apart from each other and
-- from the keep sidecar.
pub record Named (q : Request) (n : Text) : Type 0 where
  pub image : is_image n ≡ true
  pub there : q.setting.resolve q.candidate ≡ resolved q.setting n
  pub filled : is_empty q.candidate ≡ false
  pub backup : is_image q.backup_name ≡ true
  pub apart : text_eq n q.backup_name ≡ false
  pub no_sidecar : text_eq n (keep_name q) ≡ false

abbrev Twins : Store → Option Text → Option Text → Type 0
Twins st disk ram = (st.disk ≡ disk) × (st.ram ≡ ram)

-- The file under the backup's name, once a backup has been taken.
abbrev pub fresh : Request → Option Text → List File → Option File
fresh q none fs = find_file q.backup_name fs
fresh q (some old) fs = some (record { name = q.backup_name; mtime = some (now q) })

-- The record, its mirror and the sidecar are as before, and the depth reads as before.
abbrev pub SameRecords : Request → Store → Store → Type 0
SameRecords q st end =
    (end.records.chain ≡ st.records.chain)
    × (end.records.mirror ≡ st.records.mirror)
    × (end.records.sidecar ≡ st.records.sidecar)
    × (chain_length q.max_chain end.records ≡ chain_length q.max_chain st.records)

-- What each end says.
abbrev pub Ends : Request → Text → Store → Outcome Raise (Unit {0}) × Store → Type 0
Ends q n st (ok _, end) =
    Twins end (some q.content) (some q.content) × (find_file n end.backups ≡ find_file n st.backups)
Ends q n st (raised not_published, end) =
    Twins end st.disk st.ram
    × SameRecords q st end
    × (find_file n end.backups ≡ find_file n st.backups)
Ends q n st (raised (split false), end) =
    Twins end (some q.content) st.ram × (find_file n end.backups ≡ find_file n st.backups)
Ends q n st (raised (split true), end) =
    Twins end (some q.content) st.ram
    × (find_file n end.backups ≡ find_file n st.backups)
    × (end.taken ≡ st.disk)
    × (find_file q.backup_name end.backups ≡ fresh q st.disk st.backups)

find_file-written :
    (n m : Text) (t : ℕ) (fs : List File)
    → text_eq n m ≡ false
    → find_file n (written m t fs) ≡ find_file n fs
find_file-written n m t fs apart = rw apart (find_file-drop_name n m fs ∙ rw apart refl)

text_eq-append : (s : Text) (c : ℕ) (t : Text) → text_eq s (s ++ c ∷ t) ≡ false
text_eq-append [] c t = refl
text_eq-append (d ∷ s) c t = ground (arith, text_eq-append s c t)

kept_third : (x a b : Text) (rest : List Text) → mem_text x (a ∷ b ∷ x ∷ rest) ≡ true
kept_third x a b rest = ground (arith, text_eq_refl x)

is_empty-path : (dir name : Text) → is_empty (path_in dir name) ≡ false
is_empty-path [] name = refl
is_empty-path (c ∷ dir) name = refl

module _ (q : Request) where
  find_file-with_backup :
      (n : Text) (taken : Option Text) (fs : List File)
      → text_eq n q.backup_name ≡ false
      → find_file n (with_backup q taken fs) ≡ find_file n fs
  find_file-with_backup n none fs apart = refl
  find_file-with_backup n (some old) fs apart = find_file-written n q.backup_name (now q) fs apart

  -- The keep sidecar, here or in the mirror's folder.
  find_file-marked :
      (n : Text) (is_kept beside : Bool) (fs : List File)
      → text_eq n (keep_name q) ≡ false
      → find_file n
          (if is_kept then (if beside then written (keep_name q) (now q) fs else fs) else fs)
        ≡ find_file n fs
  find_file-marked n false beside fs apart = refl
  find_file-marked n true false fs apart = refl
  find_file-marked n true true fs apart = find_file-written n (keep_name q) (now q) fs apart

  find_file-backups_after :
      (n : Text) (f : Files) (fs : List File)
      → text_eq n q.backup_name ≡ false
      → text_eq n (keep_name q) ≡ false
      → find_file n (backups_after q f fs) ≡ find_file n fs
  unfolding backups_after
  find_file-backups_after n f fs apart no_sidecar =
      find_file-marked n f.is_kept q.marks_beside (with_backup q f.backup fs) no_sidecar
      ∙ find_file-with_backup n f.backup fs apart

  backup-backups_after :
      (f : Files) (fs : List File)
      → find_file q.backup_name (backups_after q f fs) ≡ fresh q f.backup fs
  unfolding backups_after
  backup-backups_after f fs =
      find_file-marked q.backup_name f.is_kept q.marks_beside (with_backup q f.backup fs)
        (text_eq-append q.backup_name b'.' (codes "keep"))
      ∙ by_backup f.backup
    where
      by_backup :
          (taken : Option Text)
          → find_file q.backup_name (with_backup q taken fs) ≡ fresh q taken fs
      by_backup none = refl
      by_backup (some old) = rw text_eq_refl refl

  module _ (n : Text) (names : Named q n) (st : Store) where
    -- The candidate, behind the prune.
    candidate-finished :
        (f : Files) (records : Records) (also_keep : Option Text)
        → find_file n (finished q f records also_keep st).backups ≡ find_file n st.backups
    unfolding finished
    candidate-finished f records also_keep =
        prune_backups-spares q.setting _ (some q.candidate) also_keep (backups_after q f st.backups)
          (mirror_after q f st.mirror) n names.image
          (rw (names.filled, names.there) (rw text_eq_refl refl))
        ∙ find_file-backups_after n f st.backups names.apart names.no_sidecar

    backup-finished :
        (f : Files) (records : Records)
        → find_file q.backup_name (finished q f records (some (backup_path q)) st).backups
          ≡ fresh q f.backup st.backups
    unfolding finished
    backup-finished f records =
        prune_backups-spares q.setting _ (some q.candidate) (some (backup_path q))
          (backups_after q f st.backups) (mirror_after q f st.mirror) q.backup_name names.backup
          (rw (names.filled, is_empty-path q.setting.backup_dir q.backup_name)
            (kept_third (resolved q.setting q.backup_name) (q.setting.resolve q.candidate)
              (q.setting.resolve q.candidate ++ codes ".chain")
              (held_in q.setting (backups_after q f st.backups)
                ++ held_in q.setting (mirror_after q f st.mirror))))
        ∙ backup-backups_after f st.backups

    after_promote-Ends :
        (r : Result × Files) → Says q.content (files_of q st) r → Ends q n st (after_promote q r st)
    unfolding finished pruned_records
    after_promote-Ends (promoted, f) (d, r) = ((d, r), candidate-finished f (recorded q st) none)
    after_promote-Ends (nothing_published, f) (d, r) = (
      (d, r),
      (refl, refl, refl, chain_length-pruned_records q.max_chain q.setting st.records),
      candidate-finished f st.records none,
    )
    after_promote-Ends (split_state false, f) (d, r) =
        ((d, r), candidate-finished f (recorded q st) none)
    after_promote-Ends (split_state true, f) (d, r, b) = (
      (d, r),
      candidate-finished f (recorded q st) (some (backup_path q)),
      b,
      backup-finished f (recorded q st) ∙ ap (λ o. fresh q o st.backups) b,
    )

  -- With the candidate an image of the backup folder under another name than the backup's: a rotation
  -- under the lock that returns has published both twins; one that raises NothingPublished leaves both
  -- twins, the chain's record, its mirror and the candidate's sidecar as before, and the depth that is read
  -- from them and the markers; after a split state the disk twin is the candidate and the
  -- RAM twin as before. On every way out the prune leaves the candidate's file as it stood, and after a
  -- split state that names an intact backup, that backup holds the old disk twin and, where there was
  -- one, stands in the folder under its name, whatever KEEP_N is.
  pub rotate_locked-Ends : (n : Text) → Named q n → (st : Store) → Ends q n st (rotate_locked q st)
  unfolding rotate_locked
  rotate_locked-Ends n names st =
      after_promote-Ends n names st (promote q.answers q.content (files_of q st))
        (promote-Says q.answers q.content (files_of q st))
