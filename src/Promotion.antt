-- ===== src/Promotion.antt =====
-- golden_rotate.py: `_promote` with `_checked_copy` and `_backup_current`, which publish a new golden
-- image as a disk twin and a RAM twin. A file's content is its bytes; what the commands answer is a
-- record. A copy that is cut short leaves a prefix; a rename happens or does not.
pub mod AllOrNothing
mod Tests
use win_validator.Base.{
  ℕ, Bool, true, false, not, ◌&&◌, ◌||◌, Option, none, some, Text, length, take, ltb, ◌==◌, Outcome,
  ok, raised, if◌then◌else◌,
}

-- The temporary of a copy: whether mktemp made it, whether cp returned 0, how many bytes are there,
-- and whether it has the mode 0644 at the end.
pub record Copy : Type 0 where
  pub made : Bool
  pub returns_0 : Bool
  pub bytes : ℕ
  pub has_mode : Bool

pub record Answers : Type 0 where
  pub odd_base : Bool
  pub free_disk : ℕ
  pub free_ram : ℕ
  pub copy_disk : Copy
  pub copy_ram : Copy
  pub free_backup : ℕ
  pub backup_returns_0 : Bool
  pub backup_bytes : ℕ
  pub backup_renames : Bool
  pub disk_renames : Bool
  pub ram_renames : Bool
  pub backup_exists : Bool
  pub rollback : Copy
  pub rollback_renames : Bool
  pub removes : Bool
  pub marks : Bool

-- The twins, the backup that this promotion takes and whether it is marked kept, and the
-- temporaries beside the bases.
pub record Files : Type 0 where
  pub disk : Option Text
  pub ram : Option Text
  pub backup : Option Text
  pub is_kept : Bool
  pub disk_tmp : Option Text
  pub ram_tmp : Option Text
  pub rollback_tmp : Option Text

-- `_promote` returns, raises NothingPublished, or raises SplitState with or without an intact backup.
pub data Result : Type 0 where
  promoted nothing_published : Result
  split_state : Bool → Result

abbrev pub copied : Copy → Text → Option Text
copied c src = if c.made then some (take c.bytes src) else none

-- `_mktemp` and `_checked_copy` went through.
unfoldable pub is_whole : Copy → Text → Bool
is_whole c src = c.made && c.returns_0 && (length (take c.bytes src) == length src) && c.has_mode

module _ (a : Answers) where
  -- `rm -f`, whose answer nobody reads.
  abbrev pub removed : Option Text → Option Text
  removed file = if a.removes then none else file

  abbrev pub cleaned : Files → Files
  cleaned f = record f { disk_tmp = removed f.disk_tmp; ram_tmp = removed f.ram_tmp }

  abbrev pub without_backup : Files → Files
  without_backup f = record f { backup = removed f.backup }

  -- `_backup_current`: whether a backup was taken, or NothingPublished.
  abbrev pub backup_of : Option Text → Files → Outcome (Unit {0}) Bool × Files
  backup_of none f = (ok false, f)
  backup_of (some old) f =
      if ltb a.free_backup (length old)
        || not (a.backup_returns_0 && (length (take a.backup_bytes old) == length old))
        || not a.backup_renames
      then (raised tt, f)
      else (ok true, record f { backup = some (take a.backup_bytes old) })

  -- The rollback of the disk twin from the backup.
  unfoldable pub roll_from : Text → Files → Result × Files
  unfolding is_whole
  roll_from old f =
      if is_whole a.rollback old && a.rollback_renames
      then (
        nothing_published,
        without_backup (record f { disk = copied a.rollback old; rollback_tmp = none }),
      )
      else (
        split_state true,
        record f { rollback_tmp = removed (copied a.rollback old); is_kept = a.marks },
      )

  abbrev pub roll_back_to : Option Text → Files → Result × Files
  roll_back_to none f = (split_state false, f)
  roll_back_to (some old) f = roll_from old f

  -- The RAM rename failed after the disk rename.
  unfoldable pub roll_back : Bool → Files → Result × Files
  unfolding roll_from
  roll_back backed_up f = roll_back_to (if backed_up && a.backup_exists then f.backup else none) f

  unfoldable pub rename_ram : Bool → Files → Result × Files
  unfolding roll_back
  rename_ram backed_up f =
      if a.ram_renames
      then (promoted, record f { ram = f.ram_tmp; ram_tmp = none })
      else roll_back backed_up (cleaned f)

  unfoldable pub rename_disk : Bool → Files → Result × Files
  unfolding rename_ram
  rename_disk backed_up f =
      if a.disk_renames
      then rename_ram backed_up (record f { disk = f.disk_tmp; disk_tmp = none })
      else (nothing_published, if backed_up then without_backup (cleaned f) else cleaned f)

  -- Both copies are in place.
  abbrev pub publish_with : Outcome (Unit {0}) Bool × Files → Result × Files
  publish_with (raised _, f) = (nothing_published, cleaned f)
  publish_with (ok backed_up, f) = rename_disk backed_up f

  unfoldable pub copy_ram_twin : Text → Files → Result × Files
  unfolding is_whole rename_disk
  copy_ram_twin candidate f =
      if is_whole a.copy_ram candidate
      then publish_with (backup_of f.disk (record f { ram_tmp = copied a.copy_ram candidate }))
      else (nothing_published, cleaned (record f { ram_tmp = copied a.copy_ram candidate }))

  unfoldable pub copy_disk_twin : Text → Files → Result × Files
  unfolding is_whole copy_ram_twin
  copy_disk_twin candidate f =
      if is_whole a.copy_disk candidate
      then copy_ram_twin candidate (record f { disk_tmp = copied a.copy_disk candidate })
      else (nothing_published, cleaned (record f { disk_tmp = copied a.copy_disk candidate }))

  unfoldable pub promote : Text → Files → Result × Files
  unfolding copy_disk_twin
  promote candidate f =
      if a.odd_base || ltb a.free_disk (length candidate) || ltb a.free_ram (length candidate)
      then (nothing_published, f)
      else copy_disk_twin candidate f
