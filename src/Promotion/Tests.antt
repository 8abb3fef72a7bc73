-- ===== src/Promotion/Tests.antt =====
-- Promotions, and the theorem at one.
use win_validator.Base.{◌≡◌, refl, true, false, none, some, codes}
use win_validator.Promotion.{
  Copy, Answers, Files, promoted, split_state, is_whole, roll_from, roll_back, rename_ram,
  rename_disk, copy_ram_twin, copy_disk_twin, promote,
}
use win_validator.Promotion.AllOrNothing.{Says, promote-Says}

abbrev good_copy : Copy
good_copy = record { made = true; returns_0 = true; bytes = 9; has_mode = true }

abbrev all_good : Answers
all_good = record {
  odd_base = false;
  free_disk = 9;
  free_ram = 9;
  copy_disk = good_copy;
  copy_ram = good_copy;
  free_backup = 9;
  backup_returns_0 = true;
  backup_bytes = 9;
  backup_renames = true;
  disk_renames = true;
  ram_renames = true;
  backup_exists = true;
  rollback = good_copy;
  rollback_renames = true;
  removes = true;
  marks = true;
}

abbrev before : Files
before = record {
  disk = some (codes "old");
  ram = some (codes "old");
  backup = none;
  is_kept = false;
  disk_tmp = none;
  ram_tmp = none;
  rollback_tmp = none;
}

-- The RAM rename fails; then the copy of the rollback is cut short.
abbrev stuck : Answers
stuck = record all_good { ram_renames = false }

abbrev split : Answers
split = record stuck { rollback = record good_copy { bytes = 2 } }

good_run : (promote all_good (codes "new!") before).0 ≡ promoted
unfolding promote copy_disk_twin copy_ram_twin is_whole rename_disk rename_ram roll_back roll_from
good_run = refl

rolled_back : (promote stuck (codes "new!") before).1 ≡ before
unfolding promote copy_disk_twin copy_ram_twin is_whole rename_disk rename_ram roll_back roll_from
rolled_back = refl

split_run : (promote split (codes "new!") before).0 ≡ split_state true
unfolding promote copy_disk_twin copy_ram_twin is_whole rename_disk rename_ram roll_back roll_from
split_run = refl

promote-Says_example : Says (codes "new!") before (promote split (codes "new!") before)
promote-Says_example = promote-Says split (codes "new!") before
