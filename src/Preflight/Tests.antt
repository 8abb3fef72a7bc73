-- ===== src/Preflight/Tests.antt =====
-- Runs of the preflight's checks at concrete paths and places.
use win_validator.Base.{ℕ, ◌≤◌, ◌≡◌, ◌↔◌, refl, true, false, some, codes, ok, raised}
use win_validator.Preflight.{
  Places, backup_terms, demands, enough_space, validate_graveyard, validate_warm_dir, bad_graveyard,
  bad_warm_dir,
}
use win_validator.Preflight.Space.{total, free_on, enough_space_iff}

-- The backups stand on one filesystem with the disk image, the RAM image on another.
abbrev places : Places
places = record { backups = (1, 50); disk_base = (1, 50); ram_base = (2, 10) }

retried : enough_space (demands places (backup_terms true false true) 10) ≡ true
unfolding enough_space
retried = refl

-- Both filesystems would hold what each of their demands needs, but not their sum.
summed : enough_space (demands places (backup_terms false true true) 20) ≡ false
unfolding enough_space
summed = refl

enough_space_iff_example :
    (enough_space (demands places (backup_terms false true true) 10) ≡ true) ↔ (
      (dev free : ℕ)
      → free_on dev (demands places (backup_terms false true true) 10) ≡ some free
      → total dev (demands places (backup_terms false true true) 10) ≤ free)
enough_space_iff_example = enough_space_iff (demands places (backup_terms false true true) 10)

relative_graveyard : validate_graveyard (codes "graveyard.db") ≡ raised bad_graveyard
unfolding validate_graveyard
relative_graveyard = refl

drive_graveyard : validate_graveyard (codes "C:\\ProgramData\\graveyard.db") ≡ ok tt
unfolding validate_graveyard
drive_graveyard = refl

root_graveyard : validate_graveyard (codes "C:\\graveyard.db") ≡ raised bad_graveyard
unfolding validate_graveyard
root_graveyard = refl

expanding_dir : validate_warm_dir (codes "C:\\$(calc)") ≡ raised bad_warm_dir
unfolding validate_warm_dir
expanding_dir = refl
