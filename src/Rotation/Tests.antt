-- ===== src/Rotation/Tests.antt =====
-- Nights and retries, and the theorems at them.
use win_validator.Base.{
  ◌≡◌, ◌⊎◌, refl, true, false, ◌||◌, [], ◌∷◌, some, none, codes, any, ok, raised,
}
use win_validator.Promotion.{
  Copy, Answers, Files, is_whole, roll_from, roll_back, rename_ram, rename_disk, copy_ram_twin,
  copy_disk_twin, promote,
}
use win_validator.Rotation.{
  in_service, Look, is_fresh, wait_warm, SystemdUnit, restart_pool, rotate, kept, discarded,
  unexpected, before_renames, Night, refresh_and_rotate,
}
use win_validator.Rotation.Codes.{Reports, refresh_and_rotate-Reports}
use win_validator.Rotation.Service.{restart_pool-in_service}

abbrev copy : Copy
copy = record { made = true; returns_0 = true; bytes = 9; has_mode = true }

abbrev answers : Answers
answers = record {
  odd_base = false;
  free_disk = 9;
  free_ram = 9;
  copy_disk = copy;
  copy_ram = copy;
  free_backup = 9;
  backup_returns_0 = true;
  backup_bytes = 9;
  backup_renames = true;
  disk_renames = true;
  ram_renames = true;
  backup_exists = true;
  rollback = copy;
  rollback_renames = true;
  removes = true;
  marks = true;
}

abbrev look : Look
look = record { marker = some 5; is_late = false; is_failed = false; is_up = true }

abbrev service : SystemdUnit
service = record {
  service = codes "pool";
  started = 100;
  was_failed = false;
  returns_0 = true;
  is_up = true;
  settle = 9;
  looks = look ∷ record look { marker = some 99 } ∷ [];
  last_marker = none;
}

abbrev before : Files
before = record {
  disk = some (codes "old");
  ram = some (codes "old");
  backup = none;
  is_kept = false;
  disk_tmp = none;
  ram_tmp = none;
  rollback_tmp = none;
}

abbrev good_night : Night
good_night = record {
  preflight = ok tt;
  from_master = ok false;
  full_bake = ok 0;
  build = ok (codes "new");
  gate = ok true;
  is_regular = true;
  lock = record { opens = true; is_ours = true; is_free = true };
  answers = answers;
  stop = none;
  service = service;
}

-- The copy to the RAM twin is cut short.
abbrev short_night : Night
short_night = record good_night {
  answers = record answers { copy_ram = record copy { bytes = 2 } };
}

good_code : (refresh_and_rotate good_night before).0 ≡ ok 0
unfolding refresh_and_rotate rotate promote copy_disk_twin copy_ram_twin is_whole rename_disk
    rename_ram roll_back roll_from restart_pool wait_warm
good_code = refl

short_fate : (refresh_and_rotate short_night before).1 ≡ kept
unfolding refresh_and_rotate rotate promote copy_disk_twin copy_ram_twin is_whole rename_disk
    rename_ram roll_back roll_from restart_pool wait_warm
short_fate = refl

warm : restart_pool service ≡ in_service
unfolding restart_pool wait_warm
warm = refl

-- The backup's copy ends in an OSError: the candidate goes, and both twins are as before.
abbrev stopped_night : Night
stopped_night = record good_night {
  stop = some (record { moment = before_renames; left = before });
}

stopped_fate : refresh_and_rotate stopped_night before ≡ (raised unexpected, discarded, before)
unfolding refresh_and_rotate rotate promote copy_disk_twin copy_ram_twin is_whole rename_disk
    rename_ram roll_back roll_from restart_pool wait_warm
stopped_fate = refl

refresh_and_rotate-Reports_example :
    Reports (codes "new") true before (refresh_and_rotate short_night before)
refresh_and_rotate-Reports_example =
    refresh_and_rotate-Reports short_night (codes "new") before refl refl refl

restart_pool-in_service_example :
    (service.returns_0 ≡ true)
    × (service.is_up ≡ true)
    × ((service.settle ≡ 0)
        ⊎ ((any (λ l. is_fresh service.started l.marker) service.looks
              || is_fresh service.started service.last_marker)
            ≡ true))
restart_pool-in_service_example = restart_pool-in_service service warm
