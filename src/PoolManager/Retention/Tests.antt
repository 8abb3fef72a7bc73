-- ===== src/PoolManager/Retention/Tests.antt =====
-- A sweep, and its theorem at one.
use win_validator.Base.{◌≡◌, refl, true, false, List, [], ◌∷◌, none, some, codes, ok}
use win_validator.PoolManager.Store.{done, running}
use win_validator.PoolManager.Retention.{Entry, sweep_one, sweep_root, sweep}
use win_validator.PoolManager.Retention.Kept.{Swept, sweep_root-Swept}

abbrev old_done : Entry
old_done = record {
  name = codes "1";
  is_link = false;
  is_dir = true;
  mtime = 5;
  row = ok (some (record { status = done; finished_at = some 9 }));
  removes = true;
}

abbrev old_running : Entry
old_running = record old_done { row = ok (some (record { status = running; finished_at = none })) }

abbrev just_finished : Entry
just_finished = record old_done {
  row = ok (some (record { status = done; finished_at = some 86500 }));
}

abbrev entries : List Entry
entries = old_done ∷ old_running ∷ just_finished ∷ []

swept : sweep_root true 10 entries ≡ old_running ∷ just_finished ∷ []
unfolding sweep_root sweep_one
swept = refl

switched_off : (sweep 0 86410 (some entries, none)).0 ≡ some entries
unfolding sweep sweep_root sweep_one
switched_off = refl

sweep_root-Swept_example : Swept true 10 entries (sweep_root true 10 entries)
sweep_root-Swept_example = sweep_root-Swept true 10 entries
