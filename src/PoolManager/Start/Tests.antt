-- ===== src/PoolManager/Start/Tests.antt =====
-- Runs of a start, and its theorems at one.
use win_validator.Base.{◌≡◌, refl, true, false, [], ◌∷◌, codes, ok, raised}
use win_validator.PoolManager.Paths.{relative_to}
use win_validator.PoolManager.Start.{
  value_or_runtime, returns, Root, Host, overlap, roots_refused, serve, after_checks, run,
}
use win_validator.PoolManager.Start.Order.{
  happens, touches_jobs, is_warm_up, AreDisjoint, run_touches,
}

abbrev jobs : Root
jobs = record {
  is_link = false;
  exists = true;
  is_dir = true;
  written = codes "jobs" ∷ [];
  resolved = codes "jobs" ∷ [];
}

abbrev work : Root
work = record jobs { written = codes "work" ∷ []; resolved = codes "work" ∷ [] }

-- The warm-up fails.
abbrev host : Host
host = record {
  work_root = work;
  job_root = jobs;
  same_inode = false;
  mkdir = true;
  work_is_link = false;
  work_is_ours = true;
  egress = ok tt;
  warmup = raised value_or_runtime;
  stopped = false;
}

failed_warm_up : (run host).0 ≡ returns 1
unfolding run roots_refused overlap relative_to after_checks serve
failed_warm_up = refl

touched : happens touches_jobs (run host).1 ≡ true
unfolding run roots_refused overlap relative_to after_checks serve
touched = refl

warmed : happens is_warm_up (run host).1 ≡ true
unfolding run roots_refused overlap relative_to after_checks serve
warmed = refl

run_touches_example :
    AreDisjoint host
    × (host.job_root.is_dir ≡ true)
    × (host.work_is_link ≡ false)
    × (host.work_is_ours ≡ true)
    × (host.egress ≡ ok tt)
run_touches_example = run_touches host touched
