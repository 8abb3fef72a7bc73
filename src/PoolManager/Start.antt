-- ===== src/PoolManager/Start.antt =====
-- `PoolManager.run`: the start-up checks in their order, the warm-up and the shutdown, as the events
-- that a run has. What the file system, the egress check and the warm-up answer is a record.
pub mod Order
mod Tests
use win_validator.Base.{
  ℕ, Bool, true, false, not, ◌&&◌, ◌||◌, List, [], ◌∷◌, ◌++◌, Option, none, some, is_some, Text,
  Outcome, ok, raised, if◌then◌else◌,
}
use win_validator.PoolManager.Paths.{relative_to}

-- An exception that `run` distinguishes.
pub data Raise : Type 0 where
  system_exit : Raise
  value_or_runtime : Raise
  other : Raise

-- How `run` ends: an exit code, or an exception that leaves it.
pub data Exit : Type 0 where
  returns : ℕ → Exit
  leaves : Raise → Exit

pub data Event : Type 0 where
  scratch_made scratch_closed recovered sweep_started marker_cleared warm_up marker_written claiming
        shut_down :
      Event

-- A configured root: whether it is a link, whether it exists and is a directory, and its components
-- as written and resolved.
pub record Root : Type 0 where
  pub is_link : Bool
  pub exists : Bool
  pub is_dir : Bool
  pub written : List Text
  pub resolved : List Text

pub record Host : Type 0 where
  pub work_root : Root
  pub job_root : Root
  pub same_inode : Bool
  pub mkdir : Bool
  pub work_is_link : Bool
  pub work_is_ours : Bool
  pub egress : Outcome Raise (Unit {0})
  pub warmup : Outcome Raise (Unit {0})
  pub stopped : Bool

abbrev pub is_dangling : Root → Bool
is_dangling r = r.is_link && not r.exists

abbrev pub is_below : List Text → List Text → Bool
is_below p base = is_some (relative_to base p)

-- The roots are one directory, or one lies in the other, as written or as resolved.
unfoldable pub overlap : Host → Bool
overlap h =
    h.same_inode
    || is_below h.work_root.written h.job_root.written
    || is_below h.job_root.written h.work_root.written
    || is_below h.work_root.resolved h.job_root.resolved
    || is_below h.job_root.resolved h.work_root.resolved

abbrev pub refused : List Event → Exit × List Event
refused events = (leaves system_exit, events)

-- The checks in front of the first change to the host.
unfoldable pub roots_refused : Host → Bool
unfolding overlap
roots_refused h =
    is_dangling h.work_root || is_dangling h.job_root || not h.job_root.is_dir || overlap h

-- The inner `try` and the `finally` around it: `before` is what has happened.
unfoldable pub serve : List Event → Outcome Raise (Unit {0}) → Bool → Exit × List Event
serve before (ok _) stopped =
    (returns 0, before ++ warm_up ∷ marker_written ∷ claiming ∷ marker_cleared ∷ shut_down ∷ [])
serve before (raised value_or_runtime) stopped =
    (returns (if stopped then 0 else 1), before ++ warm_up ∷ marker_cleared ∷ shut_down ∷ [])
serve before (raised system_exit) stopped =
    (leaves system_exit, before ++ warm_up ∷ marker_cleared ∷ shut_down ∷ [])
serve before (raised other) stopped =
    (leaves other, before ++ warm_up ∷ marker_cleared ∷ shut_down ∷ [])

-- From the egress check on.
unfoldable pub after_checks :
    Outcome Raise (Unit {0}) → Outcome Raise (Unit {0}) → Bool → Exit × List Event
unfolding serve
after_checks (raised value_or_runtime) warmup stopped =
    (returns 1, scratch_made ∷ scratch_closed ∷ shut_down ∷ [])
after_checks (raised system_exit) warmup stopped =
    refused (scratch_made ∷ scratch_closed ∷ shut_down ∷ [])
after_checks (raised other) warmup stopped = (leaves other, scratch_made ∷ scratch_closed ∷ [])
after_checks (ok _) warmup stopped =
    serve (scratch_made ∷ scratch_closed ∷ recovered ∷ sweep_started ∷ marker_cleared ∷ []) warmup
      stopped

unfoldable pub run : Host → Exit × List Event
unfolding roots_refused after_checks
run h =
    if roots_refused h
    then refused []
    else if not h.mkdir
    then refused []
    else if h.work_is_link || not h.work_is_ours
    then refused (scratch_made ∷ [])
    else after_checks h.egress h.warmup h.stopped
