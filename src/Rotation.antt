-- ===== src/Rotation.antt =====
-- golden_rotate.py: `rotate`, `restart_pool`, `refresh_and_rotate` and `main`, on top of Promotion.
-- What the preflight, the build, the gate and systemctl answer is a record; an exception that none
-- of these functions names (a failed call of the system, an interrupt) ends a run and is `unexpected`.
pub mod Codes
pub mod Service
mod Tests
use win_validator.Base.{
  ℕ, suc, ◌+◌, leb, ◌%◌, Bool, true, false, not, ◌&&◌, ◌||◌, List, [], ◌∷◌, Option, none, some,
  Text, codes, is_empty, is_some, text_eq, ◌==◌, Outcome, ok, raised, if◌then◌else◌,
}
use win_validator.Promotion.{
  Answers, Files, Result, promoted, nothing_published, split_state, promote,
}

pub data Raise : Type 0 where
  not_published split runtime unexpected : Raise

-- `restart_pool` returns True or False, or raises RestartFailed.
pub data Restart : Type 0 where
  in_service left_alone restart_failed : Restart

-- One look of its wait: the marker's time if it is there, and, after the sleep, whether the deadline has
-- passed and what systemctl says.
pub record Look : Type 0 where
  pub marker : Option ℕ
  pub is_late : Bool
  pub is_failed : Bool
  pub is_up : Bool

-- Written by this start: not more than two seconds before it.
abbrev pub is_fresh : ℕ → Option ℕ → Bool
is_fresh started none = false
is_fresh started (some time) = leb started (time + 2)

-- The looks in front of the deadline, from the tick of the last one, and the marker at the look behind it.
unfoldable pub wait_warm : (started tick : ℕ) → List Look → Option ℕ → Restart
wait_warm started tick [] last = if is_fresh started last then in_service else restart_failed
wait_warm started tick (l ∷ ls) last =
    let rest = wait_warm started (suc tick) ls last in
    if is_fresh started l.marker
    then in_service
    else if not (suc tick % 5 == 0) && not l.is_late
    then rest
    else if l.is_failed || not l.is_up
    then restart_failed
    else rest

pub record SystemdUnit : Type 0 where
  pub service : Text
  pub started : ℕ
  pub was_failed : Bool
  pub returns_0 : Bool
  pub is_up : Bool
  pub settle : ℕ
  pub looks : List Look
  pub last_marker : Option ℕ

unfoldable pub restart_pool : SystemdUnit → Restart
unfolding wait_warm
restart_pool u =
    if is_empty u.service
    then left_alone
    else if not u.returns_0
    then restart_failed
    else if not u.is_up
    then if u.was_failed then restart_failed else left_alone
    else if u.settle == 0
    then in_service
    else wait_warm u.started 0 u.looks u.last_marker

-- The lock file of `rotate`: whether it opens, is this process's, and is free.
pub record Lock : Type 0 where
  pub opens : Bool
  pub is_ours : Bool
  pub is_free : Bool

abbrev pub as_raise : Result → Outcome Raise (Unit {0})
as_raise promoted = ok tt
as_raise nothing_published = raised not_published
as_raise (split_state intact) = raised split

-- Where another exception leaves a promotion: with no rename made (or the rollback's made), between the
-- two renames, or behind the promotion, in the record or the prune. It leaves a backup and temporaries.
pub data Moment : Type 0 where
  before_renames between_renames behind_promotion : Moment

pub record Stop : Type 0 where
  pub moment : Moment
  pub left : Files

abbrev pub stopped : Moment → Files → Text → Files → Files → Files
stopped before_renames left candidate files files' = record left {
  disk = files.disk;
  ram = files.ram;
}
stopped between_renames left candidate files files' = record left {
  disk = some candidate;
  ram = files.ram;
}
stopped behind_promotion left candidate files files' = files'

abbrev pub unless_stopped :
    Option Stop → Text → Files → Result × Files → Outcome Raise (Unit {0}) × Files
unless_stopped none candidate files (r, files') = (as_raise r, files')
unless_stopped (some s) candidate files (r, files') =
    (raised unexpected, stopped s.moment s.left candidate files files')

-- `rotate`: the candidate, the lock, the promotion, which another exception may end.
unfoldable pub rotate :
    (is_regular : Bool)
    → Lock
    → Answers
    → Option Stop
    → Text
    → Files
    → Outcome Raise (Unit {0}) × Files
rotate is_regular lock a stop candidate files =
    if not is_regular || not lock.opens || not lock.is_ours || not lock.is_free
    then (raised not_published, files)
    else unless_stopped stop candidate files (promote a candidate files)

-- What becomes of the candidate.
pub data Fate : Type 0 where
  unbuilt left kept discarded : Fate

abbrev pub Ended : Type 0
Ended = Outcome Raise ℕ × Fate × Files

pub record Night : Type 0 where
  pub preflight : Outcome Raise (Unit {0})
  pub from_master : Outcome Raise Bool
  pub full_bake : Outcome Raise ℕ
  pub build : Outcome Raise Text
  pub gate : Outcome Raise Bool
  pub is_regular : Bool
  pub lock : Lock
  pub answers : Answers
  pub stop : Option Stop
  pub service : SystemdUnit

-- The exit code of a promotion, from the restart.
abbrev pub restarted : Restart → ℕ
restarted in_service = 0
restarted left_alone = 0
restarted restart_failed = 1

module _ (n : Night) where
  -- What follows the rotation of a gated candidate.
  abbrev pub after_rotate : Outcome Raise (Unit {0}) × Files → Ended
  after_rotate (ok _, files) = (ok (restarted (restart_pool n.service)), discarded, files)
  after_rotate (raised not_published, files) = (ok 1, kept, files)
  after_rotate (raised split, files) = (raised split, discarded, files)
  after_rotate (raised runtime, files) = (raised runtime, discarded, files)
  after_rotate (raised unexpected, files) = (raised unexpected, discarded, files)

  abbrev pub after_gate : Text → Outcome Raise Bool → Files → Ended
  after_gate candidate (raised e) files = (raised e, left, files)
  after_gate candidate (ok false) files = (ok 1, discarded, files)
  after_gate candidate (ok true) files =
      after_rotate (rotate n.is_regular n.lock n.answers n.stop candidate files)

  abbrev pub after_build : Outcome Raise Text → Files → Ended
  after_build (raised e) files = (raised e, unbuilt, files)
  after_build (ok candidate) files = after_gate candidate n.gate files

  -- `refresh_and_rotate`; the full bake from the master is golden_build's.
  unfoldable pub refresh_and_rotate : Files → Ended
  unfolding rotate
  refresh_and_rotate files = elim n.preflight [
    | raised e ↦ (raised e, unbuilt, files)
    | ok _ ↦ elim n.from_master [
      | raised e ↦ (raised e, unbuilt, files)
      | ok true ↦ (n.full_bake, unbuilt, files)
      | ok false ↦ after_build n.build files
    ]
  ]

-- The `rotate` command: a hold on the candidate across the gap to the lock, if it can be named.
unfoldable pub retry :
    (is_regular can_hold : Bool)
    → Outcome Raise (Unit {0})
    → Night
    → Text
    → Files
    → Outcome Raise ℕ × Files
unfolding rotate
retry is_regular can_hold preflight n candidate files =
    if not is_regular || not can_hold then (raised not_published, files) else elim preflight [
      | raised e ↦ (raised e, files)
      | ok _ ↦
          let (r, files') = rotate n.is_regular n.lock n.answers n.stop candidate files in
          elim r [
            | raised e ↦ (raised e, files')
            | ok _ ↦ (ok (restarted (restart_pool n.service)), files')
          ]
    ]

-- `main`: each RuntimeError, NothingPublished and SplitState among them, is one line and code 1.
abbrev pub main_code : Outcome Raise ℕ → Outcome Raise ℕ
main_code (ok code) = ok code
main_code (raised not_published) = ok 1
main_code (raised split) = ok 1
main_code (raised runtime) = ok 1
main_code (raised unexpected) = raised unexpected
