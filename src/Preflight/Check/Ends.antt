-- ===== src/Preflight/Check/Ends.antt =====
-- How a preflight ends.
use win_validator.Base.{
  ap, ◌∙◌, ◌≤◌, ℕ, List, All, not, ◌≡◌, refl, sym, subst, inl, inr, ◌⊎◌, Bool, true, false, Option,
  none, some, Text, Outcome, ok, raised,
}
use win_validator.Egress.{Blastbox}
use win_validator.Chain.Markers.{
  goes, without_superseded, pruned_records, chain_length-pruned_records,
}
use win_validator.Chain.Newest.{All-keep-All}
use win_validator.Prune.{Setting}
use win_validator.Chain.{chain_length, Marker, Depth, Records}
use win_validator.Prune.{path_in}
use win_validator.Preflight.Host.{
  Why, odd_base, Host, Place, beside_image, beside_mirror, State, Verdict, first_checks,
}
use win_validator.Preflight.Check.{
  reads, hold_name, pruned, seeded, after_seed, prune_and_seed, after_mark, under_lock, seed_where,
  lock_with, mark_in, swept_unless, last_checks, after_lock, released, wrapped, begun_with,
  rotation_preflight,
}
use win_validator.Preflight.Check.Seeding.{ArePast, Seeds, SeedsIfOk, seeded-Seeds}
use win_validator.Preflight.Check.Ready.{Ready, Ready-checks}
use win_validator.Preflight.Check.Holds.{
  Missing, Only, Only-marked, Only-swept_unless, released-Missing,
}

abbrev pub name_of : Option (Place × Text) → Option Text
name_of none = none
name_of (some (place, n)) = some n

-- No file has the hold's name, and one that has it can be removed.
abbrev pub Fresh : Host → Option Text → State → Type 0
Fresh q none st = Unit
Fresh q (some n) st =
    Missing n st.backups
    × Missing n st.mirror
    × (q.setting.removes (path_in q.setting.backup_dir n) ≡ true)
    × (q.setting.removes (path_in q.setting.mirror_dir n) ≡ true)

abbrev pub NoHold : Option Text → State → Type 0
NoHold none st = Unit
NoHold (some n) st = Missing n st.backups × Missing n st.mirror

-- The records behind a run: seeded where there is a golden, else the record and its mirror as before and
-- the depth that is read.
abbrev pub Recorded : Host → Bool → Records → Records → Type 0
Recorded q true r end = Seeds q r end
Recorded q false r end =
    (end.chain ≡ r.chain)
    × (end.mirror ≡ r.mirror)
    × (chain_length q.max_chain end ≡ chain_length q.max_chain r)

abbrev pub Ends : Blastbox → Host → State → Outcome Why (Option (Place × Text)) × State → Type 0
Ends b q st (ok hold, end) =
    Ready b q × (name_of hold ≡ hold_name q) × Recorded q q.disk_exists st.records end.records
Ends b q st (raised e, end) = NoHold (hold_name q) end × ((first_checks b q ≡ ok tt) ⊎ (end ≡ st))

abbrev OnlyHold : Option Text → Option (Place × Text) → State → Type 0
OnlyHold none hold st = Unit
OnlyHold (some n) hold st = Only n hold st

-- Behind the lock.
abbrev Passed : Host → Bool → Records → Verdict × Option (Place × Text) × State → Type 0
Passed q there r (raised e, hold, end) = Unit
Passed q there r (ok _, hold, end) = (name_of hold ≡ hold_name q) × Recorded q there r end.records

abbrev with_hold : Option (Place × Text) → Verdict × State → Verdict × Option (Place × Text) × State
with_hold hold (v, st) = (v, hold, st)

module _ (q : Host) (r : Records) (past : ArePast q.setting.now r) where
  Passed-after_seed :
      (hold : Option (Place × Text)) (st : State) (o : Outcome Why Records)
      → name_of hold ≡ hold_name q
      → SeedsIfOk q r o
      → Passed q true r (with_hold hold (after_seed q o st))
  Passed-after_seed hold st (raised e) named h = tt
  Passed-after_seed hold st (ok end) named h = (named, h)

  Passed-seed_where :
      (hold : Option (Place × Text)) (there : Bool) (st : State)
      → st.records ≡ r
      → name_of hold ≡ hold_name q
      → Passed q there r (with_hold hold (seed_where q there st))
  unfolding seed_where
  Passed-seed_where hold false st same named =
      (named, (ap (λ x. x.chain) same, ap (λ x. x.mirror) same, ap (chain_length q.max_chain) same))
  Passed-seed_where hold true st same named =
      Passed-after_seed hold st (seeded q st.records) named
        (subst (λ x. SeedsIfOk q r (seeded q x)) (sym same) (seeded-Seeds q r past))

  Passed-marked :
      (n : Text) (backup mirror : Bool) (st : State)
      → pruned_records q.setting st.records ≡ r
      → hold_name q ≡ some n
      → Passed q q.disk_exists r (after_mark q n (mark_in q backup mirror n st))
  unfolding prune_and_seed
  Passed-marked n true mirror st same named =
      Passed-seed_where (some (beside_image, n)) q.disk_exists (pruned q _) same (sym named)
  Passed-marked n false true st same named =
      Passed-seed_where (some (beside_mirror, n)) q.disk_exists (pruned q _) same (sym named)
  Passed-marked n false false st same named = tt

  Passed-lock_with :
      (o : Option Text) (st : State)
      → pruned_records q.setting st.records ≡ r
      → hold_name q ≡ o
      → Passed q q.disk_exists r (lock_with q o st)
  unfolding lock_with
  Passed-lock_with none st same named =
      Passed-seed_where none q.disk_exists (pruned q st) same (sym named)
  Passed-lock_with (some n) st same named =
      Passed-marked n q.marks_backup q.marks_mirror st same named

-- From the records behind the prune to those in front of it.
Recorded-pruned_records :
    (q : Host) (there : Bool) (r end : Records)
    → Recorded q there (pruned_records q.setting r) end
    → Recorded q there r end
unfolding pruned_records
Recorded-pruned_records q true r end h =
    subst (λ want. (reads q want end.chain ≡ true) × (chain_length q.max_chain end ≡ want))
      (chain_length-pruned_records q.max_chain q.setting r) h
Recorded-pruned_records q false r end (chain, mirror, depth) =
    (chain, mirror, depth ∙ chain_length-pruned_records q.max_chain q.setting r)

Passed-pruned_records :
    (q : Host) (there : Bool) (r : Records) (x : Verdict × Option (Place × Text) × State)
    → Passed q there (pruned_records q.setting r) x
    → Passed q there r x
Passed-pruned_records q there r (raised e, hold, end) h = tt
Passed-pruned_records q there r (ok tt, hold, end) (named, recorded) =
    (named, Recorded-pruned_records q there r end.records recorded)

without_superseded-ArePast :
    (s : Setting) (now : ℕ) (o : Option Depth) (ms : List Marker)
    → All (λ m. m.copy.mtime ≤ now) ms
    → All (λ m. m.copy.mtime ≤ now) (without_superseded s o ms)
without_superseded-ArePast s now none ms h = h
without_superseded-ArePast s now (some c) ms h =
    All-keep-All (λ m. m.copy.mtime ≤ now) (λ m. not (goes s c.mtime m)) ms h

pruned_records-ArePast :
    (s : Setting) (now : ℕ) (r : Records) → ArePast now r → ArePast now (pruned_records s r)
unfolding pruned_records
pruned_records-ArePast s now r (chain, mirror, markers) =
    (chain, mirror, without_superseded-ArePast s now r.chain r.markers markers)

OnlyHold-lock_with :
    (q : Host) (o : Option Text) (st : State)
    → Fresh q o st
    → let (v, hold, end) = lock_with q o st in OnlyHold o hold end
unfolding lock_with
OnlyHold-lock_with q none st fresh = tt
OnlyHold-lock_with q (some n) st (h, k, r, s) = Only-marked q n q.marks_backup q.marks_mirror st h k

OnlyHold-swept_unless :
    (q : Host) (o : Option Text) (odd : Bool) (hold : Option (Place × Text)) (st : State)
    → OnlyHold o hold st
    → let (v, left, end) = swept_unless q odd hold st in OnlyHold o left end
OnlyHold-swept_unless q none odd hold st h = tt
OnlyHold-swept_unless q (some n) odd hold st h = Only-swept_unless q n odd hold st h

released-NoHold :
    (q : Host) (o : Option Text) (hold : Option (Place × Text)) (st end : State)
    → Fresh q o st
    → OnlyHold o hold end
    → NoHold o (released q hold end)
released-NoHold q none hold st end fresh h = tt
released-NoHold q (some n) hold st end (a, b, r, s) h = released-Missing q n hold end r s h

module _ (b : Blastbox) (q : Host) (st : State) (fresh : Fresh q (hold_name q) st) where
  -- A refusal behind the first checks.
  refused-Ends :
      (e : Why) (hold : Option (Place × Text)) (end : State)
      → first_checks b q ≡ ok tt
      → OnlyHold (hold_name q) hold end
      → Ends b q st (raised e, released q hold end)
  refused-Ends e hold end first h = (released-NoHold q (hold_name q) hold st end fresh h, inl first)

  -- With the answers of the last checks.
  judged-Ends :
      (v : Verdict) (hold : Option (Place × Text)) (end : State)
      → last_checks q ≡ v
      → q.odd_base ≡ false
      → first_checks b q ≡ ok tt
      → OnlyHold (hold_name q) hold end
      → name_of hold ≡ hold_name q
      → Recorded q q.disk_exists st.records end.records
      → Ends b q st (wrapped q (v, hold, end))
  judged-Ends (ok tt) hold end last even first h named recorded =
      (Ready-checks b q first even last, named, recorded)
  judged-Ends (raised e) hold end last even first h named recorded = refused-Ends e hold end first h

  swept-Ends :
      (odd : Bool) (hold : Option (Place × Text)) (end : State)
      → q.odd_base ≡ odd
      → first_checks b q ≡ ok tt
      → OnlyHold (hold_name q) hold end
      → name_of hold ≡ hold_name q
      → Recorded q q.disk_exists st.records end.records
      → Ends b q st (wrapped q (swept_unless q odd hold end))
  unfolding swept_unless
  swept-Ends true hold end odd first h named recorded = refused-Ends odd_base hold end first h
  swept-Ends false hold end even first h named recorded =
      judged-Ends (last_checks q) hold _ refl even first
        (OnlyHold-swept_unless q (hold_name q) false hold end h) named recorded

  after_lock-Ends :
      (x : Verdict × Option (Place × Text) × State)
      → first_checks b q ≡ ok tt
      → (let (v, hold, end) = x in OnlyHold (hold_name q) hold end)
      → Passed q q.disk_exists st.records x
      → Ends b q st (wrapped q (after_lock q x))
  unfolding after_lock
  after_lock-Ends (raised e, hold, end) first h passed = refused-Ends e hold end first h
  after_lock-Ends (ok tt, hold, end) first h (named, recorded) =
      swept-Ends q.odd_base hold end refl first h named recorded

  begun-Ends :
      (v : Verdict)
      → first_checks b q ≡ v
      → ArePast q.setting.now st.records
      → NoHold (hold_name q) st
      → Ends b q st (wrapped q (begun_with v q st))
  unfolding begun_with under_lock
  begun-Ends (raised e) first past none_there = (none_there, inr refl)
  begun-Ends (ok tt) first past none_there =
      after_lock-Ends (lock_with q (hold_name q) st) first
        (OnlyHold-lock_with q (hold_name q) st fresh)
        (Passed-pruned_records q q.disk_exists st.records (lock_with q (hold_name q) st) (
          Passed-lock_with q (pruned_records q.setting st.records)
            (pruned_records-ArePast q.setting q.setting.now st.records past) (hold_name q) st refl
            refl))

Fresh-NoHold : (q : Host) (o : Option Text) (st : State) → Fresh q o st → NoHold o st
Fresh-NoHold q none st fresh = tt
Fresh-NoHold q (some n) st (h, k, r, s) = (h, k)

-- Where no file has the name of the hold that is wanted and one that has it can be removed, and no copy
-- of the chain's record is from the future: a preflight that returns has found the run ready (root, the
-- one base, both paths in shape, the pool-manager's own start guards, the lock, no odd base, the benign
-- and the revoked sample and the spec of the gate where it runs, a size, the space), gives back a hold of exactly the wanted name, and where there is a golden has left
-- a record beside it that reads as the depth did, with the depth unchanged. One that refuses leaves no
-- hold under that name, and changes nothing if it refuses before the lock is held.
pub rotation_preflight-Ends :
    (b : Blastbox) (q : Host) (st : State)
    → Fresh q (hold_name q) st
    → ArePast q.setting.now st.records
    → Ends b q st (rotation_preflight b q st)
unfolding rotation_preflight
rotation_preflight-Ends b q st fresh past =
    begun-Ends b q st fresh (first_checks b q) refl past (Fresh-NoHold q (hold_name q) st fresh)
