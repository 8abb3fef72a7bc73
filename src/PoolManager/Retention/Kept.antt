-- ===== src/PoolManager/Retention/Kept.antt =====
-- What the retention removes.
use win_validator.Base.{
  ℕ, ◌≤◌, ◌≡◌, inl, inr, Bool, true, false, not, ◌&&◌, ◌||◌, List, [], ◌∷◌, Option, none, some,
  or_else, codes, text_eq, ltb, ok, arith, Bool-cases, Outcome-cases, if◌then◌else◌,
}
use win_validator.PoolManager.Retention.{Row, Entry, is_live, keeps, sweep_one, sweep_root}

-- A row in a terminal status that was finished by the cutoff.
abbrev pub IsOver : ℕ → Option Row → Type 0
IsOver cutoff none = Unit
IsOver cutoff (some row) = (is_live row.status ≡ false) × (or_else row.finished_at 0 ≤ cutoff)

keeps-IsOver : (cutoff : ℕ) (row : Option Row) → keeps cutoff row ≡ false → IsOver cutoff row
keeps-IsOver cutoff none h = tt
keeps-IsOver cutoff (some row) h = ground arith

-- An entry that may go: a directory, not a link, older than the cutoff, not lost+found, and in the
-- job root one whose row was read and is over, or absent.
abbrev pub MayGo : Bool → ℕ → Entry → Type 0
MayGo in_job_root cutoff d =
    (d.is_link ≡ false)
    × (d.is_dir ≡ true)
    × (d.mtime ≤ cutoff)
    × (text_eq d.name (codes "lost+found") ≡ false)
    × ((row : Option Row) × ((if in_job_root then d.row else ok none) ≡ ok row) × IsOver cutoff row)

sweep_one-MayGo :
    (in_job_root : Bool) (cutoff : ℕ) (d : Entry)
    → sweep_one in_job_root cutoff d ≡ true
    → MayGo in_job_root cutoff d
unfolding sweep_one
sweep_one-MayGo in_job_root cutoff d h =
    elim (Bool-cases (d.is_link || not d.is_dir || ltb cutoff d.mtime)) [
      | inl stays ↦ cc (rw (sweep_one, stays) at h)
      | inr old ↦ elim (Bool-cases (text_eq d.name (codes "lost+found"))) [
        | inl named ↦ cc (rw (sweep_one, old, named) at h)
        | inr plain ↦ elim (Outcome-cases (if in_job_root then d.row else ok none)) [
          | inr (e, unread) ↦ cc (rw (sweep_one, old, plain, unread) at h)
          | inl (row, read) ↦
              let both : (not (keeps cutoff row) && d.removes) ≡ true =
                rw (sweep_one, old, plain, read) at h in
              (
                ground arith,
                ground arith,
                ground arith,
                plain,
                (row, read, keeps-IsOver cutoff row (ground arith)),
              )
        ]
      ]
    ]

-- What is left of a root is a part of it, in order, and each entry that went could go.
pub data Swept (in_job_root : Bool) (cutoff : ℕ) : List Entry → List Entry → Type 0 where
  none_left : Swept in_job_root cutoff [] []
  kept :
      (d : Entry) {ds left : List Entry}
      → Swept in_job_root cutoff ds left
      → Swept in_job_root cutoff (d ∷ ds) (d ∷ left)
  gone :
      (d : Entry) {ds left : List Entry}
      → MayGo in_job_root cutoff d
      → Swept in_job_root cutoff ds left
      → Swept in_job_root cutoff (d ∷ ds) left

-- A sweep of a root keeps its entries, in order, but for some that may go: directories, not links,
-- older than the cutoff, and in the job root without a row or with one that is terminal and was
-- finished by the cutoff.
pub sweep_root-Swept :
    (in_job_root : Bool) (cutoff : ℕ) (ds : List Entry)
    → Swept in_job_root cutoff ds (sweep_root in_job_root cutoff ds)
unfolding sweep_root
sweep_root-Swept in_job_root cutoff [] = none_left
sweep_root-Swept in_job_root cutoff (d ∷ ds) = elim (Bool-cases (sweep_one in_job_root cutoff d)) [
  | inl goes ↦
      rw (sweep_root, goes)
        (gone d (sweep_one-MayGo in_job_root cutoff d goes)
          (sweep_root-Swept in_job_root cutoff ds))
  | inr stays ↦ rw (sweep_root, stays) (kept d (sweep_root-Swept in_job_root cutoff ds))
]
