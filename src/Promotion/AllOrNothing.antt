-- ===== src/Promotion/AllOrNothing.antt =====
-- A promotion publishes both twins, or neither, or says which of them it did.
use win_validator.Base.{
  ℕ, zero, suc, ◌≡◌, refl, sym, ap, ◌∙◌, Bool, true, false, not, ◌&&◌, ◌||◌, Option, none, some,
  Text, length, take, ltb, ◌==◌, arith, [], ◌∷◌, Bool-cases, &&-true, inl, inr,
}
use win_validator.Promotion.{
  Copy, Answers, Files, Result, promoted, nothing_published, split_state, copied, is_whole, cleaned,
  backup_of, roll_from, roll_back_to, roll_back, rename_ram, rename_disk, publish_with,
  copy_ram_twin, copy_disk_twin, promote,
}

take_whole : (n : ℕ) (s : Text) → length (take n s) ≡ length s → take n s ≡ s
take_whole zero [] h = refl
take_whole zero (c ∷ s) h = cc
take_whole (suc n) [] h = refl
take_whole (suc n) (c ∷ s) h = ap (λ t. c ∷ t) (take_whole n s (omega (arith, h)))

-- A temporary that passed the checks is the whole source.
is_whole-copied : (c : Copy) (src : Text) → is_whole c src ≡ true → copied c src ≡ some src
unfolding is_whole
is_whole-copied c src h = ground (arith, take_whole c.bytes src)

-- What each way out says of the twins, from those that stood before.
abbrev pub Says : Text → Files → Result × Files → Type 0
Says candidate before (promoted, f) = (f.disk ≡ some candidate) × (f.ram ≡ some candidate)
Says candidate before (nothing_published, f) = (f.disk ≡ before.disk) × (f.ram ≡ before.ram)
Says candidate before (split_state true, f) =
    (f.disk ≡ some candidate) × (f.ram ≡ before.ram) × (f.backup ≡ before.disk)
Says candidate before (split_state false, f) = (f.disk ≡ some candidate) × (f.ram ≡ before.ram)

module _ (a : Answers) (candidate : Text) (before : Files) where
  roll_from-Says :
      (old : Text) (f : Files)
      → f.disk ≡ some candidate
      → f.ram ≡ before.ram
      → f.backup ≡ some old
      → before.disk ≡ some old
      → Says candidate before (roll_from a old f)
  unfolding roll_from
  roll_from-Says old f d r b o = elim (Bool-cases (is_whole a.rollback old && a.rollback_renames)) [
    | inl back ↦
        rw (roll_from, back) (is_whole-copied a.rollback old (&&-true _ _ back).0 ∙ sym o, r)
    | inr stuck ↦ rw (roll_from, stuck) (d, r, b ∙ sym o)
  ]

  roll_back-Says :
      (backed_up : Bool) (f : Files)
      → f.disk ≡ some candidate
      → f.ram ≡ before.ram
      → (backed_up ≡ true → f.backup ≡ before.disk)
      → Says candidate before (roll_back a backed_up f)
  unfolding roll_back
  roll_back-Says backed_up f d r b = elim (Bool-cases (backed_up && a.backup_exists)) [
    | inr absent ↦ rw (roll_back, absent) (d, r)
    | inl there ↦ rw (roll_back, there) (from (f.backup) refl (&&-true _ _ there).0)
  ]
    where
      from :
          (o : Option Text)
          → f.backup ≡ o
          → backed_up ≡ true
          → Says candidate before (roll_back_to a o f)
      from none e u = (d, r)
      from (some old) e u = roll_from-Says old f d r e (sym (b u) ∙ e)

  rename_ram-Says :
      (backed_up : Bool) (f : Files)
      → f.disk ≡ some candidate
      → f.ram ≡ before.ram
      → f.ram_tmp ≡ some candidate
      → (backed_up ≡ true → f.backup ≡ before.disk)
      → Says candidate before (rename_ram a backed_up f)
  unfolding rename_ram
  rename_ram-Says backed_up f d r t b = elim (Bool-cases (a.ram_renames)) [
    | inl moved ↦ rw (rename_ram, moved) (d, t)
    | inr stuck ↦ rw (rename_ram, stuck) (roll_back-Says backed_up (cleaned a f) d r b)
  ]

  rename_disk-Says :
      (backed_up : Bool) (f : Files)
      → f.disk ≡ before.disk
      → f.ram ≡ before.ram
      → f.disk_tmp ≡ some candidate
      → f.ram_tmp ≡ some candidate
      → (backed_up ≡ true → f.backup ≡ before.disk)
      → Says candidate before (rename_disk a backed_up f)
  unfolding rename_disk
  rename_disk-Says backed_up f d r t t' b = elim (Bool-cases (a.disk_renames)) [
    | inl moved ↦
        rw (rename_disk, moved)
          (rename_ram-Says backed_up (record f { disk = f.disk_tmp; disk_tmp = none }) t r t' b)
    | inr stuck ↦ elim (Bool-cases backed_up) [
      | inl taken ↦ rw (rename_disk, stuck, taken) (d, r)
      | inr bare ↦ rw (rename_disk, stuck, bare) (d, r)
    ]
  ]

  abbrev backup_fails : Text → Bool
  backup_fails old =
      ltb a.free_backup (length old)
      || not (a.backup_returns_0 && (length (take a.backup_bytes old) == length old))
      || not a.backup_renames

  whole : (old : Text) → backup_fails old ≡ false → length (take a.backup_bytes old) ≡ length old
  whole old h = ground arith

  publish-Says :
      (f : Files)
      → f.disk ≡ before.disk
      → f.ram ≡ before.ram
      → f.disk_tmp ≡ some candidate
      → f.ram_tmp ≡ some candidate
      → Says candidate before (publish_with a (backup_of a f.disk f))
  publish-Says f d r t t' = by_disk (f.disk) refl
    where
      by_disk :
          (o : Option Text) → f.disk ≡ o → Says candidate before (publish_with a (backup_of a o f))
      by_disk none e = rename_disk-Says false f d r t t' (λ impossible. cc)
      by_disk (some old) e = elim (Bool-cases (backup_fails old)) [
        | inl bad ↦ rw bad (d, r)
        | inr good ↦ rw good (
            rename_disk-Says true (record f { backup = some (take a.backup_bytes old) }) d r t t'
              (λ _. ap some (take_whole a.backup_bytes old (whole old good)) ∙ sym e ∙ d))
      ]

  copy_disk_twin-Says :
      (f : Files)
      → f.disk ≡ before.disk
      → f.ram ≡ before.ram
      → Says candidate before (copy_disk_twin a candidate f)
  unfolding copy_disk_twin copy_ram_twin
  copy_disk_twin-Says f d r = elim (Bool-cases (is_whole a.copy_disk candidate)) [
    | inr bad ↦ rw (copy_disk_twin, bad) (d, r)
    | inl first ↦ elim (Bool-cases (is_whole a.copy_ram candidate)) [
      | inr bad ↦ rw (copy_disk_twin, first, copy_ram_twin, bad) (d, r)
      | inl second ↦
          rw (copy_disk_twin, first, copy_ram_twin, second)
            (publish-Says
              (record f {
                disk_tmp = copied a.copy_disk candidate;
                ram_tmp = copied a.copy_ram candidate;
              })
              d r (is_whole-copied a.copy_disk candidate first)
              (is_whole-copied a.copy_ram candidate second))
    ]
  ]

-- Whatever the commands answer and however short a copy is cut: a promotion that returns has
-- published both twins, whole; one that raises NothingPublished has left both as they were, a
-- rollback included; one that raises SplitState has the new disk twin beside the old RAM twin, and
-- where it names an intact backup, that is the old disk twin, whole.
pub promote-Says :
    (a : Answers) (candidate : Text) (before : Files)
    → Says candidate before (promote a candidate before)
unfolding promote
promote-Says a candidate before =
    elim (Bool-cases
      (a.odd_base || ltb a.free_disk (length candidate) || ltb a.free_ram (length candidate))) [
        | inl bad ↦ rw (promote, bad) (refl, refl)
        | inr good ↦ rw (promote, good) (copy_disk_twin-Says a candidate before before refl refl)
      ]
