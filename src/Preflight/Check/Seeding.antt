-- ===== src/Preflight/Check/Seeding.antt =====
-- The record of the depth behind its seeding.
use win_validator.Base.{
  ℕ, ◌≤◌, ◌≡◌, refl, sym, ap, ◌∙◌, subst, inl, inr, Bool, true, false, List, [], ◌∷◌, All, Option,
  none, some, ℤ, pos, negsuc, Outcome, ok, raised, ltb, ==_iff, arith, Bool-cases, if◌then◌else◌,
}
use win_validator.Chain.{
  Depth, Marker, newest, Records, read_depth, newer_of, depth_of, chain_length,
}
use win_validator.Preflight.Host.{Why, Host, int_eq}
use win_validator.Preflight.Check.{reads, made, seeded}

-- A copy, if there is one, is not from later than `now`.
abbrev pub IsPast : ℕ → Option Depth → Type 0
IsPast now none = Unit
IsPast now (some d) = d.mtime ≤ now

abbrev pub ArePast : ℕ → Records → Type 0
ArePast now r = IsPast now r.chain × IsPast now r.mirror × All (λ m. m.copy.mtime ≤ now) r.markers

newest-IsPast :
    (now : ℕ) (ms : List Marker) → All (λ m. m.copy.mtime ≤ now) ms → IsPast now (newest ms)
newest-IsPast now [] h = tt
newest-IsPast now (m ∷ ms) (past, h) =
    first_past now m.copy (newest ms) past (newest-IsPast now ms h)
  where
    first_past :
        (now : ℕ) (d : Depth) (o : Option Depth)
        → d.mtime ≤ now
        → IsPast now o
        → IsPast now (newer_of (some d) o)
    first_past now d none h k = h
    first_past now d (some e) h k = ground arith

int_eq_sound : (a b : ℤ) → int_eq a b ≡ true → a ≡ b
int_eq_sound (pos m) (pos n) h = ap pos ((==_iff m n).0 h)
int_eq_sound (negsuc m) (negsuc n) h = ap negsuc ((==_iff m n).0 h)
int_eq_sound (pos m) (negsuc n) h = cc
int_eq_sound (negsuc m) (pos n) h = cc

newest_first_of :
    (max : ℤ) (d : Depth) (b c : Option Depth)
    → IsPast d.mtime b
    → IsPast d.mtime c
    → depth_of max (newer_of (newer_of (some d) b) c) ≡ read_depth max d
newest_first_of max d none none h k = refl
newest_first_of max d none (some c) h k = ground arith
newest_first_of max d (some b) none h k = ground arith
newest_first_of max d (some b) (some c) h k = ground arith

-- Two copies that read alike, of which the second is as new as any.
newest_alike :
    (max : ℤ) (c d : Depth) (k : Option Depth)
    → IsPast d.mtime k
    → read_depth max c ≡ read_depth max d
    → depth_of max (newer_of (newer_of (some c) (some d)) k) ≡ read_depth max d
newest_alike max c d none h same = ground (arith, same)
newest_alike max c d (some k) h same = elim (Bool-cases (ltb c.mtime d.mtime)) [
  | inl later ↦ rw later (ground arith)
  | inr other ↦ let newest : ltb c.mtime k.mtime ≡ false = ground arith in rw (other, newest) same
]

int_eq_refl : (a : ℤ) → int_eq a a ≡ true
int_eq_refl (pos n) = (==_iff n n).1 refl
int_eq_refl (negsuc n) = (==_iff n n).1 refl

-- The record beside the golden reads as the depth did, and so does the depth.
abbrev pub Seeds : Host → Records → Records → Type 0
Seeds q r end =
    let want = chain_length q.max_chain r in
    (reads q want end.chain ≡ true) × (chain_length q.max_chain end ≡ want)

abbrev pub SeedsIfOk : Host → Records → Outcome Why Records → Type 0
SeedsIfOk q r (ok end) = Seeds q r end
SeedsIfOk q r (raised e) = Unit

module _ (q : Host) (r : Records) (past : ArePast q.setting.now r) where
  want : ℤ
  want = chain_length q.max_chain r

  mirror_of : (alike written : Bool) → Option Depth
  mirror_of alike written = if alike then r.mirror else if written then made q want else r.mirror

  mirror_of-IsPast : (alike written : Bool) → IsPast q.setting.now (mirror_of alike written)
  unfolding mirror_of
  mirror_of-IsPast true written = past.1
  mirror_of-IsPast false true = omega arith
  mirror_of-IsPast false false = past.1

  -- The record beside the golden is written.
  anew :
      (alike written : Bool)
      → Seeds q r (record r { chain = made q want; mirror = mirror_of alike written })
  unfolding chain_length want
  anew alike written = (
    int_eq_refl want,
    newest_first_of q.max_chain (record { mtime = q.setting.now; depth = some want })
        (mirror_of alike written) (newest r.markers) (mirror_of-IsPast alike written)
        (newest-IsPast q.setting.now r.markers past.2),
  )

  -- It stands as it was, and the mirror is written or not.
  as_it_was :
      (alike written : Bool) (o : Option Depth)
      → r.chain ≡ o
      → reads q want o ≡ true
      → Seeds q r (record r { mirror = mirror_of alike written })
  unfolding chain_length want mirror_of
  as_it_was true written o e h = (subst (λ o. reads q want o ≡ true) (sym e) h, refl)
  as_it_was false false o e h = (subst (λ o. reads q want o ≡ true) (sym e) h, refl)
  as_it_was false true none e h = cc
  as_it_was false true (some d) e h = (
    subst (λ o. reads q want o ≡ true) (sym e) h,
    ap (λ c. depth_of q.max_chain (newer_of (newer_of c (made q want)) (newest r.markers))) e
        ∙ newest_alike q.max_chain d (record { mtime = q.setting.now; depth = some want })
            (newest r.markers) (newest-IsPast q.setting.now r.markers past.2)
            (int_eq_sound (read_depth q.max_chain d) want h),
  )

  -- The seeding of the record, where it goes through.
  pub seeded-Seeds : SeedsIfOk q r (seeded q r)
  unfolding seeded want mirror_of
  seeded-Seeds = elim (Bool-cases (q.probe_written)) [
    | inr fails ↦ rw fails tt
    | inl works ↦ elim (Bool-cases (reads q want r.chain)) [
      | inl same ↦
          rw (works, same) (as_it_was (reads q want r.mirror) q.mirror_written r.chain refl same)
      | inr other ↦ elim (Bool-cases (q.chain_written)) [
        | inl written ↦ rw (works, other, written) (anew (reads q want r.mirror) q.mirror_written)
        | inr not_written ↦ rw (works, other, not_written) tt
      ]
    ]
  ]
