-- ===== src/Refresh/Proof.antt =====
-- What a refresh that is accepted has reported.
use win_validator.Base.{
  ◌≡◌, refl, ap, true, ◌&&◌, Option, none, some, Text, codes, ok, Bool-cases, inl, inr, &&-true,
}
use win_validator.Json.{Json, null, bool, num, str, arr, obj, Fields}
use win_validator.Refresh.{is_true, counts, value, judge, judge_json, refresh_result}

is_true-eq : (v : Json) → is_true v ≡ true → v ≡ bool true
is_true-eq (bool b) h = ap bool h
is_true-eq null h = cc
is_true-eq (num _) h = cc
is_true-eq (str _) h = cc
is_true-eq (arr _) h = cc
is_true-eq (obj _) h = cc

-- The object, whose two success fields are the literal true and whose census counts.
abbrev pub Reported : Json → Type 0
Reported j =
    (fs : Fields) × (j ≡ obj fs)
    × (value (codes "roots_synced") fs ≡ bool true)
    × (value (codes "disallowed_kill_list_installed") fs ≡ bool true)
    × (counts (value (codes "disallowed_store_count") fs) ≡ true)

judge-Reported : (fs : Fields) {j : Json} → judge (obj fs) fs ≡ ok j → Reported j × (j ≡ obj fs)
judge-Reported fs h = elim (Bool-cases (is_true roots && is_true kill_list && counts census)) [
  | inr short ↦ cc (rw (judge, short) at h)
  | inl all_three ↦
      let (both, third) = &&-true (is_true roots && is_true kill_list) (counts census) all_three in
      let (first, second) = &&-true (is_true roots) (is_true kill_list) both in
      let whole : ok (obj fs) ≡ ok _ = rw (judge, all_three) at h in
      ((fs, cc, is_true-eq roots first, is_true-eq kill_list second, third), cc)
]
  where
    roots : Json
    roots = value (codes "roots_synced") fs

    kill_list : Json
    kill_list = value (codes "disallowed_kill_list_installed") fs

    census : Json
    census = value (codes "disallowed_store_count") fs

-- An answer that is accepted is an object that reports the roots synced and the kill list installed,
-- each by the literal true, and a census of at least 1; and it is given back as it was parsed.
pub refresh_result-Reported :
    (loads : Text → Option Json) (out : Text) {j : Json}
    → refresh_result loads out ≡ ok j
    → Reported j × (loads out ≡ some j)
unfolding refresh_result
refresh_result-Reported loads out {j = j} h = by_parse (loads out) refl h
  where
    by_parse :
        (o : Option Json) → loads out ≡ o → judge_json o ≡ ok j → Reported j × (loads out ≡ some j)
    by_parse none e h = cc
    by_parse (some null) e h = cc
    by_parse (some (bool _)) e h = cc
    by_parse (some (num _)) e h = cc
    by_parse (some (str _)) e h = cc
    by_parse (some (arr _)) e h = cc
    by_parse (some (obj fs)) e h = let (reported, same) = judge-Reported fs h in (reported, cc)
