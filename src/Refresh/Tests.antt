-- ===== src/Refresh/Tests.antt =====
-- Answers of a refresh, and the theorem at one.
use win_validator.Base.{
  ◌≡◌, refl, true, false, Option, none, some, Text, [], ◌∷◌, codes, int_of, ok, raised,
}
use win_validator.Json.{Json, bool, num, obj, field, end}
use win_validator.Refresh.{problems, counts, refresh_result}
use win_validator.Refresh.Proof.{Reported, refresh_result-Reported}

abbrev report : Text → Json
report count = obj (
    field (codes "roots_synced") (bool true) (
      field (codes "disallowed_kill_list_installed") (bool true)
        (field (codes "disallowed_store_count") (num count) end)))

-- A parser that knows reports.
abbrev loads : Text → Option Json
loads [] = none
loads (c ∷ s) = some (report (c ∷ s))

accepted : refresh_result loads (codes "7") ≡ ok (report (codes "7"))
unfolding refresh_result counts int_of
accepted = refl

refused : refresh_result loads (codes "0") ≡ raised (problems false false true)
unfolding refresh_result counts int_of
refused = refl

refresh_result-Reported_example :
    Reported (report (codes "7")) × (loads (codes "7") ≡ some (report (codes "7")))
refresh_result-Reported_example = refresh_result-Reported loads (codes "7") accepted
