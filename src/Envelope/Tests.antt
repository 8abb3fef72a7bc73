-- ===== src/Envelope/Tests.antt =====
-- Runs of the envelope's reader, and its theorem at a sealed envelope.
use win_validator.Base.{◌≡◌, refl, Text, codes, Option, none, some, [], ◌∷◌, ok, raised}
use win_validator.Json.{Json, str, num, obj, arr, cons, nil, field, end, attribute_error}
use win_validator.Envelope.{payload_fields, extract_verdict}

-- A parser that knows one text.
abbrev loads : Text → Option Json
loads [] = none
loads (_ ∷ _) = some (num (codes "1"))

abbrev sealed : Json
sealed = obj (
    field (codes "payload")
      (obj (
        field (codes "fields") (obj (field (codes "authenticode_json") (str (codes "1")) end)) end))
      (field (codes "warnings") (arr (cons (obj (field (codes "code") (str (codes "W")) end)) nil))
        (field (codes "status") (str (codes "engine_error")) end)))

abbrev bare_warning : Json
bare_warning = obj (field (codes "warnings") (arr (cons (str (codes "W")) nil)) end)

sealed_read :
    extract_verdict loads sealed
    ≡ ok (record {
      verdict = num (codes "1");
      warnings = str (codes "W") ∷ [];
      envelope_status = str (codes "engine_error");
    })
unfolding extract_verdict payload_fields
sealed_read = refl

bare_warning_read : extract_verdict loads bare_warning ≡ raised attribute_error
unfolding extract_verdict payload_fields
bare_warning_read = refl
