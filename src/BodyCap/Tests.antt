-- ===== src/BodyCap/Tests.antt =====
-- Runs of the wrapper, and its theorems at concrete apps.
use win_validator.Base.{◌≤◌, ◌≡◌, refl, List, [], ◌∷◌, codes, length, arith}
use win_validator.BodyCap.{
  Received, request, disconnect, App, receive, send, returns, raises, response_start, response_body,
  detail, declared, over_cap, http, run_plain, call,
}
use win_validator.BodyCap.Cap.{body_bytes, call-le-cap}
use win_validator.BodyCap.Transparent.{Alike, call-run_plain}

-- An upload handler: reads two messages, answers 202, or 400 when the client is gone.
abbrev answer : Received → App
answer disconnect = send (response_start 400 []) raises
answer _ = send (response_start 202 []) (send (response_body []) returns)

abbrev upload : App
upload = receive (λ _. receive answer)

abbrev small : List Received
small = request (1 ∷ 2 ∷ []) ∷ request (3 ∷ []) ∷ []

detail-length : length detail ≡ 71
detail-length = refl

declared_over : declared 9 ((codes "content-length", codes "10") ∷ []) ≡ over_cap
unfolding declared
declared_over = refl

call-le-cap_example : body_bytes (call 2 upload (http []) small).given ≤ 2
call-le-cap_example = call-le-cap 2 upload [] small

call-run_plain_example :
    Alike
      (call 3 upload (http ((codes "content-length", codes "3") ∷ [])) small)
      (run_plain upload small)
unfolding declared
call-run_plain_example =
    call-run_plain 3 upload ((codes "content-length", codes "3") ∷ []) small refl (omega arith)
