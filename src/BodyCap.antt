-- ===== src/BodyCap.antt =====
-- winval_blastbox/body_cap.py: the ASGI wrapper that refuses an oversize request body. The app
-- behind it is any program that receives and sends messages; the server gives a list of messages,
-- and a disconnect when they are used up.
pub mod Cap
pub mod Transparent
mod Tests
use win_validator.Base.{
  ℕ, ◌+◌, ◌*◌, Bool, true, false, not, ◌&&◌, List, [], ◌∷◌, ◌++◌, Option, none, some, Text, codes,
  length, ltb, text_eq, all, is_empty, is_digit, count_digits, max_str_digits, or_else, read_digits,
  if◌then◌else◌,
}

-- What `receive` gives: a chunk of the body, a disconnect, or another message.
pub data Received : Type 0 where
  request : List ℕ → Received
  disconnect : Received
  other_received : Received

pub data Sent : Type 0 where
  response_start : ℕ → List (Text × Text) → Sent
  response_body : Text → Sent
  other_sent : Sent

-- The wrapped app: what it does next, up to its return or an exception.
pub data App : Type 0 where
  receive : (Received → App) → App
  send : Sent → App → App
  returns : App
  raises : App

-- `state`
pub record State : Type 0 where
  pub seen : ℕ
  pub over : Bool
  pub started : Bool
  pub answered : Bool

abbrev pub fresh : State
fresh = record { seen = 0; over = false; started = false; answered = false }

-- What a call did: the messages that reached the client, those that the app was given, the final
-- state, the server's messages that are left, and whether an exception came out.
pub record Ran : Type 0 where
  pub sent : List Sent
  pub given : List Received
  pub state : State
  pub rest : List Received
  pub escaped : Bool

abbrev pub detail : Text
detail = codes "{\"detail\":\"upload exceeds the size bound (AUTHENTICODE_MAX_UPLOAD_MB)\"}"

-- `_reject`
abbrev pub reject : List Sent
reject =
    response_start 413
      ((codes "content-type", codes "application/json") ∷ (codes "content-length", codes "71") ∷ [])
    ∷ response_body detail
    ∷ []

-- `await receive()`
abbrev pub next_message : List Received → Received × List Received
next_message [] = (disconnect, [])
next_message (m ∷ ms) = (m, ms)

-- `counting_receive`
abbrev counted : ℕ → State → Received → Received × State
counted cap s (request body) =
    let seen = s.seen + length body in
    if ltb cap seen
    then (disconnect, record s { seen = seen; over = true })
    else (request body, record s { seen = seen })
counted cap s disconnect = (disconnect, s)
counted cap s other_received = (other_received, s)

unfoldable pub counting_receive : ℕ → State → List Received → Received × State × List Received
counting_receive cap s ms =
    if s.over
    then (disconnect, s, ms)
    else let (m, later) = next_message ms in let (m', s') = counted cap s m in (m', s', later)

abbrev pub is_start : Sent → Bool
is_start (response_start _ _) = true
is_start _ = false

-- `guarded_send`
unfoldable pub guarded_send : State → Sent → List Sent × State
guarded_send s m =
    if s.over && not s.started
    then (if s.answered then ([], s) else (reject, record s { answered = true }))
    else (m ∷ [], if is_start m then record s { started = true } else s)

-- `await self.inner(scope, counting_receive, guarded_send)`
unfoldable pub run_inner : ℕ → App → State → List Received → Ran
run_inner cap (receive k) s ms =
    let (m, s', later) = counting_receive cap s ms in
    let r = run_inner cap (k m) s' later in record r { given = m ∷ r.given }
run_inner cap (send m app) s ms =
    let (out, s') = guarded_send s m in
    let r = run_inner cap app s' ms in record r { sent = out ++ r.sent }
run_inner cap returns s ms = record { sent = []; given = []; state = s; rest = ms; escaped = false }
run_inner cap raises s ms = record { sent = []; given = []; state = s; rest = ms; escaped = true }

-- The `except` (an exception is dropped if the body was over the cap and no response had begun)
-- and the answer that follows it.
unfoldable pub settle : Ran → Ran
settle r =
    let refused = r.state.over && not r.state.started in
    if r.escaped && not refused
    then r
    else if refused && not r.state.answered
    then record r {
      sent = r.sent ++ reject;
      state = record (r.state) { answered = true };
      escaped = false;
    }
    else record r { escaped = false }

-- The first Content-Length of decimal digits that is over the cap refuses the request; one with
-- more digits than `int` reads raises.
pub data Declared : Type 0 where
  within over_cap unreadable : Declared

abbrev pub is_number : Text → Bool
is_number v = not (is_empty v) && all is_digit v

unfoldable pub declared : ℕ → List (Text × Text) → Declared
declared cap [] = within
declared cap ((k, v) ∷ headers) =
    let later = declared cap headers in
    if text_eq k (codes "content-length") && is_number v
    then (if ltb max_str_digits (count_digits v)
        then unreadable
        else if ltb cap (or_else (read_digits 0 false v) 0)
        then over_cap
        else later)
    else later

pub data Scope : Type 0 where
  http : List (Text × Text) → Scope
  other_scope : Scope

-- The app with nothing around it.
unfoldable pub run_plain : App → List Received → Ran
run_plain (receive k) ms =
    let (m, later) = next_message ms in
    let r = run_plain (k m) later in record r { given = m ∷ r.given }
run_plain (send m app) ms = let r = run_plain app ms in record r { sent = m ∷ r.sent }
run_plain returns ms = record { sent = []; given = []; state = fresh; rest = ms; escaped = false }
run_plain raises ms = record { sent = []; given = []; state = fresh; rest = ms; escaped = true }

-- `BodyCap.__call__`
unfoldable pub call : ℕ → App → Scope → List Received → Ran
unfolding run_inner settle declared run_plain
call cap app other_scope ms = run_plain app ms
call cap app (http headers) ms = elim (declared cap headers) [
  | over_cap ↦ record { sent = reject; given = []; state = fresh; rest = ms; escaped = false }
  | unreadable ↦ record { sent = []; given = []; state = fresh; rest = ms; escaped = true }
  | within ↦ settle (run_inner cap app fresh ms)
]

abbrev pub framing_slack : ℕ
framing_slack = 64 * 1024
