-- ===== src/BodyCap/Cap.antt =====
-- What the wrapped app can be made to read, and what the client of an oversize request is told.
use win_validator.Base.{
  ℕ, ◌+◌, ◌≤◌, ◌≡◌, refl, true, false, List, [], ◌∷◌, ◌++◌, length, arith, if◌then◌else◌, Text, ap,
}
use win_validator.BodyCap.{
  Received, request, disconnect, other_received, Sent, response_start, response_body, other_sent,
  App, receive, send, returns, raises, State, fresh, Ran, reject, counting_receive, guarded_send,
  run_inner, settle, declared, within, http, call,
}

-- The bytes of request body in a message, and among messages.
abbrev pub message_bytes : Received → ℕ
message_bytes (request body) = length body
message_bytes _ = 0

abbrev pub body_bytes : List Received → ℕ
body_bytes [] = 0
body_bytes (m ∷ ms) = message_bytes m + body_bytes ms

-- In the state `s`, `n` more bytes may be handed on.
record HasRoom (cap : ℕ) (s : State) (n : ℕ) : Type 0 where
  closed : s.over ≡ true → n ≡ 0
  open_ : s.over ≡ false → s.seen ≤ cap → s.seen + n ≤ cap

counting_receive-HasRoom :
    (cap : ℕ) (s : State) (ms : List Received) (n : ℕ)
    → let (m, s', later) = counting_receive cap s ms in
      HasRoom cap s' n → HasRoom cap s (message_bytes m + n)
unfolding counting_receive
counting_receive-HasRoom cap s [] n h = ground (arith, h.closed, h.open_)
counting_receive-HasRoom cap s (request body ∷ ms) n h = ground (arith, h.closed, h.open_)
counting_receive-HasRoom cap s (disconnect ∷ ms) n h = ground (arith, h.closed, h.open_)
counting_receive-HasRoom cap s (other_received ∷ ms) n h = ground (arith, h.closed, h.open_)

guarded_send-HasRoom :
    (cap : ℕ) (s : State) (m : Sent) (n : ℕ) → HasRoom cap (guarded_send s m).1 n → HasRoom cap s n
unfolding guarded_send
guarded_send-HasRoom cap s m n h = ground (arith, h.closed, h.open_)

run_inner-HasRoom :
    (cap : ℕ) (app : App) (s : State) (ms : List Received)
    → HasRoom cap s (body_bytes (run_inner cap app s ms).given)
unfolding run_inner
run_inner-HasRoom cap (receive k) s ms =
    let (m, s', later) = counting_receive cap s ms in
    counting_receive-HasRoom cap s ms _ (run_inner-HasRoom cap (k m) s' later)
run_inner-HasRoom cap (send m app) s ms =
    let (out, s') = guarded_send s m in
    guarded_send-HasRoom cap s m _ (run_inner-HasRoom cap app s' ms)
run_inner-HasRoom cap returns s ms = ground arith
run_inner-HasRoom cap raises s ms = ground arith

settle-given : (r : Ran) → (settle r).given ≡ r.given
unfolding settle
settle-given r = ground arith

-- Whatever the app does and the client sends, the app of an http request is handed at most `cap`
-- bytes of body: what lies past the bound is never parsed or spooled.
pub call-le-cap :
    (cap : ℕ) (app : App) (headers : List (Text × Text)) (ms : List Received)
    → body_bytes (call cap app (http headers) ms).given ≤ cap
unfolding call
call-le-cap cap app headers ms =
    ground
      (arith, settle-given (run_inner cap app fresh ms), (run_inner-HasRoom cap app fresh ms).open_)

-- The status codes of the responses that were begun.
abbrev pub statuses : List Sent → List ℕ
statuses [] = []
statuses (response_start status _ ∷ ms) = status ∷ statuses ms
statuses (response_body _ ∷ ms) = statuses ms
statuses (other_sent ∷ ms) = statuses ms

statuses-append : (xs ys : List Sent) → statuses (xs ++ ys) ≡ statuses xs ++ statuses ys
statuses-append [] ys = refl
statuses-append (response_start status _ ∷ ms) ys = ap (λ t. status ∷ t) (statuses-append ms ys)
statuses-append (response_body _ ∷ ms) ys = statuses-append ms ys
statuses-append (other_sent ∷ ms) ys = statuses-append ms ys

-- What is begun from `s` on, if in the end no response of the app's had begun.
abbrev begun : State → State → List ℕ
begun s final = if s.answered then [] else if final.answered then 413 ∷ [] else []

abbrev Answers : State → Ran → Type 0
Answers s r =
    r.state.started ≡ false
    → (s.started ≡ false)
      × (s.answered ≡ true → r.state.answered ≡ true)
      × (statuses r.sent ≡ begun s r.state)

guarded_send-Answers :
    (s : State) (m : Sent) (r : Ran)
    → Answers (guarded_send s m).1 r
    → Answers s (record r { sent = (guarded_send s m).0 ++ r.sent })
unfolding guarded_send
guarded_send-Answers s (response_start status headers) r h = ground (arith, h)
guarded_send-Answers s (response_body body) r h = ground (arith, h)
guarded_send-Answers s other_sent r h = ground (arith, h)

counting_receive-Answers :
    (cap : ℕ) (s : State) (ms : List Received) (r : Ran)
    → Answers (counting_receive cap s ms).1 r
    → Answers s r
unfolding counting_receive
counting_receive-Answers cap s [] r h = ground (arith, h)
counting_receive-Answers cap s (request body ∷ ms) r h = ground (arith, h)
counting_receive-Answers cap s (disconnect ∷ ms) r h = ground (arith, h)
counting_receive-Answers cap s (other_received ∷ ms) r h = ground (arith, h)

run_inner-Answers :
    (cap : ℕ) (app : App) (s : State) (ms : List Received) → Answers s (run_inner cap app s ms)
unfolding run_inner
run_inner-Answers cap (receive k) s ms =
    let (m, s', later) = counting_receive cap s ms in
    counting_receive-Answers cap s ms (run_inner cap (k m) s' later)
      (run_inner-Answers cap (k m) s' later)
run_inner-Answers cap (send m app) s ms =
    let (out, s') = guarded_send s m in
    guarded_send-Answers s m (run_inner cap app s' ms) (run_inner-Answers cap app s' ms)
run_inner-Answers cap returns s ms = ground arith
run_inner-Answers cap raises s ms = ground arith

settle-Answers :
    (r : Ran)
    → Answers fresh r
    → r.state.over ≡ true
    → r.state.started ≡ false
    → (statuses (settle r).sent ≡ 413 ∷ []) × ((settle r).escaped ≡ false)
unfolding settle
settle-Answers r h o n = ground (arith, h, statuses-append r.sent reject)

-- If the body turned out to be over the bound and the app had begun no response of its own by the
-- time that it ended, the client is sent the beginning of exactly one response, with status 413,
-- and no exception reaches the server, whatever the app tried to send or raised.
pub call_refuses :
    (cap : ℕ) (app : App) (headers : List (Text × Text)) (ms : List Received)
    → declared cap headers ≡ within
    → (run_inner cap app fresh ms).state.over ≡ true
    → (run_inner cap app fresh ms).state.started ≡ false
    → let r = call cap app (http headers) ms in (statuses r.sent ≡ 413 ∷ []) × (r.escaped ≡ false)
unfolding call
call_refuses cap app headers ms d o n =
    rw (call, d)
      (settle-Answers (run_inner cap app fresh ms) (run_inner-Answers cap app fresh ms) o n)
