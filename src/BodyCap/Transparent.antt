-- ===== src/BodyCap/Transparent.antt =====
-- A request within the bound does not notice the wrapper.
use win_validator.Base.{ℕ, ◌+◌, ◌≤◌, ◌≡◌, refl, false, List, [], ◌∷◌, ◌++◌, arith, Text, ap}
use win_validator.BodyCap.{
  Received, request, disconnect, other_received, Sent, response_start, response_body, other_sent,
  App, receive, send, returns, raises, State, fresh, Ran, counting_receive, guarded_send, run_inner,
  run_plain, next_message, settle, declared, within, http, call,
}
use win_validator.BodyCap.Cap.{body_bytes}

-- Two runs look alike from outside.
pub record Alike (r t : Ran) : Type 0 where
  pub sent_alike : r.sent ≡ t.sent
  pub given_alike : r.given ≡ t.given
  pub rest_alike : r.rest ≡ t.rest
  pub escaped_alike : r.escaped ≡ t.escaped

counting_receive_within :
    (cap : ℕ) (s : State) (ms : List Received)
    → s.over ≡ false
    → s.seen + body_bytes ms ≤ cap
    → let (m, s', later) = counting_receive cap s ms in
      (m ≡ (next_message ms).0)
      × (later ≡ (next_message ms).1)
      × (s'.over ≡ false)
      × (s'.seen + body_bytes later ≤ cap)
unfolding counting_receive
counting_receive_within cap s [] o h = ground arith
counting_receive_within cap s (request body ∷ ms) o h = ground arith
counting_receive_within cap s (disconnect ∷ ms) o h = ground arith
counting_receive_within cap s (other_received ∷ ms) o h = ground arith

guarded_send_within :
    (s : State) (m : Sent)
    → s.over ≡ false
    → let (out, s') = guarded_send s m in (out ≡ m ∷ []) × (s'.over ≡ false) × (s'.seen ≡ s.seen)
unfolding guarded_send
guarded_send_within s (response_start status headers) o = ground arith
guarded_send_within s (response_body body) o = ground arith
guarded_send_within s other_sent o = ground arith

receive-Alike :
    (k : Received → App) (r : Ran) (m : Received) (ms' ms : List Received)
    → m ≡ (next_message ms).0
    → ms' ≡ (next_message ms).1
    → Alike r (run_plain (k m) ms') × (r.state.over ≡ false)
    → Alike (record r { given = m ∷ r.given }) (run_plain (receive k) ms) × (r.state.over ≡ false)
unfolding run_plain
receive-Alike k r m ms' ms e l (a, o) =
    rw (← e, ← l)
      (
        record {
          sent_alike = a.sent_alike;
          given_alike = ap (λ u. m ∷ u) a.given_alike;
          rest_alike = a.rest_alike;
          escaped_alike = a.escaped_alike;
        },
        o,
      )

send-Alike :
    (m : Sent) (r t : Ran) (out : List Sent)
    → out ≡ m ∷ []
    → Alike r t × (r.state.over ≡ false)
    → Alike (record r { sent = out ++ r.sent }) (record t { sent = m ∷ t.sent })
      × (r.state.over ≡ false)
send-Alike m r t out e (a, o) = rw e (
  record {
    sent_alike = ap (λ u. m ∷ u) a.sent_alike;
    given_alike = a.given_alike;
    rest_alike = a.rest_alike;
    escaped_alike = a.escaped_alike;
  },
  o,
)

run_inner_within :
    (cap : ℕ) (app : App) (s : State) (ms : List Received)
    → s.over ≡ false
    → s.seen + body_bytes ms ≤ cap
    → Alike (run_inner cap app s ms) (run_plain app ms)
      × ((run_inner cap app s ms).state.over ≡ false)
unfolding run_inner run_plain
run_inner_within cap (receive k) s ms o h =
    let (same, later, not_over, fits) = counting_receive_within cap s ms o h in
    let (m, s', ms') = counting_receive cap s ms in
    receive-Alike k (run_inner cap (k m) s' ms') m ms' ms same later
      (run_inner_within cap (k m) s' ms' not_over fits)
run_inner_within cap (send m app) s ms o h =
    let (one, not_over, seen) = guarded_send_within s m o in
    send-Alike m (run_inner cap app (guarded_send s m).1 ms) (run_plain app ms) (guarded_send s m).0
      one (run_inner_within cap app (guarded_send s m).1 ms not_over (rw seen h))
run_inner_within cap returns s ms o h = ground arith
run_inner_within cap raises s ms o h = ground arith

settle-Alike : (r t : Ran) → r.state.over ≡ false → Alike r t → Alike (settle r) t
unfolding settle
settle-Alike r t o a = ground arith

-- The bytes that the client sends fit the bound, and no declared length exceeds it: then the
-- wrapper is not noticed. The app is given the same messages, the client is sent the same ones,
-- the same messages are left, and the same exception comes out as without the wrapper.
pub call-run_plain :
    (cap : ℕ) (app : App) (headers : List (Text × Text)) (ms : List Received)
    → declared cap headers ≡ within
    → body_bytes ms ≤ cap
    → Alike (call cap app (http headers) ms) (run_plain app ms)
unfolding call
call-run_plain cap app headers ms d h =
    let (alike, not_over) = run_inner_within cap app fresh ms refl (omega (arith, h)) in
    rw (call, d) (settle-Alike (run_inner cap app fresh ms) (run_plain app ms) not_over alike)
