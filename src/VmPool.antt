-- ===== src/VmPool.antt =====
-- winval_blastbox/vm_pool.py: whose evidence a failed validation is, the call of the guest agent,
-- and the `WarmVmPool` adapter. blastbox's WarmPool, the network and the clock are parameters: what
-- they answer is an argument, and the calls made to the pool are listed in the result.
pub mod Faults
pub mod Slots
pub mod Warmup
mod Tests
use win_validator.Base.{
  ℕ, zero, suc, ◌+◌, Bool, true, false, ◌||◌, List, [], ◌∷◌, ◌++◌, Option, none, some, Text, codes,
  Outcome, ok, raised, ◌>>=◌, length, take, basename, is_empty, ltb, leb, ◌==◌, if◌then◌else◌, ⊤,
}
use win_validator.Json.{Json}

-- The exceptions that a validation can end in, by class; `url_error` wraps its reason.
pub data Exc : Type 0 where
  http_error : Exc
  url_error : Exc → Exc
  connection_reset broken_pipe timed_out : Exc
  remote_disconnected : Exc
  http_exception : Exc
  other_os_error : Exc
  runtime_error value_error other_error : Exc
  keyboard_interrupt system_exit : Exc

-- `isinstance(e, (ConnectionResetError, BrokenPipeError, TimeoutError, socket.timeout))`
abbrev pub is_broken : Exc → Bool
is_broken connection_reset = true
is_broken broken_pipe = true
is_broken timed_out = true
is_broken remote_disconnected = true
is_broken _ = false

-- `isinstance(e, http.client.HTTPException)`; RemoteDisconnected is one too.
abbrev pub is_http_exception : Exc → Bool
is_http_exception http_exception = true
is_http_exception remote_disconnected = true
is_http_exception _ = false

-- `isinstance(e, OSError)`
abbrev pub is_os_error : Exc → Bool
is_os_error http_error = true
is_os_error (url_error _) = true
is_os_error other_os_error = true
is_os_error e = is_broken e

pub data Evidence : Type 0 where
  worker job unknown : Evidence

unfoldable pub fault_of : Exc → Evidence
fault_of http_error = job
fault_of (url_error reason) = if is_broken reason then unknown else worker
fault_of e =
    if is_broken e || is_http_exception e then unknown else if is_os_error e then worker else job

-- `except (KeyboardInterrupt, SystemExit)`
abbrev pub is_stop : Exc → Bool
is_stop keyboard_interrupt = true
is_stop system_exit = true
is_stop _ = false

-- The per-request overrides of one job: `params.get("rev")`, `params.get("scripts")`.
pub record Params : Type 0 where
  pub rev : Option Text
  pub scripts : Option Text

abbrev given : Text → Option Text → List (Text × Text)
given k none = []
given k (some v) = if is_empty v then [] else (k, v) ∷ []

-- The query of the POST, in its order.
unfoldable pub query : Text → Option Params → List (Text × Text)
query path none = (codes "name", basename path) ∷ []
query path (some ps) =
    (codes "name", basename path)
    ∷ (given (codes "rev") ps.rev ++ given (codes "scripts") ps.scripts)

-- `agent_validate`. The file's size, the agent's answer to the request of that query and size (its
-- whole body, or an exception) and `json.loads` are parameters; the body is read up to one byte
-- past the bound.
module _ (response_max : ℕ) (loads : Text → Outcome Exc Json) where
  pub read_verdict : Text → Outcome Exc Json
  read_verdict sent =
      let body = take (suc response_max) sent in
      if ltb response_max (length body) then raised runtime_error else loads body

  pub agent_validate :
      Outcome Exc ℕ
      → (List (Text × Text) → ℕ → Outcome Exc Text)
      → Text
      → Option Params
      → Outcome Exc Json
  agent_validate size post path params = size >>= λ n. post (query path params) n >>= read_verdict

-- What `release` is told: nothing, or that the slot is dirty and whose evidence the failure is.
pub data Release : Type 0 where
  clean : Release
  dirty : Option Evidence → Release

-- `WarmVmPool.validate`: the sample's check on the host, the slot that `claim` gave, the agent's
-- outcome on that slot. The second part lists the slots released, and how.
module _ {Slot : Type 0} where
  abbrev after_call : Slot → Outcome Exc Json → Outcome Exc Json × List (Slot × Release)
  after_call slot (ok verdict) = (ok verdict, (slot, clean) ∷ [])
  after_call slot (raised e) =
      (raised e, (slot, dirty (if is_stop e then none else some (fault_of e))) ∷ [])

  unfoldable pub validate :
      Outcome Exc (Unit {0})
      → Option Slot
      → (Slot → Outcome Exc Json)
      → Outcome Exc Json × List (Slot × Release)
  validate (raised e) claimed call = (raised e, [])
  validate (ok tt) none call = (raised runtime_error, [])
  validate (ok tt) (some slot) call = after_call slot (call slot)

-- `start`: one look at the pool (the warm workers and the stop request; times are milliseconds),
-- or an exception raised inside the loop.
pub data Look : Type 0 where
  sees : (idle : ℕ) → (stop : Bool) → Look
  interrupted : Exc → Look

pub data Wait : Type 0 where
  warm deadline_passed stop_requested out_of_fuel : Wait
  raises : Exc → Wait

abbrev pub reached : Wait → Bool
reached warm = true
reached _ = false

-- The loop. `clock i` is what the test of the `while` reads before look `i`.
unfoldable pub poll_loop : ℕ → ℕ → (ℕ → ℕ) → (ℕ → Look) → ℕ → Wait
poll_loop zero deadline clock look i = out_of_fuel
poll_loop (suc fuel) deadline clock look i =
    let rest = poll_loop fuel deadline clock look (suc i) in
    if leb deadline (clock i) then deadline_passed else elim (look i) [
      | interrupted e ↦ raises e
      | sees idle stop ↦ if leb 1 idle then warm else if stop then stop_requested else rest
    ]

-- The calls made to blastbox's pool.
pub data PoolCall : Type 0 where
  start_pool stop_pool : PoolCall

-- What `start` ends in: a return, the RuntimeError that names why, or the exception.
abbrev pub start_result : Wait → Outcome Exc (Unit {0})
start_result warm = ok tt
start_result (raises e) = raised e
start_result _ = raised runtime_error

unfoldable pub start :
    ℕ → ℕ → ℕ → (ℕ → ℕ) → (ℕ → Look) → Wait × Outcome Exc (Unit {0}) × List PoolCall
unfolding poll_loop
start fuel begun wait_warm clock look =
    let w = poll_loop fuel (begun + wait_warm) clock look 0 in
    (w, start_result w, start_pool ∷ (if reached w then [] else stop_pool ∷ []))

-- `_reap`: the count of `stop()`, or that it raised.
pub data Reaped : Type 0 where
  stop_raised all_stopped : Reaped
  left_running : ℕ → Reaped

unfoldable pub reap : Outcome Exc (Option ℕ) → Reaped
reap (raised _) = stop_raised
reap (ok none) = all_stopped
reap (ok (some zero)) = all_stopped
reap (ok (some (suc n))) = left_running (suc n)
