-- ===== src/VmPool/Faults.antt =====
-- `fault_of` against what the pool may learn from a failure.
use win_validator.Base.{◌≡◌, ◌↔◌, ⊤, true, false, arith}
use win_validator.VmPool.{
  Exc, url_error, connection_reset, broken_pipe, timed_out, remote_disconnected, http_exception,
  other_os_error, is_broken, worker, unknown, fault_of,
}

-- No connection to the agent was ever made: refused or unreachable, or another system error.
abbrev pub NeverReached : Exc → Type 0
NeverReached (url_error reason) = is_broken reason ≡ false
NeverReached other_os_error = ⊤
NeverReached _ = ⊥

-- The connection was made, and then it stalled or broke, or the answer was torn.
abbrev pub NoAnswer : Exc → Type 0
NoAnswer (url_error reason) = is_broken reason ≡ true
NoAnswer connection_reset = ⊤
NoAnswer broken_pipe = ⊤
NoAnswer timed_out = ⊤
NoAnswer remote_disconnected = ⊤
NoAnswer http_exception = ⊤
NoAnswer _ = ⊥

-- A failure counts against the worker exactly when the agent was never reached, and for nobody
-- exactly when the agent was reached and gave no usable answer; so a sample that makes the agent
-- crash, stall or answer badly never counts against its worker.
pub fault_of_iff :
    (e : Exc) → ((fault_of e ≡ worker) ↔ NeverReached e) × ((fault_of e ≡ unknown) ↔ NoAnswer e)
unfolding fault_of
fault_of_iff (url_error reason) = ground arith
fault_of_iff _ = ground arith
