-- ===== src/PoolManager/Process/Verdict.antt =====
-- Which samples `_process` gives to the engine, and which it keeps.
use win_validator.Base.{length, ◌≤◌, ◌≡◌, true, false, ℕ, arith}
use win_validator.PoolManager.Store.{JobStore}
use win_validator.PoolManager.Process.{Failure, Job, Answers, Locals, clean_up, process}
use win_validator.PoolManager.Process.Invariant.{Validatable}
use win_validator.PoolManager.Process.Always.{before_clean_up, before_clean_up-Inv}

module _ (store : JobStore Failure) (max_input : ℕ) (job : Job) (a : Answers)
    (before : store.S) where
  -- If the engine ran, the spooled input was a plain file with one name, of a size within the bound,
  -- and the copy that it ran on is within the bound and has the digest that the ingress recorded,
  -- if it did.
  pub process-validated :
      (process store max_input job a before).validated ≡ true
      → Validatable store max_input job a before (process store max_input job a before).copied
  unfolding process clean_up
  process-validated = (before_clean_up-Inv store max_input job a before).checked

  -- The scratch copy stays within the bound, however the input grows.
  pub process-bounded : length (process store max_input job a before).copied ≤ max_input
  unfolding process clean_up
  process-bounded = (before_clean_up-Inv store max_input job a before).bounded

  clean_up-kept :
      (s : Locals store.S)
      → s.spooled ≡ true
      → s.keep_input ≡ true
      → (clean_up store max_input job a s).spooled ≡ true
  unfolding clean_up
  clean_up-kept s p h = ground arith

  -- An input kept as evidence has not been validated, and keeps its name.
  pub process-kept :
      (process store max_input job a before).keep_input ≡ true
      → ((process store max_input job a before).validated ≡ false)
        × ((process store max_input job a before).spooled ≡ true)
  unfolding process clean_up
  process-kept h =
      let inv = before_clean_up-Inv store max_input job a before in
      (inv.kept h, clean_up-kept (before_clean_up store max_input job a before) inv.in_place h)
