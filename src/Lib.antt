-- ===== src/Lib.antt =====
-- win-validator: signature verdicts for Windows executables from a pool of warm Windows VMs.
--
-- An ingress (winval_blastbox/ingress.py) takes an upload behind a body cap, spools it in a job's
-- directory and queues a row in a job store. The pool-manager (winval_blastbox/pool_manager.py) runs
-- as root: it claims a row, reaches the job's directory by descriptors, copies the input, has the
-- engine validate it in a VM (winval_blastbox/vm_pool.py) and writes the verdict back. A timer
-- rebuilds and rotates the VM's golden image (golden_rotate.py). All read AUTHENTICODE_* variables.
--
-- Which file models which part:
-- - EnvFile: parse_env_file and _load_env_file (golden_rotate.py), character by character; Utf8 is
--   the decoding with surrogate escapes that it starts with. `step` is the loop's body, `push` the
--   inner function, `finish` what follows the loop.
-- - Knobs: winval_blastbox/knobs.py, and pool_size (vm_pool.py).
-- - BodyCap: winval_blastbox/body_cap.py. The app behind the wrapper is a tree of receives and sends.
-- - VmPool: fault_of, the agent call, WarmVmPool.validate, start and _reap (vm_pool.py).
-- - Egress: golden_base, authenticode_spec, validate_egress_posture (vm_pool.py) and
--   _refuse_open_egress (pool_manager.py).
-- - Modprobe: _is_self_load and _bridge_nf_loadable (pool_manager.py).
-- - Json, Envelope: _extract_verdict (pool_manager.py), _authenticode_verdict (orchestrator.py).
-- - PoolManager.Paths: _rel_parts and _open_under. Each open sees its own file system, since the
--   ingress changes the tree between two of them.
-- - PoolManager.Store: the job store that the manager relies on, a record of operations and laws;
--   Store.Fence is what swaps under one claim do, Store.Memory a store that satisfies the laws.
-- - PoolManager.Process: _process. The method's locals that outlive an exception are its state; what
--   the file system, the copy, the engine and the clock answer is a record; each step is a definition,
--   and `body`, `handle` and `clean_up` are the try, the except and the finally. Process.Invariant is
--   what holds between the steps.
-- - PoolManager.Start: run, its effects as events. PoolManager.Retention: _sweep_one and
--   _sweep_job_root. PoolManager.Orphans: _recover_orphans.
-- - PoolManager.Removal: _rm_tree_fd and _rm_job_dir, call by call.
-- - Engine: engine.py (winval_blastbox): the knob warnings, the summary and detonate. Engine.Singleton:
--   get_pool and shutdown_pool, as the interleavings of any number of threads. HostRunner: host_runner.py
--   (winval_blastbox), validate_to_dir and main.
-- - Orchestrator: JobStore (orchestrator.py) with create, the updates and a run of a job's engines;
--   `others` is what the other threads do between two operations under the lock. Orchestrator.Scan:
--   the scan route.
-- - Promotion: _promote with _mktemp, _checked_copy and _backup_current (golden_rotate.py), which
--   publish a new golden image as a disk twin and a RAM twin. Rotation: rotate, restart_pool,
--   refresh_and_rotate, the rotate command and main. `wait_warm` is restart_pool's loop, recursion on
--   the looks in front of its deadline.
-- - Prune: _prune_backups and _held_backups. Locked: _rotate_locked, the composition of Promotion, Chain
--   and Prune on one store. Preflight: rotation_preflight, in three parts: Preflight.Host what is
--   asked before the lock (with the manager's start guards, from Egress), Preflight.Check the hold, the
--   prune and the chain's record under it and the last checks, Preflight itself the two paths' shapes and
--   the space (all golden_rotate.py).
-- - Chain: _read_depth, chain_length, _keep_as_unrecorded, _record_chain and rebake_source; Chain.Markers what
--   the prune does to the markers, which stand with the records and not in the folder's list. Refresh:
--   refresh_result (all golden_rotate.py).
--
-- Conventions: a text is a list of code points, a byte string a list of numbers; an exception is a
-- value of the model's own, with its message only where the program reads it. int() reads ASCII
-- digits, with Python's bound of 4300 digits; lower() maps ASCII letters and the Kelvin sign. The copy
-- loop is recursion on the list of reads, VmPool.poll_loop on the number of looks that the deadline
-- leaves; the decimal printer's fuel is the number plus one, more than its digits. Times are seconds. The
-- recursion of _rm_tree_fd is on a depth, Python's bound on it, and any depth above the tree's is enough;
-- the ingress moves in front of each of its calls. The names in the backup folder are ASCII without line
-- ends.
--
-- Parameters: floats, json.loads, json.dumps, repr and str of a JSON value, hashlib, urllib, modprobe(8),
-- the file system's answers, blastbox's parsers, its WarmPool, its run_detonation and its job store. Its
-- warning contract is the bound of 2000 characters on a message that engine.py names.
--
-- Not modelled: the logging; the other HTTP routes; the orchestrator's views; the publication, the ready
-- file and the claim loop of the manager; the rest of golden_rotate.py (the sweep of the
-- temporaries, the preflight's probe files, the build and the gate) and golden_build.py (libvirt and
-- SSH); deploy/ and golden-packer/.
pub mod Base
pub mod Utf8
pub mod Engine
pub mod EnvFile
pub mod Knobs
pub mod HostRunner
pub mod Json
pub mod VmPool
pub mod Envelope
pub mod Orchestrator
pub mod Preflight
pub mod Promotion
pub mod Rotation
pub mod Chain
pub mod Prune
pub mod Refresh
pub mod PoolManager
pub mod Locked
pub mod Modprobe
pub mod Egress
pub mod BodyCap
