-- ===== src/Orchestrator/Scan/Tests.antt =====
-- Requests, and the theorem at one.
use win_validator.Base.{ℕ, zero, suc, ◌≡◌, refl, true, [], ◌∷◌, none, some, codes, ok}
use win_validator.PoolManager.Paths.{path_name}
use win_validator.Orchestrator.{Jobs, Engines, evict, create, update_engine}
use win_validator.Orchestrator.Scan.{
  queued, not_queued, Request, accepted, http, checked_name, copy_upload, selected, refuse,
  refuse_engines, refused_before, submit_job, spool, scan,
}
use win_validator.Orchestrator.Scan.Uploads.{Uploads, scan-Uploads}

abbrev registered : Engines
registered e = none

abbrev alone : ℕ → Jobs → Jobs
alone n js = js

-- The other threads evict the job before the handler's second operation.
abbrev evicting : ℕ → Jobs → Jobs
evicting zero js = js
evicting (suc _) js = []

abbrev request : Request
request = record {
  is_ready = true;
  filename = some (codes "../a.exe");
  engines = codes " x ,,y";
  makes_temp = true;
  chunks = ok (codes "ab") ∷ ok (codes "c") ∷ ok [] ∷ [];
  unlinks = true;
  submitted = queued;
}

abbrev refused_request : Request
refused_request = record request { submitted = not_queued (codes "shutdown") }

accepted_run :
    (scan alone (codes "1") registered 3 9 request []).0
    ≡ accepted (codes "1") (codes "x" ∷ codes "y" ∷ [])
unfolding scan checked_name path_name spool copy_upload selected submit_job create evict
accepted_run = refl

too_big_run : (scan alone (codes "1") registered 2 9 request []).0 ≡ http 413
unfolding scan checked_name path_name spool copy_upload selected submit_job create evict
too_big_run = refl

refused_run : (scan alone (codes "1") registered 3 9 refused_request []).0 ≡ http 503
unfolding scan checked_name path_name spool copy_upload selected submit_job create evict
    refused_before refuse refuse_engines update_engine
refused_run = refl

-- The upload stays, with no job to run it.
evicted_run : (scan evicting (codes "1") registered 3 9 refused_request []).1 ≡ true
unfolding scan checked_name path_name spool copy_upload selected submit_job create evict
    refused_before refuse refuse_engines update_engine
evicted_run = refl

scan-Uploads_example :
    Uploads evicting
      (codes "1")
      registered
      refused_request
      (scan evicting (codes "1") registered 3 9 refused_request [])
scan-Uploads_example = scan-Uploads evicting (codes "1") registered 3 9 refused_request [] refl
