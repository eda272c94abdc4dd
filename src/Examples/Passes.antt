-- ===== src/Examples/Passes.antt =====
-- A pass of the worker at the data of the other examples (app/scanner/worker.py).
use echo_security_scanner.Base.{[], ◌∷◌}
use echo_security_scanner.Domain.Models.{ScanJob}
use echo_security_scanner.Domain.Database.{Db}
use echo_security_scanner.Examples.Queue.{waiting}
use echo_security_scanner.Examples.Scans.{one_scan}

abbrev next_scan : ScanJob
next_scan = record waiting { image_id = 1 }

abbrev ready : Db
ready = record one_scan {
  jobs = next_scan ∷ [];
  seq = record { next_job = 4; next_run = 2; next_package = 2; next_finding = 2 };
}
