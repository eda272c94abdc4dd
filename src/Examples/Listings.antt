-- ===== src/Examples/Listings.antt =====
-- The listings and their freshness at the data of the other examples (app/api, app/db/seed.py).
use mathlib.Core.List.{Perm}
use echo_security_scanner.Base.{
  ◌*◌, ◌≤◌, ◌≡◌, ◌↔◌, refl, true, false, none, some, List, [], ◌∷◌, ◌++◌, Text, codes, arith,
  length, map, All, IsComparison, IsOrdered, text_eq,
}
use echo_security_scanner.Base.Float.{pos}
use echo_security_scanner.Domain.Models.{Image, ScanRun, RunStatus, Cve}
use echo_security_scanner.Domain.Database.{Db}
use echo_security_scanner.Scanner.Upsert.{text_lt}
use echo_security_scanner.Api.Params.{PageParams}
use echo_security_scanner.Api.Schemas.{shown}
use echo_security_scanner.Api.Images.{image_page, list_images}
use echo_security_scanner.Api.Images.Findings.{IsLinked}
use echo_security_scanner.Api.Images.Summaries.{IsPointing, summary_of, list_images_exact}
use echo_security_scanner.Api.Cves.{listed_page, cve_before, cve_summary}
use echo_security_scanner.Api.Cves.Listed
use echo_security_scanner.Api.Cves.Listed.{live_cves, list_cves_walk}
use echo_security_scanner.Api.Freshness.{newest, apply_freshness, stamp, etag, epoch}
use echo_security_scanner.Api.Freshness.Seconds.{apply_freshness-snoc}
use echo_security_scanner.Seed.{ImageTable, seed, brief_images}
use echo_security_scanner.Seed.Again.{IsThere, seed_again}
use echo_security_scanner.Examples.Scans.{one_scan, one_scan-IsConsistent}
use echo_security_scanner.Examples.Settled.{defaults}

text_lt_asymm : (s t : Text) → text_lt s t ≡ true → text_lt t s ≡ false
unfolding text_lt
text_lt_asymm s [] h = cc
text_lt_asymm [] (y ∷ t) h = refl
text_lt_asymm (x ∷ s) (y ∷ t) h = ground (arith, text_lt_asymm s t)

text_lt_trans : (s t u : Text) → text_lt s t ≡ false → text_lt t u ≡ false → text_lt s u ≡ false
unfolding text_lt
text_lt_trans s t [] h k = refl
text_lt_trans s [] (z ∷ u) h k = absurd (cc k)
text_lt_trans [] (y ∷ t) (z ∷ u) h k = absurd (cc h)
text_lt_trans (x ∷ s) (y ∷ t) (z ∷ u) h k = ground (arith, text_lt_trans s t u)

pub text_lt-IsComparison : IsComparison text_lt
text_lt-IsComparison = record { asymm = text_lt_asymm; trans = text_lt_trans }

abbrev pub first_run : ScanRun
first_run = record {
  id = 1;
  image_id = 1;
  scan_job_id = none;
  started_at = 1;
  completed_at = epoch;
  status = RunStatus.success;
  digest = some (codes "sha256:a");
  trivy_version = none;
  trivy_db_version = none;
  scan_flags_hash = none;
  duration_ms = pos 7;
  error = none;
  finding_counts = some (record {
    critical_count = 1;
    high_count = 0;
    medium_count = 0;
    low_count = 0;
    unknown_count = 0;
  });
}

abbrev pub listed_db : Db
listed_db = record one_scan { runs = first_run ∷ [] }

abbrev pub small_page : PageParams
small_page = record { limit = 10; offset = 0 }

pub linked : All (IsLinked listed_db) listed_db.findings
unfolding text_eq
linked = (
  record { cve = (_, refl); package_row = (_, refl); first_run = (_, refl); last_run = (_, refl) },
  tt,
)

pub listed_db-IsPointing : IsPointing listed_db
listed_db-IsPointing = record {
  images_unique = (tt, tt);
  runs_unique = (tt, tt);
  own = ((λ _. refl, tt), tt);
}

list_images_exact_example :
    list_images text_lt false small_page defaults listed_db
    ≡ shown (record {
      items = map (summary_of defaults listed_db) (image_page text_lt small_page listed_db);
      pagination = record { total = length listed_db.images; limit = 10; offset = 0 };
    })
list_images_exact_example =
    list_images_exact text_lt small_page defaults listed_db listed_db-IsPointing

few_cves : (listed_page text_lt small_page none one_scan).pagination.total ≤ 2 * 10
unfolding listed_page
few_cves = omega arith

list_cves_walk_example :
    (rows : List Cve) × (Listed.walked text_lt none one_scan 10 2 0 ≡ map cve_summary rows)
    × Perm rows (live_cves none one_scan)
    × IsOrdered (cve_before text_lt) rows
    × (length rows ≡ (listed_page text_lt small_page none one_scan).pagination.total)
list_cves_walk_example =
    list_cves_walk text_lt none one_scan 10 2 small_page text_lt-IsComparison one_scan-IsConsistent
      few_cves

newest_first : newest (first_run ∷ []) ≡ some epoch
unfolding newest
newest_first = refl

apply_freshness-snoc_example :
    ((apply_freshness (λ _. []) (some (etag epoch)) (first_run ∷ first_run ∷ [])).1 ≡ true)
    ↔ (stamp epoch ≤ stamp epoch)
apply_freshness-snoc_example =
    apply_freshness-snoc (λ _. []) (first_run ∷ []) first_run epoch newest_first

abbrev no_images : ImageTable
no_images = record { images = []; next_image = 1 }

seed_again_example :
    let after = (seed 5 no_images).1 in
    All (IsThere after) brief_images
    × ((new : List Image) × (after.images ≡ [] ++ new))
    × ((seed 9 after).0 ≡ 0)
    × ((seed 9 after).1.images ≡ after.images)
seed_again_example = seed_again 5 9 no_images
