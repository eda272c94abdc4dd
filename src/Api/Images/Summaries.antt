-- ===== src/Api/Images/Summaries.antt =====
-- What the listing of images says of each (`list_images` of app/api/routes/images.py).
use echo_security_scanner.Base.{
  ℕ, ◌+◌, ap, ◌∙◌, Option, Text, zero, suc, or_else_nat, ◌≡◌, ◌≢◌, refl, sym, ◌∙◌, subst, Bool,
  true, false, ◌&&◌, none, some, List, [], ◌∷◌, Text, ◌==◌, ==_iff, ==_refl, arith, length, filter,
  find?, All, All_at, All_imp, All-In, In, here, there, map, All-order_by, All-take, All-drop,
  map_congr, IsUnique, IsUnique-at, Bool-cases, inl, inr,
}
use echo_security_scanner.Config.{Settings}
use echo_security_scanner.Domain.Models.{Image, ScanRun, FindingCounts}
use echo_security_scanner.Domain.Database.{Db, option_eq}
use echo_security_scanner.Api.Params.{PageParams}
use echo_security_scanner.Api.Schemas.{no_counts, counts_total, shown, ImageSummary}
use echo_security_scanner.Api.Images.{
  counts_of, bare_summary, summarised, is_pointed, fill_summary, image_before, image_page,
  list_images,
}

-- The run is the image's current one.
abbrev pub is_current_run : Image → ScanRun → Bool
is_current_run i r = option_eq ◌==◌ i.current_scan_run_id (some r.id)

-- What the pointers promise: distinct ids, and an image's pointer names a run of that image.
pub record IsPointing (db : Db) : Type 0 where
  pub images_unique : IsUnique (λ (i : Image). i.id) db.images
  pub runs_unique : IsUnique (λ (r : ScanRun). r.id) db.runs
  pub own : All (λ i. All (λ r. is_current_run i r ≡ true → r.image_id ≡ i.id) db.runs) db.images

-- The interval of an image: its own, unless there is none or it is 0, and then the default.
abbrev pub interval_of : Settings → Option ℕ → ℕ
interval_of settings none = settings.default_scan_interval_seconds
interval_of settings (some zero) = settings.default_scan_interval_seconds
interval_of settings (some (suc n)) = suc n

-- An image's summary without a run.
abbrev pub unscanned_summary : Settings → Image → ImageSummary
unscanned_summary settings i = record {
  name = i.name;
  tag = i.tag;
  digest = none;
  last_scan_at = i.last_scan_at;
  last_scan_status = i.last_scan_status;
  consecutive_failures = i.consecutive_failures;
  scan_interval_seconds = interval_of settings i.scan_interval_seconds;
  total_cves = 0;
  severity_counts = record { critical = 0; high = 0; medium = 0; low = 0; unknown = 0 };
}

-- The same with what a run found: its digest, its counts by severity, and their sum.
abbrev pub scanned_summary : ImageSummary → Option Text → FindingCounts → ImageSummary
scanned_summary s digest c = record s {
  digest = digest;
  total_cves = c.critical_count + c.high_count + c.medium_count + c.low_count + c.unknown_count;
  severity_counts = record {
    critical = c.critical_count;
    high = c.high_count;
    medium = c.medium_count;
    low = c.low_count;
    unknown = c.unknown_count;
  };
}

abbrev pub no_findings : FindingCounts
no_findings = record {
  critical_count = 0;
  high_count = 0;
  medium_count = 0;
  low_count = 0;
  unknown_count = 0;
}

abbrev pub found_by : ScanRun → FindingCounts
found_by r = elim r.finding_counts [ none ↦ no_findings | some c ↦ c ]

-- An image's summary: with its current run's digest and counts, if it has one.
abbrev pub summary_of : Settings → Db → Image → ImageSummary
summary_of settings db i = elim (find? (is_current_run i) db.runs) [
  | none ↦ unscanned_summary settings i
  | some r ↦ scanned_summary (unscanned_summary settings i) r.digest (found_by r)
]

interval_lem :
    (settings : Settings) (o : Option ℕ)
    → or_else_nat o settings.default_scan_interval_seconds ≡ interval_of settings o
interval_lem settings none = refl
interval_lem settings (some zero) = refl
interval_lem settings (some (suc n)) = ground arith

bare_lem :
    (settings : Settings) (i : Image) → bare_summary settings i ≡ unscanned_summary settings i
bare_lem settings i =
    ap (λ n. record (unscanned_summary settings i) { scan_interval_seconds = n })
      (interval_lem settings i.scan_interval_seconds)

counted_lem :
    (s : ImageSummary) (digest : Option Text) (o : Option FindingCounts)
    → record s {
      digest = digest;
      severity_counts = counts_of o;
      total_cves = counts_total (counts_of o);
    }
      ≡ scanned_summary s digest (elim o [ none ↦ no_findings | some c ↦ c ])
counted_lem s digest none = refl
counted_lem s digest (some c) = refl

filled_lem :
    (settings : Settings) (i : Image) (o : Option ScanRun)
    → elim o as (λ _. ImageSummary) [
      | none ↦ bare_summary settings i
      | some r ↦ summarised r (bare_summary settings i)
    ]
      ≡ elim o [
        | none ↦ unscanned_summary settings i
        | some r ↦ scanned_summary (unscanned_summary settings i) r.digest (found_by r)
      ]
filled_lem settings i none = bare_lem settings i
filled_lem settings i (some r) =
    ap (summarised r) (bare_lem settings i)
    ∙ counted_lem (unscanned_summary settings i) r.digest r.finding_counts

counts_found :
    (o : Option FindingCounts) (s : ImageSummary) (digest : Option Text)
    → (scanned_summary s digest (elim o [ none ↦ no_findings | some c ↦ c ])).severity_counts
      ≡ counts_of o
counts_found none s digest = refl
counts_found (some c) s digest = refl

-- A summary's counts are its run's.
pub shown_counts :
    (settings : Settings) (i : Image) (o : Option ScanRun)
    → (elim o as (λ _. ImageSummary) [
      | none ↦ unscanned_summary settings i
      | some r ↦ scanned_summary (unscanned_summary settings i) r.digest (found_by r)
    ]).severity_counts
      ≡ elim o [ none ↦ no_counts | some r ↦ counts_of r.finding_counts ]
shown_counts settings i none = refl
shown_counts settings i (some r) =
    counts_found r.finding_counts (unscanned_summary settings i) r.digest

fill_none :
    (i : Image) (p : ScanRun → Bool) (rs : List ScanRun) (s : ImageSummary)
    → All (λ r. (p r && r.image_id == i.id) ≡ false) rs
    → fill_summary (filter p rs) i s ≡ s
unfolding fill_summary
fill_none i p [] s h = refl
fill_none i p (r ∷ rs) s h = ground (arith, fill_none i p rs s h.1)

not_again :
    (i : Image) (p : ScanRun → Bool) (r : ScanRun) (rs : List ScanRun)
    → is_current_run i r ≡ true
    → All (λ q. q.id ≢ r.id) rs
    → All (λ q. (p q && q.image_id == i.id) ≡ is_current_run i q) rs
    → All (λ q. (p q && q.image_id == i.id) ≡ false) rs
not_again i p r [] e u h = tt
not_again i p r (q ∷ rs) e u h = (ground (arith, u.0, h.0), not_again i p r rs e u.1 h.1)

fill_lem :
    (i : Image) (p : ScanRun → Bool) (rs : List ScanRun) (s : ImageSummary)
    → IsUnique (λ (r : ScanRun). r.id) rs
    → All (λ r. (p r && r.image_id == i.id) ≡ is_current_run i r) rs
    → fill_summary (filter p rs) i s
      ≡ elim (find? (is_current_run i) rs) [ none ↦ s | some r ↦ summarised r s ]
unfolding fill_summary
fill_lem i p [] s u h = refl
fill_lem i p (r ∷ rs) s u h = elim (Bool-cases (is_current_run i r)) [
  | inl e ↦ ground (arith, e, h.0, fill_none i p rs (summarised r s) (not_again i p r rs e u.0 h.1))
  | inr e ↦ ground (arith, e, h.0, fill_lem i p rs s u.1 h.1)
]

-- A run that some image points to.
pointed_by :
    (images : List Image) (r : ScanRun)
    → is_pointed images r ≡ true
    → (i : Image) × In i images × (is_current_run i r ≡ true)
pointed_by [] r h = cc
pointed_by (i ∷ images) r h = elim (Bool-cases (is_current_run i r)) [
  | inl e ↦ (i, here, e)
  | inr e ↦ let (j, m, k) = pointed_by images r (ground (arith, e)) in (j, there m, k)
]

points :
    (images : List Image) (r : ScanRun) {i : Image}
    → In i images
    → is_current_run i r ≡ true
    → is_pointed images r ≡ true
points (i ∷ images) r here e = rw e refl
points (i ∷ images) r (there m) e = ground (arith, points images r m e)
points [] r m e = elim m [ ]

-- Of the joined runs, those of an image are its current one.
joined_current :
    (db : Db) (i : Image) (r : ScanRun)
    → IsPointing db
    → In i db.images
    → In r db.runs
    → (is_pointed db.images r && r.image_id == i.id) ≡ is_current_run i r
joined_current db i r p m k = elim (Bool-cases (is_current_run i r)) [
  | inl e ↦
      let mine = All_at _ (All_at _ p.own m) k e in
      ground (arith, points db.images r m e, mine, ==_refl i.id)
  | inr e ↦ elim (Bool-cases (is_pointed db.images r)) [
    | inr n ↦ ground (arith, e, n)
    | inl y ↦
        let (j, n, c) = pointed_by db.images r y in
        let theirs = All_at _ (All_at _ p.own n) k c in
        elim (Bool-cases (r.image_id == i.id)) [
          | inr x ↦ ground (arith, e, x)
          | inl x ↦
              let same : j ≡ i =
                IsUnique-at (λ (i : Image). i.id) db.images p.images_unique n m
                  (sym theirs ∙ (==_iff r.image_id i.id).0 x) in
              absurd (cc (e, subst (λ z. is_current_run z r ≡ true) same c))
        ]
  ]
]

page-In :
    (collate : Text → Text → Bool) (params : PageParams) (db : Db)
    → All (λ i. In i db.images) (image_page collate params db)
unfolding image_page
page-In collate params db =
    All-take (λ i. In i db.images) params.limit _
      (All-drop (λ i. In i db.images) params.offset _
        (All-order_by (λ i. In i db.images) (image_before collate) db.images (All-In db.images)))

-- Where the pointers name runs of their own images: every image of a page is summarised with the digest
-- and the counts of its current run, the total of CVEs being their sum, or with zeros and no digest
-- where it has none; runs of other images, and older ones, have no part in it. The page's total is the
-- number of images.
pub list_images_exact :
    (collate : Text → Text → Bool) (params : PageParams) (settings : Settings) (db : Db)
    → IsPointing db
    → list_images collate false params settings db
      ≡ shown (record {
        items = map (summary_of settings db) (image_page collate params db);
        pagination = record {
          total = length db.images;
          limit = params.limit;
          offset = params.offset;
        };
      })
unfolding list_images
list_images_exact collate params settings db p =
    rw
      (map_congr _ (summary_of settings db) (image_page collate params db) (
        All_imp (λ i. In i db.images) _ _
          (λ i m.
            fill_lem i (is_pointed db.images) db.runs (bare_summary settings i) p.runs_unique (
              All_imp (λ r. In r db.runs) _ db.runs (λ r k. joined_current db i r p m k)
                (All-In db.runs))
            ∙ filled_lem settings i (find? (is_current_run i) db.runs))
          (page-In collate params db)))
      refl
