-- ===== src/Api/Stats/Agreement.antt =====
-- The live findings that `stats` reports, against those that the listing of images reports
-- (app/api/routes/stats.py, app/api/routes/images.py).
use echo_security_scanner.Base.{
  ap₂, ℕ, zero, suc, ◌+◌, ◌*◌, ◌≤◌, ◌≡◌, ◌≢◌, refl, sym, ap, ◌∙◌, Bool, true, false, none, some,
  List, [], ◌∷◌, ◌++◌, Text, arith, length, filter, find?, map, map-append, order_by, insert, walk,
  walk-lem, length-order_by, All, IsUnique, Bool-cases, inl, inr,
}
use echo_security_scanner.Config.{Settings}
use echo_security_scanner.Domain.Models.{Image, ScanRun}
use echo_security_scanner.Domain.Database.{Db}
use echo_security_scanner.Api.Schemas.{
  Answer, not_modified, missing, shown, SeverityCounts, no_counts, ImageSummary,
}
use echo_security_scanner.Api.Images.{counts_of, list_images, image_before, image_page}
use echo_security_scanner.Api.Images.Summaries.{
  shown_counts, is_current_run, IsPointing, summary_of, list_images_exact,
}
use echo_security_scanner.Api.Stats.{
  Floats, StatsTimes, add_counts, sum_findings, append_all, stats,
}

abbrev pub items_of : Answer ImageSummary → List ImageSummary
items_of not_modified = []
items_of missing = []
items_of (shown page) = page.items

-- The images of `n` pages of the listing, the offset raised by the limit.
pub walked_images : (Text → Text → Bool) → Settings → Db → ℕ → ℕ → ℕ → List ImageSummary
walked_images collate settings db limit zero offset = []
walked_images collate settings db limit (suc n) offset =
    items_of (list_images collate false (record { limit = limit; offset = offset }) settings db)
    ++ walked_images collate settings db limit n (offset + limit)

-- The sum of the images' counts.
abbrev pub sum_summaries : List ImageSummary → SeverityCounts
sum_summaries [] = no_counts
sum_summaries (s ∷ rest) = add_counts s.severity_counts (sum_summaries rest)

add_swap : (a b c : SeverityCounts) → add_counts a (add_counts b c) ≡ add_counts b (add_counts a c)
add_swap a b c = grind arith

add_assoc : (a b c : SeverityCounts) → add_counts (add_counts a b) c ≡ add_counts a (add_counts b c)
add_assoc a b c = grind arith

add_nothing : (a : SeverityCounts) → add_counts no_counts a ≡ a
add_nothing a = grind arith

sum_insert :
    (f : Image → ImageSummary) (before : Image → Image → Bool) (x : Image) (xs : List Image)
    → sum_summaries (map f (insert before x xs)) ≡ sum_summaries (map f (x ∷ xs))
unfolding insert
sum_insert f before x [] = refl
sum_insert f before x (y ∷ ys) = elim (Bool-cases (before y x)) [
  | inl e ↦ rw e (
      ap (add_counts (f y).severity_counts) (sum_insert f before x ys)
      ∙ add_swap (f y).severity_counts (f x).severity_counts _)
  | inr e ↦ rw e refl
]

sum_order_by :
    (f : Image → ImageSummary) (before : Image → Image → Bool) (xs : List Image)
    → sum_summaries (map f (order_by before xs)) ≡ sum_summaries (map f xs)
unfolding order_by
sum_order_by f before [] = refl
sum_order_by f before (x ∷ xs) =
    sum_insert f before x (order_by before xs)
    ∙ ap (add_counts (f x).severity_counts) (sum_order_by f before xs)

sum_append :
    (xs ys : List ScanRun)
    → sum_findings (xs ++ ys) ≡ add_counts (sum_findings xs) (sum_findings ys)
unfolding sum_findings
sum_append [] ys = sym (add_nothing (sum_findings ys))
sum_append (x ∷ xs) ys =
    ap (add_counts (counts_of x.finding_counts)) (sum_append xs ys)
    ∙ sym (add_assoc (counts_of x.finding_counts) (sum_findings xs) (sum_findings ys))

none_again :
    (i : Image) (r : ScanRun) (rs : List ScanRun)
    → is_current_run i r ≡ true
    → All (λ q. q.id ≢ r.id) rs
    → filter (is_current_run i) rs ≡ []
none_again i r [] e u = refl
none_again i r (q ∷ rs) e u = ground (arith, u.0, none_again i r rs e u.1)

-- The counts of an image's current run.
one_run :
    (i : Image) (rs : List ScanRun)
    → IsUnique (λ (r : ScanRun). r.id) rs
    → sum_findings (filter (is_current_run i) rs) ≡ elim (find? (is_current_run i) rs) [
      | none ↦ no_counts
      | some r ↦ counts_of r.finding_counts
    ]
unfolding sum_findings
one_run i [] u = refl
one_run i (r ∷ rs) u = elim (Bool-cases (is_current_run i r)) [
  | inl e ↦ rw (e, none_again i r rs e u.0) (grind arith)
  | inr e ↦ rw e (one_run i rs u.1)
]

sum_current :
    (settings : Settings) (db : Db) (images : List Image)
    → IsUnique (λ (r : ScanRun). r.id) db.runs
    → sum_findings (append_all (map (λ i. filter (is_current_run i) db.runs) images))
      ≡ sum_summaries (map (summary_of settings db) images)
unfolding sum_findings
sum_current settings db [] u = refl
sum_current settings db (i ∷ images) u =
    sum_append (filter (is_current_run i) db.runs) _
    ∙ ap₂ add_counts
        (one_run i db.runs u ∙ sym (shown_counts settings i (find? (is_current_run i) db.runs)))
        (sum_current settings db images u)

walked_images_lem :
    (collate : Text → Text → Bool) (settings : Settings) (db : Db) (limit n offset : ℕ)
    → IsPointing db
    → walked_images collate settings db limit n offset
      ≡ map
          (summary_of settings db)
          (walk limit n offset (order_by (image_before collate) db.images))
unfolding walked_images walk image_page
walked_images_lem collate settings db limit zero offset p = refl
walked_images_lem collate settings db limit (suc n) offset p =
    rw
      (
        list_images_exact collate (record { limit = limit; offset = offset }) settings db p,
        walked_images_lem collate settings db limit n (offset + limit) p,
        map-append,
      )
      refl

-- Where the pointers name runs of their own images: the findings by severity that the statistics report
-- are the sums over the images that a client meets who walks through enough pages of the listing.
pub stats_agrees :
    {F : Type 0} (floats : Floats F) (collate : Text → Text → Bool) (t : StatsTimes)
    (window_hours : ℕ) (settings : Settings) (db : Db) (limit n : ℕ)
    → IsPointing db
    → length db.images ≤ n * limit
    → (stats floats collate t window_hours db).1.findings
      ≡ sum_summaries (walked_images collate settings db limit n 0)
unfolding stats
stats_agrees floats collate t window_hours settings db limit n p enough =
    let sorted = order_by (image_before collate) db.images in
    let counted : length sorted ≡ length db.images =
      length-order_by (image_before collate) db.images in
    sum_current settings db db.images p.runs_unique
    ∙ sym (sum_order_by (summary_of settings db) (image_before collate) db.images)
    ∙ sym (
        ap sum_summaries (
          walked_images_lem collate settings db limit n 0 p
          ∙ ap (map (summary_of settings db)) (walk-lem limit n 0 sorted (omega (arith, counted)))))
