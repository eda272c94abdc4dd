-- ===== src/Api/Cves/Joins.antt =====
-- Which rows the joins of `cve_images` find (app/api/routes/cves.py).
use echo_security_scanner.Base.{
  find?-In, ==_iff, ℕ, ◌≡◌, ◌≢◌, refl, ap, true, false, Option, none, some, List, [], ◌∷◌, ◌==◌,
  arith, length, filter, filter_map, find?, All, In, here, there, map, IsUnique, if◌then◌else◌,
  Bool-cases, inl, inr,
}
use echo_security_scanner.Domain.Models.{Image, Finding}
use echo_security_scanner.Domain.Database.{Db, option_eq}
use echo_security_scanner.Scanner.Rollup.{is_current}
use echo_security_scanner.Api.Images.Findings.{IsLinked}
use echo_security_scanner.Api.Cves.{current_image, Affected, join_affected}

-- The image of a finding, if the finding is of its current run.
abbrev current_in : List Image → Finding → Option Image
current_in images f = elim (find? (λ i. i.id == f.image_id) images) [
  | none ↦ none
  | some i ↦ if option_eq ◌==◌ i.current_scan_run_id (some f.last_seen_run_id) then some i else none
]

-- No other image has the finding.
no_other :
    (x : Image) (images : List Image) (f : Finding)
    → x.id ≡ f.image_id
    → All (λ (y : Image). y.id ≢ x.id) images
    → is_current images f ≡ false
unfolding is_current
no_other x [] f e u = refl
no_other x (y ∷ images) f e u = ground (arith, u.0, no_other x images f e u.1)

option_eq_swap : (o : Option ℕ) (n : ℕ) → option_eq ◌==◌ (some n) o ≡ option_eq ◌==◌ o (some n)
option_eq_swap none n = refl
option_eq_swap (some m) n = ground arith

option_eq-some : (o : Option ℕ) (n : ℕ) → option_eq ◌==◌ (some n) o ≡ true → o ≡ some n
option_eq-some none n h = cc
option_eq-some (some m) n h = ap some (ground arith)

current_in-true :
    (images : List Image) (f : Finding)
    → IsUnique (λ (i : Image). i.id) images
    → is_current images f ≡ true
    → (i : Image) × (current_in images f ≡ some i)
      × In i images
      × (i.id ≡ f.image_id)
      × (i.current_scan_run_id ≡ some f.last_seen_run_id)
unfolding is_current
current_in-true [] f u h = absurd (cc h)
current_in-true (x ∷ images) f u h = elim (Bool-cases (x.id == f.image_id)) [
  | inl e ↦ (
    x,
    ground (
      arith,
      e,
      h,
      no_other x images f,
      u.0,
      option_eq_swap x.current_scan_run_id f.last_seen_run_id,
    ),
    here,
    (==_iff x.id f.image_id).0 e,
    option_eq-some x.current_scan_run_id f.last_seen_run_id
        (ground (arith, e, h, no_other x images f, u.0)),
  )
  | inr e ↦
      let (i, k, m, own, at) = current_in-true images f u.1 (ground (arith, e, h)) in
      (i, ground (arith, e, k), there m, own, at)
]

current_in-false :
    (images : List Image) (f : Finding)
    → IsUnique (λ (i : Image). i.id) images
    → is_current images f ≡ false
    → current_in images f ≡ none
unfolding is_current
current_in-false [] f u h = refl
current_in-false (x ∷ images) f u h = elim (Bool-cases (x.id == f.image_id)) [
  | inl e ↦ ground (arith, e, h, option_eq_swap x.current_scan_run_id f.last_seen_run_id)
  | inr e ↦ ground (arith, e, h, current_in-false images f u.1)
]

-- The rows beside a finding are those that it names, and it is of its image's current run.
pub record IsJoined (db : Db) (a : Affected) : Type 0 where
  pub image_there : In a.image db.images
  pub image_own : a.image.id ≡ a.finding.image_id
  pub current : a.image.current_scan_run_id ≡ some a.finding.last_seen_run_id
  pub package_there : In a.package_row db.packages
  pub package_own : a.package_row.id ≡ a.finding.package_id
  pub run_there : In a.run db.runs
  pub run_own : a.run.id ≡ a.finding.last_seen_run_id

-- The joins find a row for the current findings, and for no others.
join_current :
    (db : Db) (f : Finding)
    → IsLinked db f
    → IsUnique (λ (i : Image). i.id) db.images
    → is_current db.images f ≡ true
    → (a : Affected) × (join_affected db f ≡ some a) × (a.finding ≡ f) × IsJoined db a
unfolding join_affected current_image
join_current db f l u h =
    let (i, e, m, own, at) = current_in-true db.images f u h in
    let p = find?-In (λ p. p.id == f.package_id) db.packages l.package_row.0 l.package_row.1 in
    let r = find?-In (λ r. r.id == f.last_seen_run_id) db.runs l.last_run.0 l.last_run.1 in
    (
      record { finding = f; image = i; package_row = l.package_row.0; run = l.last_run.0 },
      rw (e, join_affected, l.package_row.1, l.last_run.1) refl,
      refl,
      record {
        image_there = m;
        image_own = own;
        current = at;
        package_there = p.0;
        package_own = (==_iff l.package_row.0.id f.package_id).0 p.1;
        run_there = r.0;
        run_own = (==_iff l.last_run.0.id f.last_seen_run_id).0 r.1;
      },
    )

not_joined :
    (db : Db) (f : Finding)
    → IsUnique (λ (i : Image). i.id) db.images
    → is_current db.images f ≡ false
    → join_affected db f ≡ none
unfolding join_affected current_image
not_joined db f u h = rw (current_in-false db.images f u h, join_affected) refl

pub affected_findings :
    (db : Db) (fs : List Finding)
    → IsUnique (λ (i : Image). i.id) db.images
    → All (IsLinked db) fs
    → map (λ (a : Affected). a.finding) (filter_map (join_affected db) fs)
      ≡ filter (is_current db.images) fs
affected_findings db [] u l = refl
affected_findings db (f ∷ fs) u l = elim (Bool-cases (is_current db.images f)) [
  | inl e ↦
      let (a, j, own, _) = join_current db f l.0 u e in
      ground (arith, j, e, own, affected_findings db fs u l.1)
  | inr e ↦ ground (arith, not_joined db f u e, e, affected_findings db fs u l.1)
]

pub affected-IsJoined :
    (db : Db) (fs : List Finding)
    → IsUnique (λ (i : Image). i.id) db.images
    → All (IsLinked db) fs
    → All (IsJoined db) (filter_map (join_affected db) fs)
affected-IsJoined db [] u l = tt
affected-IsJoined db (f ∷ fs) u l = elim (Bool-cases (is_current db.images f)) [
  | inl e ↦
      let (a, j, own, ok) = join_current db f l.0 u e in
      rw (j, All) (ok, affected-IsJoined db fs u l.1)
  | inr e ↦ rw (not_joined db f u e, All) (affected-IsJoined db fs u l.1)
]

pub counted_current :
    (db : Db) (fs : List Finding)
    → IsUnique (λ (i : Image). i.id) db.images
    → length (filter_map (current_image db) fs) ≡ length (filter (is_current db.images) fs)
unfolding current_image
counted_current db [] u = refl
counted_current db (f ∷ fs) u = elim (Bool-cases (is_current db.images f)) [
  | inl e ↦
      let (i, j, _, _, _) = current_in-true db.images f u e in
      ground (arith, j, e, counted_current db fs u)
  | inr e ↦ ground (arith, current_in-false db.images f u e, e, counted_current db fs u)
]
