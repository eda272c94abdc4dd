-- ===== src/Scanner/Worker/Unchanged.antt =====
-- When a job is skipped as unchanged (`_last_successful_run`, `_is_unchanged` of
-- app/scanner/worker.py).
use echo_security_scanner.Base.{
  ℕ, ◌≤◌, ◌≡◌, refl, ◌⊎◌, inl, inr, Bool, true, none, some, List, [], ◌∷◌, Text, text_eq, arith,
  ltb, filter, All, In, here, there, Bool-cases, filter_keeps, ◌≢◌, ◌&&◌,
}
use echo_security_scanner.Domain.Models.{ScanRun}
use echo_security_scanner.Jobs.Queue.Rows.{option_eq_sound, text_eq_sound}
use echo_security_scanner.Scanner.Worker.{latest, is_success_of, last_successful_run, is_unchanged}

-- `r` is the newest of the rows.
abbrev pub IsNewest : ScanRun → List ScanRun → Type 0
IsNewest r rows = All (λ q. q.completed_at ≤ r.completed_at) rows

IsNewest-trans :
    (r s : ScanRun) (rows : List ScanRun)
    → s.completed_at ≤ r.completed_at
    → IsNewest s rows
    → IsNewest r rows
IsNewest-trans r s [] h n = tt
IsNewest-trans r s (q ∷ rows) h n = (omega (arith, n.0), IsNewest-trans r s rows h n.1)

latest-cases :
    (rows : List ScanRun)
    → ((latest rows ≡ none) × (rows ≡ []))
      ⊎ ((r : ScanRun) × (latest rows ≡ some r) × In r rows × IsNewest r rows)
unfolding latest
latest-cases [] = inl (refl, refl)
latest-cases (x ∷ rows) = elim (latest-cases rows) [
  | inl (e, n) ↦ inr (x, rw (e, latest), here, (omega arith, rw n tt))
  | inr (s, e, m, f) ↦ elim (Bool-cases (ltb x.completed_at s.completed_at)) [
    | inl b ↦ inr (s, rw (e, latest, b), there m, (ground arith, f))
    | inr b ↦
        inr (x, rw (e, latest, b), here, (omega arith, IsNewest-trans x s rows (ground arith) f))
  ]
]

-- No row that passes the test is newer than `r`.
abbrev pub IsNewestOf : (ScanRun → Bool) → ScanRun → List ScanRun → Type 0
IsNewestOf p r rows = All (λ q. p q ≡ true → q.completed_at ≤ r.completed_at) rows

IsNewest-filter :
    (p : ScanRun → Bool) (r : ScanRun) (rows : List ScanRun)
    → IsNewest r (filter p rows)
    → IsNewestOf p r rows
IsNewest-filter p r [] f = tt
IsNewest-filter p r (x ∷ rows) f = elim (Bool-cases (p x)) [
  | inl e ↦
      let g : IsNewest r (x ∷ filter p rows) = rw e at f in (λ _. g.0, IsNewest-filter p r rows g.1)
  | inr e ↦
      let g : IsNewest r (filter p rows) = rw e at f in
      (λ t. absurd (cc (e, t)), IsNewest-filter p r rows g)
]

-- Every column equals the value that is at hand.
pub record IsSameInputs (r : ScanRun) (digest trivy_version db_version flags_hash : Text)
    : Type 0 where
  pub digest_same : r.digest ≡ some digest
  pub trivy_same : r.trivy_version ≡ some trivy_version
  pub db_same : r.trivy_db_version ≡ some db_version
  pub flags_same : r.scan_flags_hash ≡ some flags_hash

and_true4 :
    (a b c d : Bool) → (a && b && c && d) ≡ true → (a ≡ true) × (b ≡ true) × (c ≡ true) × (d ≡ true)
and_true4 a b c d h = ground arith

never_unchanged : (d t v f : Text) → is_unchanged none d t v f ≢ true
unfolding is_unchanged
never_unchanged d t v f h = cc

is_unchanged_sound :
    (r : ScanRun) (d t v f : Text) → is_unchanged (some r) d t v f ≡ true → IsSameInputs r d t v f
unfolding is_unchanged
is_unchanged_sound r d t v f h =
    let each = and_true4 _ _ _ _ h in
    record {
      digest_same = option_eq_sound text_eq text_eq_sound r.digest (some d) each.0;
      trivy_same = option_eq_sound text_eq text_eq_sound r.trivy_version (some t) each.1;
      db_same = option_eq_sound text_eq text_eq_sound r.trivy_db_version (some v) each.2;
      flags_same = option_eq_sound text_eq text_eq_sound r.scan_flags_hash (some f) each.3;
    }

-- Where the job is skipped, a successful run of the image is there whose digest, Trivy version,
-- database version and flags are the present ones, and no successful run of the image is newer.
pub skipped_only_unchanged :
    (image_id : ℕ) (runs : List ScanRun) (d t v f : Text)
    → is_unchanged (last_successful_run image_id runs) d t v f ≡ true
    → (r : ScanRun) × In r runs
      × (is_success_of image_id r ≡ true)
      × IsNewestOf (is_success_of image_id) r runs
      × IsSameInputs r d t v f
unfolding last_successful_run
skipped_only_unchanged image_id runs d t v f h =
    elim (latest-cases (filter (is_success_of image_id) runs)) [
      | inl (e, n) ↦ absurd (never_unchanged d t v f (rw e at h))
      | inr (r, e, m, n) ↦
          let kept = filter_keeps (is_success_of image_id) runs m in
          (
            r,
            kept.0,
            kept.1,
            IsNewest-filter (is_success_of image_id) r runs n,
            is_unchanged_sound r d t v f (rw e at h),
          )
    ]
