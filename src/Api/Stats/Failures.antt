-- ===== src/Api/Stats/Failures.antt =====
-- Which reasons are reported (`stats` of app/api/routes/stats.py).
use echo_security_scanner.Base.{
  Bool-cases, ==_iff, ltb, ℕ, ◌≤◌, ◌≡◌, ◌≢◌, ◌⊎◌, inl, inr, refl, sym, ◌∙◌, Bool, false, ◌&&◌, none,
  some, List, [], ◌∷◌, Text, text_eq, text_eq_iff, arith, length, length-take-le, length-map, take,
  filter, map, All, All_imp, zero, suc, All-take, All-order_by, In, here, there, IsComparison,
  IsOrdered, order_by, order_by-IsOrdered, In-order_by, take_or_behind, IsEquality, get_count,
  get_count-group_counts, get_count-In, group_counts, group_counts-own, ◌==◌, Option-cases, subst,
}
use echo_security_scanner.Domain.Models.{Time, RunStatus, ScanRun}
use echo_security_scanner.Api.Schemas.{FailureReason}
use echo_security_scanner.Api.Stats.{
  run_status_eq, is_recent, split_reason, failure_reasons, reason_before, recent_failures,
}

text_eq-IsEquality : IsEquality text_eq
text_eq-IsEquality = record { decides = text_eq_iff }

-- The run failed in the window, for the reason.
abbrev pub failed_for : Time → Text → ScanRun → Bool
failed_for cutoff reason r = elim r.error [
  | none ↦ false
  | some e ↦
      run_status_eq r.status RunStatus.failed
      && is_recent cutoff r
      && text_eq reason (split_reason e)
]

-- How many runs did.
abbrev pub failures_for : Time → Text → List ScanRun → ℕ
failures_for cutoff reason runs = length (filter (failed_for cutoff reason) runs)

reasons_counted :
    (cutoff : Time) (reason : Text) (runs : List ScanRun)
    → length (filter (text_eq reason) (failure_reasons cutoff runs))
      ≡ failures_for cutoff reason runs
reasons_counted cutoff reason [] = refl
reasons_counted cutoff reason (r ∷ runs) = elim (Option-cases r.error) [
  | inl e ↦ ground (arith, e, reasons_counted cutoff reason runs)
  | inr (x, e) ↦ ground (arith, e, reasons_counted cutoff reason runs)
]

reason_before-IsComparison :
    (collate : Text → Text → Bool) → IsComparison collate → IsComparison (reason_before collate)
reason_before-IsComparison collate c = record {
  asymm = λ a b h. ground (arith, c.asymm a.0 b.0);
  trans = λ a b d h k. ground (arith, c.trans a.0 b.0 d.0);
}

-- A row of the answer, of a row of the GROUP BY.
abbrev row_of : Text × ℕ → FailureReason
row_of g = record { reason = g.0; count = g.1 }

All-map :
    {A B : Type 0} (P : B → Type 0) (f : A → B) (xs : List A)
    → All (λ x. P (f x)) xs
    → All P (map f xs)
All-map P f [] h = tt
All-map P f (x ∷ xs) h = (h.0, All-map P f xs h.1)

In-map : {A B : Type 0} (f : A → B) (xs : List A) {a : A} → In a xs → In (f a) (map f xs)
In-map f (x ∷ xs) here = here
In-map f (x ∷ xs) (there m) = there (In-map f xs m)
In-map f [] m = elim m [ ]

IsOrdered-take :
    {A : Type 0} (before : A → A → Bool) (n : ℕ) (xs : List A)
    → IsOrdered before xs
    → IsOrdered before (take n xs)
IsOrdered-take before zero xs o = tt
IsOrdered-take before (suc n) [] o = tt
IsOrdered-take before (suc n) (x ∷ xs) o =
    (All-take (λ y. before y x ≡ false) n xs o.0, IsOrdered-take before n xs o.1)

falling_rows :
    (collate : Text → Text → Bool) (gs : List (Text × ℕ))
    → IsOrdered (reason_before collate) gs
    → IsOrdered (λ (a b : FailureReason). ltb b.count a.count) (map row_of gs)
falling_rows collate [] o = tt
falling_rows collate (g ∷ gs) o = (
  All-map _ row_of gs
      (All_imp (λ h. reason_before collate h g ≡ false) _ gs (λ h k. ground (arith, k)) o.0),
  falling_rows collate gs o.1,
)

-- The reasons that are reported: each is counted over the failed runs of the window, the most frequent
-- stand first, and there are at most ten.
pub record IsReport (cutoff : Time) (runs : List ScanRun) (rows : List FailureReason) : Type 0 where
  pub exact : All (λ (row : FailureReason). row.count ≡ failures_for cutoff row.reason runs) rows
  pub falling : IsOrdered (λ (a b : FailureReason). ltb b.count a.count) rows
  pub few : length rows ≤ 10

-- The ten rows of the GROUP BY that are shown.
abbrev best : (Text → Text → Bool) → Time → List ScanRun → List (Text × ℕ)
best collate cutoff runs =
    take 10 (order_by (reason_before collate) (group_counts text_eq (failure_reasons cutoff runs)))

recent_failures-IsReport :
    (collate : Text → Text → Bool) (cutoff : Time) (runs : List ScanRun)
    → IsComparison collate
    → IsReport cutoff runs (recent_failures collate cutoff runs)
unfolding recent_failures
recent_failures-IsReport collate cutoff runs c =
    let groups = group_counts text_eq (failure_reasons cutoff runs) in
    let sorted = order_by (reason_before collate) groups in
    let own : Text × ℕ → Type 0 = λ g. g.1 ≡ failures_for cutoff g.0 runs in
    record {
      exact = All-map _ row_of (best collate cutoff runs) (
          All-take own 10 sorted (
            All-order_by own (reason_before collate) groups (
              All_imp _ own groups (λ g h. h ∙ reasons_counted cutoff g.0 runs)
                (group_counts-own text_eq (failure_reasons cutoff runs) text_eq-IsEquality))));
      falling = falling_rows collate (best collate cutoff runs) (
          IsOrdered-take (reason_before collate) 10 sorted (
            order_by-IsOrdered (reason_before collate) groups
              (reason_before-IsComparison collate c)));
      few = omega (arith, length-map row_of (best collate cutoff runs), length-take-le 10 sorted);
    }

-- A reason that some run failed for has a row in the GROUP BY.
reason-In :
    (cutoff : Time) (runs : List ScanRun) (reason : Text)
    → failures_for cutoff reason runs ≢ 0
    → In
        (reason, failures_for cutoff reason runs)
        (group_counts text_eq (failure_reasons cutoff runs))
reason-In cutoff runs reason h =
    let groups = group_counts text_eq (failure_reasons cutoff runs) in
    let e : get_count text_eq reason groups ≡ failures_for cutoff reason runs =
      get_count-group_counts text_eq reason (failure_reasons cutoff runs) text_eq-IsEquality
      ∙ reasons_counted cutoff reason runs in
    subst (λ n. In (reason, n) groups) e
      (get_count-In text_eq reason groups text_eq-IsEquality (λ z. h (sym e ∙ z)))

-- Where the database's order of texts is an order: each reported reason has the number of runs of the
-- window that failed for it, the most frequent stand first, and there are at most ten. Any reason is
-- reported, unless no run of the window failed for it, or ten others are reported, none of which is
-- less frequent.
pub recent_failures_exact :
    (collate : Text → Text → Bool) (cutoff : Time) (runs : List ScanRun) (reason : Text)
    → IsComparison collate
    → let rows = recent_failures collate cutoff runs in
      let count = failures_for cutoff reason runs in
      IsReport cutoff runs rows
      × ((count ≡ 0)
          ⊎ In (record { reason = reason; count = count }) rows
          ⊎ ((length rows ≡ 10) × All (λ (row : FailureReason). count ≤ row.count) rows))
unfolding recent_failures
recent_failures_exact collate cutoff runs reason c =
    let sorted =
      order_by (reason_before collate) (group_counts text_eq (failure_reasons cutoff runs)) in
    let n = failures_for cutoff reason runs in
    (
      recent_failures-IsReport collate cutoff runs c,
      elim (Bool-cases (n == 0)) [
        | inl e ↦ inl ((==_iff n 0).0 e)
        | inr e ↦
            inr
              (elim (take_or_behind (reason_before collate) 10 sorted {a = (reason, n)}
                (order_by-IsOrdered (reason_before collate) _
                  (reason_before-IsComparison collate c))
                (In-order_by (reason_before collate) _
                  (reason-In cutoff runs reason (λ z. absurd (cc (e, (==_iff n 0).1 z)))))) [
                    | inl m ↦ inl (In-map row_of (best collate cutoff runs) m)
                    | inr (full, h) ↦ inr (
                      length-map row_of (best collate cutoff runs) ∙ full,
                      All-map (λ (row : FailureReason). n ≤ row.count) row_of
                          (best collate cutoff runs)
                          (All_imp _ (λ (g : Text × ℕ). n ≤ g.1) (best collate cutoff runs)
                            (λ g k. ground (arith, k)) h),
                    )
                  ])
      ],
    )
