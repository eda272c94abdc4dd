-- ===== src/Scanner/Parser/RateLimit.antt =====
-- Which messages count as a throttling registry (`is_rate_limit_error` of app/scanner/parser.py).
use echo_security_scanner.Base.{
  ◌≡◌, ◌↔◌, ◌∙◌, ap, refl, true, codes, Bool-cases, inl, inr, List, [], ◌∷◌, ◌++◌, Text, arith,
  contains, starts_with, In, here, there, any,
}
use echo_security_scanner.Scanner.Parser.{rate_limit_markers, lower, is_rate_limit_error}

starts_with-append : (m rest : Text) → starts_with m (m ++ rest) ≡ true
starts_with-append [] rest = refl
starts_with-append (c ∷ m) rest = ground (arith, starts_with-append m rest)

contains_here : (m s : Text) → starts_with m s ≡ true → contains m s ≡ true
contains_here m [] h = h
contains_here m (c ∷ s) h = rw h

contains-append : (before m after : Text) → contains m (before ++ (m ++ after)) ≡ true
contains-append [] m after = contains_here m (m ++ after) (starts_with-append m after)
contains-append (c ∷ before) m after = ground (arith, contains-append before m after)

-- `m` stands in `s`, with something before and something behind it.
abbrev pub IsWithin : Text → Text → Type 0
IsWithin m s = (before : Text) × (after : Text) × (s ≡ before ++ (m ++ after))

contains_of_IsWithin : (m s : Text) → IsWithin m s → contains m s ≡ true
contains_of_IsWithin m s (before, after, e) = rw e (contains-append before m after)

starts_with-split : (m s : Text) → starts_with m s ≡ true → (after : Text) × (s ≡ m ++ after)
starts_with-split [] s h = (s, refl)
starts_with-split (c ∷ m) [] h = absurd (ground arith)
starts_with-split (c ∷ m) (d ∷ s) h =
    let (after, e) = starts_with-split m s (ground arith) in (after, ground (arith, e))

contains-IsWithin : (m s : Text) → contains m s ≡ true → IsWithin m s
contains-IsWithin m [] h = let (after, e) = starts_with-split m [] h in ([], after, e)
contains-IsWithin m (c ∷ s) h = elim (Bool-cases (starts_with m (c ∷ s))) [
  | inl a ↦ let (after, e) = starts_with-split m (c ∷ s) a in ([], after, e)
  | inr a ↦
      let (before, after, e) = contains-IsWithin m s (ground arith) in
      (c ∷ before, after, ap (λ t. c ∷ t) e)
]

any-IsWithin :
    (s : Text) (ms : List Text)
    → any (λ m. contains m s) ms ≡ true
    → (m : Text) × In m ms × IsWithin m s
any-IsWithin s [] h = absurd (ground arith)
any-IsWithin s (m ∷ ms) h = elim (Bool-cases (contains m s)) [
  | inl a ↦ (m, here, contains-IsWithin m s a)
  | inr a ↦ let (n, k, e) = any-IsWithin s ms (ground arith) in (n, there k, e)
]

any_of_IsWithin :
    (s m : Text) (ms : List Text) → In m ms → IsWithin m s → any (λ m. contains m s) ms ≡ true
any_of_IsWithin s m [] k h = elim k [ ]
any_of_IsWithin s m (_ ∷ ms) here h = rw (contains_of_IsWithin m s h)
any_of_IsWithin s m (x ∷ ms) (there k) h = ground (arith, any_of_IsWithin s m ms k h)

marked :
    (message : Text)
    → is_rate_limit_error message
      ≡ any (λ marker. contains marker (lower message)) rate_limit_markers
unfolding is_rate_limit_error lower
marked [] = refl
marked (c ∷ message) = refl

-- A message tells of a throttling registry exactly when one of these four texts stands somewhere in
-- its lower case: "toomanyrequests", "too many requests", "pull rate limit", "rate limit exceeded".
pub is_rate_limit_error-IsWithin :
    (message : Text)
    → (is_rate_limit_error message ≡ true) ↔ (
        (marker : Text) × In marker (
          codes "toomanyrequests"
          ∷ codes "too many requests"
          ∷ codes "pull rate limit"
          ∷ codes "rate limit exceeded"
          ∷ [])
        × IsWithin marker (lower message))
is_rate_limit_error-IsWithin message = (
  λ h. any-IsWithin (lower message) rate_limit_markers (rw (marked message) at h),
  λ (m, k, e). marked message ∙ any_of_IsWithin (lower message) m rate_limit_markers k e,
)
