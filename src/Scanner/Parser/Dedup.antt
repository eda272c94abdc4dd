-- ===== src/Scanner/Parser/Dedup.antt =====
-- What `parse_report` keeps of a report's vulnerabilities (app/scanner/parser.py).
use echo_security_scanner.Base.{
  ◌≤◌, ◌≡◌, refl, true, false, ◌⊎◌, List, [], ◌∷◌, arith, text_eq_iff, ltb, any, All, Bool-cases,
  inl, inr,
}
use echo_security_scanner.Domain.Severity.{rank}
use echo_security_scanner.Scanner.Parser.{ParsedFinding, same_key, keep_highest}

-- The four parts of the key are equal.
same_key_parts :
    (f g : ParsedFinding)
    → same_key f g ≡ true
    → (f.cve_id ≡ g.cve_id)
      × (f.package_name ≡ g.package_name)
      × (f.package_version ≡ g.package_version)
      × (f.package_type ≡ g.package_type)
unfolding same_key
same_key_parts f g h = ground (
  arith,
  text_eq_iff f.cve_id g.cve_id,
  text_eq_iff f.package_name g.package_name,
  text_eq_iff f.package_version g.package_version,
  text_eq_iff f.package_type g.package_type,
)

pub same_key_left : (f g h : ParsedFinding) → same_key f g ≡ true → same_key f h ≡ same_key g h
unfolding same_key
same_key_left f g h e = ground (arith, same_key_parts f g e)

same_key_right : (f g h : ParsedFinding) → same_key f g ≡ true → same_key h f ≡ same_key h g
unfolding same_key
same_key_right f g h e = ground (arith, same_key_parts f g e)

pub same_key_refl : (f : ParsedFinding) → same_key f f ≡ true
unfolding same_key
same_key_refl f = ground (
  arith,
  text_eq_iff f.cve_id f.cve_id,
  text_eq_iff f.package_name f.package_name,
  text_eq_iff f.package_version f.package_version,
  text_eq_iff f.package_type f.package_type,
)

same_key_symm : (f g : ParsedFinding) → same_key f g ≡ true → same_key g f ≡ true
same_key_symm f g h = ground (arith, same_key_left f g f h, same_key_refl f)

-- No two findings have one key.
abbrev pub IsDistinct : List ParsedFinding → Type 0
IsDistinct [] = Unit
IsDistinct (f ∷ fs) = (any (same_key f) fs ≡ false) × IsDistinct fs

any-same_key :
    (f g : ParsedFinding) (fs : List ParsedFinding)
    → same_key f g ≡ true
    → any (same_key f) fs ≡ any (same_key g) fs
any-same_key f g [] h = refl
any-same_key f g (x ∷ fs) h = ground (arith, same_key_left f g x h, any-same_key f g fs h)

any-keep_highest :
    (g f : ParsedFinding) (fs : List ParsedFinding)
    → same_key g f ≡ false
    → any (same_key g) (keep_highest f fs) ≡ any (same_key g) fs
unfolding keep_highest
any-keep_highest g f [] h = ground arith
any-keep_highest g f (x ∷ fs) h = ground (arith, same_key_right f x g, any-keep_highest g f fs h)

pub keep_highest-IsDistinct :
    (f : ParsedFinding) (fs : List ParsedFinding) → IsDistinct fs → IsDistinct (keep_highest f fs)
unfolding keep_highest
keep_highest-IsDistinct f [] d = (refl, tt)
keep_highest-IsDistinct f (g ∷ fs) d = elim (Bool-cases (same_key f g)) [
  | inl e ↦ elim (Bool-cases (ltb (rank g.severity) (rank f.severity))) [
    | inl l ↦ rw (e, l) (cc (any-same_key f g fs e, d.0), d.1)
    | inr l ↦ rw (e, l) d
  ]
  | inr e ↦
      rw e (
        ground (arith, any-keep_highest g f fs, same_key_symm g f),
        keep_highest-IsDistinct f fs d.1,
      )
]

-- An entry has the key of `f` and is at least as severe.
abbrev pub Covers : List ParsedFinding → ParsedFinding → Type 0
Covers [] f = ⊥
Covers (g ∷ gs) f = ((same_key f g ≡ true) × (rank f.severity ≤ rank g.severity)) ⊎ Covers gs f

Covers-self : (f : ParsedFinding) (fs : List ParsedFinding) → Covers (keep_highest f fs) f
unfolding keep_highest
Covers-self f [] = inl (same_key_refl f, omega arith)
Covers-self f (g ∷ fs) = ground (arith, same_key_refl f, Covers-self f fs)

Covers-more :
    (h f : ParsedFinding) (fs : List ParsedFinding) → Covers fs h → Covers (keep_highest f fs) h
unfolding keep_highest
Covers-more h f [] c = absurd c
Covers-more h f (x ∷ fs) c = ground (arith, Covers-more h f fs, same_key_right f x h)

keep_highest-All {ℓ} :
    (P : ParsedFinding → Type ℓ) (f : ParsedFinding) (fs : List ParsedFinding)
    → P f
    → All P fs
    → All P (keep_highest f fs)
unfolding keep_highest
keep_highest-All P f [] p h = (p, tt)
keep_highest-All P f (x ∷ fs) p h = ground (arith, keep_highest-All P f fs p h.1)

-- The dict after the findings of a list, one after the other.
unfoldable pub keep_all : List ParsedFinding → List ParsedFinding → List ParsedFinding
keep_all [] deduped = deduped
keep_all (f ∷ fs) deduped = keep_all fs (keep_highest f deduped)

keep_all-Covers_each :
    (h : ParsedFinding) (fs deduped : List ParsedFinding)
    → Covers deduped h
    → Covers (keep_all fs deduped) h
unfolding keep_all
keep_all-Covers_each h [] d c = c
keep_all-Covers_each h (f ∷ fs) d c =
    keep_all-Covers_each h fs (keep_highest f d) (Covers-more h f d c)

pub keep_all-Covers : (fs deduped : List ParsedFinding) → All (Covers (keep_all fs deduped)) fs
unfolding keep_all
keep_all-Covers [] d = tt
keep_all-Covers (f ∷ fs) d = (
  keep_all-Covers_each f fs (keep_highest f d) (Covers-self f d),
  keep_all-Covers fs (keep_highest f d),
)

pub keep_all-IsDistinct :
    (fs deduped : List ParsedFinding) → IsDistinct deduped → IsDistinct (keep_all fs deduped)
unfolding keep_all
keep_all-IsDistinct [] d h = h
keep_all-IsDistinct (f ∷ fs) d h =
    keep_all-IsDistinct fs (keep_highest f d) (keep_highest-IsDistinct f d h)

pub keep_all-All {ℓ} :
    (P : ParsedFinding → Type ℓ) (fs deduped : List ParsedFinding)
    → All P fs
    → All P deduped
    → All P (keep_all fs deduped)
unfolding keep_all
keep_all-All P [] d a h = h
keep_all-All P (f ∷ fs) d a h =
    keep_all-All P fs (keep_highest f d) a.1 (keep_highest-All P f d a.0 h)
