-- ===== src/Scanner/Rollup/Meaning.antt =====
-- What the derived columns of a CVE say, and what they depend on (`_recompute_cve_rollup` of
-- app/scanner/persist.py).
use echo_security_scanner.Base.{
  ℕ, ◌<◌, ◌≡◌, refl, inl, inr, true, false, some, List, [], ◌∷◌, map, Text, arith, ◌==◌,
  if◌then◌else◌, All, Bool-cases, All_imp,
}
use echo_security_scanner.Domain.Severity.{unknown}
use echo_security_scanner.Domain.Models.{Image, Cve, Finding}
use echo_security_scanner.Domain.Database.{Db, put_image}
use echo_security_scanner.Scanner.Rollup.{
  is_current, current_findings, max_rank, count_images, severity_at, rolled_up, member,
  recompute_cve_rollup,
}

-- The derived columns of a CVE are what its current findings say.
pub record IsRolledUp (images : List Image) (findings : List Finding) (c : Cve) : Type 0 where
  pub rank : c.max_severity_rank ≡ max_rank (current_findings images findings c.id)
  pub count : c.affected_image_count ≡ count_images (current_findings images findings c.id)
  pub severity : c.max_severity ≡ severity_at c.max_severity_rank

rolled_up-IsRolledUp :
    (images : List Image) (findings : List Finding) (c : Cve)
    → c.max_severity ≡ severity_at c.max_severity_rank
    → IsRolledUp images findings (rolled_up images findings c)
unfolding rolled_up
rolled_up-IsRolledUp images findings c h = ground arith

-- Only the current findings of a CVE matter to it.
pub IsRolledUp_of_same :
    (images images' : List Image) (findings findings' : List Finding) (c : Cve)
    → current_findings images' findings' c.id ≡ current_findings images findings c.id
    → IsRolledUp images findings c
    → IsRolledUp images' findings' c
IsRolledUp_of_same images images' findings findings' c e h = record {
  rank = rw e h.rank;
  count = rw e h.count;
  severity = h.severity;
}

-- Another image's pointer does not make a finding current, nor stop it from being so.
pub is_current-put_image_ne :
    (i : Image) (images : List Image) (f : Finding)
    → (i.id == f.image_id) ≡ false
    → is_current (put_image i images) f ≡ is_current images f
unfolding is_current
is_current-put_image_ne i [] f h = refl
is_current-put_image_ne i (x ∷ images) f h = ground (arith, is_current-put_image_ne i images f h)

-- A finding of an earlier run is not current once its image points to a later one.
pub is_current-put_image_old :
    (i : Image) (images : List Image) (f : Finding) (run : ℕ)
    → i.id ≡ f.image_id
    → i.current_scan_run_id ≡ some run
    → f.last_seen_run_id < run
    → is_current (put_image i images) f ≡ false
unfolding is_current
is_current-put_image_old i [] f run h p lt = refl
is_current-put_image_old i (x ∷ images) f run h p lt =
    ground (arith, is_current-put_image_old i images f run h p lt)

pub count_images_pos : (f : Finding) (fs : List Finding) → 0 < count_images (f ∷ fs)
unfolding count_images
count_images_pos f [] = omega arith
count_images_pos f (g ∷ fs) = ground (arith, count_images_pos g fs)

-- The columns agree with each other, and with the findings unless the CVE is to be recomputed.
abbrev pub IsRecomputable : List Image → List Finding → List Text → Cve → Type 0
IsRecomputable images findings ids c =
    (c.max_severity ≡ severity_at c.max_severity_rank)
    × (member c.id ids ≡ false → IsRolledUp images findings c)

recompute_each :
    (images : List Image) (findings : List Finding) (ids : List Text) (cves : List Cve)
    → All (IsRecomputable images findings ids) cves
    → All
        (IsRolledUp images findings)
        (map (λ c. if member c.id ids then rolled_up images findings c else c) cves)
recompute_each images findings ids [] h = tt
recompute_each images findings ids (c ∷ cves) h = elim (Bool-cases (member c.id ids)) [
  | inl e ↦
      rw e
        (rolled_up-IsRolledUp images findings c h.0.0, recompute_each images findings ids cves h.1)
  | inr e ↦ rw e (h.0.1 e, recompute_each images findings ids cves h.1)
]

-- After the recomputation every CVE's columns are right.
pub recompute-IsRolledUp :
    (ids : List Text) (db : Db)
    → All (IsRecomputable db.images db.findings ids) db.cves
    → All (IsRolledUp db.images db.findings) (recompute_cve_rollup ids db).cves
unfolding recompute_cve_rollup
recompute-IsRolledUp [] db h = All_imp _ _ db.cves (λ c k. k.1 refl) h
recompute-IsRolledUp (id ∷ ids) db h = recompute_each db.images db.findings (id ∷ ids) db.cves h

-- The recomputation writes no other table.
pub record SameTables (db db' : Db) : Type 0 where
  pub images : db'.images ≡ db.images
  pub packages : db'.packages ≡ db.packages
  pub findings : db'.findings ≡ db.findings
  pub seq : db'.seq ≡ db.seq

pub recompute-SameTables : (ids : List Text) (db : Db) → SameTables db (recompute_cve_rollup ids db)
unfolding recompute_cve_rollup
recompute-SameTables [] db = record { images = refl; packages = refl; findings = refl; seq = refl }
recompute-SameTables (id ∷ ids) db = record {
  images = refl;
  packages = refl;
  findings = refl;
  seq = refl;
}

-- A CVE that the findings have not touched yet.
pub IsRecomputable-new :
    (images : List Image) (findings : List Finding) (ids : List Text) (c : Cve)
    → c.max_severity ≡ unknown
    → c.max_severity_rank ≡ 0
    → member c.id ids ≡ true
    → IsRecomputable images findings ids c
unfolding severity_at
IsRecomputable-new images findings ids c s r m = (rw (s, r) refl, λ n. absurd (cc (m, n)))
