-- ===== src/Scheduler/Reaped.antt =====
-- What the records of dead attempts leave alone (`record_reaped` of app/scheduler/scheduler.py).
use echo_security_scanner.Base.{
  ◌≡◌, refl, ap, ◌∙◌, some, List, [], ◌∷◌, ◌==◌, ==_iff, arith, IsUnique, map-IsUnique, find?-In,
  Option-cases, inl, inr,
}
use echo_security_scanner.Errors.{Result, ok}
use echo_security_scanner.Domain.Models.{Time, Image}
use echo_security_scanner.Domain.Database.{Db, get_image, flush_image, merge_image}
use echo_security_scanner.Jobs.Queue.{ReapedJob}
use echo_security_scanner.Scanner.Persist.{record_failure, add_run}
use echo_security_scanner.Scheduler.{record_dead, record_reaped}

-- What the record of a dead attempt keeps.
pub record IsKept (db : Db) (out : Result (Unit {0}) × Db) : Type 0 where
  pub returned : out.0 ≡ ok tt
  pub jobs : out.1.jobs ≡ db.jobs
  pub next_job : out.1.seq.next_job ≡ db.seq.next_job
  pub unique : IsUnique (λ (i : Image). i.id) out.1.images

record_dead-IsKept :
    (at : Time) (entry : ReapedJob) (db : Db)
    → IsUnique (λ (i : Image). i.id) db.images
    → IsKept db (record_dead at entry db)
unfolding record_dead record_failure add_run flush_image merge_image
record_dead-IsKept at entry db u = elim (Option-cases (get_image entry.image_id db.images)) [
  | inl e ↦
      rw (e, record_dead) (record { returned = refl; jobs = refl; next_job = refl; unique = u })
  | inr (image, e) ↦
      let found = find?-In (λ i. i.id == entry.image_id) db.images image e in
      let own : get_image image.id db.images ≡ some image =
        ap (λ k. get_image k db.images) ((==_iff image.id entry.image_id).0 found.1) ∙ e in
      rw (e, record_dead, own)
        (record {
          returned = refl;
          jobs = refl;
          next_job = refl;
          unique = map-IsUnique (λ (i : Image). i.id) _ (λ i. ground arith) db.images u;
        })
]

pub record_reaped-IsKept :
    (at : ReapedJob → Time) (reaped : List ReapedJob) (db : Db)
    → IsUnique (λ (i : Image). i.id) db.images
    → IsKept db (record_reaped at reaped db)
unfolding record_reaped
record_reaped-IsKept at [] db u = record {
  returned = refl;
  jobs = refl;
  next_job = refl;
  unique = u;
}
record_reaped-IsKept at (entry ∷ rest) db u =
    let here = record_dead-IsKept (at entry) entry db u in
    let behind = record_reaped-IsKept at rest (record_dead (at entry) entry db).1 here.unique in
    rw here.returned (record {
      returned = behind.returned;
      jobs = behind.jobs ∙ here.jobs;
      next_job = behind.next_job ∙ here.next_job;
      unique = behind.unique;
    })
