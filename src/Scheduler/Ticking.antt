-- ===== src/Scheduler/Ticking.antt =====
-- One pass of the scheduler (`tick` of app/scheduler/scheduler.py).
use echo_security_scanner.Base.{
  ℕ, ◌≡◌, ◌≢◌, refl, sym, ap, ◌∙◌, false, none, some, List, [], ◌∷◌, ◌++◌, arith, length, map,
  filter, any, any-append, All, All_always, IsUnique, filter-IsUnique, All-filter, ap₂,
}
use mathlib.Core.List.{append_assoc, append-nil}
use echo_security_scanner.Errors.{Result, ok}
use echo_security_scanner.Config.{Settings}
use echo_security_scanner.Domain.Models.{Time, JobStatus, Image, ScanJob}
use echo_security_scanner.Domain.Database.{Db, Session, commit}
use echo_security_scanner.Jobs.Queue.{
  Clocks, priority_scheduled, active_for, enqueue, reap_expired_leases, reap_rows,
}
use echo_security_scanner.Jobs.Queue.Exclusion.{
  IsQueueSound, enqueue-IsQueueSound, reap_expired_leases-IsQueueSound,
}
use echo_security_scanner.Scheduler.{
  TickTimes, is_due, due_images, record_reaped, enqueue_all, tick,
}
use echo_security_scanner.Scheduler.Reaped.{record_reaped-IsKept}

-- A job as the scheduler enqueues it.
abbrev pub IsScheduled : ScanJob → Type 0
IsScheduled j =
    (j.status ≡ JobStatus.pending) × (j.priority ≡ priority_scheduled) × (j.attempts ≡ 0)

-- One job for each image is added behind the others, and counted.
pub record IsEnqueued (images : List Image) (jobs : List ScanJob) (out : Result ℕ × Db)
    : Type 0 where
  pub returned : out.0 ≡ ok (length images)
  pub new : List ScanJob
  pub added : out.1.jobs ≡ jobs ++ new
  pub for_images : map (λ j. j.image_id) new ≡ map (λ i. i.id) images
  pub scheduled : All IsScheduled new
  pub sound : IsQueueSound out.1

still_free :
    (at : Clocks) (image : Image) (rest : List Image) (db : Db)
    → any (active_for image.id) db.jobs ≡ false
    → All (λ i. i.id ≢ image.id) rest
    → All (λ i. any (active_for i.id) db.jobs ≡ false) rest
    → All
        (λ i. any (active_for i.id) (enqueue at image.id priority_scheduled none db).1.jobs ≡ false)
        rest
unfolding enqueue
still_free at image [] db e u h = tt
still_free at image (i ∷ rest) db e u h =
    (rw (e, enqueue, any-append, h.0) (ground (arith, u.0)), still_free at image rest db e u.1 h.1)

enqueue_free :
    (at : Clocks) (image : Image) (db : Db)
    → any (active_for image.id) db.jobs ≡ false
    → ((enqueue at image.id priority_scheduled none db).0 ≡ ok (some db.seq.next_job))
      × (j : ScanJob) × ((enqueue at image.id priority_scheduled none db).1.jobs
          ≡ db.jobs ++ j ∷ [])
      × (j.image_id ≡ image.id)
      × IsScheduled j
unfolding enqueue
enqueue_free at image db e = (
  rw (e, enqueue) refl,
  record {
    id = db.seq.next_job;
    image_id = image.id;
    status = JobStatus.pending;
    priority = priority_scheduled;
    scheduled_for = at.wall;
    lease_until = none;
    attempts = 0;
    last_error = none;
    created_at = at.transaction;
  },
  rw (e, enqueue) refl,
  refl,
  (refl, refl, refl),
)

enqueue_all-IsEnqueued :
    (at : ℕ → Clocks) (images : List Image) (db : Db)
    → IsQueueSound db
    → IsUnique (λ (i : Image). i.id) images
    → All (λ i. any (active_for i.id) db.jobs ≡ false) images
    → IsEnqueued images db.jobs (enqueue_all at images db)
unfolding enqueue_all
enqueue_all-IsEnqueued at [] db sound u free = record {
  returned = refl;
  new = [];
  added = sym (append-nil db.jobs);
  for_images = refl;
  scheduled = tt;
  sound = sound;
}
enqueue_all-IsEnqueued at (image ∷ rest) db sound u free =
    let (id, j, grown, own, new) = enqueue_free (at image.id) image db free.0 in
    let after = (enqueue (at image.id) image.id priority_scheduled none db).1 in
    let behind =
      enqueue_all-IsEnqueued at rest after
        (enqueue-IsQueueSound (at image.id) image.id priority_scheduled none db sound) u.1
        (still_free (at image.id) image rest db free.0 u.0 free.1) in
    rw id (record {
      returned = rw behind.returned (ap ok (omega arith));
      new = j ∷ behind.new;
      added = rw behind.returned (
          behind.added
          ∙ ap (λ js. js ++ behind.new) grown
          ∙ append_assoc db.jobs (j ∷ []) behind.new);
      for_images = ap₂ ◌∷◌ own behind.for_images;
      scheduled = (new, behind.scheduled);
      sound = rw behind.returned behind.sound;
    })

due-free :
    (now : Time) (settings : Settings) (jobs : List ScanJob) (images : List Image)
    → All (λ i. any (active_for i.id) jobs ≡ false) (filter (is_due now settings jobs) images)
due-free now settings jobs images =
    All-filter (λ i. any (active_for i.id) jobs ≡ false) (is_due now settings jobs) images
      (All_always _ (λ i h. ground arith) images)

same_queue :
    (db mid : Db)
    → mid.jobs ≡ db.jobs
    → mid.seq.next_job ≡ db.seq.next_job
    → IsQueueSound db
    → IsQueueSound mid
same_queue db mid j n h = rw (j, n) h

-- A tick whose steps raise nothing.
tick_lem :
    (t : TickTimes) (settings : Settings) (s : Session) (n : ℕ)
    → let (reaped, freed) = reap_expired_leases t.reaping settings.max_attempts s.current in
      let recorded = record_reaped t.recording reaped freed in
      let enqueued =
        enqueue_all t.enqueueing (due_images t.deciding settings recorded.1) recorded.1 in
      recorded.0 ≡ ok tt
      → enqueued.0 ≡ ok n
      → tick t settings s ≡ (ok n, record { committed = enqueued.1; current = enqueued.1 })
unfolding tick commit
tick_lem t settings s n r e = rw (r, e) refl

reaped_jobs :
    (t : TickTimes) (settings : Settings) (s : Session)
    → (reap_expired_leases t.reaping settings.max_attempts s.current).1.jobs
      ≡ reap_rows t.reaping settings.max_attempts s.current.jobs
unfolding reap_expired_leases
reaped_jobs t settings s = refl

images_kept :
    (t : TickTimes) (settings : Settings) (s : Session)
    → IsUnique (λ (i : Image). i.id) s.current.images
    → IsUnique
        (λ (i : Image). i.id)
        (reap_expired_leases t.reaping settings.max_attempts s.current).1.images
unfolding reap_expired_leases
images_kept t settings s u = u

enqueue_due :
    (t : TickTimes) (settings : Settings) (mid : Db)
    → IsQueueSound mid
    → IsUnique (λ (i : Image). i.id) mid.images
    → IsEnqueued
        (due_images t.deciding settings mid)
        mid.jobs
        (enqueue_all t.enqueueing (due_images t.deciding settings mid) mid)
unfolding due_images
enqueue_due t settings mid queue u =
    enqueue_all-IsEnqueued t.enqueueing (filter (is_due t.deciding settings mid.jobs) mid.images)
      mid queue (filter-IsUnique (λ (i : Image). i.id) _ _ u)
      (due-free t.deciding settings mid.jobs mid.images)

-- From a sound queue and distinct image ids, a tick raises nothing and commits all it did: every
-- expired lease is reaped, and then, of the images as the records of the dead attempts leave them, for
-- each that is due exactly one scheduled job is added, for no other any; the tick returns their number,
-- and the queue is sound.
pub tick_enqueues_due :
    (t : TickTimes) (settings : Settings) (s : Session)
    → IsQueueSound s.current
    → IsUnique (λ (i : Image). i.id) s.current.images
    → let (reaped, freed) = reap_expired_leases t.reaping settings.max_attempts s.current in
      let recorded = (record_reaped t.recording reaped freed).1 in
      let out = tick t settings s in
      (recorded.jobs ≡ reap_rows t.reaping settings.max_attempts s.current.jobs)
      × (out.1.committed ≡ out.1.current)
      × IsEnqueued (due_images t.deciding settings recorded) recorded.jobs (out.0, out.1.committed)
tick_enqueues_due t settings s sound u =
    let (reaped, freed) = reap_expired_leases t.reaping settings.max_attempts s.current in
    let kept = record_reaped-IsKept t.recording reaped freed (images_kept t settings s u) in
    let mid = (record_reaped t.recording reaped freed).1 in
    let queue =
      same_queue freed mid kept.jobs kept.next_job
        (reap_expired_leases-IsQueueSound t.reaping settings.max_attempts s.current sound) in
    let done = enqueue_due t settings mid queue kept.unique in
    let whole = tick_lem t settings s _ kept.returned done.returned in
    (
      kept.jobs ∙ reaped_jobs t settings s,
      rw whole refl,
      rw whole (record {
        returned = refl;
        new = done.new;
        added = done.added;
        for_images = done.for_images;
        scheduled = done.scheduled;
        sound = done.sound;
      }),
    )
