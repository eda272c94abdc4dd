-- ===== src/Api/Requests/Answers.antt =====
-- What a scan request is answered, and what it leaves committed (`request_scan` of
-- app/api/routes/images.py).
use echo_security_scanner.Base.{
  ℕ, ◌≤◌, ◌≡◌, refl, sym, subst, ◌⊎◌, inl, inr, Bool, true, false, none, List, [], ◌∷◌, ◌++◌, Text,
  arith, length, filter, any, All, In, here, Bool-cases, filter_keeps,
}
use echo_security_scanner.Errors.{Result, ok}
use echo_security_scanner.Domain.Models.{JobStatus, Image, ScanJob}
use echo_security_scanner.Domain.Database.{Session, commit, rollback}
use echo_security_scanner.Jobs.Queue.{
  Clocks, active_for, enqueue, promote, promotable, promote_rows, scalar_one_or_none,
}
use echo_security_scanner.Jobs.Queue.Exclusion.{IsQueueSound}
use echo_security_scanner.Api.Requests.{
  Reply, queued, promoted, already_queued, is_named, requested_priority, request_scan, request,
}

promotable_le :
    (k : ℕ) (jobs : List ScanJob)
    → length (filter (promotable k) jobs) ≤ length (filter (active_for k) jobs)
promotable_le k [] = omega arith
promotable_le k (j ∷ jobs) = ground (arith, promotable_le k jobs)

at_most_one :
    (jobs : List ScanJob) → length jobs ≤ 1 → (jobs ≡ []) ⊎ ((j : ScanJob) × (jobs ≡ j ∷ []))
at_most_one [] h = inl refl
at_most_one (j ∷ []) h = inr (j, refl)
at_most_one (j ∷ k ∷ rest) h = absurd (omega arith)

none_promotable :
    (k : ℕ) (jobs : List ScanJob)
    → filter (promotable k) jobs ≡ []
    → All (λ j. promotable k j ≡ false) jobs
none_promotable k [] h = tt
none_promotable k (j ∷ jobs) h = ground (arith, none_promotable k jobs)

-- The image had no active job: one was added behind the others, with the priority asked for.
pub record IsQueued (now : Clocks) (image : Image) (time_sensitive : Bool) (s : Session)
    (out : Result Reply × Session) : Type 0 where
  pub free : any (active_for image.id) s.current.jobs ≡ false
  pub reply : out.0 ≡ ok (queued s.current.seq.next_job)
  pub job : ScanJob
  pub jobs : out.1.committed.jobs ≡ s.current.jobs ++ job ∷ []
  pub id : job.id ≡ s.current.seq.next_job
  pub image_id : job.image_id ≡ image.id
  pub pending : job.status ≡ JobStatus.pending
  pub priority : job.priority ≡ requested_priority time_sensitive

-- The image had a pending job of lower priority, and the request was urgent: that job is promoted.
pub record IsPromoted (now : Clocks) (image : Image) (time_sensitive : Bool) (s : Session)
    (out : Result Reply × Session) : Type 0 where
  pub is_urgent : time_sensitive ≡ true
  pub job : ScanJob
  pub there : In job s.current.jobs
  pub was_promotable : promotable image.id job ≡ true
  pub reply : out.0 ≡ ok (promoted job.id)
  pub jobs : out.1.committed.jobs ≡ promote_rows now image.id s.current.jobs

-- The image had an active job that was not to be promoted: nothing is committed.
pub record IsLeft (image : Image) (time_sensitive : Bool) (s : Session)
    (out : Result Reply × Session) : Type 0 where
  pub busy : any (active_for image.id) s.current.jobs ≡ true
  pub settled : (time_sensitive ≡ false) ⊎ All (λ j. promotable image.id j ≡ false) s.current.jobs
  pub reply : out.0 ≡ ok already_queued
  pub nothing : out.1.committed ≡ s.committed

module _ (now : Clocks) (name tag : Text) (image : Image) (s : Session)
    (sound : IsQueueSound s.current)
    (known : filter (is_named name tag) s.current.images ≡ image ∷ []) where
  IsQueued-case :
      (time_sensitive : Bool)
      → any (active_for image.id) s.current.jobs ≡ false
      → IsQueued now image time_sensitive s (request now name tag time_sensitive s)
  unfolding request request_scan enqueue commit rollback
  IsQueued-case time_sensitive free = record {
    free = free;
    reply = rw (known, free) refl;
    job = record {
      id = s.current.seq.next_job;
      image_id = image.id;
      status = JobStatus.pending;
      priority = requested_priority time_sensitive;
      scheduled_for = now.wall;
      lease_until = none;
      attempts = 0;
      last_error = none;
      created_at = now.transaction;
    };
    jobs = rw (known, free) refl;
    id = refl;
    image_id = refl;
    pending = refl;
    priority = refl;
  }

  urgent :
      any (active_for image.id) s.current.jobs ≡ true
      → IsPromoted now image true s (request now name tag true s)
        ⊎ IsLeft image true s (request now name tag true s)
  unfolding request request_scan enqueue promote commit rollback scalar_one_or_none
  urgent busy = elim (at_most_one (filter (promotable image.id) s.current.jobs) at_most) [
    | inl e ↦ inr (record {
      busy = busy;
      settled = inr (none_promotable image.id s.current.jobs e);
      reply = rw (known, busy, e) refl;
      nothing = rw (known, busy, e) refl;
    })
    | inr (j, e) ↦
        let kept = filter_keeps (promotable image.id) s.current.jobs (subst (In j) (sym e) here) in
        inl (record {
          is_urgent = refl;
          job = j;
          there = kept.0;
          was_promotable = kept.1;
          reply = rw (known, busy, e) refl;
          jobs = rw (known, busy, e) refl;
        })
  ]
    where
      at_most : length (filter (promotable image.id) s.current.jobs) ≤ 1
      at_most = omega (arith, promotable_le image.id s.current.jobs, sound.exclusive image.id)

  patient :
      any (active_for image.id) s.current.jobs ≡ true
      → IsLeft image false s (request now name tag false s)
  unfolding request request_scan enqueue commit rollback
  patient busy = record {
    busy = busy;
    settled = inl refl;
    reply = rw (known, busy) refl;
    nothing = rw (known, busy) refl;
  }

  -- Of a sound queue and an image whose name and tag only one row has: a request never raises. It
  -- queues a new job where the image had no active one; it promotes the image's pending job of
  -- lower priority where it is urgent; else it leaves everything as it was committed.
  pub request_answers :
      (time_sensitive : Bool)
      → let out = request now name tag time_sensitive s in
        IsQueued now image time_sensitive s out
        ⊎ (IsPromoted now image time_sensitive s out ⊎ IsLeft image time_sensitive s out)
  request_answers time_sensitive = elim (Bool-cases (any (active_for image.id) s.current.jobs)) [
    | inl busy ↦ inr (occupied time_sensitive busy)
    | inr free ↦ inl (IsQueued-case time_sensitive free)
  ]
    where
      occupied :
          (time_sensitive : Bool)
          → any (active_for image.id) s.current.jobs ≡ true
          → IsPromoted now image time_sensitive s (request now name tag time_sensitive s)
            ⊎ IsLeft image time_sensitive s (request now name tag time_sensitive s)
      occupied true busy = urgent busy
      occupied false busy = inr (patient busy)
