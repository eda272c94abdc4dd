-- ===== src/Examples/Ticks.antt =====
-- A tick at the data of the other examples (app/scheduler/scheduler.py).
use echo_security_scanner.Base.{◌≡◌, ◌∷◌, [], arith}
use echo_security_scanner.Domain.Database.{Db, Session}
use echo_security_scanner.Jobs.Queue.{reap_rows, reap_expired_leases}
use echo_security_scanner.Jobs.Queue.Exclusion.{IsQueueSound}
use echo_security_scanner.Scheduler.{TickTimes, record_reaped, due_images, tick}
use echo_security_scanner.Scheduler.Ticking.{IsEnqueued, tick_enqueues_due}
use echo_security_scanner.Examples.Queue.{noon, queued, queued-IsQueueSound}
use echo_security_scanner.Examples.Scans.{nginx}
use echo_security_scanner.Examples.Settled.{defaults}

-- An image that is due, and one whose last job has died.
abbrev pub with_images : Db
with_images = record queued { images = nginx ∷ record nginx { id = 7 } ∷ [] }

abbrev ticking : Session
ticking = record { committed = with_images; current = with_images }

abbrev pub noon_tick : TickTimes
noon_tick = record {
  reaping = noon;
  recording = λ _. 1000;
  deciding = 5000000000;
  enqueueing = λ _. noon;
}

with_images-IsQueueSound : IsQueueSound with_images
with_images-IsQueueSound = record {
  exclusive = queued-IsQueueSound.exclusive;
  keyed = queued-IsQueueSound.keyed;
  fresh = queued-IsQueueSound.fresh;
}

tick_enqueues_due_example :
    let (reaped, freed) = reap_expired_leases noon 5 with_images in
    let recorded = (record_reaped (λ _. 1000) reaped freed).1 in
    let out = tick noon_tick defaults ticking in
    (recorded.jobs ≡ reap_rows noon 5 with_images.jobs)
    × (out.1.committed ≡ out.1.current)
    × IsEnqueued (due_images 5000000000 defaults recorded) recorded.jobs (out.0, out.1.committed)
tick_enqueues_due_example =
    tick_enqueues_due noon_tick defaults ticking with_images-IsQueueSound
      ((λ h. ground (arith, h), tt), (tt, tt))
