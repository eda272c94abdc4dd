-- ===== src/Scheduler/Replicas.antt =====
-- The loop of app/scheduler/scheduler.py over several replicas, and the advisory lock of
-- app/jobs/queue.py. A replica is known by the number of its connection to the database.
pub mod Single
use echo_security_scanner.Base.{ℕ, ◌≡◌, ◌≢◌, Bool, true, false, ◌==◌, if◌then◌else◌}
use echo_security_scanner.Errors.{Result, ok, raise}
use echo_security_scanner.Config.{Settings}
use echo_security_scanner.Domain.Database.{Db, Session, rollback}
use echo_security_scanner.Scheduler.{TickTimes, tick}

-- `SCHEDULER_LOCK_KEY`
abbrev pub scheduler_lock_key : ℕ
scheduler_lock_key = 0x5CA45CA4

-- The database's session-level advisory locks: two functions on their state, which may raise, and who
-- holds a key. A key has one holder; a lock that is granted is held; a call changes nothing for the
-- keys of other connections, and asking again for a lock does not lose it.
pub record AdvisoryLocks (L : Type 0) : Type 0 where
  pub pg_try_advisory_lock : ℕ → ℕ → L → Result Bool × L
  pub pg_advisory_unlock : ℕ → ℕ → L → Result Bool × L
  pub is_held : L → ℕ → ℕ → Bool
  pub exclusive : (l : L) (a b key : ℕ) → is_held l a key ≡ true → is_held l b key ≡ true → a ≡ b
  pub granted :
      (l : L) (a key : ℕ)
      → (pg_try_advisory_lock a key l).0 ≡ ok true
      → is_held (pg_try_advisory_lock a key l).1 a key ≡ true
  pub kept_by_others :
      (l : L) (a b key : ℕ)
      → b ≢ a
      → is_held l b key ≡ true
      → is_held (pg_try_advisory_lock a key l).1 b key ≡ true
  pub kept_after_unlock :
      (l : L) (a b key : ℕ)
      → b ≢ a
      → is_held l b key ≡ true
      → is_held (pg_advisory_unlock a key l).1 b key ≡ true

-- What the replicas share, the locks and the database, and the `holds_lock` of each.
pub record Fleet (L : Type 0) : Type 0 where
  pub locks : L
  pub db : Db
  pub holds_lock : ℕ → Bool

module _ {L : Type 0} (server : AdvisoryLocks L) where
  unfoldable pub try_scheduler_lock : ℕ → L → Result Bool × L
  try_scheduler_lock a l = server.pg_try_advisory_lock a scheduler_lock_key l

  unfoldable pub release_scheduler_lock : ℕ → L → Result Bool × L
  release_scheduler_lock a l = server.pg_advisory_unlock a scheduler_lock_key l

  abbrev pub set_flag : ℕ → Bool → (ℕ → Bool) → ℕ → Bool
  set_flag a flag flags b = if b == a then flag else flags b

  -- The tick of a replica that holds the lock; an exception is rolled back and gives the flag up.
  unfoldable pub tick_locked : ℕ → TickTimes → Settings → Fleet L → Fleet L
  tick_locked a t settings f =
      let (r, s) = tick t settings (record { committed = f.db; current = f.db }) in
      elim r [
        | ok _ ↦ record {
          locks = f.locks;
          db = s.committed;
          holds_lock = set_flag a true f.holds_lock;
        }
        | raise _ ↦ record {
          locks = f.locks;
          db = (rollback s).1.current;
          holds_lock = set_flag a false f.holds_lock;
        }
      ]

  -- One round of the loop, without the sleep.
  unfoldable pub scheduler_round : ℕ → TickTimes → Settings → Fleet L → Fleet L
  unfolding tick_locked try_scheduler_lock
  scheduler_round a t settings f =
      if f.holds_lock a
      then tick_locked a t settings f
      else (let (r, l) = try_scheduler_lock a f.locks in
          let asked : Fleet L = record f { locks = l } in
          elim r [ ok true ↦ tick_locked a t settings asked | ok false ↦ asked | raise _ ↦ asked ])

  -- The end of `main`.
  unfoldable pub stop : ℕ → Fleet L → Fleet L
  unfolding release_scheduler_lock
  stop a f =
      if f.holds_lock a
      then record f {
        locks = (release_scheduler_lock a f.locks).1;
        holds_lock = set_flag a false f.holds_lock;
      }
      else f

  -- What happens to a fleet whose connections last: a round of a replica, or its end.
  pub data FleetStep : Fleet L → Fleet L → Type 0 where
    rounds :
        (a : ℕ) (t : TickTimes) (settings : Settings) (f : Fleet L)
        → FleetStep f (scheduler_round a t settings f)
    stops : (a : ℕ) (f : Fleet L) → FleetStep f (stop a f)

  pub data FleetSteps : Fleet L → Fleet L → Type 0 where
    done : (f : Fleet L) → FleetSteps f f
    next : {f g h : Fleet L} → FleetStep f g → FleetSteps g h → FleetSteps f h
