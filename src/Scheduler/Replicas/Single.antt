-- ===== src/Scheduler/Replicas/Single.antt =====
-- One replica ticks at a time (`main` of app/scheduler/scheduler.py).
use echo_security_scanner.Base.{
  ℕ, ◌≡◌, ◌≢◌, ◌⊎◌, refl, sym, ap, ◌∙◌, subst, Bool, true, false, ◌==◌, ==_iff, arith, Bool-cases,
  inl, inr,
}
use echo_security_scanner.Errors.{Result-cases}
use echo_security_scanner.Config.{Settings}
use echo_security_scanner.Domain.Database.{Db}
use echo_security_scanner.Scheduler.{TickTimes, tick}
use echo_security_scanner.Scheduler.Replicas.{
  scheduler_lock_key, AdvisoryLocks, Fleet, try_scheduler_lock, release_scheduler_lock, set_flag,
  tick_locked, scheduler_round, stop, FleetStep, rounds, stops, FleetSteps, done, next,
}

module _ {L : Type 0} (server : AdvisoryLocks L) where
  -- Who says that it holds the lock does.
  pub record IsHonest (f : Fleet L) : Type 0 where
    pub held : (a : ℕ) → f.holds_lock a ≡ true → server.is_held f.locks a scheduler_lock_key ≡ true

  set_flag-IsHonest :
      (a : ℕ) (flag : Bool) (f : Fleet L) (db : Db)
      → (flag ≡ true → server.is_held f.locks a scheduler_lock_key ≡ true)
      → IsHonest f
      → IsHonest
          (record { locks = f.locks; db = db; holds_lock = set_flag server a flag f.holds_lock })
  set_flag-IsHonest a flag f db mine h = record {
    held = λ b k. elim (Bool-cases (b == a)) [
      | inl e ↦
          let same : b ≡ a = (==_iff b a).0 e in
          let mine' : server.is_held f.locks a scheduler_lock_key ≡ true = mine (ground arith) in
          subst (λ c. server.is_held f.locks c scheduler_lock_key ≡ true) (sym same) mine'
      | inr e ↦ h.held b (ground arith)
    ];
  }

  tick_locked-IsHonest :
      (a : ℕ) (t : TickTimes) (settings : Settings) (f : Fleet L)
      → server.is_held f.locks a scheduler_lock_key ≡ true
      → IsHonest f
      → IsHonest (tick_locked server a t settings f)
  unfolding tick_locked
  tick_locked-IsHonest a t settings f mine h =
      elim (Result-cases (tick t settings (record { committed = f.db; current = f.db })).0) [
        | inl (n, e) ↦ rw (e, tick_locked) (set_flag-IsHonest a true f _ (λ _. mine) h)
        | inr (x, e) ↦ rw (e, tick_locked) (set_flag-IsHonest a false f _ (λ z. absurd (cc z)) h)
      ]

  tick_locked_locks :
      (a : ℕ) (t : TickTimes) (settings : Settings) (f : Fleet L)
      → (tick_locked server a t settings f).locks ≡ f.locks
  unfolding tick_locked
  tick_locked_locks a t settings f =
      elim (Result-cases (tick t settings (record { committed = f.db; current = f.db })).0) [
        | inl (n, e) ↦ rw (e, tick_locked) refl
        | inr (x, e) ↦ rw (e, tick_locked) refl
      ]

  -- A replica without the flag asks: the others keep what they hold.
  asked-IsHonest :
      (a : ℕ) (f : Fleet L)
      → f.holds_lock a ≡ false
      → IsHonest f
      → IsHonest (record f { locks = (try_scheduler_lock server a f.locks).1 })
  unfolding try_scheduler_lock
  asked-IsHonest a f none h = record {
    held = λ b k.
        server.kept_by_others f.locks a b scheduler_lock_key
          (λ e. absurd (cc (k, none, ap f.holds_lock e))) (h.held b k);
  }

  -- A round does not tick, or the replica holds the lock, and ticks.
  round-cases :
      (a : ℕ) (t : TickTimes) (settings : Settings) (f : Fleet L)
      → IsHonest f
      → (g : Fleet L) × IsHonest g
        × (g.db ≡ f.db)
        × ((scheduler_round server a t settings f ≡ g)
            ⊎ ((server.is_held g.locks a scheduler_lock_key ≡ true)
                × (scheduler_round server a t settings f ≡ tick_locked server a t settings g)))
  unfolding scheduler_round
  round-cases a t settings f h = elim (Bool-cases (f.holds_lock a)) [
    | inl k ↦ (f, h, refl, inr (h.held a k, rw (k, scheduler_round) refl))
    | inr k ↦
        let after = (try_scheduler_lock server a f.locks).1 in
        let asked = record f { locks = after } in
        (
          asked,
          asked-IsHonest a f k h,
          refl,
          elim (Result-cases (try_scheduler_lock server a f.locks).0) [
            | inl (true, e) ↦
                inr (server.granted f.locks a scheduler_lock_key e, rw (k, scheduler_round, e) refl)
            | inl (false, e) ↦ inl (rw (k, scheduler_round, e) refl)
            | inr (x, e) ↦ inl (rw (k, scheduler_round, e) refl)
          ],
        )
  ]

  round-IsHonest :
      (a : ℕ) (t : TickTimes) (settings : Settings) (f : Fleet L)
      → IsHonest f
      → IsHonest (scheduler_round server a t settings f)
  round-IsHonest a t settings f h =
      let (g, k, _, either) = round-cases a t settings f h in
      elim either [
        | inl e ↦ rw e k
        | inr (mine, e) ↦ rw e (tick_locked-IsHonest a t settings g mine k)
      ]

  stop-IsHonest : (a : ℕ) (f : Fleet L) → IsHonest f → IsHonest (stop server a f)
  unfolding stop release_scheduler_lock
  stop-IsHonest a f h = elim (Bool-cases (f.holds_lock a)) [
    | inr k ↦ rw (k, stop) h
    | inl k ↦
        rw (k, stop)
          (record {
            held = λ b m. elim (Bool-cases (b == a)) [
              | inl e ↦ absurd (ground (arith, m, e))
              | inr e ↦
                  server.kept_after_unlock f.locks a b scheduler_lock_key
                    (λ z. absurd (cc (e, (==_iff b a).1 z))) (h.held b (ground (arith, m, e)))
            ];
          })
  ]

  FleetStep-IsHonest : {f g : Fleet L} → FleetStep server f g → IsHonest f → IsHonest g
  FleetStep-IsHonest (rounds a t settings f) h = round-IsHonest a t settings f h
  FleetStep-IsHonest (stops a f) h = stop-IsHonest a f h

  FleetSteps-IsHonest : {f g : Fleet L} → FleetSteps server f g → IsHonest f → IsHonest g
  FleetSteps-IsHonest (done f) h = h
  FleetSteps-IsHonest (next step rest) h = FleetSteps-IsHonest rest (FleetStep-IsHonest step h)

  -- The replicas start without the lock, and their connections last. Whatever rounds and ends of
  -- replicas have come before: a further round of one of them leaves the database as it is, unless,
  -- after it, no other replica takes itself for the holder of the lock.
  pub scheduler_round_alone :
      {start f : Fleet L}
      → FleetSteps server start f
      → ((a : ℕ) → start.holds_lock a ≡ false)
      → (a b : ℕ) (t : TickTimes) (settings : Settings) → b ≢ a
      → ((scheduler_round server a t settings f).db ≡ f.db)
        ⊎ ((scheduler_round server a t settings f).holds_lock b ≡ false)
  scheduler_round_alone {start} {f} steps none a b t settings other =
      let honest = FleetSteps-IsHonest steps (record { held = λ c k. absurd (cc (k, none c)) }) in
      let (g, k, same, either) = round-cases a t settings f honest in
      elim either [
        | inl e ↦ inl (ap (λ (h : Fleet L). h.db) e ∙ same)
        | inr (mine, e) ↦ inr (
            rw e (elim (Bool-cases ((tick_locked server a t settings g).holds_lock b)) [
              | inr n ↦ n
              | inl y ↦
                  let theirs = (tick_locked-IsHonest a t settings g mine k).held b y in
                  absurd (
                    other (
                      server.exclusive g.locks b a scheduler_lock_key
                        (rw (tick_locked_locks a t settings g) at theirs) mine))
            ]))
      ]
