-- ===== src/Examples/Replicas.antt =====
-- Two schedulers at the data of the other examples (app/scheduler/scheduler.py).
use echo_security_scanner.Base.{
  ℕ, ◌≡◌, ◌≢◌, ◌⊎◌, refl, Bool, true, false, Option, none, some, ◌==◌, arith, if◌then◌else◌,
}
use echo_security_scanner.Errors.{Result, ok}
use echo_security_scanner.Scheduler.Replicas.{
  AdvisoryLocks, Fleet, FleetSteps, scheduler_round, rounds, next,
}
use echo_security_scanner.Scheduler.Replicas.Single.{scheduler_round_alone}
use echo_security_scanner.Examples.Settled.{defaults}
use echo_security_scanner.Examples.Ticks.{noon_tick, with_images}

-- A server whose locks are one.
abbrev ask : ℕ → ℕ → Option ℕ → Result Bool × Option ℕ
ask a key none = (ok true, some a)
ask a key (some b) = (ok (b == a), some b)

abbrev give_up : ℕ → ℕ → Option ℕ → Result Bool × Option ℕ
give_up a key none = (ok false, none)
give_up a key (some b) = if b == a then (ok true, none) else (ok false, some b)

abbrev holder_is : Option ℕ → ℕ → ℕ → Bool
holder_is none a key = false
holder_is (some b) a key = b == a

holder_exclusive :
    (l : Option ℕ) (a b key : ℕ) → holder_is l a key ≡ true → holder_is l b key ≡ true → a ≡ b
holder_exclusive none a b key h k = absurd (cc h)
holder_exclusive (some c) a b key h k = ground arith

ask_granted :
    (l : Option ℕ) (a key : ℕ) → (ask a key l).0 ≡ ok true → holder_is (ask a key l).1 a key ≡ true
ask_granted none a key h = ground arith
ask_granted (some c) a key h = cc h

ask_keeps :
    (l : Option ℕ) (a b key : ℕ)
    → b ≢ a
    → holder_is l b key ≡ true
    → holder_is (ask a key l).1 b key ≡ true
ask_keeps none a b key n h = absurd (cc h)
ask_keeps (some c) a b key n h = h

give_up_keeps :
    (l : Option ℕ) (a b key : ℕ)
    → b ≢ a
    → holder_is l b key ≡ true
    → holder_is (give_up a key l).1 b key ≡ true
give_up_keeps none a b key n h = absurd (cc h)
give_up_keeps (some c) a b key n h = ground arith

abbrev one_lock : AdvisoryLocks (Option ℕ)
one_lock = record {
  pg_try_advisory_lock = ask;
  pg_advisory_unlock = give_up;
  is_held = holder_is;
  exclusive = holder_exclusive;
  granted = ask_granted;
  kept_by_others = ask_keeps;
  kept_after_unlock = give_up_keeps;
}

abbrev fresh_fleet : Fleet (Option ℕ)
fresh_fleet = record { locks = none; db = with_images; holds_lock = λ a. false }

abbrev later_fleet : Fleet (Option ℕ)
later_fleet = scheduler_round one_lock 1 noon_tick defaults fresh_fleet

first_round : FleetSteps one_lock fresh_fleet later_fleet
first_round = next (rounds 1 noon_tick defaults fresh_fleet) (FleetSteps.done later_fleet)

scheduler_round_alone_example :
    ((scheduler_round one_lock 2 noon_tick defaults later_fleet).db ≡ later_fleet.db)
    ⊎ ((scheduler_round one_lock 2 noon_tick defaults later_fleet).holds_lock 1 ≡ false)
scheduler_round_alone_example =
    scheduler_round_alone one_lock first_round (λ a. refl) 2 1 noon_tick defaults
      (λ e. absurd (omega (arith, e)))
