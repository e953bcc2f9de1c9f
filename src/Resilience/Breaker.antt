-- ===== src/Resilience/Breaker.antt =====
-- `CircuitBreaker` of backend/src/common/resilience/retry.ts. What the guarded function comes to is a
-- parameter of a call, and so are the readings of the clock: `now` on entry, and `later` where the
-- function has failed.
use digital_thread.Shared.{ℕ, suc, ◌+◌, Option, List, [], ◌∷◌, if◌then◌else◌, get_or, ltb, leb}
use digital_thread.Resilience.Retry.{Attempt, value, fault}

pub data BreakerState : Type 0 where
  closed open_ half_open : BreakerState

pub record Breaker : Type 0 where
  pub failures : ℕ
  pub open_until : ℕ
  pub state : BreakerState

pub record BreakerOptions : Type 0 where
  pub failure_threshold : Option ℕ
  pub reset_ms : Option ℕ

pub data Reply (A E : Type 0) : Type 0 where
  -- 'Circuit breaker open': the function is not called.
  refused : Reply A E
  returned : A → Reply A E
  threw : E → Reply A E

pub record Call (A E : Type 0) : Type 0 where
  pub now : ℕ
  pub later : ℕ
  pub outcome : Attempt A E

unfoldable pub new : Breaker
new = record { failures = 0; open_until = 0; state = closed }

unfoldable pub on_success : Breaker → Breaker
on_success b = record b { failures = 0; state = closed }

module _ (opts : BreakerOptions) where
  abbrev pub threshold : ℕ
  threshold = get_or opts.failure_threshold 5

  abbrev pub reset_ms : ℕ
  reset_ms = get_or opts.reset_ms 30000

  unfoldable pub on_failure : ℕ → Breaker → Breaker
  on_failure later b =
      let failed = record b { failures = suc b.failures } in
      if leb threshold failed.failures
      then record failed { state = open_; open_until = later + reset_ms }
      else failed

  module _ {A E : Type 0} where
    -- The `try` block, on the breaker as it is entered.
    unfoldable pub guarded : Breaker → ℕ → Attempt A E → Reply A E × Breaker
    guarded b later (value a) = (returned a, on_success b)
    guarded b later (fault e) = (threw e, on_failure later b)

    unfoldable pub enter : BreakerState → Breaker → Call A E → Reply A E × Breaker
    enter closed b c = guarded b c.later c.outcome
    enter half_open b c = guarded b c.later c.outcome
    enter open_ b c =
        if ltb c.now b.open_until
        then (refused, b)
        else guarded (record b { state = half_open }) c.later c.outcome

    unfoldable pub run : Breaker → Call A E → Reply A E × Breaker
    run b c = enter b.state b c

    -- The breaker after some calls, one after another.
    unfoldable pub run_all : Breaker → List (Call A E) → Breaker
    run_all b [] = b
    run_all b (c ∷ cs) = run_all (run b c).1 cs
