-- ===== src/Resilience/Retry.antt =====
-- `retry` of backend/src/common/resilience/retry.ts. The function that is tried and the random jitter
-- are parameters: `call i` is what its i-th call comes to, and `jitter i d` the wait that the i-th
-- random number makes of the delay `d`.
use digital_thread.Shared.{
  ℕ, zero, suc, ◌*◌, ◌^◌, min, Bool, true, Option, none, some, List, [], ◌∷◌, if◌then◌else◌, get_or,
  eqb,
}

pub data Attempt (A E : Type 0) : Type 0 where
  value : A → Attempt A E
  fault : E → Attempt A E

-- `RetryOptions`
pub record RetryOptions (E : Type 0) : Type 0 where
  pub attempts : Option ℕ
  pub base_delay_ms : Option ℕ
  pub max_delay_ms : Option ℕ
  pub factor : Option ℕ
  pub jitter : Option Bool
  pub should_retry : Option (E → Bool)

-- What `retry` did: how it ended, how often it called, and how long it waited between the calls.
-- `threw none` is `throw undefined`, where no call was to be made.
pub data Ending (A E : Type 0) : Type 0 where
  returned : A → Ending A E
  threw : Option E → Ending A E

pub record Trace (A E : Type 0) : Type 0 where
  pub ending : Ending A E
  pub calls : ℕ
  pub waits : List ℕ

module _ {A E : Type 0} (call : ℕ → Attempt A E) (jitter : ℕ → ℕ → ℕ) (opts : RetryOptions E) where
  abbrev pub attempts : ℕ
  attempts = get_or opts.attempts 4

  -- `!opts.shouldRetry || opts.shouldRetry(e)`
  abbrev pub retryable : E → Bool
  retryable e = elim opts.should_retry [ none ↦ true | some p ↦ p e ]

  unfoldable pub delay : ℕ → ℕ
  delay i =
      min (get_or opts.max_delay_ms 5000) (get_or opts.base_delay_ms 200 * get_or opts.factor 2 ^ i)

  unfoldable pub wait_for : ℕ → ℕ
  wait_for i = if get_or opts.jitter true then jitter i (delay i) else delay i

  abbrev pub called : ℕ → Trace A E → Trace A E
  called w t = record t { calls = suc t.calls; waits = w ∷ t.waits }

  abbrev pub stop : Ending A E → Trace A E
  stop e = record { ending = e; calls = 1; waits = [] }

  -- A call that failed: the loop ends, or waits and goes on with `rest`.
  unfoldable pub after_fault : ℕ → ℕ → E → Trace A E → Trace A E
  after_fault left i e rest =
      if retryable e
      then if eqb left 0 then stop (threw (some e)) else called (wait_for i) rest
      else stop (threw (some e))

  -- One round, with `left` rounds to come after it.
  unfoldable pub attempt : ℕ → ℕ → Attempt A E → Trace A E → Trace A E
  attempt left i (value a) rest = stop (returned a)
  attempt left i (fault e) rest = after_fault left i e rest

  -- The `for` loop from its round `i`.
  unfoldable pub retry_from : ℕ → ℕ → Trace A E
  retry_from zero i = record { ending = threw none; calls = 0; waits = [] }
  retry_from (suc left) i = let rest = retry_from left (suc i) in attempt left i (call i) rest

  unfoldable pub retry : Trace A E
  retry = retry_from attempts 0
