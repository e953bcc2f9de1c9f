-- ===== src/Resilience/Tests.antt =====
-- A call that succeeds on its third attempt, and a breaker that two failures open.
use digital_thread.Shared.{
  ℕ, zero, suc, ◌+◌, ◌≤◌, String, ◌≡◌, refl, false, none, some, List, [], ◌∷◌, arith,
}
use digital_thread.Resilience.Retry.{
  Attempt, value, fault, RetryOptions, attempts, delay, wait_for, after_fault, attempt, retry_from,
  retry,
}
use digital_thread.Resilience.Attempts.{AllAtMost, ends_with, ended_by, retry_final, retry_bounds}
use digital_thread.Resilience.Breaker.{
  open_, Breaker, BreakerOptions, Call, new, on_success, on_failure, guarded, enter, run, run_all,
}
use digital_thread.Resilience.Trips.{IsSettled, run_all-IsSettled}

resilience : Unit {0}
unfolding delay wait_for after_fault attempt retry_from retry new on_success on_failure guarded
    enter run run_all
resilience = tt

-- The first two calls fail, the third returns.
abbrev upload : ℕ → Attempt ℕ String
upload zero = fault "timeout"
upload (suc zero) = fault "reset"
upload (suc (suc n)) = value 200

abbrev offline : ℕ → Attempt ℕ String
offline n = fault "offline"

abbrev no_jitter : ℕ → ℕ → ℕ
no_jitter i d = d

abbrev patient : RetryOptions String
patient = record {
  attempts = none;
  base_delay_ms = some 1000;
  max_delay_ms = some 1500;
  factor = none;
  jitter = some false;
  should_retry = none;
}

retry_final_example :
    retry upload no_jitter patient
    ≡ ended_by upload no_jitter patient (ends_with upload no_jitter patient (upload 2)) 0 2
retry_final_example =
    retry_final upload no_jitter patient 2 (omega arith)
      (("timeout", refl, refl), (("reset", refl, refl), tt)) tt

retry_bounds_example :
    ((retry offline no_jitter patient).calls ≤ attempts offline no_jitter patient)
    × AllAtMost offline no_jitter patient 1500 (retry offline no_jitter patient).waits
retry_bounds_example = retry_bounds offline no_jitter patient refl

retry_test : (retry upload no_jitter patient).waits ≡ 1000 ∷ 1500 ∷ []
unfolding resilience
retry_test = refl

abbrev touchy : BreakerOptions
touchy = record { failure_threshold = some 2; reset_ms = some 100 }

abbrev failing : ℕ → Call ℕ String
failing t = record { now = t; later = t + 5; outcome = fault "down" }

abbrev calls : List (Call ℕ String)
calls = failing 10 ∷ failing 20 ∷ []

abbrev opened : Breaker
opened = record { failures = 2; open_until = 125; state = open_ }

run_all-IsSettled_example : IsSettled touchy (run_all touchy new calls)
run_all-IsSettled_example = run_all-IsSettled touchy calls (omega arith)

opened-IsSettled : IsSettled touchy opened
opened-IsSettled = record { counted = λ h. cc; tripped = λ h. omega arith; decided = λ h. cc }
