-- ===== src/Resilience/Attempts.antt =====
-- How often `retry` calls, how it ends and how long it waits.
use digital_thread.Shared.{
  sym, ℕ, zero, suc, ◌+◌, ◌≤◌, ◌<◌, ◌≡◌, refl, true, false, some, List, [], ◌∷◌, arith, ap, ◌∙◌,
  get_or,
}
use digital_thread.Resilience.Retry.{
  Attempt, value, fault, RetryOptions, Ending, returned, threw, Trace, attempts, retryable, delay,
  wait_for, called, stop, after_fault, attempt, retry_from, retry,
}

module _ {A E : Type 0} (call : ℕ → Attempt A E) (jitter : ℕ → ℕ → ℕ) (opts : RetryOptions E) where
  -- The calls from `i` on, `k` of them, fail with errors that may be retried.
  abbrev pub KeepsFailing : ℕ → ℕ → Type 0
  KeepsFailing i zero = Unit
  KeepsFailing i (suc k) =
      ((e : E) × (call i ≡ fault e) × (retryable call jitter opts e ≡ true))
      × KeepsFailing (suc i) k

  -- The waits after `k` failed calls.
  abbrev pub schedule : ℕ → ℕ → List ℕ
  schedule i zero = []
  schedule i (suc k) = wait_for call jitter opts i ∷ schedule (suc i) k

  -- What the call that ends the loop makes of it.
  abbrev pub ends_with : Attempt A E → Ending A E
  ends_with (value a) = returned a
  ends_with (fault e) = threw (some e)

  -- The call ends the loop by itself: it returns, or throws what may not be retried.
  abbrev pub IsFinal : Attempt A E → Type 0
  IsFinal (value a) = Unit
  IsFinal (fault e) = retryable call jitter opts e ≡ false

  attempt-IsFinal :
      (left i : ℕ) (c : Attempt A E) (rest : Trace A E)
      → IsFinal c
      → attempt call jitter opts left i c rest ≡ stop call jitter opts (ends_with c)
  unfolding attempt after_fault
  attempt-IsFinal left i (value a) rest h = refl
  attempt-IsFinal left i (fault e) rest h = rw h

  attempt-retried :
      (left i : ℕ) (e : E) (rest : Trace A E)
      → 0 < left
      → retryable call jitter opts e ≡ true
      → attempt call jitter opts left i (fault e) rest
        ≡ called call jitter opts (wait_for call jitter opts i) rest
  unfolding attempt after_fault
  attempt-retried left i e rest h k = ground arith

  -- The trace of a loop that the call `j` ends, after `k` calls that failed.
  abbrev pub ended_by : Ending A E → ℕ → ℕ → Trace A E
  ended_by ending i k = record { ending = ending; calls = suc k; waits = schedule i k }

  retry_from_final :
      (left i k j : ℕ)
      → k < left
      → i + k ≡ j
      → KeepsFailing i k
      → IsFinal (call j)
      → retry_from call jitter opts left i ≡ ended_by (ends_with (call j)) i k
  unfolding retry_from
  retry_from_final zero i k j h p f g = absurd (omega arith)
  retry_from_final (suc left) i zero j h p f g =
      let same : i ≡ j = omega arith in
      rw same (attempt-IsFinal left j (call j) (retry_from call jitter opts left (suc j)) g)
  retry_from_final (suc left) i (suc k) j h p ((e, at, again), f) g = rw at (
      attempt-retried left i e (retry_from call jitter opts left (suc i)) (omega arith) again
      ∙ ap (called call jitter opts (wait_for call jitter opts i))
          (retry_from_final left (suc i) k j (omega arith) (omega arith) f g))

  retry_from_exhausted :
      (left i j : ℕ)
      → i + left ≡ j
      → KeepsFailing i (suc left)
      → (e : E) × (call j ≡ fault e)
        × (retry_from call jitter opts (suc left) i ≡ ended_by (threw (some e)) i left)
  unfolding retry_from attempt after_fault
  retry_from_exhausted zero i j h ((e, at, again), f) =
      let same : i ≡ j = omega arith in (e, ap call (sym same) ∙ at, rw at (rw again))
  retry_from_exhausted (suc left) i j h ((e, at, again), f) =
      let (e', last, ih) = retry_from_exhausted left (suc i) j (omega arith) f in
      (
        e',
        last,
        rw at (
            attempt-retried (suc left) i e (retry_from call jitter opts (suc left) (suc i))
              (omega arith) again
            ∙ ap (called call jitter opts (wait_for call jitter opts i)) ih),
      )

  -- If the first `k` calls fail with errors that may be retried, `k` below the attempts, and the
  -- next call returns or throws what may not be retried, `retry` ends as that call does, after
  -- exactly `k + 1` calls and one wait behind each failed one.
  pub retry_final :
      (k : ℕ)
      → k < attempts call jitter opts
      → KeepsFailing 0 k
      → IsFinal (call k)
      → retry call jitter opts ≡ ended_by (ends_with (call k)) 0 k
  unfolding retry
  retry_final k h f g = retry_from_final (attempts call jitter opts) 0 k k h (omega arith) f g

  -- If every one of the attempts, at least one, fails with an error that may be retried, `retry`
  -- throws the error of the last call after as many calls, and does not wait behind the last.
  pub retry_exhausted :
      (n : ℕ)
      → attempts call jitter opts ≡ suc n
      → KeepsFailing 0 (suc n)
      → (e : E) × (call n ≡ fault e) × (retry call jitter opts ≡ ended_by (threw (some e)) 0 n)
  unfolding retry
  retry_exhausted n h f = rw h (retry_from_exhausted n 0 n (omega arith) f)

  -- Every wait without jitter is at most the maximal delay.
  abbrev pub AllAtMost : ℕ → List ℕ → Type 0
  AllAtMost n [] = Unit
  AllAtMost n (w ∷ ws) = (w ≤ n) × AllAtMost n ws

  retry_from-AllAtMost :
      (left i : ℕ)
      → get_or opts.jitter true ≡ false
      → AllAtMost (get_or opts.max_delay_ms 5000) (retry_from call jitter opts left i).waits
  unfolding retry_from attempt after_fault wait_for delay
  retry_from-AllAtMost zero i h = tt
  retry_from-AllAtMost (suc left) i h = ground (arith, retry_from-AllAtMost left (suc i) h)

  retry_from_calls : (left i : ℕ) → (retry_from call jitter opts left i).calls ≤ left
  unfolding retry_from attempt after_fault
  retry_from_calls zero i = omega arith
  retry_from_calls (suc left) i = ground (arith, retry_from_calls left (suc i))

  -- Whatever the calls come to, `retry` without jitter makes at most as many calls as there are
  -- attempts, and no wait is longer than the maximal delay.
  pub retry_bounds :
      get_or opts.jitter true ≡ false
      → ((retry call jitter opts).calls ≤ attempts call jitter opts)
        × AllAtMost (get_or opts.max_delay_ms 5000) (retry call jitter opts).waits
  unfolding retry
  retry_bounds h = (
    retry_from_calls (attempts call jitter opts) 0,
    retry_from-AllAtMost (attempts call jitter opts) 0 h,
  )
