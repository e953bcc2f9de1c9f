-- ===== src/Resilience/Trips.antt =====
-- When a circuit breaker opens and closes.
use digital_thread.Shared.{ℕ, suc, ◌+◌, ◌≤◌, ◌<◌, ◌≡◌, refl, ◌≢◌, List, [], ◌∷◌, arith, length}
use digital_thread.Resilience.Retry.{value, fault}
use digital_thread.Resilience.Breaker.{
  closed, open_, half_open, Breaker, BreakerOptions, refused, returned, threw, Call, new,
  on_success, threshold, reset_ms, on_failure, guarded, enter, run, run_all,
}

module _ (opts : BreakerOptions) where
  -- Between two calls: CLOSED below the threshold of failures, OPEN from it on, never HALF-OPEN.
  pub record IsSettled (b : Breaker) : Type 0 where
    pub counted : b.state ≡ closed → b.failures < threshold opts
    pub tripped : b.state ≡ open_ → threshold opts ≤ b.failures
    pub decided : b.state ≢ half_open

  module _ {A E : Type 0} where
    run-IsSettled :
        (b : Breaker) (c : Call A E) → 0 < threshold opts → IsSettled b → IsSettled (run opts b c).1
    unfolding run enter guarded on_success on_failure
    run-IsSettled b c h s = ground arith

    run_all-IsSettled_from :
        (b : Breaker) (cs : List (Call A E))
        → 0 < threshold opts
        → IsSettled b
        → IsSettled (run_all opts b cs)
    unfolding run_all
    run_all-IsSettled_from b [] h s = s
    run_all-IsSettled_from b (c ∷ cs) h s =
        run_all-IsSettled_from (run opts b c).1 cs h (run-IsSettled b c h s)

    -- After any calls, one after another, a breaker with a positive threshold is CLOSED with fewer
    -- failures than the threshold or OPEN with at least as many.
    pub run_all-IsSettled :
        (cs : List (Call A E)) → 0 < threshold opts → IsSettled (run_all opts new cs)
    unfolding new
    run_all-IsSettled cs h = run_all-IsSettled_from new cs h (ground arith)

    -- Every call fails.
    abbrev pub AllFail : List (Call A E) → Type 0
    AllFail [] = Unit
    AllFail (c ∷ cs) = ((e : E) × (c.outcome ≡ fault e)) × AllFail cs

    -- The time of the last failure.
    abbrev pub last_failure : ℕ → List (Call A E) → ℕ
    last_failure t [] = t
    last_failure t (c ∷ cs) = last_failure c.later cs

    run_failing :
        (b : Breaker) (c : Call A E) (e : E)
        → c.outcome ≡ fault e
        → b.state ≡ closed
        → suc b.failures < threshold opts
        → ((run opts b c).1.state ≡ closed) × ((run opts b c).1.failures ≡ suc b.failures)
    unfolding run enter guarded on_failure
    run_failing b c e h k l = ground arith

    run_tripping :
        (b : Breaker) (c : Call A E) (e : E)
        → c.outcome ≡ fault e
        → b.state ≡ closed
        → suc b.failures ≡ threshold opts
        → ((run opts b c).1.state ≡ open_) × ((run opts b c).1.open_until ≡ c.later + reset_ms opts)
    unfolding run enter guarded on_failure
    run_tripping b c e h k l = ground arith

    trips_from :
        (b : Breaker) (t : ℕ) (cs : List (Call A E)) (c : Call A E)
        → AllFail (c ∷ cs)
        → b.state ≡ closed
        → b.failures + length (c ∷ cs) ≡ threshold opts
        → ((run_all opts b (c ∷ cs)).state ≡ open_)
          × ((run_all opts b (c ∷ cs)).open_until ≡ last_failure t (c ∷ cs) + reset_ms opts)
    unfolding run_all
    trips_from b t [] c ((e, h), f) k l = run_tripping b c e h k (omega arith)
    trips_from b t (d ∷ cs) c ((e, h), f) k l =
        let (still, more) = run_failing b c e h k (omega arith) in
        trips_from (run opts b c).1 c.later cs d f still (omega (arith, more))

    -- As many failures in a row as the threshold, from the start, open the breaker until the reset
    -- time after the last of them.
    pub breaker_trips :
        (c : Call A E) (cs : List (Call A E))
        → AllFail (c ∷ cs)
        → length (c ∷ cs) ≡ threshold opts
        → let b = run_all opts new (c ∷ cs) in
          (b.state ≡ open_) × (b.open_until ≡ last_failure 0 (c ∷ cs) + reset_ms opts)
    unfolding new
    breaker_trips c cs f l = trips_from new 0 cs c f refl (omega arith)

    -- An OPEN breaker refuses a call before its time and stays as it is; from its time on it lets one
    -- call through, which closes it with no failure counted if it returns, and opens it anew if it
    -- fails, since a settled breaker counts on.
    pub open_breaker :
        (b : Breaker) (c : Call A E)
        → IsSettled b
        → b.state ≡ open_
        → (c.now < b.open_until → run opts b c ≡ (refused, b))
          × ((a : A)
              → b.open_until ≤ c.now
              → c.outcome ≡ value a
              → ((run opts b c).0 ≡ returned a)
                × ((run opts b c).1.state ≡ closed)
                × ((run opts b c).1.failures ≡ 0))
          × ((e : E)
              → b.open_until ≤ c.now
              → c.outcome ≡ fault e
              → ((run opts b c).0 ≡ threw e)
                × ((run opts b c).1.state ≡ open_)
                × ((run opts b c).1.open_until ≡ c.later + reset_ms opts))
    unfolding run enter guarded on_success on_failure
    open_breaker b c s h = (λ l. ground arith, λ a l k. ground arith, λ e l k. ground arith)
