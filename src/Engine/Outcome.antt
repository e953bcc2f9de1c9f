-- ===== src/Engine/Outcome.antt =====
-- What one operation of the engine does to the statuses of the nodes, whether or not it throws:
-- each node stays or leaves IDLE, and with fuel above the number of IDLE rows no fuel runs out.
use digital_thread.Shared.{ℕ, suc, ◌<◌, String, ◌≡◌, refl, ◌≢◌, some, List, [], ◌∷◌, arith}
use digital_thread.Engine.Store.{
  Run, out_of_fuel, Result, ok, err, M, ◌>>=◌, for_each, status_in, find_state, idle, proceed,
}
use digital_thread.Engine.Rows.{idle_count}
use digital_thread.Engine.Moves.{Policy, Progress, Progress-refl, Progress-same, Progress-trans}

-- The outcome `o` of an operation on `r`, where `b` is the fuel.
pub record Good (pol : Policy) {A : Type 0} (b : ℕ) (r : Run) (o : Result A × Run) : Type 0 where
  pub progress : Progress pol r.states o.1.states
  pub enough : idle_count r.states < b → o.0 ≢ err out_of_fuel

-- The outcome of an operation that changes no status, and no row that is not IDLE.
pub record Quiet {A : Type 0} (r : Run) (o : Result A × Run) : Type 0 where
  pub same : (j : String) → status_in o.1.states j ≡ status_in r.states j
  pub as_many : idle_count o.1.states ≡ idle_count r.states
  pub others :
      (j : String)
      → status_in r.states j ≢ some idle
      → find_state j o.1.states ≡ find_state j r.states
  pub fine : o.0 ≢ err out_of_fuel

module _ (pol : Policy) where
  pub Quiet-Good : {A : Type 0} {b : ℕ} {r : Run} {o : Result A × Run} → Quiet r o → Good pol b r o
  Quiet-Good q = record {
    progress = Progress-same pol q.same q.as_many q.others;
    enough = λ _. q.fine;
  }

  pub return-Good : {A : Type 0} (a : A) (b : ℕ) (r : Run) → Good pol b r (ok a, r)
  return-Good a b r = record { progress = Progress-refl pol r.states; enough = λ _. cc }

  proceed-Good :
      {A B : Type 0} (b : ℕ) (r : Run) (o : Result A × Run) (k : A → M B)
      → Good pol b r o
      → ((a : A) (r' : Run) → o ≡ (ok a, r') → Good pol b r' (k a r'))
      → Good pol b r (proceed o k)
  proceed-Good b r (ok a, r') k p q =
      let g = q a r' refl in
      record {
        progress = Progress-trans pol p.progress g.progress;
        enough = λ h. g.enough (omega (arith, p.progress.fewer));
      }
  proceed-Good b r (err e, r') k p q = record {
    progress = p.progress;
    enough = λ h e'. p.enough h (cc);
  }

  pub bind-Good :
      {A B : Type 0} (b : ℕ) (m : M A) (k : A → M B) (r : Run)
      → Good pol b r (m r)
      → ((a : A) (r' : Run) → m r ≡ (ok a, r') → Good pol b r' (k a r'))
      → Good pol b r ((m >>= k) r)
  bind-Good b m k r p q = proceed-Good b r (m r) k p q

  proceed-Good_lt :
      {A B : Type 0} (b : ℕ) (r : Run) (o : Result A × Run) (k : A → M B)
      → Good pol (suc b) r o
      → ((a : A) (r' : Run)
          → o ≡ (ok a, r')
          → (idle_count r'.states < idle_count r.states) × Good pol b r' (k a r'))
      → Good pol (suc b) r (proceed o k)
  proceed-Good_lt b r (ok a, r') k p q =
      let (lt, g) = q a r' refl in
      record {
        progress = Progress-trans pol p.progress g.progress;
        enough = λ h. g.enough (omega arith);
      }
  proceed-Good_lt b r (err e, r') k p q = record {
    progress = p.progress;
    enough = λ h e'. p.enough h (cc);
  }

  -- Where the first part takes a row out of IDLE, the second needs one unit less.
  pub bind-Good_lt :
      {A B : Type 0} (b : ℕ) (m : M A) (k : A → M B) (r : Run)
      → Good pol (suc b) r (m r)
      → ((a : A) (r' : Run)
          → m r ≡ (ok a, r')
          → (idle_count r'.states < idle_count r.states) × Good pol b r' (k a r'))
      → Good pol (suc b) r ((m >>= k) r)
  bind-Good_lt b m k r p q = proceed-Good_lt b r (m r) k p q

  pub for_each-Good :
      {A : Type 0} (b : ℕ) (body : A → M (Unit {0})) (xs : List A)
      → ((x : A) (r : Run) → Good pol b r (body x r))
      → (r : Run) → Good pol b r (for_each body xs r)
  unfolding for_each
  for_each-Good b body [] h r = return-Good tt b r
  for_each-Good b body (x ∷ xs) h r =
      bind-Good b (body x) (λ _. for_each body xs) r (h x r)
        (λ a r' e. for_each-Good b body xs h r')

proceed-ok :
    {A B : Type 0} (o : Result A × Run) (k : A → M B) {b : B} {r' : Run}
    → proceed o k ≡ (ok b, r')
    → (a : A) × (s : Run) × (o ≡ (ok a, s)) × (k a s ≡ (ok b, r'))
proceed-ok (ok a, s) k h = (a, s, refl, h)
proceed-ok (err e, s) k h = cc

-- Inversion of a sequence that succeeds.
pub bind-ok :
    {A B : Type 0} (m : M A) (k : A → M B) (r : Run) {b : B} {r' : Run}
    → (m >>= k) r ≡ (ok b, r')
    → (a : A) × (s : Run) × (m r ≡ (ok a, s)) × (k a s ≡ (ok b, r'))
bind-ok m k r h = proceed-ok (m r) k h
