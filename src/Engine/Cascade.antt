-- ===== src/Engine/Cascade.antt =====
-- The loop of `cascadeSkip`: it ends with the fuel that it is given, and only skips IDLE nodes.
use digital_thread.Shared.{
  ℕ, zero, suc, ◌+◌, ◌≤◌, String, ◌≡◌, refl, ap, Bool, true, false, not, List, [], ◌∷◌, ◌++◌, arith,
  inl, inr, eq_iff, Bool-cases, length, count, includes, length-append, some, Option,
}
use digital_thread.Flow.{FlowEdge}
use digital_thread.Engine.Store.{
  skipped, idle, ok, cascaded_skip, NodeStatus, M, Run, NodeState, is_idle, status_in,
}
use digital_thread.Engine.Status.{update_node_status}
use digital_thread.Engine.Activation.{
  targets_of, finished_now, cascade_visit, cascade_step, cascade_loop, cascade_skip,
}
use digital_thread.Engine.Moves.{Policy}
use digital_thread.Engine.Policy.{skipped-Moved}
use digital_thread.Engine.Paths.{Reaches, AllReached, AllReached-targets}
use digital_thread.Engine.Outcome.{Good, return-Good, bind-Good}
use digital_thread.Engine.Update.{update_node_status-Good}

pub idle_of_is_idle : (o : Option NodeStatus) → is_idle o ≡ true → o ≡ some idle
idle_of_is_idle o h = ground arith

module _ (edges : List FlowEdge) where
  -- The edges that leave a node which is not visited.
  abbrev pub unvisited : List String → ℕ
  unvisited visited = count (λ e. not (includes visited e.source)) edges

-- Visiting a node takes its out-edges from that number.
pub unvisited-visit :
    (edges : List FlowEdge) (visited : List String) (id : String)
    → includes visited id ≡ false
    → unvisited edges (id ∷ visited) + length (targets_of id edges) ≡ unvisited edges visited
unfolding targets_of
unvisited-visit [] visited id h = refl
unvisited-visit (e ∷ es) visited id h =
    ground (arith, unvisited-visit es visited id h, eq_iff e.source id, eq_iff id e.source)

pub unvisited-nil : (edges : List FlowEdge) → unvisited edges [] ≡ length edges
unvisited-nil [] = refl
unvisited-nil (e ∷ es) = omega (arith, unvisited-nil es)

-- A cascade from a node that is SKIPPED, where the policy allows to skip what it leads to.
module _ (pol : Policy) (edges : List FlowEdge) (start : String)
    (skips : (ss : List NodeState) (j : String)
      → status_in ss start ≡ some skipped
      → Reaches edges start j
      → pol.Allows ss j skipped) where
  -- The start stays SKIPPED.
  start_skipped :
      {A : Type 0} (m : M A) {a : A} (b : ℕ) (r r' : Run)
      → Good pol b r (m r)
      → m r ≡ (ok a, r')
      → status_in r.states start ≡ some skipped
      → status_in r'.states start ≡ some skipped
  start_skipped m b r r' g e shut =
      skipped-Moved _ _ (rw (ap (λ o. o.1.states) e) at (g.progress.moved start)) shut

  cascade_visit-Good :
      (loop : List String → List String → M (Unit {0})) (visited : List String) (id : String)
      (queue : List String) (b : ℕ) (r : Run)
      → status_in r.states start ≡ some skipped
      → Reaches edges start id
      → AllReached edges start queue
      → ((queue' : List String) (r' : Run)
          → length queue' ≤ length queue + length (targets_of id edges)
          → AllReached edges start queue'
          → status_in r'.states start ≡ some skipped
          → Good pol b r' (loop (id ∷ visited) queue' r'))
      → (test : Bool) → is_idle (status_in r.states id) ≡ test
      → Good pol b r (cascade_visit edges loop visited id queue test r)
  unfolding cascade_visit
  cascade_visit-Good loop visited id queue b r shut at reached h false e =
      h queue r (omega arith) reached shut
  cascade_visit-Good loop visited id queue b r shut at reached h true e =
      let first =
        update_node_status-Good pol id skipped (finished_now r.now cascaded_skip) (inr (inr refl)) b
          r (idle_of_is_idle _ e) (skips r.states id shut at) in
      bind-Good pol b (update_node_status id skipped _)
        (λ _. loop (id ∷ visited) (queue ++ targets_of id edges)) r first
        (λ _ r' k.
          h (queue ++ targets_of id edges) r'
            (omega (arith, length-append queue (targets_of id edges)))
            (AllReached-targets edges start id queue at reached)
            (start_skipped (update_node_status id skipped _) b r r' first k shut))

  cascade_loop-Good :
      (fuel : ℕ) (visited queue : List String)
      → length queue + unvisited edges visited ≤ fuel
      → AllReached edges start queue
      → (b : ℕ) (r : Run) → status_in r.states start ≡ some skipped
      → Good pol b r (cascade_loop edges fuel visited queue r)
  unfolding cascade_loop cascade_step
  cascade_loop-Good zero visited [] h reached b r shut = return-Good pol tt b r
  cascade_loop-Good (suc fuel) visited [] h reached b r shut = return-Good pol tt b r
  cascade_loop-Good zero visited (id ∷ queue) h reached b r shut = absurd (omega arith)
  cascade_loop-Good (suc fuel) visited (id ∷ queue) h reached b r shut =
      let rest : AllReached edges start queue = λ x m. reached x (ground arith) in
      elim (Bool-cases (includes visited id)) [
        | inl old ↦
            rw (old, cascade_step)
              (cascade_loop-Good fuel visited queue (omega arith) rest b r shut)
        | inr new ↦
            rw (new, cascade_step)
              (cascade_visit-Good (cascade_loop edges fuel) visited id queue b r shut
                (reached id (ground (arith, eq_iff id id))) rest
                (λ queue' r' l all_reached still_shut.
                  cascade_loop-Good fuel (id ∷ visited) queue'
                    (omega (arith, unvisited-visit edges visited id new)) all_reached b r'
                    still_shut)
                _ refl)
      ]

  -- `cascadeSkip` ends, and only takes IDLE nodes that the start leads to to SKIPPED.
  pub cascade_skip-Good :
      (b : ℕ) (r : Run)
      → status_in r.states start ≡ some skipped
      → Good pol b r (cascade_skip edges start r)
  unfolding cascade_skip
  cascade_skip-Good b r shut =
      cascade_loop-Good (length edges) (start ∷ []) (targets_of start edges)
        (omega (arith, unvisited-visit edges [] start refl, unvisited-nil edges))
        (λ x m. Reaches.next x Reaches.here m) b r shut
