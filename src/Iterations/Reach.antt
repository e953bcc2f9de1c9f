-- ===== src/Iterations/Reach.antt =====
-- `collectSuccessors` finds exactly the nodes that can be reached, in every graph.
use digital_thread.Shared.{
  ℕ, zero, suc, ◌+◌, ◌≤◌, String, ◌≡◌, refl, ◌↔◌, inl, inr, true, ◌||◌, some, List, [], ◌∷◌, ◌++◌,
  arith, subst, eq_iff, length, includes, includes-append, length-append, Bool-cases,
}
use mathlib.Core.Option.{some-injective}
use digital_thread.Flow.{FlowEdge}
use digital_thread.Engine.Activation.{targets_of}
use digital_thread.Engine.Paths.{here, next, Reaches, AllReached, AllReached-targets}
use digital_thread.Engine.Cascade.{unvisited, unvisited-visit, unvisited-nil}
use digital_thread.Iterations.Successors.{collect_loop, collect_successors}

includes-singleton : (a b : String) → includes (a ∷ []) b ≡ true → a ≡ b
includes-singleton a b h = ground (arith, eq_iff a b)

module _ (edges : List FlowEdge) (start : String) where
  AllReached-cons :
      (id : String) (xs : List String)
      → Reaches edges start id
      → AllReached edges start xs
      → AllReached edges start (id ∷ xs)
  AllReached-cons id xs h k x e = elim (Bool-cases (includes xs x)) [
    | inl old ↦ k x old
    | inr new ↦ subst (Reaches edges start) (ground (arith, eq_iff id x)) h
  ]

  collect_loop_sound :
      (fuel : ℕ) (visited queue found : List String)
      → AllReached edges start visited
      → AllReached edges start queue
      → collect_loop edges fuel visited queue ≡ some found
      → AllReached edges start found
  unfolding collect_loop
  collect_loop_sound zero visited [] found h k e =
      subst (AllReached edges start) (some-injective _ _ e) h
  collect_loop_sound (suc fuel) visited [] found h k e =
      subst (AllReached edges start) (some-injective _ _ e) h
  collect_loop_sound zero visited (id ∷ queue) found h k e = cc
  collect_loop_sound (suc fuel) visited (id ∷ queue) found h k e =
      let at = k id (ground (arith, eq_iff id id)) in
      let rest : AllReached edges start queue = λ x m. k x (ground arith) in
      elim (Bool-cases (includes visited id)) [
        | inl old ↦ collect_loop_sound fuel visited queue found h rest (rw (old, collect_loop) at e)
        | inr new ↦
            collect_loop_sound fuel (id ∷ visited) (queue ++ targets_of id edges) found
              (AllReached-cons id visited at h) (AllReached-targets edges start id queue at rest)
              (rw (new, collect_loop) at e)
      ]

-- What leaves a visited node is visited or queued.
abbrev IsClosed : List FlowEdge → List String → List String → Type 0
IsClosed edges visited queue =
    (a b : String)
    → includes visited a ≡ true
    → includes (targets_of a edges) b ≡ true
    → (includes visited b || includes queue b) ≡ true

module _ (edges : List FlowEdge) where
  IsClosed-pop :
      (visited : List String) (id : String) (queue : List String)
      → includes visited id ≡ true
      → IsClosed edges visited (id ∷ queue)
      → IsClosed edges visited queue
  IsClosed-pop visited id queue old h a b m t = ground (arith, h a b m t, eq_iff id b)

  IsClosed-visit :
      (visited : List String) (id : String) (queue : List String)
      → IsClosed edges visited (id ∷ queue)
      → IsClosed edges (id ∷ visited) (queue ++ targets_of id edges)
  IsClosed-visit visited id queue h a b m t = elim (Bool-cases (includes visited a)) [
    | inl old ↦
        ground (arith, h a b old t, eq_iff id b, includes-append queue (targets_of id edges) b)
    | inr new ↦
        let same : id ≡ a = ground (arith, eq_iff id a) in
        ground (arith, same, includes-append queue (targets_of id edges) b)
  ]

  collect_loop-IsClosed :
      (fuel : ℕ) (visited queue found : List String)
      → IsClosed edges visited queue
      → collect_loop edges fuel visited queue ≡ some found
      → IsClosed edges found []
        × ((x : String) → (includes visited x || includes queue x) ≡ true → includes found x ≡ true)
  unfolding collect_loop
  collect_loop-IsClosed zero visited [] found h e =
      let same = some-injective _ _ e in
      (subst (λ v. IsClosed edges v []) same h, λ x m. rw (← same) (ground arith))
  collect_loop-IsClosed (suc fuel) visited [] found h e =
      let same = some-injective _ _ e in
      (subst (λ v. IsClosed edges v []) same h, λ x m. rw (← same) (ground arith))
  collect_loop-IsClosed zero visited (id ∷ queue) found h e = cc
  collect_loop-IsClosed (suc fuel) visited (id ∷ queue) found h e =
      elim (Bool-cases (includes visited id)) [
        | inl old ↦
            let (closed, kept) =
              collect_loop-IsClosed fuel visited queue found (IsClosed-pop visited id queue old h)
                (rw (old, collect_loop) at e) in
            (closed, λ x m. kept x (ground (arith, eq_iff id x)))
        | inr new ↦
            let (closed, kept) =
              collect_loop-IsClosed fuel (id ∷ visited) (queue ++ targets_of id edges) found
                (IsClosed-visit visited id queue h) (rw (new, collect_loop) at e) in
            (closed, λ x m. kept x (ground (arith, includes-append queue (targets_of id edges) x)))
      ]

  collect_loop_total :
      (fuel : ℕ) (visited queue : List String)
      → length queue + unvisited edges visited ≤ fuel
      → (found : List String) × (collect_loop edges fuel visited queue ≡ some found)
  unfolding collect_loop
  collect_loop_total zero visited [] h = (visited, refl)
  collect_loop_total (suc fuel) visited [] h = (visited, refl)
  collect_loop_total zero visited (id ∷ queue) h = absurd (omega arith)
  collect_loop_total (suc fuel) visited (id ∷ queue) h = elim (Bool-cases (includes visited id)) [
    | inl old ↦ rw (old, collect_loop) (collect_loop_total fuel visited queue (omega arith))
    | inr new ↦
        rw (new, collect_loop)
          (collect_loop_total fuel (id ∷ visited) (queue ++ targets_of id edges) (
            omega (
              arith,
              unvisited-visit edges visited id new,
              length-append queue (targets_of id edges),
            )))
  ]

  Reaches-includes :
      {start : String} (found : List String)
      → includes found start ≡ true
      → IsClosed edges found []
      → {x : String} → Reaches edges start x
      → includes found x ≡ true
  Reaches-includes found h closed here = h
  Reaches-includes found h closed (next {a} b r t) =
      ground (arith, closed a b (Reaches-includes found h closed r) t)

  -- Collecting the successors of a node ends in every graph, cycles included, and finds exactly the
  -- nodes that a path of edges reaches from it, itself among them.
  pub collect_successors_lem :
      (start : String)
      → (found : List String) × (collect_successors edges start ≡ some found)
        × ((x : String) → (includes found x ≡ true) ↔ Reaches edges start x)
  unfolding collect_successors
  collect_successors_lem start =
      let (found, e) =
        collect_loop_total (suc (length edges)) [] (start ∷ [])
          (omega (arith, unvisited-nil edges)) in
      let (closed, kept) =
        collect_loop-IsClosed (suc (length edges)) [] (start ∷ []) found (λ a b m t. cc) e in
      (
        found,
        e,
        λ x. (
          collect_loop_sound edges start (suc (length edges)) [] (start ∷ []) found (λ y m. cc)
              (λ y m. subst (Reaches edges start) (includes-singleton start y m) here) e x,
          Reaches-includes found (kept start (ground (arith, eq_iff start start))) closed,
        ),
      )
