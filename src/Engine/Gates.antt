-- ===== src/Engine/Gates.antt =====
-- When a gateway without file inputs passes.
use digital_thread.Shared.{
  ◌+◌, String, ◌≡◌, refl, ◌≢◌, ap, ◌∙◌, Bool, true, ◌&&◌, ◌||◌, List, [], ◌∷◌, arith, eq_iff, ◌==◌,
  if◌then◌else◌, eqb, any, all, count, length-filter, includes, Bool-cases, inl, inr,
}
use native.Mathlib.Nat.{zero-add}
use digital_thread.Shared.Lists.{unique, unique_from}
use digital_thread.Shared.Assoc.{insert, values, keys}
use digital_thread.Flow.{FlowNodeDef}
use digital_thread.Engine.Store.{NodeStatus, NodeState, is_completed}
use digital_thread.Engine.Gateway.{gate_type, evaluate_gateway}
use digital_thread.Engine.Activation.{status_or_idle, prereq_statuses}

module _ (states : List NodeState) where
  -- The predecessor is COMPLETED.
  abbrev pub is_done : String → Bool
  is_done p = is_completed (status_or_idle states p)

  -- Every entry holds the status of its key.
  abbrev IsFaithful : List (String × NodeStatus) → Type 0
  IsFaithful [] = Unit
  IsFaithful ((k, v) ∷ m) = (v ≡ status_or_idle states k) × IsFaithful m

  insert-IsFaithful :
      (k : String) (m : List (String × NodeStatus))
      → IsFaithful m
      → IsFaithful (insert k (status_or_idle states k) m)
  unfolding insert
  insert-IsFaithful k [] h = (refl, tt)
  insert-IsFaithful k ((j, v) ∷ m) (e, h) = ground (arith, insert-IsFaithful k m h, eq_iff j k)

  any-insert :
      (k : String) (m : List (String × NodeStatus))
      → IsFaithful m
      → any is_completed (values (insert k (status_or_idle states k) m))
        ≡ (is_done k || any is_completed (values m))
  unfolding insert
  any-insert k [] h = refl
  any-insert k ((j, v) ∷ m) (e, h) = ground (arith, any-insert k m h, eq_iff j k)

  all-insert :
      (k : String) (m : List (String × NodeStatus))
      → IsFaithful m
      → all is_completed (values (insert k (status_or_idle states k) m))
        ≡ (is_done k && all is_completed (values m))
  unfolding insert
  all-insert k [] h = refl
  all-insert k ((j, v) ∷ m) (e, h) = ground (arith, all-insert k m h, eq_iff j k)

  count-insert :
      (k : String) (m : List (String × NodeStatus))
      → IsFaithful m
      → count is_completed (values (insert k (status_or_idle states k) m))
        ≡ (if includes (keys m) k then 0 else if is_done k then 1 else 0)
          + count is_completed (values m)
  unfolding insert
  count-insert k [] h = ground arith
  count-insert k ((j, v) ∷ m) (e, h) = ground (arith, count-insert k m h, eq_iff j k)

  keys-insert :
      (k j : String) (v : NodeStatus) (m : List (String × NodeStatus))
      → includes (keys (insert k v m)) j ≡ (k == j || includes (keys m) j)
  unfolding insert
  keys-insert k j v [] = refl
  keys-insert k j v ((i, w) ∷ m) =
      ground (arith, keys-insert k j v m, eq_iff i k, eq_iff k j, eq_iff i j)

  prereq_any :
      (acc : List (String × NodeStatus)) (ps : List String)
      → IsFaithful acc
      → any is_completed (values (prereq_statuses states acc ps))
        ≡ (any is_completed (values acc) || any is_done ps)
  unfolding prereq_statuses
  prereq_any acc [] h = ground arith
  prereq_any acc (p ∷ ps) h = ground (
    arith,
    prereq_any (insert p (status_or_idle states p) acc) ps (insert-IsFaithful p acc h),
    any-insert p acc h,
  )

  prereq_all :
      (acc : List (String × NodeStatus)) (ps : List String)
      → IsFaithful acc
      → all is_completed (values (prereq_statuses states acc ps))
        ≡ (all is_completed (values acc) && all is_done ps)
  unfolding prereq_statuses
  prereq_all acc [] h = ground arith
  prereq_all acc (p ∷ ps) h = ground (
    arith,
    prereq_all (insert p (status_or_idle states p) acc) ps (insert-IsFaithful p acc h),
    all-insert p acc h,
  )

  -- The keys seen so far, as a set.
  abbrev SameKeys : List String → List (String × NodeStatus) → Type 0
  SameKeys seen acc = (x : String) → includes seen x ≡ includes (keys acc) x

  SameKeys-old :
      (p : String) (seen : List String) (acc : List (String × NodeStatus))
      → SameKeys seen acc
      → includes seen p ≡ true
      → SameKeys seen (insert p (status_or_idle states p) acc)
  SameKeys-old p seen acc h old x =
      ground (arith, h x, h p, keys-insert p x (status_or_idle states p) acc, eq_iff p x)

  SameKeys-new :
      (p : String) (seen : List String) (acc : List (String × NodeStatus))
      → SameKeys seen acc
      → SameKeys (p ∷ seen) (insert p (status_or_idle states p) acc)
  SameKeys-new p seen acc h x = ground (arith, h x, keys-insert p x (status_or_idle states p) acc)

  prereq_count :
      (seen : List String) (acc : List (String × NodeStatus)) (ps : List String)
      → IsFaithful acc
      → SameKeys seen acc
      → count is_completed (values (prereq_statuses states acc ps))
        ≡ count is_completed (values acc) + count is_done (unique_from seen ps)
  unfolding prereq_statuses unique_from
  prereq_count seen acc [] h k = omega arith
  prereq_count seen acc (p ∷ ps) h k = elim (Bool-cases (includes seen p)) [
    | inl old ↦ ground (
      arith,
      old,
      k p,
      count-insert p acc h,
      prereq_count seen (insert p (status_or_idle states p) acc) ps (insert-IsFaithful p acc h)
          (SameKeys-old p seen acc k old),
    )
    | inr new ↦ ground (
      arith,
      new,
      k p,
      count-insert p acc h,
      prereq_count (p ∷ seen) (insert p (status_or_idle states p) acc) ps
          (insert-IsFaithful p acc h) (SameKeys-new p seen acc k),
    )
  ]

evaluate_xor :
    (node : FlowNodeDef) (st : List (String × NodeStatus))
    → gate_type node ≡ "XOR"
    → evaluate_gateway node st ≡ eqb (count is_completed (values st)) 1
unfolding evaluate_gateway
evaluate_xor node st e = rw (e, evaluate_gateway) (rw length-filter)

-- A gateway passes on the statuses of its predecessors `ps` by its logic: OR if one of them is
-- COMPLETED, XOR if exactly one is, a predecessor by several edges counted once, and any other
-- logic, AND among them, if all are.
pub evaluate_gateway_lem :
    (node : FlowNodeDef) (states : List NodeState) (ps : List String)
    → let passes = evaluate_gateway node (prereq_statuses states [] ps) in
      (gate_type node ≡ "OR" → passes ≡ any (is_done states) ps)
      × (gate_type node ≡ "XOR" → passes ≡ eqb (count (is_done states) (unique ps)) 1)
      × (gate_type node ≢ "OR" → gate_type node ≢ "XOR" → passes ≡ all (is_done states) ps)
unfolding evaluate_gateway unique
evaluate_gateway_lem node states ps = (
  λ e. ground (arith, eq_iff (gate_type node) "OR", prereq_any states [] ps tt),
  λ e.
      evaluate_xor node (prereq_statuses states [] ps) e
      ∙ ap (λ n. eqb n 1) (prereq_count states [] [] ps tt (λ x. refl) ∙ zero-add _),
  λ e f. ground (
    arith,
    eq_iff (gate_type node) "OR",
    eq_iff (gate_type node) "XOR",
    prereq_all states [] ps tt,
  ),
)
