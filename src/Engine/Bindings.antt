-- ===== src/Engine/Bindings.antt =====
-- `resolvePredecessorInputs` against a reading of one input at a time.
use digital_thread.Shared.{
  String, ◌≡◌, refl, ◌≢◌, ap, ◌∙◌, true, Option, none, some, List, [], ◌∷◌, arith, eq_iff, includes,
  includes-append,
}
use mathlib.Core.List.{Memᴰ}
use digital_thread.Shared.Assoc.{lookup, lookup-insert}
use digital_thread.Flow.{
  InputSource, predecessor, NodeInputDef, FlowNodeDef, NodeInputStatus, NodeInputStatusesMap,
}
use digital_thread.Engine.Store.{NodeState, find_state}
use digital_thread.Engine.Status.{outputs_of}
use digital_thread.Engine.Inputs.{
  upstream_id, add_upstream, upstream_ids, judge, path_of, put_status, resolve_source,
  resolve_inputs, upstream_states, resolve_predecessor_inputs,
}

-- The rows that the query brings answer for every id in it.
find_state-upstream :
    (ids : List String) (id : String) (states : List NodeState)
    → includes ids id ≡ true
    → find_state id (upstream_states ids states) ≡ find_state id states
unfolding find_state
find_state-upstream ids id [] h = refl
find_state-upstream ids id (s ∷ ss) h =
    ground (arith, find_state-upstream ids id ss h, eq_iff s.node_id id)

add_upstream-keeps :
    (o : Option String) (ids : List String) (x : String)
    → includes ids x ≡ true
    → includes (add_upstream o ids) x ≡ true
add_upstream-keeps none ids x h = h
add_upstream-keeps (some id) ids x h = ground (arith, includes-append ids (id ∷ []) x)

add_upstream-adds :
    (id : String) (ids : List String) → includes (add_upstream (some id) ids) id ≡ true
add_upstream-adds id ids = ground (arith, includes-append ids (id ∷ []) id, eq_iff id id)

upstream_ids-keeps :
    (ids : List String) (is : List NodeInputDef) (x : String)
    → includes ids x ≡ true
    → includes (upstream_ids ids is) x ≡ true
unfolding upstream_ids
upstream_ids-keeps ids [] x h = h
upstream_ids-keeps ids (i ∷ is) x h =
    upstream_ids-keeps (add_upstream (upstream_id i.source) ids) is x
      (add_upstream-keeps (upstream_id i.source) ids x h)

-- The node of every bound input is queried.
upstream_ids-Memᴰ :
    (ids : List String) (is : List NodeInputDef) (i : NodeInputDef) (x : String)
    → Memᴰ i is
    → upstream_id i.source ≡ some x
    → includes (upstream_ids ids is) x ≡ true
unfolding upstream_ids
upstream_ids-Memᴰ ids [] i x m e = elim m [ ]
upstream_ids-Memᴰ ids (j ∷ is) i x (Memᴰ.head p) e =
    upstream_ids-keeps (add_upstream (upstream_id j.source) ids) is x
      (rw (← ap (λ k. upstream_id k.source) p, e) (add_upstream-adds x ids))
upstream_ids-Memᴰ ids (j ∷ is) i x (Memᴰ.tail m) e =
    upstream_ids-Memᴰ (add_upstream (upstream_id j.source) ids) is i x m e

-- No other input of the list has the id.
abbrev pub IsFresh : String → List NodeInputDef → Type 0
IsFresh id [] = Unit
IsFresh id (i ∷ is) = (i.id ≢ id) × IsFresh id is

abbrev pub HasDistinctIds : List NodeInputDef → Type 0
HasDistinctIds [] = Unit
HasDistinctIds (i ∷ is) = IsFresh i.id is × HasDistinctIds is

module _ (states : List NodeState) where
  lookup-put_status :
      (id j : String) (s : Option NodeInputStatus) (m : NodeInputStatusesMap)
      → id ≢ j
      → lookup j (put_status id s m) ≡ lookup j m
  lookup-put_status id j none m ne = refl
  lookup-put_status id j (some s) m ne = ground (arith, lookup-insert id j s m, eq_iff id j)

  resolve_inputs-IsFresh :
      (m : NodeInputStatusesMap) (is : List NodeInputDef) (id : String)
      → IsFresh id is
      → lookup id (resolve_inputs states m is) ≡ lookup id m
  unfolding resolve_inputs
  resolve_inputs-IsFresh m [] id h = refl
  resolve_inputs-IsFresh m (i ∷ is) id (ne, h) =
      resolve_inputs-IsFresh (put_status i.id (resolve_source states i.source) m) is id h
      ∙ lookup-put_status i.id id (resolve_source states i.source) m ne

  resolve_inputs-Memᴰ :
      (m : NodeInputStatusesMap) (is : List NodeInputDef) (i : NodeInputDef) (s : NodeInputStatus)
      → HasDistinctIds is
      → Memᴰ i is
      → resolve_source states i.source ≡ some s
      → lookup i.id (resolve_inputs states m is) ≡ some s
  unfolding resolve_inputs
  resolve_inputs-Memᴰ m [] i s d mem e = elim mem [ ]
  resolve_inputs-Memᴰ m (j ∷ is) i s (fresh, d) (Memᴰ.tail mem) e =
      resolve_inputs-Memᴰ (put_status j.id (resolve_source states j.source) m) is i s d mem e
  resolve_inputs-Memᴰ m (j ∷ is) i s (fresh, d) (Memᴰ.head p) e =
      let at : resolve_source states j.source ≡ some s = rw (← p) e in
      rw (p, at)
        (resolve_inputs-IsFresh (put_status j.id (some s) m) is j.id fresh
          ∙ ground (arith, lookup-insert j.id j.id s m, eq_iff j.id j.id))

resolve_by_query :
    (states : List NodeState) (target : FlowNodeDef) (x : String) (ids : List String)
    → upstream_ids [] target.inputs ≡ ids
    → includes ids x ≡ true
    → resolve_predecessor_inputs states target
      ≡ resolve_inputs (upstream_states ids states) [] target.inputs
unfolding resolve_predecessor_inputs
resolve_by_query states target x [] e h = cc
resolve_by_query states target x (id ∷ ids) e h = rw (e, resolve_predecessor_inputs)

bound_id :
    (source : InputSource) (node output : String)
    → source ≡ predecessor node output
    → node ≢ ""
    → upstream_id source ≡ some node
bound_id source node output e h = rw e (ground (arith, eq_iff node ""))

resolve_source_bound :
    (states rows : List NodeState) (source : InputSource) (node output : String)
    → source ≡ predecessor node output
    → node ≢ ""
    → output ≢ ""
    → find_state node rows ≡ find_state node states
    → resolve_source rows source
      ≡ some (
          judge output
            (lookup output (outputs_of (find_state node states)))
            (path_of (find_state node states)))
unfolding resolve_source
resolve_source_bound states rows source node output e h k same =
    rw (e, ← same) (ground (arith, eq_iff node "", eq_iff output ""))

-- An input that is bound to the output of a node gets what that node's row gives: the files that
-- are recorded there for the output, or else, for the output `default`, the row's legacy path. The
-- condition is that the inputs of the target have distinct ids.
pub resolve_predecessor_inputs_lem :
    (states : List NodeState) (target : FlowNodeDef) (i : NodeInputDef) (node output : String)
    → HasDistinctIds target.inputs
    → Memᴰ i target.inputs
    → i.source ≡ predecessor node output
    → node ≢ ""
    → output ≢ ""
    → lookup i.id (resolve_predecessor_inputs states target)
      ≡ some (
          judge output
            (lookup output (outputs_of (find_state node states)))
            (path_of (find_state node states)))
resolve_predecessor_inputs_lem states target i node output d m e h k =
    let ids = upstream_ids [] target.inputs in
    let queried = upstream_ids-Memᴰ [] target.inputs i node m (bound_id i.source node output e h) in
    rw (resolve_by_query states target node ids refl queried) (
      resolve_inputs-Memᴰ (upstream_states ids states) [] target.inputs i _ d m (
        resolve_source_bound states (upstream_states ids states) i.source node output e h k
          (find_state-upstream ids node states queried)))
