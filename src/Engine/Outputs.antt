-- ===== src/Engine/Outputs.antt =====
-- A file from `recordNodeOutput` to the inputs of later nodes.
use digital_thread.Shared.{
  Bool-cases, eq_of_==, String, ◌≡◌, refl, sym, ◌≢◌, ◌⊎◌, ap, ◌∙◌, Bool, true, ◌||◌, Option, none,
  some, List, [], ◌∷◌, ◌++◌, arith, eq_iff, ◌==◌, if◌then◌else◌, get_or, includes, includes-append,
  includes-unique, Option-cases, inl, inr,
}
use mathlib.Core.List.{Memᴰ}
use digital_thread.Shared.Lists.{unique}
use digital_thread.Shared.Assoc.{lookup, lookup-insert}
use digital_thread.Flow.{
  Cardinality, one, many, predecessor, NodeInputDef, FlowNodeDef, NodeInputStatus, NodeOutputsMap,
}
use digital_thread.Engine.Store.{NodeState, Run, ok, find_state, modify_state, update_row}
use digital_thread.Engine.Status.{outputs_of, put_outputs, add_output, record_node_output}
use digital_thread.Engine.Rows.{find_state-modify_state}
use digital_thread.Engine.Inputs.{judge, path_of, has_files, resolve_predecessor_inputs}
use digital_thread.Engine.Bindings.{HasDistinctIds, resolve_predecessor_inputs_lem}

-- The files of an output slot, as a row records them.
abbrev pub recorded : String → Option NodeState → List String
recorded output s = get_or (lookup output (outputs_of s)) []

-- Whether a slot holds a file once `file` is recorded there: ONE replaces, MANY adds.
abbrev pub holds : Cardinality → String → List String → String → Bool
holds one file before x = file == x
holds many file before x = includes before x || file == x

add_output_slot :
    (c : Cardinality) (output file : String) (m : NodeOutputsMap)
    → (fs : List String) × (lookup output (add_output c output file m) ≡ some fs)
      × ((x : String) → includes fs x ≡ holds c file (get_or (lookup output m) []) x)
unfolding add_output
add_output_slot one output file m = (
  file ∷ [],
  ground (arith, lookup-insert output output (file ∷ []) m, eq_iff output output),
  λ x. ground arith,
)
add_output_slot many output file m =
    let before = get_or (lookup output m) [] in
    let fs = unique (before ++ file ∷ []) in
    (
      fs,
      ground (arith, lookup-insert output output fs m, eq_iff output output),
      λ x.
          includes-unique (before ++ file ∷ []) x
          ∙ ground (arith, includes-append before (file ∷ []) x),
    )

holds_self :
    (c : Cardinality) (file : String) (before : List String) → holds c file before file ≡ true
holds_self one file before = ground (arith, eq_iff file file)
holds_self many file before = ground (arith, eq_iff file file)

add_output_other :
    (c : Cardinality) (output other file : String) (m : NodeOutputsMap)
    → other ≢ output
    → lookup other (add_output c output file m) ≡ lookup other m
unfolding add_output
add_output_other one output other file m ne =
    ground (arith, lookup-insert output other (file ∷ []) m, eq_iff output other)
add_output_other many output other file m ne = ground (
  arith,
  lookup-insert output other (unique (get_or (lookup output m) [] ++ file ∷ [])) m,
  eq_iff output other,
)

record_node_output_rows :
    (id output file : String) (c : Cardinality) (r r' : Run) (m : NodeOutputsMap)
    → record_node_output id output file c r ≡ (ok m, r')
    → (s : NodeState) × (find_state id r.states ≡ some s)
      × (r'.states
          ≡ modify_state id
              (put_outputs (add_output c output file (outputs_of (find_state id r.states))))
              r.states)
unfolding record_node_output update_row
record_node_output_rows id output file c r r' m h = elim (Option-cases (find_state id r.states)) [
  | inl e ↦ absurd (ground arith)
  | inr (s, e) ↦ (s, e, ground arith)
]

has_files-includes :
    (fs : List String) (x : String) → includes fs x ≡ true → has_files (some fs) ≡ true
has_files-includes [] x h = cc
has_files-includes (f ∷ fs) x h = refl

judge_files :
    (output : String) (fs : List String) (path : Option String)
    → has_files (some fs) ≡ true
    → ((judge output (some fs) path).provided ≡ true)
      × ((judge output (some fs) path).file_ids ≡ some fs)
judge_files output fs none h = (h, refl)
judge_files output fs (some p) h = ground arith

module _ (node output file : String) (c : Cardinality) (r r' : Run) (m : NodeOutputsMap)
    (done : record_node_output node output file c r ≡ (ok m, r')) where
  abbrev stored : NodeOutputsMap
  stored = add_output c output file (outputs_of (find_state node r.states))

  outputs_after :
      (id : String)
      → outputs_of (find_state id r'.states)
        ≡ (if node == id then stored else outputs_of (find_state id r.states))
  outputs_after id =
      let (s, found, after) = record_node_output_rows node output file c r r' m done in
      ground (
        arith,
        after,
        found,
        find_state-modify_state node id (put_outputs stored) r.states (λ s. refl),
        eq_iff node id,
      )

  path_after : (id : String) → path_of (find_state id r'.states) ≡ path_of (find_state id r.states)
  path_after id =
      let (s, found, after) = record_node_output_rows node output file c r r' m done in
      ground (
        arith,
        after,
        found,
        find_state-modify_state node id (put_outputs stored) r.states (λ s. refl),
        eq_iff node id,
      )

  slot_here :
      (fs : List String)
      → lookup output stored ≡ some fs
      → lookup output (if node == node then stored else outputs_of (find_state node r.states))
        ≡ some fs
  slot_here fs at = ground (arith, eq_iff node node)

  slot_elsewhere :
      (id out : String)
      → (id ≢ node) ⊎ (out ≢ output)
      → lookup out (if node == id then stored else outputs_of (find_state id r.states))
        ≡ lookup out (outputs_of (find_state id r.states))
  slot_elsewhere id out (inl ne) = ground (arith, eq_iff node id)
  slot_elsewhere id out (inr ne) = elim (Bool-cases (node == id)) [
    | inr other ↦ rw other refl
    | inl same ↦
        rw (same, ← eq_of_== node id same)
          (add_output_other c output out file (outputs_of (find_state node r.states)) ne)
  ]

  module _ (target : FlowNodeDef) (i : NodeInputDef) (d : HasDistinctIds target.inputs)
      (mem : Memᴰ i target.inputs) where
    resolved_from :
        (id out : String)
        → i.source ≡ predecessor id out
        → id ≢ ""
        → out ≢ ""
        → lookup i.id (resolve_predecessor_inputs r'.states target)
          ≡ some (
              judge out
                (lookup out (if node == id then stored else outputs_of (find_state id r.states)))
                (path_of (find_state id r.states)))
    resolved_from id out e h k =
        resolve_predecessor_inputs_lem r'.states target i id out d mem e h k
        ∙ rw (outputs_after id, path_after id) refl

    -- What is recorded arrives: once a file is recorded for an output of a node, an input bound to
    -- that output is provided, with the file alone for ONE and beside the earlier ones for MANY. An
    -- input bound to another output or node gets what it got before. The conditions are that the
    -- inputs have distinct ids and that nodes and outputs have names.
    pub resolve_predecessor_inputs-record_node_output :
        node ≢ ""
        → output ≢ ""
        → (i.source ≡ predecessor node output
            → (s : NodeInputStatus) × (lookup i.id (resolve_predecessor_inputs r'.states target)
                ≡ some s)
              × (s.provided ≡ true)
              × ((fs : List String) × (s.file_ids ≡ some fs)
                  × ((x : String)
                      → includes fs x
                        ≡ holds c file (recorded output (find_state node r.states)) x)))
          × ((id out : String)
              → i.source ≡ predecessor id out
              → id ≢ ""
              → out ≢ ""
              → (id ≢ node) ⊎ (out ≢ output)
              → lookup i.id (resolve_predecessor_inputs r'.states target)
                ≡ lookup i.id (resolve_predecessor_inputs r.states target))
    resolve_predecessor_inputs-record_node_output h k = (
      λ e.
          let (fs, at, has) =
            add_output_slot c output file (outputs_of (find_state node r.states)) in
          let there =
            has_files-includes fs file
              (has file ∙ holds_self c file (recorded output (find_state node r.states))) in
          let path = path_of (find_state node r.states) in
          let (provided, files) = judge_files output fs path there in
          (
            judge output (some fs) path,
            resolved_from node output e h k
                ∙ ap (λ l. some (judge output l path)) (slot_here fs at),
            provided,
            (fs, files, has),
          ),
      λ id out e h' k' other.
          resolved_from id out e h' k'
          ∙ (ap (λ l. some (judge out l (path_of (find_state id r.states))))
                (slot_elsewhere id out other)
              ∙ sym (resolve_predecessor_inputs_lem r.states target i id out d mem e h' k')),
    )
