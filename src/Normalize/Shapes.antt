-- ===== src/Normalize/Shapes.antt =====
-- What every normalised node is like.
use digital_thread.Shared.{
  String, ◌≡◌, refl, ◌≢◌, Bool, true, false, not, ◌&&◌, ◌||◌, Option, none, some, List, [], ◌∷◌,
  map, arith, eq_iff, ◌==◌, all, includes, Option-cases, sym, ◌∙◌, subst, inl, inr,
}
use digital_thread.Json.{Json, get_field, as_string}
use digital_thread.Flow.{NodeKind, trigger, task, gateway, FlowNodeDef, NodeInputDef, NodeOutputDef}
use digital_thread.Normalize.Nodes.{
  infer_kind, inputs_from, outputs_from, list_field, default_output, add_last, push_id, push_all,
  normalize_responsible_partner_ids, mirror, head, final_inputs, with_default, final_outputs,
  gateway_of, text_of, node_with, normalize_flow_node,
}

-- A trigger has no inputs, a task has an output, and a gateway, which alone has a logic, forwards
-- each input as an output.
abbrev pub IsShaped : NodeKind → FlowNodeDef → Type 0
IsShaped trigger n = (n.inputs ≡ []) × (n.gateway ≡ none)
IsShaped task n = (n.outputs ≢ []) × (n.gateway ≡ none)
IsShaped gateway n = (n.outputs ≡ map mirror n.inputs) × (n.gateway ≢ none)

abbrev pub distinct : List String → Bool
distinct [] = true
distinct (x ∷ xs) = not (includes xs x) && distinct xs

includes-add_last :
    (xs : List String) (s x : String) → includes (add_last xs s) x ≡ (includes xs x || s == x)
includes-add_last [] s x = ground arith
includes-add_last (y ∷ xs) s x = ground (arith, includes-add_last xs s x)

distinct-add_last :
    (xs : List String) (s : String)
    → includes xs s ≡ false
    → distinct xs ≡ true
    → distinct (add_last xs s) ≡ true
distinct-add_last [] s h d = refl
distinct-add_last (x ∷ xs) s h d =
    ground (arith, includes-add_last xs s x, eq_iff s x, eq_iff x s, distinct-add_last xs s)

-- Texts that differ and are not blank.
abbrev pub clean : (String → Bool) → List String → Bool
clean blank xs = distinct xs && all (λ x. not (blank x)) xs

all-add_last :
    (p : String → Bool) (xs : List String) (s : String)
    → all p xs ≡ true
    → p s ≡ true
    → all p (add_last xs s) ≡ true
all-add_last p [] s h k = ground arith
all-add_last p (x ∷ xs) s h k = ground (arith, all-add_last p xs s)

push_id-clean :
    (blank : String → Bool) (xs : List String) (o : Option String)
    → clean blank xs ≡ true
    → clean blank (push_id blank xs o) ≡ true
unfolding push_id
push_id-clean blank xs none h = h
push_id-clean blank xs (some s) h =
    ground (arith, distinct-add_last xs s, all-add_last (λ x. not (blank x)) xs s)

push_all-clean :
    (blank : String → Bool) (xs : List String) (vs : List Json)
    → clean blank xs ≡ true
    → clean blank (push_all blank xs vs) ≡ true
unfolding push_all
push_all-clean blank xs [] h = h
push_all-clean blank xs (v ∷ vs) h =
    push_all-clean blank (push_id blank xs (as_string (some v))) vs
      (push_id-clean blank xs (as_string (some v)) h)

partner_ids-clean :
    (blank : String → Bool) (raw : Json)
    → clean blank (normalize_responsible_partner_ids blank raw) ≡ true
unfolding normalize_responsible_partner_ids
partner_ids-clean blank raw =
    push_id-clean blank _ (as_string (get_field "responsiblePartnerId" raw))
      (push_all-clean blank [] _ refl)

with_default-task : (d : NodeOutputDef) (outs : List NodeOutputDef) → with_default task d outs ≢ []
unfolding with_default
with_default-task d [] e = cc e
with_default-task d (o ∷ os) e = cc e

IsShaped-of :
    (k : NodeKind) (n : FlowNodeDef) (raw : Json) (ins : List NodeInputDef) (d : NodeOutputDef)
    (outs : List NodeOutputDef)
    → n.inputs ≡ final_inputs k ins
    → n.outputs ≡ final_outputs k n.inputs (with_default k d outs)
    → n.gateway ≡ gateway_of k raw
    → IsShaped k n
unfolding final_inputs final_outputs gateway_of
IsShaped-of trigger n raw ins d outs e f g = (e, g)
IsShaped-of task n raw ins d outs e f g = (λ empty. with_default-task d outs (sym f ∙ empty), g)
IsShaped-of gateway n raw ins d outs e f g = (f, λ none_there. cc (g, none_there))

module _ (text : Json → String) (lower : String → String) (blank : String → Bool)
    (catalog : String → Option String) where
  node_with-IsShaped :
      (id : String) (raw : Json)
      → let n = node_with text lower blank catalog id raw in IsShaped n.kind n
  unfolding node_with
  node_with-IsShaped id raw =
      IsShaped-of (infer_kind text lower blank catalog raw)
        (node_with text lower blank catalog id raw) raw
        (inputs_from text lower blank catalog 0 (list_field "inputs" raw))
        (default_output text lower blank catalog raw)
        (outputs_from text lower blank catalog 0 (list_field "outputs" raw)) refl refl refl

  -- Whatever its payload, a node that is normalised has the shape of its kind; its responsible partners
  -- differ and are not blank, and the first of them, if any, is the single responsible partner.
  pub normalize_flow_node_lem :
      (raw : Json) (n : FlowNodeDef)
      → normalize_flow_node text lower blank catalog raw ≡ some n
      → IsShaped n.kind n
        × (clean blank n.responsible_partner_ids ≡ true)
        × ((p : String)
            → head n.responsible_partner_ids ≡ some p
            → n.responsible_partner_id ≡ some p)
  unfolding normalize_flow_node
  normalize_flow_node_lem raw n h =
      elim (Option-cases (text_of text lower blank catalog (get_field "id" raw))) [
        | inl e ↦ absurd (ground arith)
        | inr (id, e) ↦
            let same : node_with text lower blank catalog id raw ≡ n = ground arith in
            subst
              (λ m.
                IsShaped m.kind m
                × (clean blank m.responsible_partner_ids ≡ true)
                × ((p : String)
                    → head m.responsible_partner_ids ≡ some p
                    → m.responsible_partner_id ≡ some p))
              same
              (unfold node_with in
                (node_with-IsShaped id raw, partner_ids-clean blank raw, λ p k. ground arith))
      ]
