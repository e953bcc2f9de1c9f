-- ===== src/Normalize/Tests.antt =====
-- A legacy gateway, as an old workflow stores it.
use digital_thread.Shared.{String, ◌≡◌, refl, Bool, true, Option, none, some, [], ◌∷◌, ◌==◌}
use digital_thread.Json.{
  Json, null, bool, num, str, arr, obj, cons, nil, field, end, get_field, lookup_field,
}
use digital_thread.Flow.{FlowNodeDef, gateway}
use digital_thread.Normalize.Coerce.{kind_by_category}
use digital_thread.Normalize.Nodes.{
  head, push_id, push_all, normalize_responsible_partner_ids, infer_kind, node_with,
  normalize_flow_node,
}
use digital_thread.Normalize.Shapes.{IsShaped, clean, normalize_flow_node_lem}

unfoldable pub normalizer : Unit {0}
unfolding get_field lookup_field kind_by_category push_id push_all normalize_responsible_partner_ids
    infer_kind node_with normalize_flow_node
normalizer = tt

abbrev pub shown : Json → String
shown (str s) = s
shown null = "null"
shown (bool b) = "bool"
shown (num n) = "num"
shown (arr vs) = "arr"
shown (obj fs) = "obj"

abbrev pub same : String → String
same s = s

abbrev pub is_blank : String → Bool
is_blank s = s == ""

abbrev pub no_catalog : String → Option String
no_catalog s = none

abbrev legacy : Json
legacy = obj (
    field "id" (str "g1") (
      field "type" (str "GATEWAY") (
        field "responsiblePartnerIds" (arr (cons (str "acme") (cons (str "acme") nil)))
          (field "inputs" (arr (cons (obj (field "id" (str "in") end)) nil)) end))))

abbrev clean_node : FlowNodeDef
clean_node = node_with shown same is_blank no_catalog "g1" legacy

normalize_flow_node_lem_example :
    IsShaped clean_node.kind clean_node
    × (clean is_blank clean_node.responsible_partner_ids ≡ true)
    × ((p : String)
        → head clean_node.responsible_partner_ids ≡ some p
        → clean_node.responsible_partner_id ≡ some p)
normalize_flow_node_lem_example =
    normalize_flow_node_lem shown same is_blank no_catalog legacy clean_node
      (unfold normalizer in refl)

legacy_test : (clean_node.kind ≡ gateway) × (clean_node.responsible_partner_ids ≡ "acme" ∷ [])
unfolding normalizer
legacy_test = (refl, refl)
