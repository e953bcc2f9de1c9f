-- ===== src/Files/Examples.antt =====
-- A report that a partner made and another one takes as an input.
use digital_thread.Shared.{
  ◌≤◌, String, ◌≡◌, refl, arith, eq_iff, ◌≢◌, ◌↔◌, ◌⊎◌, true, false, Option, none, some, List, [],
  ◌∷◌, truthy,
}
use digital_thread.Json.{
  Json, null, num, str, arr, obj, nil, cons, end, field, lookup_field, get_field,
}
use digital_thread.Flow.{FlowNodeDef, task, one, predecessor, NodeInputDef}
use digital_thread.Engine.Store.{Column, parsed}
use digital_thread.Access.Roles.{operator}
use digital_thread.Access.Scope.{Partner, own_partner_node_ids}
use digital_thread.Files.Tables.{Desk, has_active_grant}
use digital_thread.Files.Readable.{
  StoredFile, Requester, rank_of, takes, from_own_node, to_own_node, partner_may_read,
  operator_may_read, assert_readable, can_read, stored_outputs, accepted_extensions, owns_stored,
  may_write, write_to, assert_writable, accepted, forbidden, resolve_default_classification,
  declared_level,
}
use digital_thread.Files.Levels.{IsDeclared, resolve_default_classification_lem}
use digital_thread.Files.Readers.{IsInScope, can_read_operator}

reading : Unit {0}
unfolding has_active_grant rank_of takes from_own_node to_own_node own_partner_node_ids
    partner_may_read operator_may_read assert_readable can_read lookup_field get_field
    stored_outputs accepted_extensions owns_stored may_write write_to assert_writable
    resolve_default_classification declared_level
reading = tt

abbrev report_in : NodeInputDef
report_in = record {
  id = "in";
  name = "Report";
  description = none;
  cardinality = one;
  required = true;
  file_types = [];
  mime_types = none;
  max_size_mb = none;
  source = predecessor "mill" "report";
  semantic = none;
}

abbrev node_of : String → String → List NodeInputDef → FlowNodeDef
node_of id partner inputs = record {
  id = id;
  kind = task;
  name = id;
  description = none;
  tags = none;
  responsible_partner_id = some partner;
  responsible_partner_ids = partner ∷ [];
  group_id = none;
  gateway = none;
  inputs = inputs;
  outputs = [];
  position = null;
  semantic = none;
  type_text = none;
  node_type_id = none;
  label = id;
  responsible_partner = none;
  config = none;
}

abbrev partners : String → Option Partner
partners id = some (record { id = id; name = "Partner" })

abbrev iterations : String → Option (List FlowNodeDef)
iterations id = some (node_of "mill" "acme" [] ∷ node_of "test" "lab" (report_in ∷ []) ∷ [])

abbrev report : StoredFile
report = record {
  id = "f1";
  classification = "PARTNER";
  iteration_id = some "it1";
  partner_id = none;
  node_source_id = some "mill";
  node_output_id = some "report";
}

abbrev member_of : String → Requester
member_of partner = record { id = "ann"; role = operator; partner_id = some partner }

abbrev no_requests : Desk
no_requests = record { files = []; products = []; iterations = []; requests = []; emitted = [] }

by_maker : can_read partners iterations 5 no_requests (member_of "acme") report ≡ true
by_maker = (unfold reading in refl)

by_taker : can_read partners iterations 5 no_requests (member_of "lab") report ≡ true
by_taker = (unfold reading in refl)

by_stranger : can_read partners iterations 5 no_requests (member_of "other") report ≡ false
by_stranger = (unfold reading in refl)

can_read_operator_example :
    (can_read partners iterations 5 no_requests (member_of "lab") report ≡ true) ↔ (
      (((member_of "lab").id ≢ "") × (has_active_grant 5 "f1" "ann" no_requests ≡ true))
      ⊎ ((rank_of report ≤ 1)
          ⊎ ((rank_of report ≡ 2)
              × ((partner : String) × (truthy (some "lab") ≡ some partner)
                  × IsInScope partners iterations partner report))))
can_read_operator_example =
    can_read_operator partners iterations 5 no_requests (member_of "lab") report refl

-- A stored node with one output, for reports in two formats.
abbrev stored_node : Json
stored_node = obj (
    field "id" (str "mill") (
      field "responsiblePartnerId" (str "acme") (
        field "outputs"
          (arr (
            cons
              (obj (
                field "id" (str "report") (
                  field "fileTypes" (arr (cons (str "pdf") (cons (str "csv") nil)))
                    (field "defaultClassification" (str "RESTRICTED") end))))
              nil))
          end)))

abbrev stored : String → Option (Column (List Json))
stored id = some (parsed (stored_node ∷ []))

abbrev plain : Json → String
plain (str s) = s
plain _ = ""

upload_by_owner :
    assert_writable partners plain stored (some (member_of "acme")) "it1" "mill" (some "report")
    ≡ accepted (some ("pdf" ∷ "csv" ∷ []))
upload_by_owner = (unfold reading in refl)

upload_by_other :
    assert_writable partners plain stored (some (member_of "lab")) "it1" "mill" (some "report")
    ≡ forbidden
upload_by_other = (unfold reading in refl)

abbrev json : String → Option (Column Json)
json id = some (parsed (arr (cons stored_node nil)))

level_test : resolve_default_classification json "it1" "mill" (some "report") ≡ some "RESTRICTED"
level_test = (unfold reading in refl)

resolve_default_classification_lem_example :
    (resolve_default_classification json "it1" "mill" (some "report") ≡ some "RESTRICTED")
    ↔ IsDeclared (stored_node ∷ []) "mill" "report" "RESTRICTED"
resolve_default_classification_lem_example =
    resolve_default_classification_lem json "it1" "mill" (some "report") (cons stored_node nil)
      "RESTRICTED" refl (λ e. ground (arith, eq_iff "RESTRICTED" "INTERNAL"))

-- A key of every JavaScript object passes for a level.
abbrev odd : String → Option (Column Json)
odd id = some (
    parsed (
      arr (
        cons
          (obj (
            field "id" (str "mill") (
              field "outputs"
                (arr (
                  cons
                    (obj (
                      field "id" (str "default")
                        (field "defaultClassification" (str "constructor") end)))
                    nil))
                end)))
          nil)))

odd_level_test : resolve_default_classification odd "it1" "mill" none ≡ some "constructor"
odd_level_test = (unfold reading in refl)

not_a_list_test :
    resolve_default_classification (λ id. some (parsed (num 1))) "it1" "mill" none ≡ none
not_a_list_test = (unfold reading in refl)
