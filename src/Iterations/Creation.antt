-- ===== src/Iterations/Creation.antt =====
-- `create` of iterations.service.ts. The rows that it finds are parameters, and so are the new id and
-- the texts of the display id and of the first event. The nodes and edges of the version are parsed.
use digital_thread.Shared.{
  ℕ, suc, String, Option, none, some, List, ◌==◌, if◌then◌else◌, get_or, truthy,
}
use digital_thread.Shared.Assoc.{lookup, insert}
use digital_thread.Flow.{FlowNodeDef, FlowEdge}
use digital_thread.Engine.Store.{Run, Failure, not_found, bad_request, forbidden, Result, ok, err}
use digital_thread.Access.Roles.{Role, superadmin, owner, operator}
use digital_thread.Access.Scope.{User, Partner, resolve_owner_partner}
use digital_thread.Iterations.Starts.{start_run}
use digital_thread.Iterations.Forks.{IterationRow, fresh_run}

pub record MachineRow : Type 0 where
  pub id : String
  pub name : String

pub record LatestVersion : Type 0 where
  pub id : String
  pub version_number : ℕ
  pub nodes : List FlowNodeDef
  pub edges : List FlowEdge

pub record ProductRow : Type 0 where
  pub id : String
  pub owner_partner_id : String
  pub urn : String

pub record CreateInput : Type 0 where
  pub metadata : List (String × String)
  pub classification : Option String
  pub owner_partner_id : Option String
  pub product_id : Option String

-- The exception of `resolveOwnerPartner`.
abbrev pub owner_failure : Role → Failure
owner_failure superadmin = bad_request
owner_failure owner = forbidden
owner_failure operator = forbidden

-- `metadata.componentRef`, unless it is given.
unfoldable pub with_component : Option ProductRow → List (String × String) → List (String × String)
with_component none m = m
with_component (some p) m = elim (truthy (lookup "componentRef" m)) [
  | some c ↦ m
  | none ↦ insert "componentRef" p.urn m
]

abbrev pub product_key : Option ProductRow → Option String
product_key none = none
product_key (some p) = some p.id

pub record Created : Type 0 where
  pub result : Result (Unit {0})
  pub created : Option (IterationRow × Run)

abbrev pub rejected : Failure → Created
rejected f = record { result = err f; created = none }

abbrev pub started : IterationRow → Result (Unit {0}) × Run → Created
started row o = record { result = o.0; created = some (row, o.1) }

module _ (find_product : String → Option ProductRow) where
  -- The product of a request: none, or one of the same partner.
  unfoldable pub product_for : String → Option String → Result (Option ProductRow)
  product_for partner asked = elim (truthy asked) [
    | none ↦ ok none
    | some id ↦ elim (find_product id) [
      | none ↦ err bad_request
      | some p ↦ if p.owner_partner_id == partner then ok (some p) else err bad_request
    ]
  ]

module _ (display_id detail : String → ℕ → String) where
  abbrev pub new_row :
      String
      → MachineRow
      → LatestVersion
      → ℕ
      → String
      → Option ProductRow
      → CreateInput
      → IterationRow
  new_row id machine version count partner product i = record {
    id = id;
    display_id = display_id machine.name (suc count);
    machine_id = machine.id;
    machine_name = machine.name;
    state_machine_version_id = some version.id;
    owner_partner_id = partner;
    product_id = product_key product;
    metadata = some (with_component product i.metadata);
    classification = get_or i.classification "INTERNAL";
    parent_iteration_id = none;
    restart_from_node_id = none;
  }

  module _ (find_partner : String → Option Partner)
      (find_product : String → Option ProductRow) where
    unfoldable pub create_for :
        ℕ → String → MachineRow → LatestVersion → ℕ → String → CreateInput → Created
    create_for now id machine version count partner i =
        elim (product_for find_product partner i.product_id) [
          | err f ↦ rejected f
          | ok product ↦
              let row = new_row id machine version count partner product i in
              started row (
                start_run version.edges version.nodes (detail row.display_id version.version_number)
                  (fresh_run now))
        ]

    unfoldable pub create :
        ℕ → String → Option MachineRow → Option LatestVersion → ℕ → CreateInput → User → Created
    create now id none latest count i u = rejected not_found
    create now id (some machine) latest count i u =
        elim (resolve_owner_partner find_partner i.owner_partner_id u) [
          | none ↦ rejected (owner_failure u.role)
          | some partner ↦ elim latest [
            | none ↦ rejected not_found
            | some version ↦ create_for now id machine version count partner i
          ]
        ]
