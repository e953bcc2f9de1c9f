-- ===== src/Access/Scope.antt =====
-- backend/src/auth/guards/partner-scope.guard.ts, and `resolveOwnerPartner` of
-- backend/src/iterations/iterations.service.ts. The rows that the guard finds are parameters; the nodes
-- are the normalised ones of the workflow that the iteration runs.
use digital_thread.Shared.{
  String, Bool, true, false, ◌||◌, Option, none, some, List, [], ◌∷◌, map, ◌==◌, if◌then◌else◌,
  truthy, is_some, filter, includes,
}
use digital_thread.Flow.{FlowNodeDef}
use digital_thread.Access.Roles.{Role, superadmin, owner, operator}

pub record User : Type 0 where
  pub role : Role
  pub partner_id : Option String

pub record Partner : Type 0 where
  pub id : String
  pub name : String

-- An iteration with the nodes of its frozen workflow.
pub record ScopedIteration : Type 0 where
  pub owner_partner_id : String
  pub nodes : List FlowNodeDef

-- The parameters of a route.
pub record Route : Type 0 where
  pub iteration_id : Option String
  pub node_id : Option String

abbrev pub same_name : Option String → String → Bool
same_name none b = false
same_name (some a) b = a == b

abbrev pub is_responsible : Partner → FlowNodeDef → Bool
is_responsible p n =
    includes n.responsible_partner_ids p.id || same_name n.responsible_partner p.name

unfoldable pub own_partner_node_ids : Partner → List FlowNodeDef → List String
own_partner_node_ids p nodes = map (λ n. n.id) (filter (is_responsible p) nodes)

abbrev pub non_empty_list : List String → Bool
non_empty_list [] = false
non_empty_list (x ∷ xs) = true

unfoldable pub iteration_visible : Partner → Option String → ScopedIteration → Bool
iteration_visible p node it =
    let ids = own_partner_node_ids p it.nodes in
    elim (truthy node) [
      | some n ↦ includes ids n
      | none ↦ it.owner_partner_id == p.id || non_empty_list ids
    ]

module _ (find_partner : String → Option Partner)
    (find_iteration : String → Option ScopedIteration) where
  unfoldable pub partner_visible : Route → Partner → Bool
  partner_visible route p = elim (truthy route.iteration_id) [
    | none ↦ true
    | some id ↦ elim (find_iteration id) [
      | none ↦ false
      | some it ↦ iteration_visible p route.node_id it
    ]
  ]

  -- The guard of the roles that belong to a partner.
  unfoldable pub bound_visible : Route → Option String → Bool
  bound_visible route partner = elim (truthy partner) [
    | none ↦ false
    | some id ↦ elim (find_partner id) [ none ↦ false | some p ↦ partner_visible route p ]
  ]

  -- `canActivate`: false stands for the ForbiddenException.
  unfoldable pub can_activate : Route → Option User → Bool
  can_activate route none = false
  can_activate route (some u) = elim u.role [
    | superadmin ↦ true
    | owner ↦ bound_visible route u.partner_id
    | operator ↦ bound_visible route u.partner_id
  ]

module _ (find_partner : String → Option Partner) where
  -- `resolveOwnerPartner`: `none` stands for its exceptions.
  unfoldable pub resolve_owner_partner : Option String → User → Option String
  resolve_owner_partner requested u = elim u.role [
    | superadmin ↦ elim (truthy requested) [
      | none ↦ none
      | some id ↦ if is_some (find_partner id) then some id else none
    ]
    | owner ↦ truthy u.partner_id
    | operator ↦ none
  ]
