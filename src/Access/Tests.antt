-- ===== src/Access/Tests.antt =====
-- An operator of a partner that is responsible for one of the nodes of an iteration.
use digital_thread.Shared.{String, ◌≡◌, refl, Option, none, some, [], ◌∷◌, ◌⊎◌}
use digital_thread.Json.{null}
use digital_thread.Flow.{FlowNodeDef, task}
use digital_thread.Access.Roles.{superadmin, operator}
use digital_thread.Access.Scope.{
  User, Partner, ScopedIteration, Route, own_partner_node_ids, iteration_visible, partner_visible,
  bound_visible, can_activate,
}
use digital_thread.Access.Assigned.{IsEntitled, can_activate-IsEntitled}

scope_guard : Unit {0}
unfolding own_partner_node_ids iteration_visible partner_visible bound_visible can_activate
scope_guard = tt

abbrev milling : FlowNodeDef
milling = record {
  id = "mill";
  kind = task;
  name = "Milling";
  description = none;
  tags = none;
  responsible_partner_id = some "acme";
  responsible_partner_ids = "acme" ∷ [];
  group_id = none;
  gateway = none;
  inputs = [];
  outputs = [];
  position = null;
  semantic = none;
  type_text = none;
  node_type_id = none;
  label = "Milling";
  responsible_partner = none;
  config = none;
}

abbrev partners : String → Option Partner
partners id = some (record { id = id; name = "Acme" })

abbrev iterations : String → Option ScopedIteration
iterations id = some (record { owner_partner_id = "other"; nodes = milling ∷ [] })

abbrev ann : User
ann = record { role = operator; partner_id = some "acme" }

abbrev to_node : Route
to_node = record { iteration_id = some "it1"; node_id = some "mill" }

can_activate-IsEntitled_example :
    (ann.role ≡ superadmin) ⊎ IsEntitled partners iterations ann "it1" "mill"
can_activate-IsEntitled_example =
    can_activate-IsEntitled partners iterations ann to_node "it1" "mill" refl refl
      (unfold scope_guard in refl)
