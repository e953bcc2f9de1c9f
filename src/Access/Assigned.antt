-- ===== src/Access/Assigned.antt =====
-- What a member of a partner may act on.
use mathlib.Core.List.{Memᴰ}
use digital_thread.Shared.{
  String, ◌≡◌, refl, true, Bool-cases, inl, inr, Option, some, List, [], ◌∷◌, arith, eq_iff, ◌==◌,
  truthy, includes, ap, Option-cases, ◌⊎◌,
}
use digital_thread.Flow.{FlowNodeDef}
use digital_thread.Access.Roles.{Role, superadmin, owner, operator}
use digital_thread.Access.Scope.{
  User, Partner, ScopedIteration, Route, is_responsible, own_partner_node_ids, iteration_visible,
  partner_visible, bound_visible, can_activate,
}

-- A node of the iteration with the id, for which the partner is responsible.
pub record IsAssigned (p : Partner) (id : String) (it : ScopedIteration) : Type 0 where
  pub node : FlowNodeDef
  pub part : Memᴰ node it.nodes
  pub named : node.id ≡ id
  pub responsible : is_responsible p node ≡ true

pub includes-own_partner_node_ids :
    (p : Partner) (nodes : List FlowNodeDef) (id : String)
    → includes (own_partner_node_ids p nodes) id ≡ true
    → (n : FlowNodeDef) × Memᴰ n nodes × (n.id ≡ id) × (is_responsible p n ≡ true)
unfolding own_partner_node_ids
includes-own_partner_node_ids p [] id h = absurd (ground arith)
includes-own_partner_node_ids p (n ∷ ns) id h = elim (Bool-cases (is_responsible p n)) [
  | inl mine ↦ elim (Bool-cases (n.id == id)) [
    | inl here ↦ (n, Memᴰ.head refl, (eq_iff n.id id).0 here, mine)
    | inr other ↦
        let (m, part, named, responsible) = includes-own_partner_node_ids p ns id (ground arith) in
        (m, Memᴰ.tail part, named, responsible)
  ]
  | inr theirs ↦
      let (m, part, named, responsible) = includes-own_partner_node_ids p ns id (ground arith) in
      (m, Memᴰ.tail part, named, responsible)
]

pub own_partner_node_ids_has :
    (p : Partner) (nodes : List FlowNodeDef) (n : FlowNodeDef)
    → Memᴰ n nodes
    → is_responsible p n ≡ true
    → includes (own_partner_node_ids p nodes) n.id ≡ true
unfolding own_partner_node_ids
own_partner_node_ids_has p [] n m h = elim m [ ]
own_partner_node_ids_has p (x ∷ xs) n (Memᴰ.head e) h =
    ground (arith, ap (is_responsible p) e, ap (λ k. k.id) e, eq_iff x.id n.id)
own_partner_node_ids_has p (x ∷ xs) n (Memᴰ.tail m) h = elim (Bool-cases (is_responsible p x)) [
  | inl mine ↦ ground (arith, own_partner_node_ids_has p xs n m h)
  | inr theirs ↦ ground (arith, own_partner_node_ids_has p xs n m h)
]

module _ (find_partner : String → Option Partner)
    (find_iteration : String → Option ScopedIteration) where
  -- What lets a partner act on a node of an iteration.
  pub record IsEntitled (u : User) (it_id node_id : String) : Type 0 where
    pub partner_id : String
    pub member : u.partner_id ≡ some partner_id
    pub partner : Partner
    pub registered : find_partner partner_id ≡ some partner
    pub iteration : ScopedIteration
    pub found : find_iteration it_id ≡ some iteration
    pub assigned : IsAssigned partner node_id iteration

  bound_visible-IsEntitled :
      (u : User) (route : Route) (id node : String)
      → truthy route.iteration_id ≡ some id
      → truthy route.node_id ≡ some node
      → bound_visible find_partner find_iteration route u.partner_id ≡ true
      → IsEntitled u id node
  unfolding bound_visible partner_visible iteration_visible
  bound_visible-IsEntitled u route id node r n h = elim (Option-cases u.partner_id) [
    | inl e ↦ absurd (ground arith)
    | inr (pid, e) ↦ elim (Option-cases (find_partner pid)) [
      | inl f ↦ absurd (ground arith)
      | inr (p, f) ↦ elim (Option-cases (find_iteration id)) [
        | inl g ↦ absurd (ground arith)
        | inr (it, g) ↦
            let (m, part, named, responsible) =
              includes-own_partner_node_ids p it.nodes node (ground arith) in
            record {
              partner_id = pid;
              member = e;
              partner = p;
              registered = f;
              iteration = it;
              found = g;
              assigned = record { node = m; part = part; named = named; responsible = responsible };
            }
      ]
    ]
  ]

  -- Who is let through to a node of an iteration is a SUPERADMIN, or a member of a partner that is
  -- responsible for that node in the workflow of that iteration.
  pub can_activate-IsEntitled :
      (u : User) (route : Route) (id node : String)
      → truthy route.iteration_id ≡ some id
      → truthy route.node_id ≡ some node
      → can_activate find_partner find_iteration route (some u) ≡ true
      → (u.role ≡ superadmin) ⊎ IsEntitled u id node
  unfolding can_activate
  can_activate-IsEntitled u route id node r n h = by_role u.role refl
    where
      by_role : (x : Role) → u.role ≡ x → (u.role ≡ superadmin) ⊎ IsEntitled u id node
      by_role superadmin e = inl e
      by_role owner e = inr (bound_visible-IsEntitled u route id node r n (rw e at h))
      by_role operator e = inr (bound_visible-IsEntitled u route id node r n (rw e at h))
