-- ===== src/Files/Readers.antt =====
-- Exactly who may read a file.
use digital_thread.Shared.{
  ℕ, String, ◌≡◌, refl, ◌≢◌, ◌↔◌, ◌⊎◌, inl, inr, ap, sym, ◌∙◌, true, false, ◌&&◌, ◌||◌, Option,
  none, some, List, arith, eq_iff, ◌≤◌, ltb, get_or, is_some, truthy, any, any-Memᴰ, any_at,
  Bool-cases, Option-cases,
}
use mathlib.Core.List.{Memᴰ}
use digital_thread.Flow.{FlowNodeDef, InputSource, manual, predecessor, datasource, NodeInputDef}
use digital_thread.Access.Roles.{operator}
use digital_thread.Access.Scope.{Partner, is_responsible}
use digital_thread.Access.Assigned.{includes-own_partner_node_ids, own_partner_node_ids_has}
use digital_thread.Files.Tables.{Desk, has_active_grant}
use digital_thread.Files.Readable.{
  StoredFile, Requester, rank_of, takes, from_own_node, to_own_node, partner_may_read,
  operator_may_read, assert_readable, can_read,
}

-- The file comes from a node that the partner is responsible for.
abbrev pub IsProduced : Partner → List FlowNodeDef → StoredFile → Type 0
IsProduced p nodes f =
    (n : FlowNodeDef) × Memᴰ n nodes
    × (is_responsible p n ≡ true)
    × (f.node_source_id ≡ some n.id)
    × (n.id ≢ "")

-- A node that the partner is responsible for has an input bound to the output that holds the file.
abbrev pub IsConsumed : Partner → List FlowNodeDef → StoredFile → Type 0
IsConsumed p nodes f =
    (n : FlowNodeDef) × (i : NodeInputDef) × Memᴰ n nodes
    × Memᴰ i n.inputs
    × (is_responsible p n ≡ true)
    × ((node : String) × (i.source ≡ predecessor node (get_or f.node_output_id "default"))
        × (f.node_source_id ≡ some node))

takes_lem :
    (f : StoredFile) (i : NodeInputDef)
    → (takes f i ≡ true) ↔ (
        (node : String) × (i.source ≡ predecessor node (get_or f.node_output_id "default"))
        × (f.node_source_id ≡ some node))
unfolding takes
takes_lem f i = (
  λ h. there i.source refl h,
  λ (node, e, k). ground (
    arith,
    eq_iff node node,
    eq_iff (get_or f.node_output_id "default") (get_or f.node_output_id "default"),
  ),
)
  where
    there :
        (s : InputSource)
        → i.source ≡ s
        → takes f i ≡ true
        → (node : String) × (i.source ≡ predecessor node (get_or f.node_output_id "default"))
          × (f.node_source_id ≡ some node)
    there manual e h = absurd (ground arith)
    there (datasource d q) e h = absurd (ground arith)
    there (predecessor node output) e h = elim (Option-cases f.node_source_id) [
      | inl k ↦ absurd (ground arith)
      | inr (src, k) ↦ (
        node,
        ground (arith, eq_iff src node, eq_iff output (get_or f.node_output_id "default")),
        ground (arith, eq_iff src node),
      )
    ]

truthy-some : (o : Option String) (s : String) → truthy o ≡ some s → (o ≡ some s) × (s ≢ "")
truthy-some o s h = ground (arith, eq_iff s "")

some-truthy : (o : Option String) (s : String) → o ≡ some s → s ≢ "" → truthy o ≡ some s
some-truthy o s h k = ground (arith, eq_iff s "")

from_own_node_lem :
    (p : Partner) (nodes : List FlowNodeDef) (f : StoredFile)
    → (from_own_node p nodes f ≡ true) ↔ IsProduced p nodes f
unfolding from_own_node
from_own_node_lem p nodes f = (
  λ h. elim (Option-cases (truthy f.node_source_id)) [
    | inl e ↦ absurd (ground arith)
    | inr (s, e) ↦
        let (n, m, k, r) = includes-own_partner_node_ids p nodes s (ground arith) in
        let (at, ne) = truthy-some f.node_source_id s e in
        (n, m, r, at ∙ ap some (sym k), λ z. ne (sym k ∙ z))
  ],
  λ (n, m, r, e, ne).
      rw (some-truthy f.node_source_id n.id e ne, from_own_node)
        (own_partner_node_ids_has p nodes n m r),
)

to_own_node_lem :
    (p : Partner) (nodes : List FlowNodeDef) (f : StoredFile)
    → (to_own_node p nodes f ≡ true) ↔ IsConsumed p nodes f
unfolding to_own_node
to_own_node_lem p nodes f = (
  λ h.
      let (n, m, k) = any-Memᴰ (λ n. is_responsible p n && any (takes f) n.inputs) nodes h in
      let (i, j, t) = any-Memᴰ (takes f) n.inputs (ground arith) in
      (n, i, m, j, ground arith, (takes_lem f i).0 t),
  λ (n, i, m, j, r, t).
      any_at (λ n. is_responsible p n && any (takes f) n.inputs) m
        (ground (arith, any_at (takes f) j ((takes_lem f i).1 t))),
)

module _ (find_partner : String → Option Partner)
    (find_iteration : String → Option (List FlowNodeDef)) where
  -- The file is the partner's own upload, or belongs to an iteration in which the partner produces it
  -- or takes it as an input.
  abbrev pub IsInScope : String → StoredFile → Type 0
  IsInScope partner f =
      ((truthy f.iteration_id ≡ none) × (truthy f.partner_id ≡ some partner))
      ⊎ ((it : String) × (nodes : List FlowNodeDef) × (p : Partner) × (truthy f.iteration_id
            ≡ some it)
          × (find_iteration it ≡ some nodes)
          × (find_partner partner ≡ some p)
          × (IsProduced p nodes f ⊎ IsConsumed p nodes f))

  partner_may_read-IsInScope :
      (partner : String) (f : StoredFile)
      → partner_may_read find_partner find_iteration partner f ≡ true
      → IsInScope partner f
  unfolding partner_may_read
  partner_may_read-IsInScope partner f h = elim (Option-cases (truthy f.iteration_id)) [
    | inl e ↦ inl (e, raw e)
    | inr (it, e) ↦ elim (Option-cases (find_iteration it)) [
      | inl k ↦ absurd (ground arith)
      | inr (nodes, k) ↦ elim (Option-cases (find_partner partner)) [
        | inl g ↦ absurd (ground arith)
        | inr (p, g) ↦ inr (it, nodes, p, e, k, g, side p nodes (ground arith))
      ]
    ]
  ]
    where
      raw : truthy f.iteration_id ≡ none → truthy f.partner_id ≡ some partner
      raw e = elim (Option-cases (truthy f.partner_id)) [
        | inl k ↦ absurd (ground arith)
        | inr (p, k) ↦ ground (arith, eq_iff p partner)
      ]

      side :
          (p : Partner) (nodes : List FlowNodeDef)
          → (from_own_node p nodes f || to_own_node p nodes f) ≡ true
          → IsProduced p nodes f ⊎ IsConsumed p nodes f
      side p nodes t = elim (Bool-cases (from_own_node p nodes f)) [
        | inl a ↦ inl ((from_own_node_lem p nodes f).0 a)
        | inr a ↦ inr ((to_own_node_lem p nodes f).0 (ground arith))
      ]

  IsInScope-partner_may_read :
      (partner : String) (f : StoredFile)
      → IsInScope partner f
      → partner_may_read find_partner find_iteration partner f ≡ true
  unfolding partner_may_read
  IsInScope-partner_may_read partner f (inl (e, k)) = ground (arith, eq_iff partner partner)
  IsInScope-partner_may_read partner f (inr (it, nodes, p, e, k, g, inl a)) =
      ground (arith, (from_own_node_lem p nodes f).1 a)
  IsInScope-partner_may_read partner f (inr (it, nodes, p, e, k, g, inr b)) =
      ground (arith, (to_own_node_lem p nodes f).1 b)

  -- An OPERATOR reads a file exactly with an active grant for it, or where its level is PUBLIC or
  -- INTERNAL (as which an unknown level counts), or where it is PARTNER (as which a key of every
  -- JavaScript object counts) and in the scope of the operator's partner. A file of a higher level is read by a grant only.
  pub can_read_operator :
      (now : ℕ) (d : Desk) (u : Requester) (f : StoredFile)
      → u.role ≡ operator
      → (can_read find_partner find_iteration now d u f ≡ true) ↔ (
          ((u.id ≢ "") × (has_active_grant now f.id u.id d ≡ true))
          ⊎ ((rank_of f ≤ 1)
              ⊎ ((rank_of f ≡ 2)
                  × ((partner : String) × (truthy u.partner_id ≡ some partner)
                      × IsInScope partner f))))
  unfolding can_read assert_readable operator_may_read
  can_read_operator now d u f role = (
    λ h. elim (Bool-cases (is_some (truthy (some u.id)) && has_active_grant now f.id u.id d)) [
      | inl e ↦ inl (ground (arith, eq_iff u.id ""), ground arith)
      | inr e ↦ inr (by_rank e h)
    ],
    λ r. elim r [
      | inl (e, k) ↦ ground (arith, eq_iff u.id "")
      | inr (inl e) ↦ ground arith
      | inr (inr (e, (partner, k, s))) ↦ ground (arith, IsInScope-partner_may_read partner f s)
    ],
  )
    where
      by_rank :
          (is_some (truthy (some u.id)) && has_active_grant now f.id u.id d) ≡ false
          → can_read find_partner find_iteration now d u f ≡ true
          → (rank_of f ≤ 1)
            ⊎ ((rank_of f ≡ 2)
                × ((partner : String) × (truthy u.partner_id ≡ some partner) × IsInScope partner f))
      by_rank e h = elim (Bool-cases (ltb (rank_of f) 2)) [
        | inl low ↦ inl (ground arith)
        | inr high ↦ elim (Option-cases (truthy u.partner_id)) [
          | inl k ↦ absurd (ground arith)
          | inr (partner, k) ↦
              inr (ground arith, (partner, k, partner_may_read-IsInScope partner f (ground arith)))
        ]
      ]
