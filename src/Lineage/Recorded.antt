-- ===== src/Lineage/Recorded.antt =====
-- Recording the edges of a node again makes no new ones.
use digital_thread.Shared.{
  ℕ, String, ◌≡◌, refl, ◌⊎◌, inl, inr, ap, sym, ◌∙◌, subst, Bool, true, false, ◌&&◌, Option, none,
  some, List, [], ◌∷◌, ◌++◌, map, arith, eq_refl, ◌==◌, any, any-append, includes, Bool-cases,
  Option-cases,
}
use mathlib.Core.List.{Memᴰ}
use digital_thread.Shared.Assoc.{values}
use digital_thread.Flow.{NodeInputStatusesMap}
use digital_thread.Engine.Store.{Column, absent, malformed, parsed, NodeState, find_state}
use digital_thread.Lineage.Edges.{
  RelationType, was_derived_from, was_generated_by, used, was_revision_of, LineageEdge, Archive,
  same_relation, clashes, insert_edge, upstream_files, downstream_files, derived_edge, link,
  link_all, pairs, record_edges_for_row, record_edges_for_node,
}

-- The same files, and no edge less.
record Extends (a b : Archive) : Type 0 where
  same_files : b.files ≡ a.files
  more : (g : LineageEdge → Bool) → any g a.edges ≡ true → any g b.edges ≡ true

Extends-refl : (a : Archive) → Extends a a
Extends-refl a = record { same_files = refl; more = λ g h. h }

Extends-trans : (a b c : Archive) → Extends a b → Extends b c → Extends a c
Extends-trans a b c p q = record {
  same_files = q.same_files ∙ p.same_files;
  more = λ g h. q.more g (p.more g h);
}

-- The answer of a call that makes no edge.
abbrev none_made : Archive → Option (Archive × ℕ)
none_made a = some (a, 0)

stored : Archive → LineageEdge → Bool
stored a e =
    includes (map (λ f. f.id) a.files) e.upstream && includes (map (λ f. f.id) a.files) e.downstream

same_relation_refl : (r : RelationType) → same_relation r r ≡ true
same_relation_refl was_derived_from = refl
same_relation_refl was_generated_by = refl
same_relation_refl used = refl
same_relation_refl was_revision_of = refl

clashes_self : (e : LineageEdge) → clashes e e ≡ true
clashes_self e =
    ground (arith, eq_refl e.upstream, eq_refl e.downstream, same_relation_refl e.relation_type)

insert_edge-Extends :
    (e : LineageEdge) (a b : Archive)
    → insert_edge e a ≡ some b
    → Extends a b × (any (clashes e) b.edges ≡ true)
unfolding insert_edge
insert_edge-Extends e a b h =
    let edges : b.edges ≡ a.edges ++ e ∷ [] = ground arith in
    let files : b.files ≡ a.files = ground arith in
    (
      record {
        same_files = files;
        more = λ g k. rw edges (any-append g a.edges (e ∷ []) ∙ ground arith);
      },
      rw edges (any-append (clashes e) a.edges (e ∷ []) ∙ ground (arith, clashes_self e)),
    )

module _ (new_id : String → String → String) (info : String) where
  abbrev edge_for : String × String → LineageEdge
  edge_for p = derived_edge new_id info p.0 p.1

  -- A pair of one file, an edge that is there, or a file that is not.
  IsSettled : Archive → String × String → Type 0
  IsSettled a p =
      (p.0 == p.1) ≡ false
      → any (clashes (edge_for p)) a.edges ≡ true ⊎ (stored a (edge_for p) ≡ false)

  IsSettled-Extends :
      (a b : Archive) (p : String × String) → Extends a b → IsSettled a p → IsSettled b p
  unfolding IsSettled stored
  IsSettled-Extends a b p x h ne = elim (h ne) [
    | inl there ↦ inl (x.more (clashes (edge_for p)) there)
    | inr gone ↦ inr (rw x.same_files gone)
  ]

  link-IsSettled :
      (p : String × String) (a : Archive) → IsSettled a p → link new_id info p.0 p.1 a ≡ (a, 0)
  unfolding link insert_edge IsSettled stored
  link-IsSettled p a h = elim (Bool-cases (p.0 == p.1)) [
    | inl same ↦ rw (same, link) refl
    | inr other ↦ elim (h other) [ inl there ↦ ground arith | inr gone ↦ ground arith ]
  ]

  refused :
      (p : String × String) (a : Archive)
      → insert_edge (edge_for p) a ≡ none
      → any (clashes (edge_for p)) a.edges ≡ true ⊎ (stored a (edge_for p) ≡ false)
  unfolding insert_edge stored
  refused p a e = elim (Bool-cases (any (clashes (edge_for p)) a.edges)) [
    | inl there ↦ inl there
    | inr new ↦ inr (ground arith)
  ]

  link_step :
      (p : String × String) (a : Archive)
      → Extends a (link new_id info p.0 p.1 a).0 × IsSettled (link new_id info p.0 p.1 a).0 p
  unfolding link IsSettled stored
  link_step p a = elim (Bool-cases (p.0 == p.1)) [
    | inl same ↦ rw (same, link) (Extends-refl a, λ ne. cc)
    | inr other ↦ elim (Option-cases (insert_edge (edge_for p) a)) [
      | inl e ↦ rw (other, e, link) (Extends-refl a, λ ne. refused p a e)
      | inr (b, e) ↦
          let (x, there) = insert_edge-Extends (edge_for p) a b e in
          rw (other, e, link) (x, λ ne. inl there)
    ]
  ]

  link_all_step :
      (ps : List (String × String)) (a : Archive)
      → Extends a (link_all new_id info ps a).0
        × ((p : String × String) → Memᴰ p ps → IsSettled (link_all new_id info ps a).0 p)
  unfolding link_all
  link_all_step [] a = (Extends-refl a, λ p m. elim m [ ])
  link_all_step (q ∷ ps) a =
      let b = (link new_id info q.0 q.1 a).0 in
      let (x, first) = link_step q a in
      let (y, rest) = link_all_step ps b in
      (Extends-trans a b _ x y, λ p m. settled p (link_all new_id info ps b).0 b first y rest m)
    where
      settled :
          (p : String × String) (c b : Archive)
          → IsSettled b q
          → Extends b c
          → ((p : String × String) → Memᴰ p ps → IsSettled c p)
          → Memᴰ p (q ∷ ps)
          → IsSettled c p
      settled p c b first y rest (Memᴰ.head e) =
          subst (IsSettled c) (sym e) (IsSettled-Extends b c q y first)
      settled p c b first y rest (Memᴰ.tail m) = rest p m

  link_all-IsSettled :
      (ps : List (String × String)) (a : Archive)
      → ((p : String × String) → Memᴰ p ps → IsSettled a p)
      → link_all new_id info ps a ≡ (a, 0)
  unfolding link_all
  link_all-IsSettled [] a h = refl
  link_all-IsSettled (q ∷ ps) a h = ground (
    arith,
    link-IsSettled q a (h q (Memᴰ.head refl)),
    link_all-IsSettled ps a (λ p m. h p (Memᴰ.tail m)),
  )

module _ (new_id : String → String → String) (transform : NodeState → String) where
  -- The pairs of files that completing a node links.
  abbrev pub node_pairs :
      String → NodeState → NodeInputStatusesMap → Archive → List (String × String)
  node_pairs iteration s inputs a =
      pairs (upstream_files (values inputs) a.files) (downstream_files iteration s.node_id a.files)

  record_edges_for_row_again :
      (iteration : String) (s : NodeState) (a b : Archive) (n : ℕ)
      → record_edges_for_row new_id transform iteration s a ≡ some (b, n)
      → Extends a b × (record_edges_for_row new_id transform iteration s b ≡ some (b, 0))
  unfolding record_edges_for_row
  record_edges_for_row_again iteration s a b n h = by_column s.input_file_statuses refl h
    where
      by_column :
          (c : Column NodeInputStatusesMap)
          → s.input_file_statuses ≡ c
          → record_edges_for_row new_id transform iteration s a ≡ some (b, n)
          → Extends a b × (record_edges_for_row new_id transform iteration s b ≡ some (b, 0))
      by_column malformed e h = absurd (ground arith)
      by_column absent e h =
          let same : b ≡ a = ground arith in
          rw (same, e, record_edges_for_row) (Extends-refl a, ap none_made same)
      by_column (parsed inputs) e h =
          let ps = node_pairs iteration s inputs a in
          let (x, settled) = link_all_step new_id (transform s) ps a in
          let same : (link_all new_id (transform s) ps a).0 ≡ b = ground arith in
          let files = (rw same at x).same_files in
          (
            rw same at x,
            rw (e, record_edges_for_row)
                (ap (λ (qs : List (String × String)). some (link_all new_id (transform s) qs b))
                    (ap
                      (λ fs.
                        pairs (upstream_files (values inputs) fs)
                          (downstream_files iteration s.node_id fs))
                      files)
                  ∙ ap some (
                      link_all-IsSettled new_id (transform s) ps b
                        (λ p m. rw same at (settled p m)))),
          )

  -- Recording the edges of a node keeps all files and edges, and recording them once more makes no
  -- edge and changes nothing.
  pub record_edges_for_node_again :
      (iteration node : String) (states : List NodeState) (a b : Archive) (n : ℕ)
      → record_edges_for_node new_id transform iteration node states a ≡ some (b, n)
      → (b.files ≡ a.files)
        × ((g : LineageEdge → Bool) → any g a.edges ≡ true → any g b.edges ≡ true)
        × (record_edges_for_node new_id transform iteration node states b ≡ some (b, 0))
  unfolding record_edges_for_node
  record_edges_for_node_again iteration node states a b n h =
      elim (Option-cases (find_state node states)) [
        | inl e ↦
            let same : b ≡ a = ground arith in
            rw (same, e, record_edges_for_node) (refl, λ g k. k, ap none_made same)
        | inr (s, e) ↦
            let (x, again) =
              record_edges_for_row_again iteration s a b n (rw (e, record_edges_for_node) at h) in
            rw (e, record_edges_for_node) (x.same_files, x.more, again)
      ]
