-- ===== src/Iterations/Attached.antt =====
-- A file that is attached to an output of a node is listed under that output.
use digital_thread.Shared.{
  String, ◌≡◌, refl, inl, inr, ap, sym, ◌∙◌, subst, Bool, true, Option, some, List, [], ◌∷◌, ◌++◌,
  arith, eq_iff, eq_refl, ◌==◌, get_or, is_some, truthy, find, includes, includes-append,
  includes-unique, unique, update_first, Bool-cases, Option-cases,
}
use digital_thread.Shared.Assoc.{lookup, insert, values, lookup-insert}
use digital_thread.Flow.{many, NodeOutputsMap}
use digital_thread.Engine.Store.{NodeState, ok, find_state, modify_state}
use digital_thread.Engine.Status.{outputs_of, put_outputs, add_output, add_timeline_event}
use digital_thread.Engine.Rows.{find_state-modify_state}
use digital_thread.Iterations.Shown.{ids, only_in, IsListed, files_by_slot-IsListed}
use digital_thread.Iterations.Files.{
  FileRecord, Workbench, slot_or_default, adopted, adopt, agent_for, linked_by, no_agent, attribute,
  put_file, attach, attach_existing_output,
}
use digital_thread.Iterations.Listings.{flat, files_by_slot}

includes-flat :
    (x slot : String) (fs : List String) (m : NodeOutputsMap)
    → lookup slot m ≡ some fs
    → includes fs x ≡ true
    → includes (flat (values m)) x ≡ true
unfolding lookup flat
includes-flat x slot fs [] h k = absurd (ground arith)
includes-flat x slot fs (e ∷ m) h k = elim (Bool-cases (e.0 == slot)) [
  | inl same ↦ ground (arith, includes-append e.1 (flat (values m)) x)
  | inr other ↦ ground (arith, includes-append e.1 (flat (values m)) x, includes-flat x slot fs m)
]

only_in-insert :
    (slot x : String) (fs : List String) (m : NodeOutputsMap)
    → only_in slot x m ≡ true
    → only_in slot x (insert slot fs m) ≡ true
unfolding insert
only_in-insert slot x fs [] h = ground (arith, eq_refl slot)
only_in-insert slot x fs (e ∷ m) h = ground (arith, only_in-insert slot x fs m)

add_output-only_in :
    (slot x : String) (m : NodeOutputsMap)
    → only_in slot x m ≡ true
    → (only_in slot x (add_output many slot x m) ≡ true)
      × (includes (flat (values (add_output many slot x m))) x ≡ true)
unfolding add_output
add_output-only_in slot x m h =
    let before = get_or (lookup slot m) [] in
    let fs = unique (before ++ x ∷ []) in
    (
      only_in-insert slot x fs m h,
      includes-flat x slot fs (insert slot fs m)
          (lookup-insert slot slot fs m ∙ rw (eq_refl slot) refl)
          (includes-unique (before ++ x ∷ []) x
            ∙ ground (arith, includes-append before (x ∷ []) x, eq_refl x)),
    )

ids-update_first :
    (p : FileRecord → Bool) (f : FileRecord → FileRecord) (fs : List FileRecord)
    → ((g : FileRecord) → (f g).id ≡ g.id)
    → ids (update_first p f fs) ≡ ids fs
ids-update_first p f [] keep = refl
ids-update_first p f (g ∷ fs) keep = elim (Bool-cases (p g)) [
  | inl e ↦ rw (e, keep g) refl
  | inr e ↦ rw (e, ids-update_first p f fs keep) refl
]

ids-adopt :
    (iteration id slot : String) (f : FileRecord) (fs : List FileRecord)
    → ids (adopt iteration id slot f fs) ≡ ids fs
unfolding adopt
ids-adopt iteration id slot f fs = elim (Bool-cases (is_some (truthy f.iteration_id))) [
  | inl e ↦ rw (e, adopt) refl
  | inr e ↦
      rw (e, adopt)
        (ids-update_first (λ g. g.id == f.id) (adopted iteration id slot) fs (λ g. refl))
]

includes-find :
    (x : String) (fs : List FileRecord) (f : FileRecord)
    → find (λ g. g.id == x) fs ≡ some f
    → (f.id ≡ x) × (includes (ids fs) x ≡ true)
includes-find x [] f h = absurd (ground arith)
includes-find x (g ∷ fs) f h = elim (Bool-cases (g.id == x)) [
  | inl e ↦
      let same : g ≡ f = ground arith in
      (ap (λ k. k.id) (sym same) ∙ (eq_iff g.id x).0 e, ground arith)
  | inr e ↦ let (k, m) = includes-find x fs f (ground arith) in (k, ground arith)
]

-- Attributing a row to a user keeps all outputs and files.
attribute_keeps :
    (new_id label : String) (email : Option String) (id : String) (s : NodeState) (w : Workbench)
    → (outputs_of (find_state id (attribute new_id label email id s w).run.states)
        ≡ outputs_of (find_state id w.run.states))
      × ((attribute new_id label email id s w).files ≡ w.files)
unfolding attribute
attribute_keeps new_id label email id s w = elim (Option-cases (truthy email)) [
  | inl e ↦ rw (e, attribute) (refl, refl)
  | inr (name, e) ↦ elim (Bool-cases (no_agent s)) [
    | inr k ↦ rw (e, attribute, k) (refl, refl)
    | inl k ↦ rw (e, attribute, k) (kept (agent_for new_id name w.agents).0, refl)
  ]
]
  where
    kept :
        (agent : String)
        → outputs_of (find_state id (modify_state id (linked_by agent label) w.run.states))
          ≡ outputs_of (find_state id w.run.states)
    kept agent = elim (Option-cases (find_state id w.run.states)) [
      | inl e ↦
          ground
            (arith, find_state-modify_state id id (linked_by agent label) w.run.states (λ s. refl))
      | inr (t, e) ↦
          ground
            (arith, find_state-modify_state id id (linked_by agent label) w.run.states (λ s. refl))
    ]

module _ (new_id label detail iteration id slot : String) (f : FileRecord) (email : Option String)
    (s : NodeState) (w : Workbench) (row : find_state id w.run.states ≡ some s) where
  abbrev after : Workbench
  after = attach new_id label detail iteration id slot f email s w

  attach_outputs :
      outputs_of (find_state id after.run.states)
      ≡ add_output many slot f.id (outputs_of (find_state id w.run.states))
  unfolding attach add_timeline_event put_file
  attach_outputs =
      let linked : Workbench = record w {
        run = put_file id slot f.id w.run;
        files = adopt iteration id slot f w.files;
      } in
      let fill =
        put_outputs (add_output many slot f.id (outputs_of (find_state id w.run.states))) in
      (attribute_keeps new_id label email id s linked).0
      ∙ (ap outputs_of (find_state-modify_state id id fill w.run.states (λ t. refl))
          ∙ rw (eq_refl id, row) refl)

  attach_ids : ids after.files ≡ ids w.files
  unfolding attach
  attach_ids =
      let linked : Workbench = record w {
        run = put_file id slot f.id w.run;
        files = adopt iteration id slot f w.files;
      } in
      ap ids (attribute_keeps new_id label email id s linked).1
      ∙ ids-adopt iteration id slot f w.files

  attach-IsListed :
      only_in slot f.id (outputs_of (find_state id w.run.states)) ≡ true
      → includes (ids w.files) f.id ≡ true
      → IsListed slot f.id (files_by_slot iteration id after)
  attach-IsListed only stored =
      let (alone, there) =
        add_output-only_in slot f.id (outputs_of (find_state id w.run.states)) only in
      files_by_slot-IsListed iteration id slot f.id after
        (ap (λ (m : NodeOutputsMap). includes (flat (values m)) f.id) attach_outputs ∙ there)
        (ap (λ (m : NodeOutputsMap). only_in slot f.id m) attach_outputs ∙ alone)
        (ap (λ (l : List String). includes l f.id) attach_ids ∙ stored)

-- A stored file that is attached to an output is listed under it, also when it belongs to another
-- iteration, and no stored file gets lost. The condition is that the file stands in no other output of
-- the node, since a file is listed under one output only.
pub files_by_slot-attach_existing_output :
    (new_id label detail iteration id output file : String) (email : Option String)
    (w w' : Workbench) (row : Option NodeState)
    → attach_existing_output new_id label detail iteration id output file email w ≡ (ok row, w')
    → only_in (slot_or_default output) file (outputs_of (find_state id w.run.states)) ≡ true
    → IsListed (slot_or_default output) file (files_by_slot iteration id w')
      × (ids w'.files ≡ ids w.files)
unfolding attach_existing_output
files_by_slot-attach_existing_output new_id label detail iteration id output file email w w' row h
      only =
    elim (Option-cases (find (λ f. f.id == file) w.files)) [
      | inl e ↦ absurd (ground arith)
      | inr (f, e) ↦ elim (Option-cases (find_state id w.run.states)) [
        | inl k ↦ absurd (ground arith)
        | inr (s, k) ↦
            let slot = slot_or_default output in
            let (same, stored) = includes-find file w.files f e in
            let end : attach new_id label detail iteration id slot f email s w ≡ w' =
              ground arith in
            rw (← end) (
              subst
                  (λ (x : String). IsListed slot x (
                    files_by_slot iteration id
                      (attach new_id label detail iteration id slot f email s w)))
                  same
                  (attach-IsListed new_id label detail iteration id slot f email s w k
                    (rw (← same) at only) (rw (← same) at stored)),
              attach_ids new_id label detail iteration id slot f email s w k,
            )
      ]
    ]
