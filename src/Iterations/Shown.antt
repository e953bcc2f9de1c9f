-- ===== src/Iterations/Shown.antt =====
-- A file that is attached to an output is listed under it.
use digital_thread.Shared.{
  String, ◌≡◌, refl, inl, inr, ap, ◌∙◌, Bool, true, not, ◌&&◌, ◌||◌, some, List, [], ◌∷◌, ◌++◌, map,
  arith, eq_iff, eq_refl, ◌==◌, if◌then◌else◌, get_or, is_some, all, filter, includes,
  includes-append, includes-unique, unique, Bool-cases,
}
use digital_thread.Shared.Assoc.{lookup, insert, values, lookup-insert}
use digital_thread.Flow.{NodeOutputsMap}
use digital_thread.Engine.Store.{find_state}
use digital_thread.Engine.Status.{outputs_of}
use digital_thread.Iterations.Files.{FileRecord, Workbench}
use digital_thread.Iterations.Listings.{
  flat, note_slot, slots_by_file, same_key, by_id, shown_files, slot_of, FilesBySlot, group_by_slot,
  place, newest_first, sorted_slots, files_by_slot,
}

-- The ids of files.
abbrev pub ids : List FileRecord → List String
ids fs = map (λ f. f.id) fs

-- A table whose entries stand under their own ids.
abbrev keyed : List (String × FileRecord) → Bool
keyed m = all (λ e. e.1.id == e.0) m

keyed-insert :
    (f : FileRecord) (m : List (String × FileRecord))
    → keyed m ≡ true
    → keyed (insert f.id f m) ≡ true
unfolding insert
keyed-insert f [] h = ground (arith, eq_refl f.id)
keyed-insert f (e ∷ m) h = ground (arith, keyed-insert f m, eq_iff e.0 f.id, eq_iff f.id e.0)

includes-values :
    (x : String) (m : List (String × FileRecord))
    → keyed m ≡ true
    → is_some (lookup x m) ≡ true
    → includes (ids (values m)) x ≡ true
unfolding lookup
includes-values x [] h k = cc
includes-values x (e ∷ m) h k =
    ground (arith, includes-values x m, eq_iff e.0 x, eq_iff e.1.id e.0, eq_iff e.1.id x)

by_id_has :
    (x : String) (fs : List FileRecord) (m : List (String × FileRecord))
    → keyed m ≡ true
    → (is_some (lookup x m) || includes (ids fs) x) ≡ true
    → includes (ids (values (by_id fs m))) x ≡ true
unfolding by_id
by_id_has x [] m h k = includes-values x m h (ground arith)
by_id_has x (f ∷ fs) m h k =
    by_id_has x fs (insert f.id f m) (keyed-insert f m h) (ground (arith, lookup-insert f.id x f m))

includes-filter :
    (ref : List String) (x : String) (fs : List FileRecord)
    → includes ref x ≡ true
    → includes (ids fs) x ≡ true
    → includes (ids (filter (λ f. includes ref f.id) fs)) x ≡ true
includes-filter ref x [] h k = cc
includes-filter ref x (f ∷ fs) h k = elim (Bool-cases (f.id == x)) [
  | inl same ↦ ground (arith, (eq_iff f.id x).0 same)
  | inr other ↦ ground (arith, includes-filter ref x fs)
]

map-append_ids : (xs ys : List FileRecord) → ids (xs ++ ys) ≡ ids xs ++ ids ys
map-append_ids [] ys = refl
map-append_ids (x ∷ xs) ys = ap (λ t. x.id ∷ t) (map-append_ids xs ys)

-- A referenced file is shown.
shown_files_has :
    (iteration id x : String) (ref : List String) (fs : List FileRecord)
    → includes ref x ≡ true
    → includes (ids fs) x ≡ true
    → includes (ids (shown_files iteration id ref fs)) x ≡ true
unfolding shown_files
shown_files_has iteration id x ref fs h k =
    let direct =
      filter (λ (f : FileRecord). same_key f.iteration_id iteration && same_key f.node_source_id id)
        fs in
    let referenced = filter (λ (f : FileRecord). includes ref f.id) fs in
    by_id_has x (direct ++ referenced) [] refl (
      rw (map-append_ids direct referenced) (
        ground
          (arith, includes-append (ids direct) (ids referenced) x, includes-filter ref x fs h k)))

lookup-note_slot :
    (slot x : String) (fs : List String) (m : List (String × String))
    → lookup x (note_slot slot fs m) ≡ (if includes fs x then some slot else lookup x m)
unfolding note_slot
lookup-note_slot slot x [] m = refl
lookup-note_slot slot x (f ∷ fs) m =
    lookup-note_slot slot x fs (insert f slot m) ∙ ground (arith, lookup-insert f x slot m)

-- The file stands in no other slot.
abbrev pub only_in : String → String → NodeOutputsMap → Bool
only_in slot x outputs = all (λ e. e.0 == slot || not (includes e.1 x)) outputs

lookup-slots_by_file :
    (slot x : String) (es : NodeOutputsMap) (m : List (String × String))
    → only_in slot x es ≡ true
    → lookup x (slots_by_file es m)
      ≡ (if includes (flat (values es)) x then some slot else lookup x m)
unfolding slots_by_file flat
lookup-slots_by_file slot x [] m h = refl
lookup-slots_by_file slot x (e ∷ es) m h =
    lookup-slots_by_file slot x es (note_slot e.0 e.1 m) (ground arith)
    ∙ ground (
      arith,
      lookup-note_slot e.0 x e.1 m,
      includes-append e.1 (flat (values es)) x,
      eq_iff e.0 slot,
    )

-- A slot that shows the file.
abbrev pub IsListed : String → String → FilesBySlot → Type 0
IsListed slot x m =
    (fs : List FileRecord) × (lookup slot m ≡ some fs) × (includes (ids fs) x ≡ true)

IsListed-insert :
    (slot s x : String) (f : FileRecord) (m : FilesBySlot)
    → IsListed slot x m
    → IsListed slot x (insert s (get_or (lookup s m) [] ++ f ∷ []) m)
IsListed-insert slot s x f m (fs, at, has) = elim (Bool-cases (s == slot)) [
  | inl same ↦
      let e : s ≡ slot = (eq_iff s slot).0 same in
      (
        fs ++ f ∷ [],
        lookup-insert s slot (get_or (lookup s m) [] ++ f ∷ []) m ∙ rw (same, e, at) refl,
        rw (map-append_ids fs (f ∷ [])) (ground (arith, includes-append (ids fs) (f.id ∷ []) x)),
      )
  | inr other ↦
      (fs, lookup-insert s slot (get_or (lookup s m) [] ++ f ∷ []) m ∙ rw (other, at) refl, has)
]

insert-IsListed :
    (slot x : String) (f : FileRecord) (m : FilesBySlot)
    → f.id ≡ x
    → IsListed slot x (insert slot (get_or (lookup slot m) [] ++ f ∷ []) m)
insert-IsListed slot x f m e =
    let fs = get_or (lookup slot m) [] in
    (
      fs ++ f ∷ [],
      lookup-insert slot slot (fs ++ f ∷ []) m ∙ rw (eq_refl slot) refl,
      rw (map-append_ids fs (f ∷ []))
          (ground (arith, includes-append (ids fs) (f.id ∷ []) x, eq_iff f.id x)),
    )

group_by_slot_keeps :
    (slots : List (String × String)) (slot x : String) (fs : List FileRecord) (m : FilesBySlot)
    → IsListed slot x m
    → IsListed slot x (group_by_slot slots fs m)
unfolding group_by_slot
group_by_slot_keeps slots slot x [] m h = h
group_by_slot_keeps slots slot x (f ∷ fs) m h =
    group_by_slot_keeps slots slot x fs _ (IsListed-insert slot (slot_of slots f) x f m h)

slot_of_known :
    (slots : List (String × String)) (slot : String) (f : FileRecord)
    → lookup f.id slots ≡ some slot
    → slot_of slots f ≡ slot
slot_of_known slots slot f h = rw h refl

group_by_slot-IsListed :
    (slots : List (String × String)) (slot x : String) (fs : List FileRecord) (m : FilesBySlot)
    → lookup x slots ≡ some slot
    → includes (ids fs) x ≡ true
    → IsListed slot x (group_by_slot slots fs m)
unfolding group_by_slot
group_by_slot-IsListed slots slot x [] m h k = absurd (ground arith)
group_by_slot-IsListed slots slot x (f ∷ fs) m h k = elim (Bool-cases (f.id == x)) [
  | inl same ↦
      let e : f.id ≡ x = (eq_iff f.id x).0 same in
      group_by_slot_keeps slots slot x fs _ (
        rw (slot_of_known slots slot f (ap (λ i. lookup i slots) e ∙ h))
          (insert-IsListed slot x f m e))
  | inr other ↦ group_by_slot-IsListed slots slot x fs _ h (ground arith)
]

includes-place :
    (x : String) (f : FileRecord) (fs : List FileRecord)
    → includes (ids (place f fs)) x ≡ (f.id == x || includes (ids fs) x)
unfolding place
includes-place x f [] = refl
includes-place x f (g ∷ fs) = ground (arith, includes-place x f fs)

includes-newest_first :
    (x : String) (fs : List FileRecord) → includes (ids (newest_first fs)) x ≡ includes (ids fs) x
unfolding newest_first
includes-newest_first x [] = refl
includes-newest_first x (f ∷ fs) =
    ground (arith, includes-place x f (newest_first fs), includes-newest_first x fs)

sorted_slots-IsListed :
    (slot x : String) (m : FilesBySlot) → IsListed slot x m → IsListed slot x (sorted_slots m)
unfolding sorted_slots lookup
sorted_slots-IsListed slot x [] (fs, at, has) = absurd (ground arith)
sorted_slots-IsListed slot x (e ∷ m) (fs, at, has) = elim (Bool-cases (e.0 == slot)) [
  | inl same ↦
      let here : e.1 ≡ fs = ground arith in
      (newest_first e.1, ground arith, includes-newest_first x e.1 ∙ rw here has)
  | inr other ↦
      let (gs, there, found) = sorted_slots-IsListed slot x m (fs, ground arith, has) in
      (gs, ground arith, found)
]

-- A file that stands in one slot only, and is stored, is listed there.
pub files_by_slot-IsListed :
    (iteration id slot x : String) (w : Workbench)
    → includes (flat (values (outputs_of (find_state id w.run.states)))) x ≡ true
    → only_in slot x (outputs_of (find_state id w.run.states)) ≡ true
    → includes (ids w.files) x ≡ true
    → IsListed slot x (files_by_slot iteration id w)
unfolding files_by_slot
files_by_slot-IsListed iteration id slot x w h only stored =
    let outputs = outputs_of (find_state id w.run.states) in
    let ref = unique (flat (values outputs)) in
    let slots = slots_by_file outputs [] in
    sorted_slots-IsListed slot x (group_by_slot slots (shown_files iteration id ref w.files) []) (
      group_by_slot-IsListed slots slot x (shown_files iteration id ref w.files) []
        (lookup-slots_by_file slot x outputs [] only ∙ rw h refl)
        (shown_files_has iteration id x ref w.files (includes-unique (flat (values outputs)) x ∙ h)
          stored))
