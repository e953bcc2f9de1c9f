-- ===== src/Machines/Frozen.antt =====
-- A version that an iteration is pinned to never changes.
use digital_thread.Json.{Json}
use digital_thread.Shared.{
  String, inl, inr, Bool-cases, ℕ, ◌≡◌, refl, true, false, Option, none, some, List, [], ◌∷◌, arith,
  if◌then◌else◌, eqb,
}
use digital_thread.Machines.Versions.{
  Version, Machine, Body, graph_changed, Workflow, find_version, write_version, is_pinned,
  head_version_has_iterations, bump, edit_in_place, update, update_graph, start_iteration, Call,
  updating, updating_graph, starting, answer, after,
}

-- A write that leaves the number of a version alone.
abbrev pub KeepsNumber : (Version → Version) → Type 0
KeepsNumber f = (v : Version) → (f v).version_number ≡ v.version_number

pub find_version-write_version :
    (n k : ℕ) (f : Version → Version) (vs : List Version)
    → KeepsNumber f
    → find_version k (write_version n f vs) ≡ (
        if eqb n k
        then elim (find_version k vs) [ none ↦ none | some v ↦ some (f v) ]
        else find_version k vs)
unfolding find_version write_version
find_version-write_version n k f [] h = ground arith
find_version-write_version n k f (v ∷ vs) h =
    ground (arith, h v, find_version-write_version n k f vs h)

pub find_version_number :
    (n : ℕ) (vs : List Version) (v : Version) → find_version n vs ≡ some v → v.version_number ≡ n
unfolding find_version
find_version_number n [] v h = ground arith
find_version_number n (u ∷ vs) v h = ground (arith, find_version_number n vs v)

-- What is pinned stays pinned, and its version stays the row it was.
record Frozen (w w' : Workflow) : Type 0 where
  pins : (k : ℕ) → is_pinned k w.pins ≡ true → is_pinned k w'.pins ≡ true
  versions :
      (k : ℕ)
      → is_pinned k w.pins ≡ true
      → (v : Version) → find_version k w.versions ≡ some v
      → find_version k w'.versions ≡ some v

Frozen-refl : (w : Workflow) (m : Machine) → Frozen w (record w { machine = m })
Frozen-refl w m = record { pins = λ k h. h; versions = λ k h v e. e }

Frozen-bump : (v : Version) (m : Machine) (w : Workflow) → Frozen w (bump v m w).1
unfolding bump find_version
Frozen-bump v m w = record { pins = λ k h. ground arith; versions = λ k h u e. ground arith }

Frozen-edit_in_place :
    (n : ℕ) (f : Version → Version) (m : Machine) (w : Workflow)
    → KeepsNumber f
    → head_version_has_iterations n w ≡ false
    → Frozen w (edit_in_place n f m w).1
unfolding edit_in_place head_version_has_iterations
Frozen-edit_in_place n f m w keeps free = record {
  pins = λ k h. ground arith;
  versions = λ k h u e. ground (
    arith,
    find_version-write_version n k f w.versions keeps,
    find_version_number n w.versions u,
  );
}

Frozen-update : (now : ℕ) (d : Body) (w : Workflow) → Frozen w (update now d w).1
unfolding update
Frozen-update now d w = elim (Bool-cases (graph_changed d)) [
  | inl changed ↦ elim (Bool-cases (head_version_has_iterations w.machine.latest_version w)) [
    | inl locked ↦ rw (changed, update) (rw (locked, update) (Frozen-bump _ _ w))
    | inr free ↦
        rw (changed, update)
          (rw (free, update) (Frozen-edit_in_place w.machine.latest_version _ _ w (λ v. refl) free))
  ]
  | inr same ↦ rw (same, update) (Frozen-refl w _)
]

Frozen-update_graph :
    (now : ℕ) (nodes edges : List Json) (groups : Option (List Json)) (by : Option String)
    (w : Workflow)
    → Frozen w (update_graph now nodes edges groups by w).1
unfolding update_graph
Frozen-update_graph now nodes edges groups by w =
    elim (Bool-cases (head_version_has_iterations w.machine.latest_version w)) [
      | inl locked ↦ rw (locked, update_graph) (Frozen-bump _ _ w)
      | inr free ↦
          rw (free, update_graph)
            (Frozen-edit_in_place w.machine.latest_version _ _ w (λ v. refl) free)
    ]

Frozen-start_iteration : (w : Workflow) → Frozen w (start_iteration w).1
unfolding start_iteration
Frozen-start_iteration w = record { pins = λ k h. ground arith; versions = λ k h v e. ground arith }

Frozen-answer : (c : Call) (w : Workflow) → Frozen w (answer c w).1
unfolding answer
Frozen-answer (updating now d) w = Frozen-update now d w
Frozen-answer (updating_graph now nodes edges groups by) w =
    Frozen-update_graph now nodes edges groups by w
Frozen-answer starting w = Frozen-start_iteration w

Frozen-trans : (u v w : Workflow) → Frozen u v → Frozen v w → Frozen u w
Frozen-trans u v w a b = record {
  pins = λ k h. b.pins k (a.pins k h);
  versions = λ k h x e. b.versions k (a.pins k h) x (a.versions k h x e);
}

Frozen-after : (cs : List Call) (w : Workflow) → Frozen w (after cs w)
unfolding after
Frozen-after [] w = Frozen-refl w w.machine
Frozen-after (c ∷ cs) w =
    Frozen-trans w (answer c w).1 (after cs (answer c w).1) (Frozen-answer c w)
      (Frozen-after cs (answer c w).1)

-- Whatever is saved and started later, an iteration stays pinned to its version, and the row of that
-- version, its graph, label and author, stays as it was.
pub pinned_frozen :
    (cs : List Call) (w : Workflow) (k : ℕ) (v : Version)
    → is_pinned k w.pins ≡ true
    → find_version k w.versions ≡ some v
    → (is_pinned k (after cs w).pins ≡ true) × (find_version k (after cs w).versions ≡ some v)
pinned_frozen cs w k v pinned found =
    let frozen = Frozen-after cs w in (frozen.pins k pinned, frozen.versions k pinned v found)
