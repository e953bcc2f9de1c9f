-- ===== src/Machines/Histories.antt =====
-- A workflow from its creation on, and the version that an iteration starts with.
use digital_thread.Shared.{
  ℕ, ◌≤◌, String, ◌≡◌, refl, inl, inr, true, Bool-cases, ◌||◌, none, some, List, [], ◌∷◌, arith, ap,
  eqb, leb, is_some,
}
use digital_thread.Machines.Versions.{
  Version, Body, Workflow, done, find_version, first_version, create, highest, start_iteration,
  Call, updating, updating_graph, starting, answer, after,
}
use digital_thread.Machines.Heads.{all_at_most, IsHead, update_graph-IsSaved}
use digital_thread.Machines.Updates.{IsPlain, update-IsSaved}

-- The highest version is one with the number `n`, if no number is higher and one of the versions seen
-- or to come has it.
highest-some :
    (n : ℕ) (b : Version) (vs : List Version)
    → b.version_number ≤ n
    → all_at_most n vs ≡ true
    → (eqb b.version_number n || is_some (find_version n vs)) ≡ true
    → (v : Version) × (highest (some b) vs ≡ some v) × (v.version_number ≡ n)
unfolding highest find_version
highest-some n b [] l h e = (b, refl, ground arith)
highest-some n b (v ∷ vs) l h e = elim (Bool-cases (leb v.version_number b.version_number)) [
  | inl below ↦ rw (below, highest) (highest-some n b vs l (ground arith) (ground arith))
  | inr above ↦
      rw (above, highest) (highest-some n v vs (ground arith) (ground arith) (ground arith))
]

highest-none :
    (n : ℕ) (vs : List Version)
    → all_at_most n vs ≡ true
    → is_some (find_version n vs) ≡ true
    → (v : Version) × (highest none vs ≡ some v) × (v.version_number ≡ n)
unfolding highest find_version
highest-none n [] h e = absurd (ground arith)
highest-none n (v ∷ vs) h e = highest-some n v vs (ground arith) (ground arith) (ground arith)

-- An iteration of a workflow that mirrors its highest version starts with that version: the engine
-- runs the graph that the editor shows.
pub start_iteration_lem :
    (w : Workflow)
    → IsHead w
    → (start_iteration w ≡ (done, record w { pins = w.machine.latest_version ∷ w.pins }))
      × ((v : Version) × (find_version w.machine.latest_version w.versions ≡ some v)
          × (v.graph ≡ w.machine.graph))
unfolding start_iteration
start_iteration_lem w h =
    let (v, found, number) =
      highest-none w.machine.latest_version w.versions h.highest_number (ap is_some h.found) in
    (rw (found, start_iteration) (rw number refl), (h.row, h.found, h.mirrored))

abbrev pub IsPlainCall : Call → Type 0
IsPlainCall (updating now d) = IsPlain d
IsPlainCall (updating_graph now nodes edges groups by) = Unit
IsPlainCall starting = Unit

abbrev pub AllPlain : List Call → Type 0
AllPlain [] = Unit
AllPlain (c ∷ cs) = IsPlainCall c × AllPlain cs

answer-IsHead :
    (c : Call) (w : Workflow)
    → IsPlainCall c
    → IsHead w
    → ((answer c w).0 ≡ done) × IsHead (answer c w).1
unfolding answer
answer-IsHead (updating now d) w p h = let s = update-IsSaved now d w p h in (s.answered, s.head)
answer-IsHead (updating_graph now nodes edges groups by) w p h =
    let s = update_graph-IsSaved now nodes edges groups by w h in (s.answered, s.head)
answer-IsHead starting w p h =
    let (started, _) = start_iteration_lem w h in
    rw started (
      refl,
      record {
        row = h.row;
        found = h.found;
        mirrored = h.mirrored;
        highest_number = h.highest_number;
      },
    )

after-IsHead : (cs : List Call) (w : Workflow) → AllPlain cs → IsHead w → IsHead (after cs w)
unfolding after
after-IsHead [] w p h = h
after-IsHead (c ∷ cs) w (p, ps) h =
    let (_, head) = answer-IsHead c w p h in after-IsHead cs (answer c w).1 ps head

create-IsHead : (now : ℕ) (name : String) (d : Body) → IsHead (create now name d)
unfolding create find_version
create-IsHead now name d = record {
  row = first_version d;
  found = refl;
  mirrored = refl;
  highest_number = refl;
}

-- From its creation on, whatever is saved and started, the row of a workflow mirrors its highest
-- version, and one more save or start succeeds, if no body sets a column that the service derives.
pub after-create :
    (now : ℕ) (name : String) (d : Body) (cs : List Call) (c : Call)
    → AllPlain cs
    → IsPlainCall c
    → let w = after cs (create now name d) in IsHead w × ((answer c w).0 ≡ done)
after-create now name d cs c ps p =
    let h = after-IsHead cs (create now name d) ps (create-IsHead now name d) in
    let (ok, _) = answer-IsHead c (after cs (create now name d)) p h in (h, ok)
