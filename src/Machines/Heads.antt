-- ===== src/Machines/Heads.antt =====
-- The row of a workflow mirrors its highest version, which is the one that iterations start with.
use digital_thread.Json.{Json}
use digital_thread.Shared.{
  ℕ, suc, ◌≤◌, String, ◌≡◌, refl, inl, inr, Bool, true, Bool-cases, Option, none, some, List, [],
  ◌∷◌, arith, ◌∙◌, if◌then◌else◌, leb, get_or, all,
}
use digital_thread.Engine.Store.{parsed}
use digital_thread.Machines.Versions.{
  Version, Machine, Workflow, Answer, done, find_version, write_version,
  head_version_has_iterations, bump, edit_in_place, overwrite, update_graph,
}
use digital_thread.Machines.Frozen.{find_version-write_version, KeepsNumber}

abbrev pub all_at_most : ℕ → List Version → Bool
all_at_most n vs = all (λ v. leb v.version_number n) vs

pub record IsHead (w : Workflow) : Type 0 where
  pub row : Version
  pub found : find_version w.machine.latest_version w.versions ≡ some row
  pub mirrored : row.graph ≡ w.machine.graph
  pub highest_number : all_at_most w.machine.latest_version w.versions ≡ true

all_at_most_mono :
    (j k : ℕ) (vs : List Version) → j ≤ k → all_at_most j vs ≡ true → all_at_most k vs ≡ true
all_at_most_mono j k [] l h = refl
all_at_most_mono j k (v ∷ vs) l h = ground (arith, all_at_most_mono j k vs l)

all_at_most_added :
    (n : ℕ) (v : Version) (vs : List Version) (k : ℕ)
    → v.version_number ≡ suc n
    → k ≡ suc n
    → all_at_most n vs ≡ true
    → all_at_most k (v ∷ vs) ≡ true
all_at_most_added n v vs k e same h = ground (arith, all_at_most_mono n k vs (omega arith) h)

find_version-suc :
    (n : ℕ) (vs : List Version) → all_at_most n vs ≡ true → find_version (suc n) vs ≡ none
unfolding find_version
find_version-suc n [] h = refl
find_version-suc n (v ∷ vs) h = ground (arith, find_version-suc n vs)

all_at_most-write_version :
    (n k : ℕ) (f : Version → Version) (vs : List Version)
    → KeepsNumber f
    → all_at_most n (write_version k f vs) ≡ all_at_most n vs
unfolding write_version
all_at_most-write_version n k f [] h = refl
all_at_most-write_version n k f (v ∷ vs) h =
    ground (arith, h v, all_at_most-write_version n k f vs h)

-- What a save leaves: it succeeded, the row of the workflow is `m`, and it mirrors its version.
pub record IsSaved (m : Machine) (r : Answer × Workflow) : Type 0 where
  pub answered : r.0 ≡ done
  pub saved : r.1.machine ≡ m
  pub head : IsHead r.1

pub IsSaved-along : {m m' : Machine} {r : Answer × Workflow} → m ≡ m' → IsSaved m r → IsSaved m' r
IsSaved-along e s = record { answered = s.answered; saved = s.saved ∙ e; head = s.head }

pub bump-IsSaved :
    (w : Workflow) (v : Version) (m : Machine)
    → IsHead w
    → v.version_number ≡ suc w.machine.latest_version
    → m.latest_version ≡ suc w.machine.latest_version
    → v.graph ≡ m.graph
    → IsSaved m (bump v m w)
unfolding bump
bump-IsSaved w v m h e k g =
    let unused : find_version v.version_number w.versions ≡ none =
      rw e (find_version-suc w.machine.latest_version w.versions h.highest_number) in
    rw (unused, bump)
      (record {
        answered = refl;
        saved = refl;
        head = record {
          row = v;
          found = unfold find_version in ground (arith, e, k);
          mirrored = g;
          highest_number =
              all_at_most_added w.machine.latest_version v w.versions m.latest_version e k
                h.highest_number;
        };
      })

pub edit_in_place-IsSaved :
    (w : Workflow) (f : Version → Version) (m : Machine)
    → IsHead w
    → KeepsNumber f
    → m.latest_version ≡ w.machine.latest_version
    → ((v : Version) → (f v).graph ≡ m.graph)
    → IsSaved m (edit_in_place w.machine.latest_version f m w)
unfolding edit_in_place
edit_in_place-IsSaved w f m h keeps k g =
    let n = w.machine.latest_version in
    rw (h.found, edit_in_place)
      (record {
        answered = refl;
        saved = refl;
        head = record {
          row = f h.row;
          found = rw k (ground (arith, find_version-write_version n n f w.versions keeps, h.found));
          mirrored = g h.row;
          highest_number =
              rw k (all_at_most-write_version n n f w.versions keeps ∙ h.highest_number);
        };
      })

-- The row that `updateGraph` makes.
unfoldable pub saved_graph : ℕ → List Json → List Json → Option (List Json) → Workflow → Machine
saved_graph now nodes edges groups w =
    let n = w.machine.latest_version in
    record w.machine {
      graph = record {
        nodes_json = parsed nodes;
        edges_json = parsed edges;
        groups_json = get_or (overwrite groups none) w.machine.graph.groups_json;
      };
      updated_at = now;
      latest_version = if head_version_has_iterations n w then suc n else n;
    }

-- Saving a graph over a row that mirrors the highest version succeeds and leaves such a row: it has
-- the new graph, and the next version number exactly if an iteration is pinned to the version before.
pub update_graph-IsSaved :
    (now : ℕ) (nodes edges : List Json) (groups : Option (List Json)) (by : Option String)
    (w : Workflow)
    → IsHead w
    → IsSaved (saved_graph now nodes edges groups w) (update_graph now nodes edges groups by w)
unfolding update_graph saved_graph
update_graph-IsSaved now nodes edges groups by w h =
    elim (Bool-cases (head_version_has_iterations w.machine.latest_version w)) [
      | inl locked ↦ rw (locked, update_graph, saved_graph) (bump-IsSaved w _ _ h refl refl refl)
      | inr free ↦
          rw (free, update_graph, saved_graph)
            (edit_in_place-IsSaved w _ _ h (λ v. refl) refl (λ v. refl))
    ]
