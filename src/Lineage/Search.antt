-- ===== src/Lineage/Search.antt =====
-- `traverse` of backend/src/lineage/lineage.service.ts: the files within some steps, upstream or
-- downstream of one. The queue holds ids with their depth. `none` is a loop that ran out of fuel.
use digital_thread.Shared.{
  ℕ, zero, suc, String, Option, none, some, List, [], ◌∷◌, ◌++◌, ◌==◌, if◌then◌else◌, leb, length,
  filter, find, includes,
}
use digital_thread.Lineage.Edges.{LineageEdge, Archive}

pub data Direction : Type 0 where
  upstream downstream : Direction

-- The end of an edge that the search comes from, and the one that it goes to.
abbrev pub near : Direction → LineageEdge → String
near upstream e = e.downstream
near downstream e = e.upstream

abbrev pub far : Direction → LineageEdge → String
far upstream e = e.upstream
far downstream e = e.downstream

-- A file that was found, with the edge by which it was.
abbrev pub Hit : Type 0
Hit = String × LineageEdge

pub record SearchState : Type 0 where
  pub visited : List String
  pub queue : List (String × ℕ)
  pub result : List Hit

module _ (dir : Direction) where
  abbrev pub visit : ℕ → LineageEdge → SearchState → SearchState
  visit d e s = record {
    visited = far dir e ∷ s.visited;
    queue = s.queue ++ (far dir e, suc d) ∷ [];
    result = s.result ++ (far dir e, e) ∷ [];
  }

  -- `for (const e of edges)`, at depth `d`
  unfoldable pub scan : ℕ → List LineageEdge → SearchState → SearchState
  scan d [] s = s
  scan d (e ∷ es) s = scan d es (if includes s.visited (far dir e) then s else visit d e s)

  module _ (edges : List LineageEdge) where
    abbrev pub adjacent : String → List LineageEdge
    adjacent id = filter (λ e. near dir e == id) edges

    module _ (depth : ℕ) where
      -- One round, with the front of the queue taken off.
      unfoldable pub round : String → ℕ → SearchState → SearchState
      round id d s = if leb depth d then s else scan d (adjacent id) s

      -- `while (queue.length)`
      unfoldable pub search_loop :
          ℕ → List (String × ℕ) → List String → List Hit → Option (List Hit)
      search_loop fuel [] visited result = some result
      search_loop zero (p ∷ queue) visited result = none
      search_loop (suc fuel) (p ∷ queue) visited result =
          let s = round p.0 p.1 (record { visited = visited; queue = queue; result = result }) in
          search_loop fuel s.queue s.visited s.result

      unfoldable pub search_from : String → Option (List Hit)
      search_from id = search_loop (suc (length edges)) ((id, 0) ∷ []) (id ∷ []) []

-- `getUpstream` and `getDownstream`
pub data Trace : Type 0 where
  found : List Hit → Trace
  not_found out_of_fuel : Trace

unfoldable pub traverse : Direction → String → ℕ → Archive → Trace
traverse dir id depth a = elim (find (λ f. f.id == id) a.files) [
  | none ↦ not_found
  | some f ↦ elim (search_from dir a.edges depth id) [ none ↦ out_of_fuel | some hits ↦ found hits ]
]

unfoldable pub get_upstream : String → ℕ → Archive → Trace
get_upstream id depth a = traverse upstream id depth a

unfoldable pub get_downstream : String → ℕ → Archive → Trace
get_downstream id depth a = traverse downstream id depth a
