-- ===== src/Lineage/Distances.antt =====
-- The search finds exactly the files within its depth.
use digital_thread.Shared.{
  ℕ, zero, suc, ◌≤◌, String, ◌≡◌, refl, ◌≢◌, ◌↔◌, ◌⊎◌, inl, inr, ap, sym, ◌∙◌, subst, true, some,
  List, [], ◌∷◌, arith, eq_iff, ◌==◌, leb, includes, length, find, none, Bool-cases,
}
use mathlib.Core.List.{Memᴰ}
use mathlib.Core.Option.{some-injective}
use digital_thread.Lineage.Edges.{LineageEdge, FileRow, Archive}
use digital_thread.Lineage.Search.{
  traverse, found, not_found, Direction, near, Hit, SearchState, adjacent, round, search_loop,
  search_from,
}
use digital_thread.Lineage.Walks.{Walk, stay, step, Memᴰ-filter, filter-Memᴰ, search_from_total}
use digital_thread.Lineage.Scans.{
  Levels, hit_files, IsSorted, Scanned, IsClosed, IsClosed-Within, IsScan, scan-IsScan,
}

module _ (dir : Direction) (edges : List LineageEdge) (depth : ℕ) (start : String) where
  -- Between rounds: each known file is queued or has all its neighbours known.
  record Inv (ls : Levels) (m : ℕ) (s : SearchState) : Type 0 where
    scanned : Scanned dir edges depth start ls m s
    closed :
        (x : String) (l : ℕ)
        → Memᴰ (x, l) ls
        → Memᴰ (x, l) s.queue ⊎ IsClosed dir edges depth start ls x l
    origin : Memᴰ (start, 0) ls

  abbrev state_of : Levels → List String → List Hit → SearchState
  state_of queue visited result = record { visited = visited; queue = queue; result = result }

  pop-Scanned :
      (ls : Levels) (m : ℕ) (p : String × ℕ) (q : Levels) (visited : List String)
      (result : List Hit)
      → Scanned dir edges depth start ls m (state_of (p ∷ q) visited result)
      → Scanned dir edges depth start ls p.1 (state_of q visited result)
  unfolding IsSorted
  pop-Scanned ls m p q visited result i = record {
    seen = i.seen;
    known = i.known;
    bound = λ x l k. omega (arith, i.bound x l k, (i.queued p.0 p.1 (Memᴰ.head refl)).1);
    deep = i.deep;
    walk = i.walk;
    queued = λ x l k. ((i.queued x l (Memᴰ.tail k)).0, i.sorted.0 x l k);
    sorted = i.sorted.1;
    hit = i.hit;
    proper = i.proper;
  }

  round-Inv :
      (ls : Levels) (m : ℕ) (p : String × ℕ) (q : Levels) (visited : List String)
      (result : List Hit)
      → Inv ls m (state_of (p ∷ q) visited result)
      → (ms : Levels) × Inv ms p.1 (round dir edges depth p.0 p.1 (state_of q visited result))
  unfolding round
  round-Inv ls m p q visited result i = elim (Bool-cases (leb depth p.1)) [
    | inl far_enough ↦
        rw (far_enough, round)
          (
            ls,
            record {
              scanned = pop-Scanned ls m p q visited result i.scanned;
              closed = λ x l k. elim (i.closed x l k) [
                | inl w ↦ at_depth x l far_enough w
                | inr c ↦ inr c
              ];
              origin = i.origin;
            },
          )
    | inr near_enough ↦
        let (ms, r) =
          scan-IsScan dir edges depth start ls p.1 p.0 (adjacent dir edges p.0)
            (state_of q visited result) (ground arith) (i.scanned.queued p.0 p.1 (Memᴰ.head refl)).0
            (λ e k.
              let (j, same) = Memᴰ-filter (λ e. near dir e == p.0) edges k in
              (j, (eq_iff (near dir e) p.0).0 same))
            (pop-Scanned ls m p q visited result i.scanned) in
        rw (near_enough, round)
          (
            ms,
            record {
              scanned = r.scanned;
              closed = λ x l k. elim (r.fresh x l k) [
                | inr w ↦ inl w
                | inl old ↦ elim (i.closed x l old) [
                  | inr c ↦ inr (IsClosed-Within dir edges depth start ls ms x l r.within c)
                  | inl w ↦ waiting ms r x l w
                ]
              ];
              origin = r.within start 0 i.origin;
            },
          )
  ]
    where
      at_depth :
          (x : String) (l : ℕ)
          → leb depth p.1 ≡ true
          → Memᴰ (x, l) (p ∷ q)
          → Memᴰ (x, l) q ⊎ IsClosed dir edges depth start ls x l
      at_depth x l e (Memᴰ.head k) = inr (λ lt. absurd (ground (arith, ap (λ t. t.1) k)))
      at_depth x l e (Memᴰ.tail k) = inl k

      waiting :
          (ms : Levels) {t : SearchState}
          → IsScan dir edges depth start ls ms p.1
              (adjacent dir edges p.0)
              (state_of q visited result)
              t
          → (x : String) (l : ℕ) → Memᴰ (x, l) (p ∷ q)
          → Memᴰ (x, l) t.queue ⊎ IsClosed dir edges depth start ms x l
      waiting ms r x l (Memᴰ.head k) = inr (λ lt e j n.
          let (d, u, le) = r.reached e (
            filter-Memᴰ (λ e. near dir e == p.0) edges j
              ((eq_iff (near dir e) p.0).1 (n ∙ ap (λ t. t.0) k))) in
          (d, u, rw (ap (λ t. t.1) k) le))
      waiting ms r x l (Memᴰ.tail k) = inl (r.kept (x, l) k)

  -- What holds when the queue is empty.
  IsDone : List Hit → Type 0
  IsDone hits =
      (ls : Levels) × (m : ℕ) × (visited : List String) × Inv ls m (state_of [] visited hits)

  search_loop-IsDone :
      (fuel : ℕ) (ls : Levels) (m : ℕ) (queue : Levels) (visited : List String)
      (result hits : List Hit)
      → Inv ls m (state_of queue visited result)
      → search_loop dir edges depth fuel queue visited result ≡ some hits
      → IsDone hits
  unfolding search_loop IsDone
  search_loop-IsDone zero ls m [] visited result hits i h =
      (ls, m, visited, subst (λ r. Inv ls m (state_of [] visited r)) (some-injective _ _ h) i)
  search_loop-IsDone (suc fuel) ls m [] visited result hits i h =
      (ls, m, visited, subst (λ r. Inv ls m (state_of [] visited r)) (some-injective _ _ h) i)
  search_loop-IsDone zero ls m (p ∷ q) visited result hits i h = cc
  search_loop-IsDone (suc fuel) ls m (p ∷ q) visited result hits i h =
      let (ms, j) = round-Inv ls m p q visited result i in
      let t = round dir edges depth p.0 p.1 (state_of q visited result) in
      search_loop-IsDone fuel ms p.1 t.queue t.visited t.result hits j h

  first-Inv : Inv ((start, 0) ∷ []) 0 (state_of ((start, 0) ∷ []) (start ∷ []) [])
  unfolding IsSorted
  first-Inv = record {
    scanned = record {
      seen = λ x l m. ground (arith, ap (λ t. t.0) (only x l m), eq_iff start x);
      known = λ x h. (0, Memᴰ.head (ap (λ y. (y, 0)) (ground (arith, eq_iff start x))));
      bound = λ x l m. rw (ap (λ t. t.1) (only x l m)) (omega arith);
      deep = λ x l m. rw (ap (λ t. t.1) (only x l m)) (omega arith);
      walk =
          λ x l m. subst (λ (t : String × ℕ). Walk dir edges start t.1 t.0) (sym (only x l m)) stay;
      queued = λ x l m. (m, omega arith);
      sorted = ((λ x l m. elim m [ ]), tt);
      hit = λ x. ground arith;
      proper = λ x h. cc;
    };
    closed = λ x l m. inl m;
    origin = Memᴰ.head refl;
  }
    where
      only :
          (x : String) (l : ℕ)
          → Memᴰ {A = String × ℕ} (x, l) ((start, 0) ∷ [])
          → ◌≡◌ {A = String × ℕ} (x, l) (start, 0)
      only x l (Memᴰ.head k) = k
      only x l (Memᴰ.tail k) = elim k [ ]

  -- A walk within the depth ends at a file that is known at no greater depth.
  Walk-known :
      (ls : Levels)
      → ((x : String) (l : ℕ) → Memᴰ (x, l) ls → IsClosed dir edges depth start ls x l)
      → Memᴰ (start, 0) ls
      → {k : ℕ} {x : String} → Walk dir edges start k x
      → k ≤ depth
      → (l : ℕ) × Memᴰ (x, l) ls × (l ≤ k)
  Walk-known ls closed origin stay h = (0, origin, omega arith)
  Walk-known ls closed origin (step {k} {b} e w m n) h =
      let (l, at, le) = Walk-known ls closed origin w (omega arith) in
      let (j, there, bound) = closed b l at (omega arith) e m n in (j, there, omega arith)

  -- A search from a file always ends, and finds exactly the other files to which some walk of at
  -- most `depth` edges leads from it.
  search_from_lem :
      (hits : List Hit) × (search_from dir edges depth start ≡ some hits)
      × ((x : String)
          → (includes (hit_files hits) x ≡ true)
            ↔ ((x ≢ start) × ((k : ℕ) × (k ≤ depth) × Walk dir edges start k x)))
  unfolding search_from IsDone
  search_from_lem =
      let (hits, h) = search_from_total dir edges depth start in
      let (ls, m, visited, i) =
        search_loop-IsDone (suc (length edges)) ((start, 0) ∷ []) 0 ((start, 0) ∷ []) (start ∷ [])
          [] hits first-Inv h in
      let s = i.scanned in
      (
        hits,
        h,
        λ x. (
          λ found.
              let (l, at) = s.known x (ground (arith, s.hit x)) in
              (s.proper x found, (l, s.deep x l at, s.walk x l at)),
          λ (other, (k, le, w)).
              let (l, at, less) =
                Walk-known ls (λ y j t. elim (i.closed y j t) [ inl q ↦ elim q [ ] | inr c ↦ c ])
                  i.origin w le in
              ground (arith, s.hit x, s.seen x l at, eq_iff start x),
        ),
      )

-- `traverse` answers for every stored file and every depth, in either direction and on graphs with
-- cycles: it finds exactly the other files to which some walk of at most that many edges leads. A
-- file that is not stored is not found.
pub traverse_lem :
    (dir : Direction) (id : String) (depth : ℕ) (a : Archive)
    → (find (λ f. f.id == id) a.files ≡ none → traverse dir id depth a ≡ not_found)
      × ((f : FileRow)
          → find (λ f. f.id == id) a.files ≡ some f
          → (hits : List Hit) × (traverse dir id depth a ≡ found hits)
            × ((x : String)
                → (includes (hit_files hits) x ≡ true)
                  ↔ ((x ≢ id) × ((k : ℕ) × (k ≤ depth) × Walk dir a.edges id k x))))
unfolding traverse
traverse_lem dir id depth a = (
  λ e. rw (e, traverse) refl,
  λ f e.
      let (hits, h, exact) = search_from_lem dir a.edges depth id in
      (hits, rw (e, traverse, h) refl, exact),
)
