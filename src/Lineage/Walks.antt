-- ===== src/Lineage/Walks.antt =====
-- Walks along lineage edges, and that the search ends.
use digital_thread.Shared.{
  ℕ, zero, suc, ◌+◌, ◌≤◌, String, ◌≡◌, refl, ◌⊎◌, inl, inr, ap, Bool, true, false, not, some, List,
  [], ◌∷◌, ◌++◌, arith, eq_iff, leb, length, length-append, count, count-le-length, filter,
  includes, Bool-cases, if_cases,
}
use mathlib.Core.List.{Memᴰ}
use digital_thread.Lineage.Edges.{LineageEdge}
use digital_thread.Lineage.Search.{
  Direction, near, far, Hit, SearchState, visit, scan, adjacent, round, search_loop, search_from,
}

-- `Walk dir edges a k b`: `k` edges lead from `a` to `b`.
pub data Walk (dir : Direction) (edges : List LineageEdge) (a : String) : ℕ → String → Type 0 where
  stay : Walk dir edges a 0 a
  step :
      {k : ℕ} {b : String} (e : LineageEdge)
      → Walk dir edges a k b
      → Memᴰ e edges
      → near dir e ≡ b
      → Walk dir edges a (suc k) (far dir e)

module _ {ℓ} {A : Type ℓ} where
  pub Memᴰ-snoc_left : {a : A} (xs : List A) (y : A) → Memᴰ a xs → Memᴰ a (xs ++ y ∷ [])
  Memᴰ-snoc_left [] y m = elim m [ ]
  Memᴰ-snoc_left (x ∷ xs) y (Memᴰ.head e) = Memᴰ.head e
  Memᴰ-snoc_left (x ∷ xs) y (Memᴰ.tail m) = Memᴰ.tail (Memᴰ-snoc_left xs y m)

  pub Memᴰ-snoc_last : (xs : List A) (y : A) → Memᴰ y (xs ++ y ∷ [])
  Memᴰ-snoc_last [] y = Memᴰ.head refl
  Memᴰ-snoc_last (x ∷ xs) y = Memᴰ.tail (Memᴰ-snoc_last xs y)

  pub Memᴰ-snoc_cases : {a : A} (xs : List A) (y : A) → Memᴰ a (xs ++ y ∷ []) → Memᴰ a xs ⊎ (a ≡ y)
  Memᴰ-snoc_cases [] y (Memᴰ.head e) = inr e
  Memᴰ-snoc_cases [] y (Memᴰ.tail m) = elim m [ ]
  Memᴰ-snoc_cases (x ∷ xs) y (Memᴰ.head e) = inl (Memᴰ.head e)
  Memᴰ-snoc_cases (x ∷ xs) y (Memᴰ.tail m) = elim (Memᴰ-snoc_cases xs y m) [
    | inl old ↦ inl (Memᴰ.tail old)
    | inr new ↦ inr new
  ]

  pub Memᴰ-filter :
      (p : A → Bool) (xs : List A) {a : A} → Memᴰ a (filter p xs) → Memᴰ a xs × (p a ≡ true)
  Memᴰ-filter p [] m = elim m [ ]
  Memᴰ-filter p (x ∷ xs) {a} m = elim (Bool-cases (p x)) [
    | inl e ↦ here e (rw e at m) (λ k. Memᴰ-filter p xs k)
    | inr e ↦ let (k, q) = Memᴰ-filter p xs (rw e at m) in (Memᴰ.tail k, q)
  ]
    where
      here :
          p x ≡ true
          → Memᴰ a (x ∷ filter p xs)
          → (Memᴰ a (filter p xs) → Memᴰ a xs × (p a ≡ true))
          → Memᴰ a (x ∷ xs) × (p a ≡ true)
      here e (Memᴰ.head k) ih = (Memᴰ.head k, rw k e)
      here e (Memᴰ.tail k) ih = let (j, q) = ih k in (Memᴰ.tail j, q)

  pub filter-Memᴰ :
      (p : A → Bool) (xs : List A) {a : A} → Memᴰ a xs → p a ≡ true → Memᴰ a (filter p xs)
  filter-Memᴰ p [] m e = elim m [ ]
  filter-Memᴰ p (x ∷ xs) {a} (Memᴰ.head k) e =
      if_cases (Memᴰ a) (p x) _ _ (λ _. Memᴰ.head k) (λ f. absurd (ground (arith, ap p k)))
  filter-Memᴰ p (x ∷ xs) {a} (Memᴰ.tail m) e =
      if_cases (Memᴰ a) (p x) _ _ (λ _. Memᴰ.tail (filter-Memᴰ p xs m e))
        (λ _. filter-Memᴰ p xs m e)

module _ (dir : Direction) (edges : List LineageEdge) where
  -- The edges that lead to a file which is not visited.
  abbrev pub unseen : List LineageEdge → List String → ℕ
  unseen es visited = count (λ e. not (includes visited (far dir e))) es

  unseen_mono :
      (es : List LineageEdge) (visited : List String) (id : String)
      → unseen es (id ∷ visited) ≤ unseen es visited
  unseen_mono [] visited id = omega arith
  unseen_mono (e ∷ es) visited id = ground (arith, unseen_mono es visited id)

  unseen-visit :
      (es : List LineageEdge) (visited : List String) (e : LineageEdge)
      → Memᴰ e es
      → includes visited (far dir e) ≡ false
      → suc (unseen es (far dir e ∷ visited)) ≤ unseen es visited
  unseen-visit [] visited e m h = elim m [ ]
  unseen-visit (x ∷ es) visited e (Memᴰ.head k) h =
      ground
        (arith, ap (far dir) k, unseen_mono es visited (far dir e), eq_iff (far dir e) (far dir x))
  unseen-visit (x ∷ es) visited e (Memᴰ.tail m) h = ground (arith, unseen-visit es visited e m h)

  abbrev cost : SearchState → ℕ
  cost s = length s.queue + unseen edges s.visited

  cost-scan :
      (d : ℕ) (es : List LineageEdge) (s : SearchState)
      → ((e : LineageEdge) → Memᴰ e es → Memᴰ e edges)
      → cost (scan dir d es s) ≤ cost s
  unfolding scan
  cost-scan d [] s sub = omega arith
  cost-scan d (e ∷ es) s sub = elim (Bool-cases (includes s.visited (far dir e))) [
    | inl old ↦ rw (old, scan) (cost-scan d es s (λ x m. sub x (Memᴰ.tail m)))
    | inr new ↦
        rw (new, scan)
          (omega (
            arith,
            cost-scan d es (visit dir d e s) (λ x m. sub x (Memᴰ.tail m)),
            unseen-visit edges s.visited e (sub e (Memᴰ.head refl)) new,
            length-append {0} s.queue ((far dir e, suc d) ∷ []),
          ))
  ]

  module _ (depth : ℕ) where
    cost-round :
        (id : String) (d : ℕ) (s : SearchState) → cost (round dir edges depth id d s) ≤ cost s
    unfolding round
    cost-round id d s =
        if_cases (λ t. cost t ≤ cost s) (leb depth d) _ _ (λ _. omega arith)
          (λ _. cost-scan d (adjacent dir edges id) s (λ e m. (Memᴰ-filter _ edges m).0))

    search_loop_total :
        (fuel : ℕ) (queue : List (String × ℕ)) (visited : List String) (result : List Hit)
        → length queue + unseen edges visited ≤ fuel
        → (hits : List Hit) × (search_loop dir edges depth fuel queue visited result ≡ some hits)
    unfolding search_loop
    search_loop_total zero [] visited result h = (result, refl)
    search_loop_total (suc fuel) [] visited result h = (result, refl)
    search_loop_total zero (p ∷ queue) visited result h = absurd (omega arith)
    search_loop_total (suc fuel) (p ∷ queue) visited result h =
        let s : SearchState = record { visited = visited; queue = queue; result = result } in
        let t = round dir edges depth p.0 p.1 s in
        search_loop_total fuel t.queue t.visited t.result (omega (arith, cost-round p.0 p.1 s))

    -- Each edge is followed at most once, so the search ends in every graph.
    pub search_from_total :
        (id : String) → (hits : List Hit) × (search_from dir edges depth id ≡ some hits)
    unfolding search_from
    search_from_total id =
        search_loop_total (suc (length edges)) ((id, 0) ∷ []) (id ∷ []) []
          (omega (arith, count-le-length (λ e. not (includes (id ∷ []) (far dir e))) edges))
