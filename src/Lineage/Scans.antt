-- ===== src/Lineage/Scans.antt =====
-- What one round of the search adds.
use digital_thread.Shared.{
  ℕ, suc, ◌≤◌, ◌<◌, String, ◌≡◌, refl, ◌≢◌, ◌⊎◌, inl, inr, ap, sym, subst, true, false, ◌||◌, List,
  [], ◌∷◌, ◌++◌, map, arith, eq_iff, ◌==◌, includes, Bool-cases,
}
use mathlib.Core.List.{Memᴰ}
use digital_thread.Lineage.Edges.{LineageEdge}
use digital_thread.Lineage.Search.{Direction, near, far, Hit, SearchState, visit, scan}
use digital_thread.Lineage.Walks.{Walk, step, Memᴰ-snoc_left, Memᴰ-snoc_last, Memᴰ-snoc_cases}

-- Files with the depth at which they were found: what the search does not keep.
abbrev pub Levels : Type 0
Levels = List (String × ℕ)

abbrev pub hit_files : List Hit → List String
hit_files hits = map (λ h. h.0) hits

-- The depths do not fall.
unfoldable pub IsSorted : Levels → Type 0
IsSorted [] = Unit
IsSorted (p ∷ q) = ((x : String) (l : ℕ) → Memᴰ (x, l) q → p.1 ≤ l) × IsSorted q

IsSorted-snoc :
    (q : Levels) (y : String) (k : ℕ)
    → IsSorted q
    → ((x : String) (l : ℕ) → Memᴰ (x, l) q → l ≤ k)
    → IsSorted (q ++ (y, k) ∷ [])
unfolding IsSorted
IsSorted-snoc [] y k s h = ((λ x l m. elim m [ ]), tt)
IsSorted-snoc (p ∷ q) y k s h = (
  λ x l m. elim (Memᴰ-snoc_cases q (y, k) m) [
    | inl old ↦ s.0 x l old
    | inr new ↦ rw (ap (λ t. t.1) new) (h p.0 p.1 (Memᴰ.head refl))
  ],
  IsSorted-snoc q y k s.1 (λ x l m. h x l (Memᴰ.tail m)),
)

hits-snoc :
    (hs : List Hit) (h : Hit) (x : String)
    → includes (hit_files (hs ++ h ∷ [])) x ≡ (includes (hit_files hs) x || h.0 == x)
hits-snoc [] h x = ground arith
hits-snoc (g ∷ hs) h x = ground (arith, hits-snoc hs h x)

module _ (dir : Direction) (edges : List LineageEdge) (depth : ℕ) (start : String) where
  -- What holds while the neighbours of a file at depth `m` are scanned, for the depths `ls`.
  pub record Scanned (ls : Levels) (m : ℕ) (s : SearchState) : Type 0 where
    pub seen : (x : String) (l : ℕ) → Memᴰ (x, l) ls → includes s.visited x ≡ true
    pub known : (x : String) → includes s.visited x ≡ true → (l : ℕ) × Memᴰ (x, l) ls
    pub bound : (x : String) (l : ℕ) → Memᴰ (x, l) ls → l ≤ suc m
    pub deep : (x : String) (l : ℕ) → Memᴰ (x, l) ls → l ≤ depth
    pub walk : (x : String) (l : ℕ) → Memᴰ (x, l) ls → Walk dir edges start l x
    pub queued : (x : String) (l : ℕ) → Memᴰ (x, l) s.queue → Memᴰ (x, l) ls × (m ≤ l)
    pub sorted : IsSorted s.queue
    pub hit : (x : String) → includes s.visited x ≡ (start == x || includes (hit_files s.result) x)
    pub proper : (x : String) → includes (hit_files s.result) x ≡ true → x ≢ start

  -- The neighbours of a file are known, at most one step deeper.
  abbrev pub IsClosed : Levels → String → ℕ → Type 0
  IsClosed ls x l =
      l < depth
      → (e : LineageEdge) → Memᴰ e edges
      → near dir e ≡ x
      → (k : ℕ) × Memᴰ (far dir e, k) ls × (k ≤ suc l)

  abbrev pub Within : Levels → Levels → Type 0
  Within ls ms = (x : String) (l : ℕ) → Memᴰ (x, l) ls → Memᴰ (x, l) ms

  pub IsClosed-Within :
      (ls ms : Levels) (x : String) (l : ℕ) → Within ls ms → IsClosed ls x l → IsClosed ms x l
  IsClosed-Within ls ms x l sub c lt e m n =
      let (k, j, le) = c lt e m n in (k, sub (far dir e) k j, le)

  visit-Scanned :
      (ls : Levels) (d : ℕ) (b : String) (e : LineageEdge) (s : SearchState)
      → d < depth
      → Memᴰ (b, d) ls
      → Memᴰ e edges
      → near dir e ≡ b
      → includes s.visited (far dir e) ≡ false
      → Scanned ls d s
      → Scanned ((far dir e, suc d) ∷ ls) d (visit dir d e s)
  visit-Scanned ls d b e s lt at mem n new i = record {
    seen = λ x l m. seen_at x l m;
    known = λ x h. known_at x h;
    bound = λ x l m. bound_at x l m;
    deep = λ x l m. deep_at x l m;
    walk = λ x l m. walk_at x l m;
    queued = λ x l m. elim (Memᴰ-snoc_cases s.queue (far dir e, suc d) m) [
      | inl old ↦ let (k, le) = i.queued x l old in (Memᴰ.tail k, le)
      | inr top ↦ (Memᴰ.head top, rw (ap (λ t. t.1) top) (omega arith))
    ];
    sorted =
        IsSorted-snoc s.queue (far dir e) (suc d) i.sorted
          (λ x l m. i.bound x l (i.queued x l m).0);
    hit = λ x. ground (arith, hits-snoc s.result (far dir e, e) x, i.hit x);
    proper = λ x h same. ground (
      arith,
      hits-snoc s.result (far dir e, e) x,
      i.proper x,
      i.hit x,
      eq_iff (far dir e) x,
      eq_iff start x,
      eq_iff start (far dir e),
      i.hit (far dir e),
    );
  }
    where
      seen_at :
          (x : String) (l : ℕ)
          → Memᴰ (x, l) ((far dir e, suc d) ∷ ls)
          → includes (far dir e ∷ s.visited) x ≡ true
      seen_at x l (Memᴰ.head k) = ground (arith, ap (λ t. t.0) k, eq_iff (far dir e) x)
      seen_at x l (Memᴰ.tail k) = ground (arith, i.seen x l k)

      known_at :
          (x : String)
          → includes (far dir e ∷ s.visited) x ≡ true
          → (l : ℕ) × Memᴰ (x, l) ((far dir e, suc d) ∷ ls)
      known_at x h = elim (Bool-cases (far dir e == x)) [
        | inl same ↦ (suc d, Memᴰ.head (ap (λ y. (y, suc d)) (sym ((eq_iff (far dir e) x).0 same))))
        | inr other ↦ let (l, k) = i.known x (ground arith) in (l, Memᴰ.tail k)
      ]

      bound_at : (x : String) (l : ℕ) → Memᴰ (x, l) ((far dir e, suc d) ∷ ls) → l ≤ suc d
      bound_at x l (Memᴰ.head k) = rw (ap (λ t. t.1) k) (omega arith)
      bound_at x l (Memᴰ.tail k) = i.bound x l k

      deep_at : (x : String) (l : ℕ) → Memᴰ (x, l) ((far dir e, suc d) ∷ ls) → l ≤ depth
      deep_at x l (Memᴰ.head k) = rw (ap (λ t. t.1) k) (omega arith)
      deep_at x l (Memᴰ.tail k) = i.deep x l k

      walk_at :
          (x : String) (l : ℕ) → Memᴰ (x, l) ((far dir e, suc d) ∷ ls) → Walk dir edges start l x
      walk_at x l (Memᴰ.head k) =
          subst (λ (t : String × ℕ). Walk dir edges start t.1 t.0) (sym k)
            (step e (i.walk b d at) mem n)
      walk_at x l (Memᴰ.tail k) = i.walk x l k

  -- What a scan of edges leaves behind.
  pub record IsScan (ls ms : Levels) (d : ℕ) (es : List LineageEdge) (s t : SearchState)
      : Type 0 where
    pub within : Within ls ms
    pub scanned : Scanned ms d t
    pub kept : (p : String × ℕ) → Memᴰ p s.queue → Memᴰ p t.queue
    pub fresh : (x : String) (l : ℕ) → Memᴰ (x, l) ms → Memᴰ (x, l) ls ⊎ Memᴰ (x, l) t.queue
    pub reached : (e : LineageEdge) → Memᴰ e es → (k : ℕ) × Memᴰ (far dir e, k) ms × (k ≤ suc d)

  IsScan-cons :
      (ls ls' ms : Levels) {d : ℕ} (e : LineageEdge) (es : List LineageEdge) (s v : SearchState)
      {t : SearchState}
      → IsScan ls' ms d es v t
      → Within ls ls'
      → ((p : String × ℕ) → Memᴰ p s.queue → Memᴰ p v.queue)
      → ((x : String) (l : ℕ) → Memᴰ (x, l) ls' → Memᴰ (x, l) ls ⊎ Memᴰ (x, l) v.queue)
      → (k : ℕ) × Memᴰ (far dir e, k) ls' × (k ≤ suc d)
      → IsScan ls ms d (e ∷ es) s t
  IsScan-cons ls ls' ms {d} e es s v r sub keep fresh (k, j, le) = record {
    within = λ x l m. r.within x l (sub x l m);
    scanned = r.scanned;
    kept = λ p m. r.kept p (keep p m);
    fresh = λ x l m. elim (r.fresh x l m) [
      | inl old ↦ elim (fresh x l old) [ inl older ↦ inl older | inr q ↦ inr (r.kept (x, l) q) ]
      | inr q ↦ inr q
    ];
    reached = λ f m. by_edge f m;
  }
    where
      by_edge : (f : LineageEdge) → Memᴰ f (e ∷ es) → (k : ℕ) × Memᴰ (far dir f, k) ms × (k ≤ suc d)
      by_edge f (Memᴰ.head same) = (
        k,
        subst (λ (g : LineageEdge). Memᴰ (far dir g, k) ms) (sym same) (r.within (far dir e) k j),
        le,
      )
      by_edge f (Memᴰ.tail m) = r.reached f m

  pub scan-IsScan :
      (ls : Levels) (d : ℕ) (b : String) (es : List LineageEdge) (s : SearchState)
      → d < depth
      → Memᴰ (b, d) ls
      → ((e : LineageEdge) → Memᴰ e es → Memᴰ e edges × (near dir e ≡ b))
      → Scanned ls d s
      → (ms : Levels) × IsScan ls ms d es s (scan dir d es s)
  unfolding scan
  scan-IsScan ls d b [] s lt at sub i = (
    ls,
    record {
      within = λ x l m. m;
      scanned = i;
      kept = λ p m. m;
      fresh = λ x l m. inl m;
      reached = λ e m. elim m [ ];
    },
  )
  scan-IsScan ls d b (e ∷ es) s lt at sub i = elim (Bool-cases (includes s.visited (far dir e))) [
    | inl old ↦
        let (ms, r) = scan-IsScan ls d b es s lt at (λ x m. sub x (Memᴰ.tail m)) i in
        let (k, j) = i.known (far dir e) old in
        rw (old, scan)
          (
            ms,
            IsScan-cons ls ls ms e es s s r (λ x l m. m) (λ p m. m) (λ x l m. inl m)
                (k, j, i.bound (far dir e) k j),
          )
    | inr new ↦
        let (mem, n) = sub e (Memᴰ.head refl) in
        let ls' = (far dir e, suc d) ∷ ls in
        let v = visit dir d e s in
        let (ms, r) =
          scan-IsScan ls' d b es v lt (Memᴰ.tail at) (λ x m. sub x (Memᴰ.tail m))
            (visit-Scanned ls d b e s lt at mem n new i) in
        rw (new, scan)
          (
            ms,
            IsScan-cons ls ls' ms e es s v r (λ x l m. Memᴰ.tail m)
                (λ p m. Memᴰ-snoc_left s.queue (far dir e, suc d) m) (λ x l m. first_or x l s m)
                (suc d, Memᴰ.head refl, omega arith),
          )
  ]
    where
      first_or :
          (x : String) (l : ℕ) (s : SearchState)
          → Memᴰ (x, l) ((far dir e, suc d) ∷ ls)
          → Memᴰ (x, l) ls ⊎ Memᴰ (x, l) (s.queue ++ (far dir e, suc d) ∷ [])
      first_or x l s (Memᴰ.head k) = inr (
          subst (λ p. Memᴰ p (s.queue ++ (far dir e, suc d) ∷ [])) (sym k)
            (Memᴰ-snoc_last s.queue (far dir e, suc d)))
      first_or x l s (Memᴰ.tail k) = inl k
