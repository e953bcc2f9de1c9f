-- ===== src/Files/Decisions.antt =====
-- Which requests an OWNER decides on.
use mathlib.Core.List.{Memᴰ}
use digital_thread.Shared.{
  ℕ, String, ◌≡◌, refl, true, Bool, Option, none, some, List, [], ◌∷◌, map, arith, inl, inr, eq_iff,
  ◌==◌, truthy, filter, includes, find_passes, find-Memᴰ, Bool-cases, Option-cases,
}
use digital_thread.Access.Roles.{owner}
use digital_thread.Governance.Approvals.{Choice}
use digital_thread.Files.Tables.{
  AccessRequest, FileRecord, Product, Iteration, Approver, DecideOptions, Desk, ok, find_file,
}
use digital_thread.Files.Requests.{
  product_ids, in_products, owner_product_iteration_ids, find_request, iteration_of, in_scope,
  conclude, decide,
}

-- The partner owns the product of the iteration that the file belongs to, by the stored rows.
pub record IsOwn (partner : Option String) (file : String) (d : Desk) : Type 0 where
  pub product : Product
  pub iteration : Iteration
  pub row : FileRecord
  pub stored_product : Memᴰ product d.products
  pub stored_iteration : Memᴰ iteration d.iterations
  pub stored_row : Memᴰ row d.files
  pub is_file : row.id ≡ file
  pub of_iteration : row.iteration_id ≡ some iteration.id
  pub of_product : iteration.product_id ≡ some product.id
  pub of_partner : partner ≡ some product.owner_partner_id

-- What is among the keys of the rows that pass a test is the key of such a row.
includes-filter :
    {A : Type 0} (key : A → String) (p : A → Bool) (xs : List A) (k : String)
    → includes (map key (filter p xs)) k ≡ true
    → (x : A) × Memᴰ x xs × (p x ≡ true) × (key x ≡ k)
includes-filter key p [] k h = absurd (ground arith)
includes-filter key p (x ∷ xs) k h = elim (Bool-cases (p x)) [
  | inr out ↦ later (includes-filter key p xs k (rw out at h))
  | inl in_ ↦ elim (Bool-cases (key x == k)) [
    | inl same ↦ (x, Memᴰ.head refl, in_, (eq_iff (key x) k).0 same)
    | inr other ↦ later (includes-filter key p xs k (rw (in_, other) at h))
  ]
]
  where
    later :
        ((y : _) × Memᴰ y xs × (p y ≡ true) × (key y ≡ k))
        → (y : _) × Memᴰ y (x ∷ xs) × (p y ≡ true) × (key y ≡ k)
    later (y, m, passes, e) = (y, Memᴰ.tail m, passes, e)

in_products-some :
    (ids : List String) (o : Option String)
    → in_products ids o ≡ true
    → (id : String) × (o ≡ some id) × (includes ids id ≡ true)
in_products-some ids none h = absurd (ground arith)
in_products-some ids (some id) h = (id, refl, h)

truthy-some : (o : Option String) (s : String) → truthy o ≡ some s → o ≡ some s
truthy-some none s h = absurd (ground arith)
truthy-some (some t) s h = ground arith

iteration_of-some :
    (o : Option FileRecord) (it : String)
    → iteration_of o ≡ some it
    → (f : FileRecord) × (o ≡ some f) × (f.iteration_id ≡ some it)
iteration_of-some none it h = absurd (ground arith)
iteration_of-some (some f) it h = (f, refl, truthy-some f.iteration_id it h)

owner_product_iteration_ids_lem :
    (partner : Option String) (d : Desk) (it : String)
    → includes (owner_product_iteration_ids partner d) it ≡ true
    → (i : Iteration) × (p : Product) × Memᴰ i d.iterations
      × Memᴰ p d.products
      × (i.id ≡ it)
      × (i.product_id ≡ some p.id)
      × (partner ≡ some p.owner_partner_id)
unfolding owner_product_iteration_ids
owner_product_iteration_ids_lem partner d it h = elim (Option-cases (truthy partner)) [
  | inl e ↦ absurd (ground arith)
  | inr (own, e) ↦
      let (i, m, passes, same) =
        includes-filter (λ i. i.id) (λ i. in_products (product_ids own d.products) i.product_id)
          d.iterations it (rw (e, owner_product_iteration_ids) at h) in
      let (id, at_product, listed) =
        in_products-some (product_ids own d.products) i.product_id passes in
      let (p, n, owned, same_product) =
        includes-filter (λ p. p.id) (λ p. p.owner_partner_id == own) d.products id listed in
      (
        i,
        p,
        m,
        n,
        same,
        rw same_product at_product,
        rw ((eq_iff p.owner_partner_id own).0 owned) (truthy-some partner own e),
      )
]

in_products-IsOwn :
    (partner : Option String) (file : String) (d : Desk)
    → in_products (owner_product_iteration_ids partner d) (iteration_of (find_file file d)) ≡ true
    → IsOwn partner file d
unfolding find_file
in_products-IsOwn partner file d h =
    let (it, at_iteration, listed) =
      in_products-some (owner_product_iteration_ids partner d) (iteration_of (find_file file d))
        h in
    let (f, found, of) = iteration_of-some (find_file file d) it at_iteration in
    let (i, p, m, n, same, of_p, own) = owner_product_iteration_ids_lem partner d it listed in
    record {
      product = p;
      iteration = i;
      row = f;
      stored_product = n;
      stored_iteration = m;
      stored_row = find-Memᴰ (λ x. x.id == file) d.files f found;
      is_file = (eq_iff f.id file).0 (find_passes (λ x. x.id == file) d.files f found);
      of_iteration = rw same of;
      of_product = of_p;
      of_partner = own;
    }

module _ (clip : String → String) where
  -- If an OWNER decides on a request, its file is a stored one, of a stored iteration whose product
  -- the OWNER's partner owns.
  pub decide_scope :
      (now : ℕ) (id : String) (a : Approver) (c : Choice) (o : DecideOptions) (d : Desk)
      (r : AccessRequest)
      → a.role ≡ owner
      → (decide clip now id a c o d).0 ≡ ok r
      → IsOwn a.partner_id r.file_id d
  unfolding decide conclude in_scope
  decide_scope now id a c o d r p h =
      in_products-IsOwn a.partner_id r.file_id d (elim (Option-cases (find_request id d)) [
        | inl e ↦ absurd (ground arith)
        | inr (q, e) ↦ ground arith
      ])
