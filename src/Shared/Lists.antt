-- ===== src/Shared/Lists.antt =====
-- List functions over the native numbers and with Boolean tests, and their lemmas.
use Prim.Native.Nat.{ℕ, suc, ◌+◌, ◌≤◌}
use Prim.Native.String.{String}
use mathlib.Core.Path.{◌≡◌, refl}
use mathlib.Core.Logic.{◌⊎◌, inl, inr}
use mathlib.Core.Bool.{Bool, true, false, ◌&&◌, ◌||◌}
use mathlib.Core.Option.{Option, none, some}
use mathlib.Core.List.{List, [], ◌∷◌, ◌++◌, Memᴰ}
use native.Mathlib.Omega.{arith}
use text.Mathlib.TextEquality.{eq_iff}
use digital_thread.Shared.Tests.{◌==◌, if◌then◌else◌, Bool-cases}

module _ {ℓ} {A : Type ℓ} where
  abbrev pub length : List A → ℕ
  length [] = 0
  length (x ∷ xs) = suc (length xs)

  -- `xs.some(p)`
  abbrev pub any : (A → Bool) → List A → Bool
  any p [] = false
  any p (x ∷ xs) = p x || any p xs

  -- `xs.every(p)`
  abbrev pub all : (A → Bool) → List A → Bool
  all p [] = true
  all p (x ∷ xs) = p x && all p xs

  -- `xs.find(p)`
  abbrev pub find : (A → Bool) → List A → Option A
  find p [] = none
  find p (x ∷ xs) = if p x then some x else find p xs

  -- `xs.filter(p)`
  abbrev pub filter : (A → Bool) → List A → List A
  filter p [] = []
  filter p (x ∷ xs) = let rest = filter p xs in if p x then x ∷ rest else rest

  -- `update` of the row that a key finds
  abbrev pub update_first : (A → Bool) → (A → A) → List A → List A
  update_first p f [] = []
  update_first p f (x ∷ xs) = let rest = update_first p f xs in if p x then f x ∷ xs else x ∷ rest

  -- How many elements pass the test.
  abbrev pub count : (A → Bool) → List A → ℕ
  count p [] = 0
  count p (x ∷ xs) = (if p x then 1 else 0) + count p xs

  pub length-append : (xs ys : List A) → length (xs ++ ys) ≡ length xs + length ys
  length-append [] ys = omega arith
  length-append (x ∷ xs) ys = omega (arith, length-append xs ys)

  pub any-append : (p : A → Bool) (xs ys : List A) → any p (xs ++ ys) ≡ (any p xs || any p ys)
  any-append p [] ys = refl
  any-append p (x ∷ xs) ys = ground (arith, any-append p xs ys)

  pub any-Memᴰ : (p : A → Bool) (xs : List A) → any p xs ≡ true → (a : A) × Memᴰ a xs × (p a ≡ true)
  any-Memᴰ p [] h = absurd (ground arith)
  any-Memᴰ p (x ∷ xs) h = elim (Bool-cases (p x)) [
    | inl e ↦ (x, Memᴰ.head refl, e)
    | inr e ↦ let (a, m, k) = any-Memᴰ p xs (ground arith) in (a, Memᴰ.tail m, k)
  ]

  pub any_at : (p : A → Bool) {a : A} {xs : List A} → Memᴰ a xs → p a ≡ true → any p xs ≡ true
  any_at p {xs = []} m h = elim m [ ]
  any_at p {xs = x ∷ xs} (Memᴰ.head e) h = ground arith
  any_at p {xs = x ∷ xs} (Memᴰ.tail m) h = ground (arith, any_at p {xs = xs} m h)

  pub length-filter : (p : A → Bool) (xs : List A) → length (filter p xs) ≡ count p xs
  length-filter p [] = refl
  length-filter p (x ∷ xs) = ground (arith, length-filter p xs)

  pub count-le-length : (p : A → Bool) (xs : List A) → count p xs ≤ length xs
  count-le-length p [] = omega arith
  count-le-length p (x ∷ xs) = ground (arith, count-le-length p xs)

  pub find_passes : (p : A → Bool) (xs : List A) (a : A) → find p xs ≡ some a → p a ≡ true
  find_passes p [] a h = ground arith
  find_passes p (x ∷ xs) a h = ground (arith, find_passes p xs a)

  pub find-Memᴰ : (p : A → Bool) (xs : List A) (a : A) → find p xs ≡ some a → Memᴰ a xs
  find-Memᴰ p [] a h = absurd (ground arith)
  find-Memᴰ p (x ∷ xs) a h = elim (Bool-cases (p x)) [
    | inl e ↦ Memᴰ.head (ground arith)
    | inr e ↦ Memᴰ.tail (find-Memᴰ p xs a (ground arith))
  ]

  -- What stands in a table after one row was updated.
  pub update_first-Memᴰ :
      (p : A → Bool) (f : A → A) (xs : List A) {b : A}
      → Memᴰ b (update_first p f xs)
      → Memᴰ b xs ⊎ ((a : A) × (find p xs ≡ some a) × (b ≡ f a))
  update_first-Memᴰ p f [] m = elim m [ ]
  update_first-Memᴰ p f (x ∷ xs) {b} m = elim (Bool-cases (p x)) [
    | inl e ↦ here e (rw e at m)
    | inr e ↦ there e (rw e at m) (λ k. update_first-Memᴰ p f xs k)
  ]
    where
      here :
          p x ≡ true
          → Memᴰ b (f x ∷ xs)
          → Memᴰ b (x ∷ xs) ⊎ ((a : A) × (find p (x ∷ xs) ≡ some a) × (b ≡ f a))
      here e (Memᴰ.head k) = inr (x, rw e refl, k)
      here e (Memᴰ.tail k) = inl (Memᴰ.tail k)

      there :
          p x ≡ false
          → Memᴰ b (x ∷ update_first p f xs)
          → (Memᴰ b (update_first p f xs)
              → Memᴰ b xs ⊎ ((a : A) × (find p xs ≡ some a) × (b ≡ f a)))
          → Memᴰ b (x ∷ xs) ⊎ ((a : A) × (find p (x ∷ xs) ≡ some a) × (b ≡ f a))
      there e (Memᴰ.head k) ih = inl (Memᴰ.head k)
      there e (Memᴰ.tail k) ih = elim (ih k) [
        | inl old ↦ inl (Memᴰ.tail old)
        | inr (a, found, same) ↦ inr (a, rw e found, same)
      ]

  pub all_at : (p : A → Bool) {a : A} {xs : List A} → all p xs ≡ true → Memᴰ a xs → p a ≡ true
  all_at p {xs = []} h m = elim m [ ]
  all_at p {xs = x ∷ xs} h (Memᴰ.head e) = ground arith
  all_at p {xs = x ∷ xs} h (Memᴰ.tail m) = all_at p {xs = xs} (ground arith) m

module _ {ℓ} {A : Type ℓ} (p q : A → Bool) where
  pub all_mono :
      ((x : A) → p x ≡ true → q x ≡ true) → (xs : List A) → all p xs ≡ true → all q xs ≡ true
  all_mono h [] e = refl
  all_mono h (x ∷ xs) e = ground (arith, h x, all_mono h xs)

  pub any-false_mono :
      ((x : A) → p x ≡ false → q x ≡ false) → (xs : List A) → any p xs ≡ false → any q xs ≡ false
  any-false_mono h [] e = refl
  any-false_mono h (x ∷ xs) e = ground (arith, h x, any-false_mono h xs)

-- `ids.includes(id)`, and membership in a `Set` of strings
abbrev pub includes : List String → String → Bool
includes [] id = false
includes (x ∷ xs) id = x == id || includes xs id

-- `Array.from(new Set(ids))`: the first occurrence of each, in order.
unfoldable pub unique_from : List String → List String → List String
unique_from seen [] = []
unique_from seen (x ∷ xs) =
    let rest = unique_from (x ∷ seen) xs in
    if includes seen x then unique_from seen xs else x ∷ rest

unfoldable pub unique : List String → List String
unfolding unique_from
unique xs = unique_from [] xs

pub includes-append :
    (xs ys : List String) (id : String)
    → includes (xs ++ ys) id ≡ (includes xs id || includes ys id)
includes-append [] ys id = refl
includes-append (x ∷ xs) ys id = ground (arith, includes-append xs ys id)

includes-unique_from :
    (seen xs : List String) (id : String)
    → includes (unique_from seen xs) id
      ≡ (if includes seen id then includes (unique_from seen xs) id else includes xs id)
unfolding unique_from
includes-unique_from seen [] id = ground arith
includes-unique_from seen (x ∷ xs) id =
    ground
      (arith, eq_iff x id, includes-unique_from seen xs id, includes-unique_from (x ∷ seen) xs id)

-- Removing duplicates keeps the members.
pub includes-unique : (xs : List String) (id : String) → includes (unique xs) id ≡ includes xs id
unfolding unique
includes-unique xs id = includes-unique_from [] xs id

pub includes-Memᴰ : (xs : List String) (id : String) → Memᴰ id xs → includes xs id ≡ true
includes-Memᴰ [] id m = elim m [ ]
includes-Memᴰ (x ∷ xs) id (Memᴰ.head e) = ground (arith, eq_iff x id)
includes-Memᴰ (x ∷ xs) id (Memᴰ.tail m) = ground (arith, includes-Memᴰ xs id m)
