-- ===== src/Files/Levels.antt =====
-- The level that the files of an output get by default.
use mathlib.Core.Option.{some-injective}
use digital_thread.Shared.{
  eq_refl, sym, subst, String, ◌≡◌, refl, ◌≢◌, ◌↔◌, inl, inr, true, Option, none, some, List, [],
  ◌∷◌, arith, eq_iff, is_some, get_or, find, Bool-cases, Option-cases,
}
use digital_thread.Json.{Json, null, bool, num, str, arr, obj, Items, items, get_field, as_string}
use digital_thread.Engine.Store.{Column, parsed}
use digital_thread.Files.Readable.{
  classification_rank, same_as, has_id, stored_outputs, level_of, declared_level,
  resolve_default_classification,
}

abbrev HasId : String → Json → Type 0
HasId id v = get_field "id" v ≡ some (str id)

-- The first of the values with the id.
pub data IsFirst (id : String) : List Json → Json → Type 0 where
  here : {x : Json} {xs : List Json} → HasId id x → IsFirst id (x ∷ xs) x
  there : {x y : Json} {ys : List Json} → ¬ HasId id y → IsFirst id ys x → IsFirst id (y ∷ ys) x

-- The node declares the level, one that is known, for the output.
pub record IsDeclared (nodes : List Json) (node slot level : String) : Type 0 where
  pub stored_node : Json
  pub output : Json
  pub first_node : IsFirst node nodes stored_node
  pub first_output : IsFirst slot (stored_outputs stored_node) output
  pub declares : get_field "defaultClassification" output ≡ some (str level)
  pub known : is_some (classification_rank level) ≡ true

as_string-some : (o : Option Json) (s : String) → as_string o ≡ some s → o ≡ some (str s)
as_string-some none s h = absurd (ground arith)
as_string-some (some null) s h = absurd (ground arith)
as_string-some (some (bool b)) s h = absurd (ground arith)
as_string-some (some (num n)) s h = absurd (ground arith)
as_string-some (some (arr vs)) s h = absurd (ground arith)
as_string-some (some (obj fs)) s h = absurd (ground arith)
as_string-some (some (str t)) s h = ground arith

same_as-some : (o : Option String) (s : String) → same_as o s ≡ true → o ≡ some s
same_as-some none s h = absurd (ground arith)
same_as-some (some t) s h = rw ((eq_iff t s).0 h) refl

has_id-HasId : (id : String) (v : Json) → has_id id v ≡ true → HasId id v
has_id-HasId id v h =
    as_string-some (get_field "id" v) id (same_as-some (as_string (get_field "id" v)) id h)

HasId-has_id : (id : String) (v : Json) → HasId id v → has_id id v ≡ true
HasId-has_id id v h = rw h (eq_refl id)

find-IsFirst :
    (id : String) (xs : List Json) (x : Json) → find (has_id id) xs ≡ some x → IsFirst id xs x
find-IsFirst id [] x h = absurd (ground arith)
find-IsFirst id (y ∷ ys) x h = elim (Bool-cases (has_id id y)) [
  | inl this ↦
      let same : y ≡ x = ground arith in
      subst (IsFirst id (y ∷ ys)) same (here (has_id-HasId id y this))
  | inr other ↦
      there (λ k. absurd (ground (arith, HasId-has_id id y k)))
        (find-IsFirst id ys x (rw other at h))
]

IsFirst-find :
    (id : String) (xs : List Json) (x : Json) → IsFirst id xs x → find (has_id id) xs ≡ some x
IsFirst-find id [] x f = elim f [ ]
IsFirst-find id (y ∷ ys) x (here h) = rw (HasId-has_id id x h) refl
IsFirst-find id (y ∷ ys) x (there ne f) = elim (Bool-cases (has_id id y)) [
  | inl this ↦ absurd (ne (has_id-HasId id y this))
  | inr other ↦ rw other (IsFirst-find id ys x f)
]

level_of-known :
    (o : Option Json) (level : String)
    → level ≢ "INTERNAL"
    → level_of (as_string o) ≡ level
    → (o ≡ some (str level)) × (is_some (classification_rank level) ≡ true)
level_of-known o level other h = elim (Option-cases (as_string o)) [
  | inl e ↦ absurd (other (sym (rw e at h)))
  | inr (c, e) ↦ elim (Bool-cases (is_some (classification_rank c))) [
    | inr unknown ↦ absurd (other (sym (rw (e, unknown) at h)))
    | inl known ↦
        let same : c ≡ level = rw (e, known) at h in
        (rw (← same) (as_string-some o c e), rw (← same) known)
  ]
]

declared_level-IsDeclared :
    (nodes : List Json) (node slot level : String)
    → level ≢ "INTERNAL"
    → declared_level nodes node slot ≡ level
    → IsDeclared nodes node slot level
unfolding declared_level
declared_level-IsDeclared nodes node slot level other h =
    elim (Option-cases (find (has_id node) nodes)) [
      | inl e ↦ absurd (other (sym (rw (declared_level, e) at h)))
      | inr (n, e) ↦ elim (Option-cases (find (has_id slot) (stored_outputs n))) [
        | inl k ↦ absurd (other (sym (rw (declared_level, e, k) at h)))
        | inr (o, k) ↦
            let (declares, known) =
              level_of-known (get_field "defaultClassification" o) level other
                (rw (declared_level, e, k) at h) in
            record {
              stored_node = n;
              output = o;
              first_node = find-IsFirst node nodes n e;
              first_output = find-IsFirst slot (stored_outputs n) o k;
              declares = declares;
              known = known;
            }
      ]
    ]

IsDeclared-declared_level :
    (nodes : List Json) (node slot level : String)
    → IsDeclared nodes node slot level
    → declared_level nodes node slot ≡ level
unfolding declared_level
IsDeclared-declared_level nodes node slot level d =
    rw
      (
        declared_level,
        IsFirst-find node nodes d.stored_node d.first_node,
        IsFirst-find slot (stored_outputs d.stored_node) d.output d.first_output,
        d.declares,
        d.known,
      )
      refl

module _ (find_stored : String → Option (Column Json)) (it node : String)
    (slot : Option String) where
  -- Over a stored workflow, the default level of an output is another one than INTERNAL exactly if it
  -- is a known level and the first output with the id, `default` if none is given, of the first node
  -- with the id declares it.
  pub resolve_default_classification_lem :
      (nodes : Items) (level : String)
      → find_stored it ≡ some (parsed (arr nodes))
      → level ≢ "INTERNAL"
      → (resolve_default_classification find_stored it node slot ≡ some level)
        ↔ IsDeclared (items nodes) node (get_or slot "default") level
  unfolding resolve_default_classification
  resolve_default_classification_lem nodes level at other = (
    λ h.
        declared_level-IsDeclared (items nodes) node (get_or slot "default") level other
          (some-injective _ _ (rw (resolve_default_classification, at) at h)),
    λ d.
        rw
          (
            resolve_default_classification,
            at,
            IsDeclared-declared_level (items nodes) node (get_or slot "default") level d,
          )
          refl,
  )
