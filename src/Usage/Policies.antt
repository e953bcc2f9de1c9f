-- ===== src/Usage/Policies.antt =====
-- What the validator accepts, and what a policy permits.
use digital_thread.Shared.{
  ℕ, zero, suc, String, ◌≡◌, refl, ◌↔◌, inl, inr, ◌∙◌, Bool, true, false, not, ◌&&◌, ◌||◌, Option,
  none, some, List, [], ◌∷◌, ◌++◌, arith, eq_iff, ◌==◌, if◌then◌else◌, is_some, truthy, get_or, any,
  all, any-append, any-Memᴰ, any_at, includes, Bool-cases, Option-cases,
}
use mathlib.Core.List.{Memᴰ}
use digital_thread.Json.{Json}
use digital_thread.Usage.Odrl

-- A rule with an action that has a name, and with both parts of every constraint.
abbrev pub rule_ok : Odrl.Rule → Bool
rule_ok r =
    not (Odrl.no_action r.action)
    && (is_some (truthy (Odrl.action_name r.action)) && all Odrl.is_complete r.constraint)

-- A list of such rules, or nothing that counts as true.
abbrev pub bucket_ok : Odrl.Bucket → Bool
bucket_ok Odrl.absent = true
bucket_ok (Odrl.rules rs) = all rule_ok rs
bucket_ok (Odrl.chars zero) = true
bucket_ok (Odrl.chars (suc n)) = false
bucket_ok (Odrl.other t n) = not t

not_and : (a b : Bool) → (not a || not b) ≡ not (a && b)
not_and true b = refl
not_and false b = refl

constraint_issue_errors :
    (l : Odrl.Label) (i : ℕ) (c : Odrl.Constraint)
    → any Odrl.is_error (Odrl.constraint_issue l i c) ≡ not (Odrl.is_complete c)
unfolding Odrl.constraint_issue
constraint_issue_errors l i c = elim (Bool-cases (Odrl.is_complete c)) [
  | inl e ↦ elim (Bool-cases (includes Odrl.known_operators (get_or c.operator ""))) [
    | inl k ↦ rw (e, k) refl
    | inr k ↦ rw (e, k) refl
  ]
  | inr e ↦ rw e refl
]

constraint_issues_errors :
    (l : Odrl.Label) (i : ℕ) (cs : List Odrl.Constraint)
    → any Odrl.is_error (Odrl.constraint_issues l i cs) ≡ not (all Odrl.is_complete cs)
unfolding Odrl.constraint_issues
constraint_issues_errors l i [] = refl
constraint_issues_errors l i (c ∷ cs) =
    any-append Odrl.is_error (Odrl.constraint_issue l i c) (Odrl.constraint_issues l i cs)
    ∙ rw (constraint_issue_errors l i c, constraint_issues_errors l i cs)
        (not_and (Odrl.is_complete c) (all Odrl.is_complete cs))

action_issues_errors :
    (l : Odrl.Label) (i : ℕ) (a : Option String)
    → any Odrl.is_error (Odrl.action_issues l i a) ≡ not (is_some (truthy a))
unfolding Odrl.action_issues
action_issues_errors l i a = ground arith

validate_rule_errors :
    (l : Odrl.Label) (i : ℕ) (r : Odrl.Rule)
    → any Odrl.is_error (Odrl.validate_rule l i r) ≡ not (rule_ok r)
unfolding Odrl.validate_rule
validate_rule_errors l i r = elim (Bool-cases (Odrl.no_action r.action)) [
  | inl e ↦ rw (e, Odrl.validate_rule) refl
  | inr e ↦
      rw (e, Odrl.validate_rule)
        (any-append Odrl.is_error (Odrl.action_issues l i (Odrl.action_name r.action))
            (Odrl.constraint_issues l i r.constraint)
          ∙ ground (
            arith,
            action_issues_errors l i (Odrl.action_name r.action),
            constraint_issues_errors l i r.constraint,
          ))
]

validate_rules_errors :
    (l : Odrl.Label) (i : ℕ) (rs : List Odrl.Rule)
    → any Odrl.is_error (Odrl.validate_rules l i rs) ≡ not (all rule_ok rs)
unfolding Odrl.validate_rules
validate_rules_errors l i [] = refl
validate_rules_errors l i (r ∷ rs) =
    any-append Odrl.is_error (Odrl.validate_rule l i r) (Odrl.validate_rules l (suc i) rs)
    ∙ rw (validate_rule_errors l i r, validate_rules_errors l (suc i) rs)
        (not_and (rule_ok r) (all rule_ok rs))

validate_bucket_errors :
    (l : Odrl.Label) (b : Odrl.Bucket)
    → any Odrl.is_error (Odrl.validate_bucket l b) ≡ not (bucket_ok b)
unfolding Odrl.validate_bucket
validate_bucket_errors l Odrl.absent = refl
validate_bucket_errors l (Odrl.rules rs) = validate_rules_errors l 0 rs
validate_bucket_errors l (Odrl.chars zero) = refl
validate_bucket_errors l (Odrl.chars (suc n)) = refl
validate_bucket_errors l (Odrl.other true n) = refl
validate_bucket_errors l (Odrl.other false n) = refl

type_issues_errors :
    (t : Option String) → any Odrl.is_error (Odrl.type_issues t) ≡ not (Odrl.is_type t)
unfolding Odrl.type_issues
type_issues_errors none = refl
type_issues_errors (some t) = elim (Bool-cases (t == "")) [
  | inl e ↦ rw ((eq_iff t "").0 e) refl
  | inr e ↦ ground arith
]

-- A policy is valid exactly when its type is known and each of its three lists is missing, empty as a
-- value, or a list of rules each with a named action and both parts of every constraint; what is
-- unknown otherwise only warns.
pub validate_odrl_lem :
    (p : Odrl.OdrlPolicy)
    → (Odrl.validate_odrl (some p)).valid ≡ (
        Odrl.is_type p.type_name
        && (bucket_ok p.permission && (bucket_ok p.prohibition && bucket_ok p.duty)))
unfolding Odrl.validate_odrl Odrl.policy_issues
validate_odrl_lem p =
    let t = Odrl.type_issues p.type_name in
    let a = Odrl.validate_bucket Odrl.Label.permission p.permission in
    let b = Odrl.validate_bucket Odrl.Label.prohibition p.prohibition in
    let c = Odrl.validate_bucket Odrl.Label.duty p.duty in
    let d = if Odrl.has_any p then [] else Odrl.issue Odrl.warning Odrl.root Odrl.no_rules ∷ [] in
    let quiet : any Odrl.is_error d ≡ false = ground arith in
    rw
      (
        any-append Odrl.is_error t (a ++ (b ++ (c ++ d))),
        any-append Odrl.is_error a (b ++ (c ++ d)),
        any-append Odrl.is_error b (c ++ d),
        any-append Odrl.is_error c d,
        quiet,
        type_issues_errors p.type_name,
        validate_bucket_errors Odrl.Label.permission p.permission,
        validate_bucket_errors Odrl.Label.prohibition p.prohibition,
        validate_bucket_errors Odrl.Label.duty p.duty,
      )
      (ground arith)

-- The rules that the evaluation goes through; `none` where it cannot iterate.
abbrev pub entries : Odrl.Bucket → Option (List Odrl.Rule)
entries Odrl.absent = some []
entries (Odrl.rules rs) = some rs
entries (Odrl.chars n) = some []
entries (Odrl.other t n) = none

module _ (less less_eq greater greater_eq : Option Json → Json → Bool)
    (ctx : List (String × Json)) where
  abbrev status : Odrl.Constraint → Option Bool
  status = Odrl.satisfied less less_eq greater greater_eq ctx

  -- The constraints hold, up to the first whose operator is not evaluated: the rest is not read.
  pub data Passes : List Odrl.Constraint → Type 0 where
    none_left : Passes []
    holds :
        (c : Odrl.Constraint) (cs : List Odrl.Constraint)
        → Odrl.satisfied less less_eq greater greater_eq ctx c ≡ some true
        → Passes cs
        → Passes (c ∷ cs)
    not_evaluated :
        (c : Odrl.Constraint) (cs : List Odrl.Constraint)
        → Odrl.satisfied less less_eq greater greater_eq ctx c ≡ none
        → Passes (c ∷ cs)

  eval_constraints-Passes :
      (cs : List Odrl.Constraint)
      → Odrl.eval_constraints less less_eq greater greater_eq ctx cs ≡ true
      → Passes cs
  unfolding Odrl.eval_constraints
  eval_constraints-Passes [] h = none_left
  eval_constraints-Passes (c ∷ cs) h = elim (Option-cases (status c)) [
    | inl e ↦ not_evaluated c cs e
    | inr (true, e) ↦ holds c cs e (eval_constraints-Passes cs (ground arith))
    | inr (false, e) ↦ absurd (ground arith)
  ]

  Passes-eval_constraints :
      {cs : List Odrl.Constraint}
      → Passes cs
      → Odrl.eval_constraints less less_eq greater greater_eq ctx cs ≡ true
  unfolding Odrl.eval_constraints
  Passes-eval_constraints none_left = refl
  Passes-eval_constraints (holds c cs e p) =
      rw (e, Odrl.eval_constraints) (Passes-eval_constraints p)
  Passes-eval_constraints (not_evaluated c cs e) = rw (e, Odrl.eval_constraints) refl

  -- The rule is about the action, and its constraints pass.
  abbrev pub Applies : String → Odrl.Rule → Type 0
  Applies a r = (Odrl.action_name r.action ≡ some a) × Passes r.constraint

  abbrev rule_applies : String → Odrl.Rule → Bool
  rule_applies = Odrl.applies less less_eq greater greater_eq ctx

  rule_applies-Applies : (a : String) (r : Odrl.Rule) → rule_applies a r ≡ true → Applies a r
  rule_applies-Applies a r h = elim (Option-cases (Odrl.action_name r.action)) [
    | inl e ↦ absurd (ground arith)
    | inr (s, e) ↦ (ground (arith, eq_iff s a), eval_constraints-Passes r.constraint (ground arith))
  ]

  Applies-rule_applies : (a : String) (r : Odrl.Rule) → Applies a r → rule_applies a r ≡ true
  Applies-rule_applies a r (e, p) = ground (arith, eq_iff a a, Passes-eval_constraints p)

  any_applies-entries :
      (a : String) (b : Odrl.Bucket)
      → Odrl.any_applies less less_eq greater greater_eq ctx a b
        ≡ elim (entries b) [ none ↦ none | some rs ↦ some (any (rule_applies a) rs) ]
  unfolding Odrl.any_applies
  any_applies-entries a Odrl.absent = refl
  any_applies-entries a (Odrl.rules rs) = refl
  any_applies-entries a (Odrl.chars n) = refl
  any_applies-entries a (Odrl.other t n) = refl

  -- An action is allowed exactly when both lists of rules can be gone through, a permission applies to
  -- it and no prohibition does. A rule applies to the action that it names when its constraints
  -- hold, those being read up to the first whose operator is not evaluated.
  pub evaluate_action_lem :
      (p : Odrl.OdrlPolicy) (a : String)
      → (Odrl.evaluate_action less less_eq greater greater_eq ctx p a ≡ Odrl.allowed) ↔ (
          (granted : List Odrl.Rule) × (denied : List Odrl.Rule) × (entries p.permission
            ≡ some granted)
          × (entries p.prohibition ≡ some denied)
          × ((r : Odrl.Rule) × Memᴰ r granted × Applies a r)
          × ((r : Odrl.Rule) → Memᴰ r denied → Applies a r → ⊥))
  unfolding Odrl.evaluate_action
  evaluate_action_lem p a = (
    λ h. elim (Option-cases (entries p.prohibition)) [
      | inl e ↦ absurd (ground (arith, any_applies-entries a p.prohibition))
      | inr (denied, e) ↦ elim (Option-cases (entries p.permission)) [
        | inl k ↦ absurd (
            ground (arith, any_applies-entries a p.prohibition, any_applies-entries a p.permission))
        | inr (granted, k) ↦
            let (yes_some, no_some) : (any (rule_applies a) granted ≡ true)
                × (any (rule_applies a) denied ≡ false) =
              ground
                (arith, any_applies-entries a p.prohibition, any_applies-entries a p.permission) in
            let (r, m, q) = any-Memᴰ (rule_applies a) granted yes_some in
            (
              granted,
              denied,
              k,
              e,
              (r, m, rule_applies-Applies a r q),
              λ s n w. ground (arith, any_at (rule_applies a) n (Applies-rule_applies a s w)),
            )
      ]
    ],
    λ (granted, denied, k, e, (r, m, q), out).
        let given = any_at (rule_applies a) m (Applies-rule_applies a r q) in
        elim (Bool-cases (any (rule_applies a) denied)) [
          | inl bad ↦
              let (s, n, w) = any-Memᴰ (rule_applies a) denied bad in
              absurd (out s n (rule_applies-Applies a s w))
          | inr fine ↦
              ground
                (arith, any_applies-entries a p.prohibition, any_applies-entries a p.permission)
        ],
  )
