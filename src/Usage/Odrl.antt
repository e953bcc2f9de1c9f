-- ===== src/Usage/Odrl.antt =====
-- backend/src/usage-framework/odrl.validator.ts. The elements of the lists of rules and constraints are
-- taken to be objects, and the constraints of a rule a list; what else a policy read from JSON may
-- hold is written out. The path of an issue is data in place of its text.
use digital_thread.Shared.{
  ℕ, zero, suc, ◌+◌, String, Bool, true, false, not, ◌&&◌, Option, none, some, List, [], ◌∷◌, ◌++◌,
  ◌==◌, if◌then◌else◌, eqb, ltb, get_or, is_some, truthy, any, length, includes,
}
use digital_thread.Shared.Assoc.{lookup}
use digital_thread.Json.{Json, null, bool, num, str}

-- `action`: missing (or null), a string, or an object with a `value`.
pub data ActionRef : Type 0 where
  missing : ActionRef
  named : String → ActionRef
  object : (value : Option String) → ActionRef

pub record Constraint : Type 0 where
  pub left_operand : Option String
  pub operator : Option String
  pub right_operand : Json

pub record Rule : Type 0 where
  pub action : ActionRef
  pub constraint : List Constraint

-- `permission`, `prohibition` or `duty`: missing (or null), a list of rules, a text of some length,
-- or a value that cannot be iterated, with whether it counts as true and its `length`, if any.
pub data Bucket : Type 0 where
  absent : Bucket
  rules : List Rule → Bucket
  chars : ℕ → Bucket
  other : (truthy : Bool) (length : ℕ) → Bucket

pub record OdrlPolicy : Type 0 where
  pub type_name : Option String
  pub permission : Bucket
  pub prohibition : Bucket
  pub duty : Bucket

pub data Severity : Type 0 where
  error warning : Severity

pub data Label : Type 0 where
  permission prohibition duty : Label

pub data Place : Type 0 where
  root at_type : Place
  bucket : Label → Place
  rule_action rule_constraint rule_operator : Label → ℕ → Place

pub data Problem : Type 0 where
  empty_policy type_missing unknown_type must_be_array missing_action malformed_action
        unknown_action incomplete_constraint unknown_operator no_rules :
      Problem

pub record Issue : Type 0 where
  pub severity : Severity
  pub place : Place
  pub problem : Problem

pub record OdrlValidation : Type 0 where
  pub valid : Bool
  pub issues : List Issue

-- `KNOWN_ACTIONS`
abbrev pub known_actions : List String
known_actions =
    "use" ∷ "transfer" ∷ "display" ∷ "read" ∷ "modify" ∷ "distribute" ∷ "reproduce" ∷ "derive"
    ∷ "aggregate" ∷ "archive" ∷ []

-- `KNOWN_OPERATORS`
abbrev pub known_operators : List String
known_operators = "eq" ∷ "neq" ∷ "lt" ∷ "lteq" ∷ "gt" ∷ "gteq" ∷ "isA" ∷ "hasPart" ∷ "isPartOf" ∷ []

abbrev pub known_types : List String
known_types = "Policy" ∷ "Set" ∷ "Agreement" ∷ "Offer" ∷ []

-- `typeof rule.action === 'string' ? rule.action : rule.action?.value`
abbrev pub action_name : ActionRef → Option String
action_name missing = none
action_name (named s) = some s
action_name (object v) = v

-- `if (!rule.action)`
abbrev pub no_action : ActionRef → Bool
no_action missing = true
no_action (named s) = s == ""
no_action (object v) = false

abbrev pub issue : Severity → Place → Problem → Issue
issue s p q = record { severity = s; place = p; problem = q }

unfoldable pub action_issues : Label → ℕ → Option String → List Issue
action_issues l i a = elim (truthy a) [
  | none ↦ issue error (rule_action l i) malformed_action ∷ []
  | some name ↦
      if includes known_actions name
      then []
      else issue warning (rule_action l i) unknown_action ∷ []
]

abbrev pub is_complete : Constraint → Bool
is_complete c = is_some (truthy c.left_operand) && is_some (truthy c.operator)

unfoldable pub constraint_issue : Label → ℕ → Constraint → List Issue
constraint_issue l i c =
    if is_complete c
    then if includes known_operators (get_or c.operator "")
      then []
      else issue warning (rule_operator l i) unknown_operator ∷ []
    else issue error (rule_constraint l i) incomplete_constraint ∷ []

unfoldable pub constraint_issues : Label → ℕ → List Constraint → List Issue
constraint_issues l i [] = []
constraint_issues l i (c ∷ cs) = constraint_issue l i c ++ constraint_issues l i cs

-- `validateRule`
unfoldable pub validate_rule : Label → ℕ → Rule → List Issue
validate_rule l i r =
    if no_action r.action
    then issue error (rule_action l i) missing_action ∷ []
    else action_issues l i (action_name r.action) ++ constraint_issues l i r.constraint

-- `list.forEach((r, i) => …)`
unfoldable pub validate_rules : Label → ℕ → List Rule → List Issue
validate_rules l i [] = []
validate_rules l i (r ∷ rs) = validate_rule l i r ++ validate_rules l (suc i) rs

unfoldable pub validate_bucket : Label → Bucket → List Issue
validate_bucket l absent = []
validate_bucket l (rules rs) = validate_rules l 0 rs
validate_bucket l (chars zero) = []
validate_bucket l (chars (suc n)) = issue error (bucket l) must_be_array ∷ []
validate_bucket l (other true n) = issue error (bucket l) must_be_array ∷ []
validate_bucket l (other false n) = []

-- `policy.permission?.length ?? 0`
abbrev pub bucket_length : Bucket → ℕ
bucket_length absent = 0
bucket_length (rules rs) = length rs
bucket_length (chars n) = n
bucket_length (other t n) = n

abbrev pub has_any : OdrlPolicy → Bool
has_any p = ltb 0 (bucket_length p.permission + bucket_length p.prohibition + bucket_length p.duty)

abbrev pub is_type : Option String → Bool
is_type none = false
is_type (some t) = includes known_types t

unfoldable pub type_issues : Option String → List Issue
type_issues t =
    (if is_some (truthy t) then [] else issue error root type_missing ∷ [])
    ++ (if is_type t then [] else issue error at_type unknown_type ∷ [])

abbrev pub is_error : Issue → Bool
is_error i = elim i.severity [ error ↦ true | warning ↦ false ]

unfoldable pub policy_issues : OdrlPolicy → List Issue
policy_issues p =
    type_issues p.type_name
    ++ (validate_bucket permission p.permission
        ++ (validate_bucket prohibition p.prohibition
            ++ (validate_bucket duty p.duty
                ++ (if has_any p then [] else issue warning root no_rules ∷ []))))

-- `validateOdrl`; `none` is a policy that is null or undefined.
unfoldable pub validate_odrl : Option OdrlPolicy → OdrlValidation
validate_odrl none = record { valid = false; issues = issue error root empty_policy ∷ [] }
validate_odrl (some p) =
    let found = policy_issues p in record { valid = not (any is_error found); issues = found }

-- `===` between a value of the context and one that a policy holds: two objects are never the same.
abbrev pub strict_eq : Option Json → Json → Bool
strict_eq (some null) null = true
strict_eq (some (bool true)) (bool true) = true
strict_eq (some (bool false)) (bool false) = true
strict_eq (some (num a)) (num b) = eqb a b
strict_eq (some (str a)) (str b) = a == b
strict_eq _ _ = false

pub data Verdict : Type 0 where
  allowed : Verdict
  prohibited : Verdict
  no_matching_permission : Verdict
  -- `for … of` over a value that cannot be iterated.
  type_error : Verdict

-- `less` and `less_eq` are JavaScript's `<` and `<=` with their conversions.
module _ (less less_eq : Option Json → Json → Bool) (greater greater_eq : Option Json → Json → Bool)
    (ctx : List (String × Json)) where
  -- The cases of the `switch`, `none` for its default.
  unfoldable pub satisfied : Constraint → Option Bool
  satisfied c =
      let v = lookup (get_or c.left_operand "undefined") ctx in
      let o = get_or c.operator "undefined" in
      if o == "eq"
      then some (strict_eq v c.right_operand)
      else if o == "neq"
      then some (not (strict_eq v c.right_operand))
      else if o == "lt"
      then some (less v c.right_operand)
      else if o == "gt"
      then some (greater v c.right_operand)
      else if o == "lteq"
      then some (less_eq v c.right_operand)
      else if o == "gteq"
      then some (greater_eq v c.right_operand)
      else none

  unfoldable pub eval_constraints : List Constraint → Bool
  eval_constraints [] = true
  eval_constraints (c ∷ cs) =
      let rest = eval_constraints cs in
      elim (satisfied c) [ none ↦ true | some holds ↦ if holds then rest else false ]

  -- A string's characters have no `action`.
  abbrev pub same_action : Option String → String → Bool
  same_action none a = false
  same_action (some s) a = s == a

  abbrev pub applies : String → Rule → Bool
  applies a r = same_action (action_name r.action) a && eval_constraints r.constraint

  -- The loop over one bucket: whether a rule applies, `none` for a TypeError.
  unfoldable pub any_applies : String → Bucket → Option Bool
  any_applies a absent = some false
  any_applies a (rules rs) = some (any (applies a) rs)
  any_applies a (chars n) = some false
  any_applies a (other t n) = none

  -- `evaluateAction`
  unfoldable pub evaluate_action : OdrlPolicy → String → Verdict
  evaluate_action p a = elim (any_applies a p.prohibition) [
    | none ↦ type_error
    | some true ↦ prohibited
    | some false ↦ elim (any_applies a p.permission) [
      | none ↦ type_error
      | some true ↦ allowed
      | some false ↦ no_matching_permission
    ]
  ]
