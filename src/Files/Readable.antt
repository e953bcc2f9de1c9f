-- ===== src/Files/Readable.antt =====
-- Who may read and write a file: `canRead`, `assertReadable`, `assertWritable` and
-- `resolveDefaultClassification` of backend/src/files/files.service.ts. The rows that they find are
-- parameters. A check of reading says false where the code throws a ForbiddenException.
use digital_thread.Shared.{
  ℕ, String, Bool, true, false, ◌&&◌, ◌||◌, Option, none, some, List, [], ◌∷◌, ◌==◌, if◌then◌else◌,
  eqb, ltb, get_or, is_some, truthy, any, find, includes, map,
}
use digital_thread.Json.{Json, get_field, as_string}
use digital_thread.Normalize.Coerce.{as_array}
use digital_thread.Flow.{FlowNodeDef, manual, predecessor, datasource, NodeInputDef}
use digital_thread.Engine.Store.{Column, absent, malformed, parsed}
use digital_thread.Access.Roles.{Role, superadmin, owner, operator}
use digital_thread.Access.Scope.{Partner, is_responsible, own_partner_node_ids}
use digital_thread.Files.Tables.{Desk, has_active_grant}

-- The columns of a `FileRecord` that the checks read.
pub record StoredFile : Type 0 where
  pub id : String
  pub classification : String
  pub iteration_id : Option String
  pub partner_id : Option String
  pub node_source_id : Option String
  pub node_output_id : Option String

pub record Requester : Type 0 where
  pub id : String
  pub role : Role
  pub partner_id : Option String

-- What every JavaScript object has from `Object.prototype`.
abbrev pub inherited_keys : List String
inherited_keys =
    "constructor" ∷ "toString" ∷ "toLocaleString" ∷ "valueOf" ∷ "hasOwnProperty" ∷ "isPrototypeOf"
    ∷ "propertyIsEnumerable" ∷ "__proto__" ∷ "__defineGetter__" ∷ "__defineSetter__"
    ∷ "__lookupGetter__" ∷ "__lookupSetter__" ∷ []

-- `CLASSIFICATION_RANK[c]`. Under an inherited key stands no number: it is neither greater than the
-- rank of PARTNER nor equal to a lower one, so that in each comparison it counts as that of PARTNER.
abbrev pub classification_rank : String → Option ℕ
classification_rank c =
    if c == "PUBLIC"
    then some 0
    else if c == "INTERNAL"
    then some 1
    else if c == "PARTNER"
    then some 2
    else if c == "CONFIDENTIAL"
    then some 3
    else if c == "RESTRICTED"
    then some 4
    else if includes inherited_keys c
    then some 2
    else none

-- An unknown level counts as INTERNAL.
unfoldable pub rank_of : StoredFile → ℕ
rank_of f = get_or (classification_rank f.classification) 1

abbrev pub same_as : Option String → String → Bool
same_as none b = false
same_as (some a) b = a == b

-- An input bound to the output that holds the file.
unfoldable pub takes : StoredFile → NodeInputDef → Bool
takes f i = elim i.source [
  | manual ↦ false
  | datasource d q ↦ false
  | predecessor node output ↦
      same_as f.node_source_id node && output == get_or f.node_output_id "default"
]

-- Rule (a): the file comes from a node of the partner.
unfoldable pub from_own_node : Partner → List FlowNodeDef → StoredFile → Bool
from_own_node p nodes f = elim (truthy f.node_source_id) [
  | none ↦ false
  | some id ↦ includes (own_partner_node_ids p nodes) id
]

-- Rule (b): a node of the partner takes the file as an input.
unfoldable pub to_own_node : Partner → List FlowNodeDef → StoredFile → Bool
to_own_node p nodes f = any (λ n. is_responsible p n && any (takes f) n.inputs) nodes

-- What a requester may do with a node that a route names.
pub data WriteAnswer : Type 0 where
  -- With the whitelist of file types, if the output declares one.
  accepted : Option (List String) → WriteAnswer
  not_found forbidden json_error : WriteAnswer

module _ (find_partner : String → Option Partner)
    (find_iteration : String → Option (List FlowNodeDef)) where
  -- The rest of the check for files of class PARTNER.
  unfoldable pub partner_may_read : String → StoredFile → Bool
  partner_may_read partner f = elim (truthy f.iteration_id) [
    | none ↦ elim (truthy f.partner_id) [ none ↦ false | some p ↦ p == partner ]
    | some it ↦ elim (find_iteration it) [
      | none ↦ false
      | some nodes ↦ elim (find_partner partner) [
        | none ↦ false
        | some p ↦ from_own_node p nodes f || to_own_node p nodes f
      ]
    ]
  ]

  unfoldable pub operator_may_read : ℕ → Desk → Requester → StoredFile → Bool
  operator_may_read now d u f =
      if is_some (truthy (some u.id)) && has_active_grant now f.id u.id d
      then true
      else if ltb 2 (rank_of f)
      then false
      else if eqb (rank_of f) 0 || eqb (rank_of f) 1
      then true
      else elim (truthy u.partner_id) [ none ↦ false | some partner ↦ partner_may_read partner f ]

  -- `assertReadable`; `none` is a request without a user.
  unfoldable pub assert_readable : ℕ → Desk → Option Requester → StoredFile → Bool
  assert_readable now d none f = false
  assert_readable now d (some u) f = elim u.role [
    | superadmin ↦ true
    | owner ↦ true
    | operator ↦ operator_may_read now d u f
  ]

  -- `canRead`
  unfoldable pub can_read : ℕ → Desk → Requester → StoredFile → Bool
  can_read now d u f = assert_readable now d (some u) f

abbrev pub inside : String → Option Json → Option Json
inside k none = none
inside k (some v) = get_field k v

-- `x.id === id`
abbrev pub has_id : String → Json → Bool
has_id id v = same_as (as_string (get_field "id" v)) id

-- The outputs of a stored node, or those that older nodes keep in their configuration.
unfoldable pub stored_outputs : Json → List Json
stored_outputs n = elim (as_array (get_field "outputs" n)) [
  | some os ↦ os
  | none ↦ get_or (as_array (inside "outputs" (get_field "config" n))) []
]

module _ (text : Json → String) where
  abbrev pub extensions : Option (List Json) → Option (List String)
  extensions none = none
  extensions (some []) = none
  extensions (some (t ∷ ts)) = some (map text (t ∷ ts))

  unfoldable pub accepted_extensions : Option String → Json → Option (List String)
  accepted_extensions slot n = elim (truthy slot) [
    | none ↦ none
    | some s ↦ extensions (as_array (inside "fileTypes" (find (has_id s) (stored_outputs n))))
  ]

-- `node.responsiblePartnerIds`, or one of the older fields.
unfoldable pub owns_stored : Partner → Json → Bool
owns_stored p n =
    any (λ v. same_as (as_string (some v)) p.id)
      (get_or (as_array (get_field "responsiblePartnerIds" n)) [])
    || (same_as (truthy (as_string (get_field "responsiblePartnerId" n))) p.id
        || same_as (truthy (as_string (get_field "responsiblePartner" n))) p.name)

module _ (find_partner : String → Option Partner) (text : Json → String)
    (find_stored : String → Option (Column (List Json))) where
  unfoldable pub may_write : Requester → Json → Bool
  may_write u n = elim u.role [
    | superadmin ↦ true
    | owner ↦ true
    | operator ↦ elim (truthy u.partner_id) [
      | none ↦ false
      | some id ↦ elim (find_partner id) [ none ↦ false | some p ↦ owns_stored p n ]
    ]
  ]

  unfoldable pub write_to : Requester → String → Option String → List Json → WriteAnswer
  write_to u node slot nodes = elim (find (has_id node) nodes) [
    | none ↦ not_found
    | some n ↦ if may_write u n then accepted (accepted_extensions text slot n) else forbidden
  ]

  -- `assertWritable` over the stored nodes of the iteration's workflow
  unfoldable pub assert_writable : Option Requester → String → String → Option String → WriteAnswer
  assert_writable none it node slot = forbidden
  assert_writable (some u) it node slot = elim (find_stored it) [
    | none ↦ not_found
    | some c ↦ elim c [
      | absent ↦ write_to u node slot []
      | malformed ↦ json_error
      | parsed nodes ↦ write_to u node slot nodes
    ]
  ]

abbrev pub level_of : Option String → String
level_of none = "INTERNAL"
level_of (some c) = if is_some (classification_rank c) then c else "INTERNAL"

-- The level that the stored nodes declare for an output.
unfoldable pub declared_level : List Json → String → String → String
declared_level nodes node slot = elim (find (has_id node) nodes) [
  | none ↦ "INTERNAL"
  | some n ↦
      level_of (as_string (inside "defaultClassification" (find (has_id slot) (stored_outputs n))))
]

-- `none` is the error of `find` on what is no list; the elements of a list are objects.
module _ (find_stored : String → Option (Column Json)) where
  unfoldable pub resolve_default_classification : String → String → Option String → Option String
  resolve_default_classification it node slot = elim (find_stored it) [
    | none ↦ some "INTERNAL"
    | some c ↦ elim c [
      | absent ↦ some (declared_level [] node (get_or slot "default"))
      | malformed ↦ some (declared_level [] node (get_or slot "default"))
      | parsed v ↦ elim (as_array (some v)) [
        | none ↦ none
        | some nodes ↦ some (declared_level nodes node (get_or slot "default"))
      ]
    ]
  ]
