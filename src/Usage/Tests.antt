-- ===== src/Usage/Tests.antt =====
-- A policy with a purpose, and an import that is verified and accepted.
use digital_thread.Shared.{
  String, ◌≡◌, refl, ◌↔◌, Bool, true, false, ◌&&◌, Option, none, some, List, [], ◌∷◌,
}
use mathlib.Core.List.{Memᴰ}
use digital_thread.Json.{Json, null, str}
use digital_thread.Usage.Odrl
use digital_thread.Usage.Policies.{
  bucket_ok, Applies, entries, validate_odrl_lem, evaluate_action_lem,
}
use digital_thread.Usage.Exchange.{
  Partner, DataImport, Office, ImportInput, Call, receiving, verifying, accepting, find_import,
  put_import, receive_import, judge_signature, verify_import, accept_import, answer, after,
}
use digital_thread.Usage.Signatures.{IsSound, after-IsSound}

policies : Unit {0}
unfolding Odrl.validate_odrl Odrl.policy_issues Odrl.type_issues Odrl.validate_bucket
    Odrl.validate_rules Odrl.validate_rule Odrl.action_issues Odrl.constraint_issues
    Odrl.constraint_issue Odrl.satisfied Odrl.eval_constraints Odrl.any_applies Odrl.evaluate_action
    digital_thread.Shared.Assoc.lookup find_import put_import receive_import judge_signature
    verify_import accept_import answer after
policies = tt

-- An order that is not needed here.
abbrev no_order : Option Json → Json → Bool
no_order a b = false

abbrev for_quality : Odrl.Constraint
for_quality = record {
  left_operand = some "purpose";
  operator = some "eq";
  right_operand = str "quality";
}

-- The operator is known to the validator, and no case of the evaluation.
abbrev in_europe : Odrl.Constraint
in_europe = record {
  left_operand = some "spatial";
  operator = some "isPartOf";
  right_operand = str "EU";
}

abbrev reading : List Odrl.Constraint → Odrl.OdrlPolicy
reading cs = record {
  type_name = some "Agreement";
  permission = Odrl.rules (record { action = Odrl.named "read"; constraint = cs } ∷ []);
  prohibition = Odrl.absent;
  duty = Odrl.absent;
}

abbrev asked_for : String → List (String × Json)
asked_for purpose = ("purpose", str purpose) ∷ []

abbrev verdict : List Odrl.Constraint → String → Odrl.Verdict
verdict cs purpose =
    Odrl.evaluate_action no_order no_order no_order no_order (asked_for purpose) (reading cs) "read"

for_the_purpose : verdict (for_quality ∷ []) "quality" ≡ Odrl.allowed
for_the_purpose = (unfold policies in refl)

for_another_purpose : verdict (for_quality ∷ []) "resale" ≡ Odrl.no_matching_permission
for_another_purpose = (unfold policies in refl)

-- The purpose is not read behind the operator that is not evaluated.
unread_purpose : verdict (in_europe ∷ for_quality ∷ []) "resale" ≡ Odrl.allowed
unread_purpose = (unfold policies in refl)

validate_odrl_lem_example :
    (Odrl.validate_odrl (some (reading (in_europe ∷ for_quality ∷ [])))).valid ≡ (
      Odrl.is_type (some "Agreement")
      && (bucket_ok (reading (in_europe ∷ for_quality ∷ [])).permission && (true && true)))
validate_odrl_lem_example = validate_odrl_lem (reading (in_europe ∷ for_quality ∷ []))

evaluate_action_lem_example : (verdict (for_quality ∷ []) "quality" ≡ Odrl.allowed) ↔ (
    (granted : List Odrl.Rule) × (denied : List Odrl.Rule) × (entries
        (reading (for_quality ∷ [])).permission
      ≡ some granted)
    × (entries Odrl.absent ≡ some denied)
    × ((r : Odrl.Rule) × Memᴰ r granted
        × Applies no_order no_order no_order no_order (asked_for "quality") "read" r)
    × ((r : Odrl.Rule)
        → Memᴰ r denied
        → Applies no_order no_order no_order no_order (asked_for "quality") "read" r
        → ⊥))
evaluate_action_lem_example =
    evaluate_action_lem no_order no_order no_order no_order (asked_for "quality")
      (reading (for_quality ∷ [])) "read"

-- Stand-ins for the serialisation, the hash and the signatures.
abbrev written : Json → String
written m = "manifest"

abbrev hash : String → String
hash s = "digest"

abbrev genuine : String → String → String → Option Bool
genuine pem digest signature = some true

abbrev partners : List Partner
partners = record { name = "acme"; certificate_pem = some "key" } ∷ []

abbrev received : ImportInput
received = record {
  source_partner = "acme";
  manifest = null;
  signature = some "sig";
  policy = none;
}

abbrev calls : List Call
calls = receiving "i1" received ∷ verifying partners "i1" ∷ accepting 7 "i1" "ann" ∷ []

abbrev empty : Office
empty = record { exports = []; imports = [] }

abbrev accepted_import : DataImport
accepted_import = record {
  id = "i1";
  source_partner = "acme";
  manifest_hash = "digest";
  manifest = "manifest";
  policy = none;
  signature = some "sig";
  verified = true;
  verify_reason = none;
  accepted_by_id = some "ann";
  accepted_at = some 7;
}

stored : (after written hash genuine calls empty).imports ≡ accepted_import ∷ []
stored = (unfold policies in refl)

after-IsSound_example : IsSound genuine written hash calls accepted_import
after-IsSound_example =
    after-IsSound genuine written hash calls empty refl accepted_import
      (unfold policies in Memᴰ.head refl)
