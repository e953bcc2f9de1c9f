-- ===== src/Usage/Exchange.antt =====
-- backend/src/usage-framework/usage-framework.service.ts over the tables of exports and imports. The
-- hash, the serialisation of a manifest, `crypto.verify` and the signing of a manifest are
-- parameters; a stored policy is the policy, not its text. The listings only read.
use digital_thread.Shared.{
  ℕ, String, Bool, true, false, Option, none, some, List, [], ◌∷◌, ◌==◌, if◌then◌else◌, truthy,
  find, update_first,
}
use digital_thread.Json.{Json}
use digital_thread.Usage.Odrl.{OdrlPolicy, validate_odrl, Verdict, evaluate_action}

pub data ExportStatus : Type 0 where
  draft signed transmitted revoked : ExportStatus

pub record DataExport : Type 0 where
  pub id : String
  pub iteration_id : Option String
  pub target_partner_id : Option String
  pub manifest_id : Option String
  pub policy : Option OdrlPolicy
  pub status : ExportStatus
  pub created_by_id : Option String
  pub transmitted_at : Option ℕ

pub data Reason : Type 0 where
  no_signature unknown_partner no_public_key signature_mismatch verify_error : Reason

pub record DataImport : Type 0 where
  pub id : String
  pub source_partner : String
  pub manifest_hash : String
  pub manifest : String
  pub policy : Option OdrlPolicy
  pub signature : Option String
  pub verified : Bool
  pub verify_reason : Option Reason
  pub accepted_by_id : Option String
  pub accepted_at : Option ℕ

pub record Partner : Type 0 where
  pub name : String
  pub certificate_pem : Option String

pub record Office : Type 0 where
  pub exports : List DataExport
  pub imports : List DataImport

pub data Reply (A : Type 0) : Type 0 where
  ok : A → Reply A
  not_found bad_request : Reply A
  -- `prisma.update` of a row that is not there, and a failure of the signing service.
  record_missing signing_failed : Reply A

pub record ExportInput : Type 0 where
  pub iteration_id : String
  pub target_partner_id : Option String
  pub policy : Option OdrlPolicy
  pub created_by_id : String

pub record ImportInput : Type 0 where
  pub source_partner : String
  pub manifest : Json
  pub signature : Option String
  pub policy : Option OdrlPolicy

-- `if (input.policy) { … if (!v.valid) throw … }`
abbrev pub acceptable : Option OdrlPolicy → Bool
acceptable none = true
acceptable (some p) = (validate_odrl (some p)).valid

unfoldable pub find_export : String → Office → Option DataExport
find_export id d = find (λ e. e.id == id) d.exports

unfoldable pub find_import : String → Office → Option DataImport
find_import id d = find (λ i. i.id == id) d.imports

abbrev pub new_export : String → ExportInput → DataExport
new_export id i = record {
  id = id;
  iteration_id = some i.iteration_id;
  target_partner_id = i.target_partner_id;
  manifest_id = none;
  policy = i.policy;
  status = draft;
  created_by_id = some i.created_by_id;
  transmitted_at = none;
}

unfoldable pub create_export : String → ExportInput → Office → Reply DataExport × Office
create_export id i d =
    if acceptable i.policy
    then (ok (new_export id i), record d { exports = new_export id i ∷ d.exports })
    else (bad_request, d)

-- `prisma.dataExport.update({ where: { id } })`
unfoldable pub update_export :
    String → (DataExport → DataExport) → Office → Reply DataExport × Office
update_export id f d = elim (find_export id d) [
  | none ↦ (record_missing, d)
  | some e ↦ (ok (f e), record d { exports = update_first (λ e. e.id == id) f d.exports })
]

-- `prisma.dataImport.update({ where: { id } })` of a row that was just found
unfoldable pub put_import :
    DataImport → (DataImport → DataImport) → Office → Reply DataImport × Office
put_import row f d =
    (ok (f row), record d { imports = update_first (λ i. i.id == row.id) f d.imports })

abbrev pub with_manifest : String → DataExport → DataExport
with_manifest manifest e = record e { manifest_id = some manifest; status = signed }

abbrev pub sent : ℕ → DataExport → DataExport
sent now e = record e { status = transmitted; transmitted_at = some now }

-- `export_signed iteration partner` is `signed.exportSigned`, `none` where it throws.
unfoldable pub sign_and_attach :
    (String → String → Option String) → String → String → Office → Reply DataExport × Office
sign_and_attach export_signed id signer d = elim (find_export id d) [
  | none ↦ (not_found, d)
  | some e ↦ elim (truthy e.iteration_id) [
    | none ↦ (not_found, d)
    | some iteration ↦ elim (export_signed iteration signer) [
      | none ↦ (signing_failed, d)
      | some manifest ↦ update_export id (with_manifest manifest) d
    ]
  ]
]

unfoldable pub mark_transmitted : ℕ → String → Office → Reply DataExport × Office
mark_transmitted now id d = update_export id (sent now) d

module _ (stringify : Json → String) (sha256 : String → String) where
  abbrev pub new_import : String → ImportInput → DataImport
  new_import id i = record {
    id = id;
    source_partner = i.source_partner;
    manifest_hash = sha256 (stringify i.manifest);
    manifest = stringify i.manifest;
    policy = i.policy;
    signature = i.signature;
    verified = false;
    verify_reason = none;
    accepted_by_id = none;
    accepted_at = none;
  }

  unfoldable pub receive_import : String → ImportInput → Office → Reply DataImport × Office
  receive_import id i d =
      if acceptable i.policy
      then (ok (new_import id i), record d { imports = new_import id i ∷ d.imports })
      else (bad_request, d)

abbrev pub checked : Bool → Option Reason → DataImport → DataImport
checked v reason i = record i { verified = v; verify_reason = reason }

abbrev pub accepted : ℕ → String → DataImport → DataImport
accepted now by i = record i { accepted_by_id = some by; accepted_at = some now }

-- `check certificate hash signature` is `crypto.verify`, `none` where it throws.
module _ (check : String → String → String → Option Bool) where
  -- `ok` and `reason`
  abbrev pub outcome : Option Bool → Bool × Option Reason
  outcome none = (false, some verify_error)
  outcome (some true) = (true, none)
  outcome (some false) = (false, some signature_mismatch)

  unfoldable pub judge_signature : Option Partner → String → String → Bool × Option Reason
  judge_signature none hash signature = (false, some unknown_partner)
  judge_signature (some p) hash signature = elim (truthy p.certificate_pem) [
    | none ↦ (false, some no_public_key)
    | some pem ↦ outcome (check pem hash signature)
  ]

  -- `partners` is the table of partners at the time.
  unfoldable pub verify_import : List Partner → String → Office → Reply DataImport × Office
  verify_import partners id d = elim (find_import id d) [
    | none ↦ (not_found, d)
    | some i ↦ elim (truthy i.signature) [
      | none ↦ put_import i (checked false (some no_signature)) d
      | some s ↦
          let (v, reason) =
            judge_signature (find (λ p. p.name == i.source_partner) partners) i.manifest_hash s in
          put_import i (checked v reason) d
    ]
  ]

unfoldable pub accept_import : ℕ → String → String → Office → Reply DataImport × Office
accept_import now id by d = elim (find_import id d) [
  | none ↦ (not_found, d)
  | some i ↦ if i.verified then put_import i (accepted now by) d else (bad_request, d)
]

module _ (less less_eq greater greater_eq : Option Json → Json → Bool) where
  -- `checkAllowed`: an import without a policy allows everything.
  unfoldable pub check_allowed : List (String × Json) → String → String → Office → Reply Verdict
  check_allowed ctx id action d = elim (find_import id d) [
    | none ↦ not_found
    | some i ↦ elim i.policy [
      | none ↦ ok Verdict.allowed
      | some p ↦ ok (evaluate_action less less_eq greater greater_eq ctx p action)
    ]
  ]

-- The calls that touch imports.
pub data Call : Type 0 where
  receiving : String → ImportInput → Call
  verifying : List Partner → String → Call
  accepting : ℕ → String → String → Call

module _ (stringify : Json → String) (sha256 : String → String)
    (check : String → String → String → Option Bool) where
  unfoldable pub answer : Call → Office → Reply DataImport × Office
  answer (receiving id i) d = receive_import stringify sha256 id i d
  answer (verifying partners id) d = verify_import check partners id d
  answer (accepting now id by) d = accept_import now id by d

  unfoldable pub after : List Call → Office → Office
  after [] d = d
  after (c ∷ cs) d = after cs (answer c d).1
