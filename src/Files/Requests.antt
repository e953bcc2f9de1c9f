-- ===== src/Files/Requests.antt =====
-- backend/src/files/file-access-requests.service.ts. No order of the rows is relied on where the code
-- asks for none. The keys of new rows are parameters.
use digital_thread.Shared.{
  ℕ, ◌+◌, ◌*◌, String, Bool, true, false, not, ◌||◌, Option, none, some, List, [], ◌∷◌, ◌++◌, map,
  ◌==◌, if◌then◌else◌, get_or, or_else, truthy, find, filter, includes,
}
use digital_thread.Governance.Approvals.{Choice, approve, reject}
use digital_thread.Access.Roles.{Role, superadmin, owner, operator}
use digital_thread.Files.Tables.{
  pending, approved, rejected, cancelled, AccessRequest, FileRecord, Product, file_access_requested,
  file_access_decided, Desk, Answer, ok, not_found, bad_request, forbidden, AccessInput, Approver,
  DecideOptions, Call, requesting, deciding, cancelling, is_pending, is_active, is_open, find_file,
  RequestStatus,
}

module _ (clip : String → String) where
  -- `clip s` is `s.slice(0, 1000)`.
  abbrev pub clipped : Option String → Option String
  clipped none = none
  clipped (some s) = some (clip s)

  abbrev pub new_request : String → AccessInput → AccessRequest
  new_request id i = record {
    id = id;
    file_id = i.file_id;
    iteration_id = i.iteration_id;
    requester_id = i.requester_id;
    requester_partner_id = i.requester_partner_id;
    reason = clipped i.reason;
    status = pending;
    decided_by_id = none;
    decision_note = none;
    decided_at = none;
    grant_expires_at = none;
  }

  -- The new row, and what is sent: to the iteration of the request, else to that of the file.
  unfoldable pub raise : String → AccessInput → FileRecord → Desk → Answer × Desk
  raise id i file d =
      let context = or_else i.iteration_id file.iteration_id in
      (
        ok (new_request id i),
        record d {
          requests = new_request id i ∷ d.requests;
          emitted =
              d.emitted
              ++ (
                get_or context "raw",
                file_access_requested id file.id context i.requester_id file.classification,
              )
                ∷ [];
        },
      )

  unfoldable pub request : ℕ → String → AccessInput → Desk → Answer × Desk
  request now id i d = elim (find_file i.file_id d) [
    | none ↦ (not_found, d)
    | some file ↦ elim (find (is_active now i.file_id i.requester_id) d.requests) [
      | some r ↦ (ok r, d)
      | none ↦ elim (find (is_open i) d.requests) [ some r ↦ (ok r, d) | none ↦ raise id i file d ]
    ]
  ]

-- `ownerProductIterationIds`
abbrev pub product_ids : String → List Product → List String
product_ids partner ps = map (λ p. p.id) (filter (λ p. p.owner_partner_id == partner) ps)

abbrev pub in_products : List String → Option String → Bool
in_products ids none = false
in_products ids (some id) = includes ids id

unfoldable pub owner_product_iteration_ids : Option String → Desk → List String
owner_product_iteration_ids partner d = elim (truthy partner) [
  | none ↦ []
  | some p ↦
      map (λ i. i.id)
        (filter (λ i. in_products (product_ids p d.products) i.product_id) d.iterations)
]

unfoldable pub find_request : String → Desk → Option AccessRequest
find_request id d = find (λ r. r.id == id) d.requests

-- `update` of the row with a key.
unfoldable pub write_request :
    String → (AccessRequest → AccessRequest) → List AccessRequest → List AccessRequest
write_request id f [] = []
write_request id f (r ∷ rs) =
    let rest = write_request id f rs in if r.id == id then f r ∷ rs else r ∷ rest

abbrev pub is_staff : Role → Bool
is_staff superadmin = true
is_staff owner = true
is_staff operator = false

abbrev pub is_owner : Role → Bool
is_owner owner = true
is_owner superadmin = false
is_owner operator = false

abbrev pub iteration_of : Option FileRecord → Option String
iteration_of none = none
iteration_of (some f) = truthy f.iteration_id

-- An OWNER decides on files of iterations of the own products only.
unfoldable pub in_scope : Approver → AccessRequest → Desk → Bool
in_scope a r d =
    not (is_owner a.role)
    || in_products (owner_product_iteration_ids a.partner_id d)
        (iteration_of (find_file r.file_id d))

-- `DEFAULT_GRANT_HOURS`
abbrev pub default_grant_hours : ℕ
default_grant_hours = 24 * 7

abbrev pub expiry : ℕ → Choice → Option ℕ → Option ℕ
expiry now approve hours = some (now + get_or hours default_grant_hours * 3600000)
expiry now reject hours = none

abbrev pub status_for : Choice → RequestStatus
status_for approve = approved
status_for reject = rejected

module _ (clip : String → String) where
  abbrev pub decided_row : ℕ → Approver → Choice → DecideOptions → AccessRequest → AccessRequest
  decided_row now a choice opts r = record r {
    status = status_for choice;
    decided_by_id = some a.id;
    decided_at = some now;
    decision_note = or_else (clipped clip opts.note) r.decision_note;
    grant_expires_at = expiry now choice opts.grant_hours;
  }

  unfoldable pub conclude :
      ℕ → Approver → Choice → DecideOptions → AccessRequest → Desk → Answer × Desk
  conclude now a choice opts r d = (
    ok (decided_row now a choice opts r),
    record d {
      requests = write_request r.id (decided_row now a choice opts) d.requests;
      emitted =
          d.emitted
          ++ (
            r.file_id,
            file_access_decided r.id r.file_id r.requester_id choice
                (expiry now choice opts.grant_hours),
          )
            ∷ [];
    },
  )

  unfoldable pub decide : ℕ → String → Approver → Choice → DecideOptions → Desk → Answer × Desk
  decide now id a choice opts d =
      if is_staff a.role
      then elim (find_request id d) [
        | none ↦ (not_found, d)
        | some r ↦
            if is_pending r.status
            then if r.requester_id == a.id
              then (forbidden, d)
              else if in_scope a r d
              then conclude now a choice opts r d
              else (forbidden, d)
            else (bad_request, d)
      ]
      else (forbidden, d)

  abbrev pub cancelled_row : ℕ → AccessRequest → AccessRequest
  cancelled_row now r = record r { status = cancelled; decided_at = some now }

  unfoldable pub cancel : ℕ → String → String → Desk → Answer × Desk
  cancel now id user d = elim (find_request id d) [
    | none ↦ (not_found, d)
    | some r ↦
        if r.requester_id == user
        then if is_pending r.status
          then (
            ok (cancelled_row now r),
            record d { requests = write_request r.id (cancelled_row now) d.requests },
          )
          else (bad_request, d)
        else (forbidden, d)
  ]

  unfoldable pub answer : Call → Desk → Answer × Desk
  answer (requesting now id i) d = request clip now id i d
  answer (deciding now id a choice opts) d = decide now id a choice opts d
  answer (cancelling now id user) d = cancel now id user d

  unfoldable pub after : List Call → Desk → Desk
  after [] d = d
  after (c ∷ cs) d = after cs (answer c d).1
