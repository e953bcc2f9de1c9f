-- ===== src/Files/Tables.antt =====
-- The rows that backend/src/files/file-access-requests.service.ts reads and writes, the conditions on
-- them, and `hasActiveGrant` of files.service.ts. Times are milliseconds.
use digital_thread.Shared.{
  ℕ, String, Bool, true, false, ◌&&◌, Option, none, some, List, ◌==◌, ltb, is_some, find,
}
use digital_thread.Governance.Approvals.{Choice}
use digital_thread.Access.Roles.{Role}

pub data RequestStatus : Type 0 where
  pending approved rejected expired cancelled : RequestStatus

pub record AccessRequest : Type 0 where
  pub id : String
  pub file_id : String
  pub iteration_id : Option String
  pub requester_id : String
  pub requester_partner_id : Option String
  pub reason : Option String
  pub status : RequestStatus
  pub decided_by_id : Option String
  pub decision_note : Option String
  pub decided_at : Option ℕ
  pub grant_expires_at : Option ℕ

pub record FileRecord : Type 0 where
  pub id : String
  pub iteration_id : Option String
  pub classification : String

pub record Product : Type 0 where
  pub id : String
  pub owner_partner_id : String

pub record Iteration : Type 0 where
  pub id : String
  pub product_id : Option String

pub data Event : Type 0 where
  file_access_requested :
      (request_id file_id : String) (iteration_id : Option String)
      (requester_id classification : String)
      → Event
  file_access_decided :
      (request_id file_id requester_id : String) (decision : Choice) (grant_expires_at : Option ℕ)
      → Event

pub record Desk : Type 0 where
  pub files : List FileRecord
  pub products : List Product
  pub iterations : List Iteration
  pub requests : List AccessRequest
  -- What the broker was given, with the iteration it is sent to.
  pub emitted : List (String × Event)

pub data Answer : Type 0 where
  ok : AccessRequest → Answer
  not_found bad_request forbidden : Answer

pub record AccessInput : Type 0 where
  pub file_id : String
  pub requester_id : String
  pub requester_partner_id : Option String
  pub reason : Option String
  pub iteration_id : Option String

pub record Approver : Type 0 where
  pub id : String
  pub role : Role
  pub partner_id : Option String

pub record DecideOptions : Type 0 where
  pub note : Option String
  pub grant_hours : Option ℕ

-- A call of the service.
pub data Call : Type 0 where
  requesting : ℕ → String → AccessInput → Call
  deciding : ℕ → String → Approver → Choice → DecideOptions → Call
  cancelling : ℕ → String → String → Call

-- Strings of the ids of a foreign key, compared with null.
abbrev pub same_id : Option String → Option String → Bool
same_id none none = true
same_id (some a) (some b) = a == b
same_id none (some b) = false
same_id (some a) none = false

abbrev pub is_approved : RequestStatus → Bool
is_approved approved = true
is_approved pending = false
is_approved rejected = false
is_approved expired = false
is_approved cancelled = false

abbrev pub is_pending : RequestStatus → Bool
is_pending pending = true
is_pending approved = false
is_pending rejected = false
is_pending expired = false
is_pending cancelled = false

-- `OR: [{ grantExpiresAt: null }, { grantExpiresAt: { gt: now } }]`
abbrev pub not_expired : ℕ → Option ℕ → Bool
not_expired now none = true
not_expired now (some t) = ltb now t

-- The `where` of an active grant.
abbrev pub is_active : ℕ → String → String → AccessRequest → Bool
is_active now file user r =
    r.file_id == file
    && (r.requester_id == user && (is_approved r.status && not_expired now r.grant_expires_at))

-- The `where` of the row that a request from the same iteration takes up again.
abbrev pub is_open : AccessInput → AccessRequest → Bool
is_open i r =
    r.file_id == i.file_id
    && (r.requester_id == i.requester_id
        && (is_pending r.status && same_id r.iteration_id i.iteration_id))

unfoldable pub has_active_grant : ℕ → String → String → Desk → Bool
has_active_grant now file user d = is_some (find (is_active now file user) d.requests)

unfoldable pub find_file : String → Desk → Option FileRecord
find_file id d = find (λ f. f.id == id) d.files
