-- ===== src/Governance/Approvals.antt =====
-- `decide` and `cancel` of backend/src/governance/approvals.service.ts, over the row of one request
-- with its decisions. The table of decisions has one row for a request and an approver
-- (`@@unique([requestId, approverId])` in backend/prisma/schema.prisma), so `create` throws on a
-- second.
use digital_thread.Shared.{
  ℕ, String, Bool, true, false, not, Option, none, some, List, [], ◌∷◌, ◌++◌, ◌==◌, if◌then◌else◌,
  leb, any, filter, length,
}
use digital_thread.Access.Roles.{Role, superadmin, owner, operator}

pub data Status : Type 0 where
  pending approved rejected cancelled : Status

pub data Choice : Type 0 where
  approve reject : Choice

pub data ApprovalAction : Type 0 where
  delete_file declassify bulk_export revoke_user promote_user purge_iteration : ApprovalAction

pub record RequestInput : Type 0 where
  pub requester_id : String
  pub action : ApprovalAction
  pub target_type : String
  pub target_id : String
  pub reason : Option String

-- A row of decisions, without its comment, which nothing here reads.
pub record Decision : Type 0 where
  pub approver_id : String
  pub choice : Choice

pub record ApprovalRequest : Type 0 where
  pub requester_id : String
  pub action : ApprovalAction
  pub target_type : String
  pub target_id : String
  pub reason : Option String
  pub status : Status
  pub resolved_at : Option ℕ
  pub decisions : List Decision

pub data Refusal : Type 0 where
  forbidden bad_request duplicate : Refusal

pub data Answer : Type 0 where
  done : Answer
  refused : Refusal → Answer

-- `request`: a new row.
unfoldable pub request : RequestInput → ApprovalRequest
request input = record {
  requester_id = input.requester_id;
  action = input.action;
  target_type = input.target_type;
  target_id = input.target_id;
  reason = input.reason;
  status = pending;
  resolved_at = none;
  decisions = [];
}

abbrev pub is_staff : Role → Bool
is_staff superadmin = true
is_staff owner = true
is_staff operator = false

abbrev pub is_pending : Status → Bool
is_pending pending = true
is_pending approved = false
is_pending rejected = false
is_pending cancelled = false

abbrev pub is_approve : Decision → Bool
is_approve d = elim d.choice [ approve ↦ true | reject ↦ false ]

abbrev pub decided_by : String → List Decision → Bool
decided_by id ds = any (λ d. d.approver_id == id) ds

-- `APPROVALS_NEEDED`
abbrev pub approvals_needed : ℕ
approvals_needed = 2

abbrev pub resolve : Status → ℕ → ApprovalRequest → ApprovalRequest
resolve st now q = record q { status = st; resolved_at = some now }

-- The decisions that are counted: the new one in place of an earlier one of the same approver.
unfoldable pub counted : String → Choice → List Decision → List Decision
counted id choice ds =
    filter (λ d. not (d.approver_id == id)) ds ++ record { approver_id = id; choice = choice } ∷ []

-- The row after the decision is stored: `before` are the decisions that were there.
unfoldable pub settle : List Decision → String → Choice → ℕ → ApprovalRequest → ApprovalRequest
settle before id reject now q = resolve rejected now q
settle before id approve now q =
    if leb approvals_needed (length (filter is_approve (counted id approve before)))
    then resolve approved now q
    else q

unfoldable pub decide : String → Role → Choice → ℕ → ApprovalRequest → Answer × ApprovalRequest
decide id role choice now q =
    if is_staff role
    then if is_pending q.status
      then if q.requester_id == id
        then (refused forbidden, q)
        else if decided_by id q.decisions
        then (refused duplicate, q)
        else (
          done,
          settle q.decisions id choice now (record q {
            decisions = q.decisions ++ record { approver_id = id; choice = choice } ∷ [];
          }),
        )
      else (refused bad_request, q)
    else (refused forbidden, q)

unfoldable pub cancel : String → ℕ → ApprovalRequest → Answer × ApprovalRequest
cancel id now q =
    if q.requester_id == id
    then if is_pending q.status then (done, resolve cancelled now q) else (refused bad_request, q)
    else (refused forbidden, q)

-- A call of the service, and the row after any calls.
pub data Call : Type 0 where
  deciding : String → Role → Choice → ℕ → Call
  cancelling : String → ℕ → Call

unfoldable pub answer : Call → ApprovalRequest → Answer × ApprovalRequest
answer (deciding id role choice now) q = decide id role choice now q
answer (cancelling id now) q = cancel id now q

unfoldable pub after : List Call → ApprovalRequest → ApprovalRequest
after [] q = q
after (c ∷ cs) q = after cs (answer c q).1
