-- ===== src/Files/Tests.antt =====
-- A request to read a file that an owner of the product approves.
use digital_thread.Shared.{ℕ, ◌≤◌, count, String, ◌≡◌, refl, true, none, some, List, [], ◌∷◌}
use digital_thread.Access.Roles.{owner}
use digital_thread.Governance.Approvals.{approve, reject}
use digital_thread.Files.Tables.{
  AccessInput, Approver, DecideOptions, Desk, Call, requesting, deciding, cancelling,
  has_active_grant, find_file, is_open,
}
use digital_thread.Files.Requests.{
  raise, request, owner_product_iteration_ids, find_request, write_request, in_scope, new_request,
  decided_row, conclude, decide, cancel, answer, after,
}
use digital_thread.Files.Grants.{IsGrant, has_active_grant-IsGrant}
use digital_thread.Files.Decisions.{IsOwn, decide_scope}
use digital_thread.Files.Openings.{request_once}

access_service : Unit {0}
unfolding has_active_grant find_file raise request owner_product_iteration_ids find_request
    write_request in_scope conclude decide cancel answer after
access_service = tt

abbrev whole : String → String
whole s = s

abbrev desk : Desk
desk = record {
  files = record { id = "f1"; iteration_id = some "it1"; classification = "CONFIDENTIAL" } ∷ [];
  products = record { id = "p1"; owner_partner_id = "acme" } ∷ [];
  iterations = record { id = "it1"; product_id = some "p1" } ∷ [];
  requests = [];
  emitted = [];
}

abbrev wish : AccessInput
wish = record {
  file_id = "f1";
  requester_id = "ann";
  requester_partner_id = none;
  reason = some "review";
  iteration_id = none;
}

abbrev bob : Approver
bob = record { id = "bob"; role = owner; partner_id = some "acme" }

abbrev one_hour : DecideOptions
one_hour = record { note = none; grant_hours = some 1 }

abbrev asked : Desk
asked = (answer whole (requesting 10 "r1" wish) desk).1

abbrev calls : List Call
calls =
    requesting 10 "r1" wish ∷ deciding 20 "r1" bob approve one_hour ∷ cancelling 30 "r1" "ann" ∷ []

request_once_example :
    (count (is_open wish) (after whole calls desk).requests ≤ 1)
    × ((now : ℕ) (id : String)
        → has_active_grant now "f1" "ann" (after whole calls desk) ≡ true
        → (request whole now id wish (after whole calls desk)).1 ≡ after whole calls desk)
request_once_example = request_once whole calls desk wish refl

has_active_grant-IsGrant_example : IsGrant whole 3600019 "f1" "ann" (after whole calls desk)
has_active_grant-IsGrant_example =
    has_active_grant-IsGrant whole calls desk 3600019 "f1" "ann" refl
      (unfold access_service in refl)

decide_scope_example : IsOwn (some "acme") "f1" asked
decide_scope_example =
    decide_scope whole 20 "r1" bob reject one_hour asked
      (decided_row whole 20 bob reject one_hour (new_request whole "r1" wish)) refl
      (unfold access_service in refl)
