-- ===== src/Governance/Tests.antt =====
-- A request for approval that two colleagues approve.
use digital_thread.Shared.{none, String, ◌≡◌, refl, ◌≢◌, List, [], ◌∷◌}
use digital_thread.Access.Roles.{operator, owner, superadmin}
use digital_thread.Governance.Approvals.{
  approved, approve, ApprovalRequest, RequestInput, delete_file, request, counted, settle, decide,
  cancel, Call, deciding, cancelling, answer, after,
}
use digital_thread.Governance.TwoPersons.{Approves, approved_by_two}

approvals_service : Unit {0}
unfolding request counted settle decide cancel answer after
approvals_service = tt

abbrev wanted : RequestInput
wanted = record {
  requester_id = "ann";
  action = delete_file;
  target_type = "File";
  target_id = "f1";
  reason = none;
}

-- The requester, an operator and a second vote of `bob` are refused on the way.
abbrev calls : List Call
calls =
    deciding "ann" owner approve 1
    ∷ deciding "bob" owner approve 2
    ∷ deciding "bob" owner approve 3
    ∷ deciding "eve" operator approve 4
    ∷ cancelling "bob" 5
    ∷ deciding "cal" superadmin approve 6
    ∷ []

approved_by_two_example :
    let ds = (after calls (request wanted)).decisions in
    (a b : String) × (a ≢ b)
    × (a ≢ wanted.requester_id)
    × (b ≢ wanted.requester_id)
    × Approves a ds
    × Approves b ds
approved_by_two_example = approved_by_two wanted calls (unfold approvals_service in refl)

abbrev asked : ApprovalRequest
asked = (answer (deciding "bob" owner approve 2) (request wanted)).1

decide_test : (decide "cal" owner approve 7 asked).1.status ≡ approved
unfolding approvals_service
decide_test = refl
