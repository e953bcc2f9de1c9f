-- ===== src/Files/Grants.antt =====
-- What a grant to read a file takes.
use digital_thread.Shared.{
  ℕ, ◌<◌, String, ◌≡◌, refl, ◌≢◌, Bool, true, false, not, ◌&&◌, none, some, List, [], ◌∷◌, arith,
  eq_iff, Bool-cases, ◌==◌, is_some, find, all, all_at, find_passes, find-Memᴰ, Option-cases, inl,
  inr,
}
use mathlib.Core.List.{Memᴰ}
use digital_thread.Governance.Approvals.{Choice, approve, reject}
use digital_thread.Files.Tables.{
  pending, approved, rejected, expired, cancelled, AccessRequest, AccessInput, Approver,
  DecideOptions, Desk, Call, requesting, deciding, cancelling, is_active, has_active_grant,
}
use digital_thread.Files.Requests.{
  raise, request, find_request, write_request, decided_row, conclude, decide, cancelled_row, cancel,
  answer, after,
}

-- Somebody other than the requester decided.
abbrev pub by_other : AccessRequest → Bool
by_other r = elim r.decided_by_id [ none ↦ false | some id ↦ not (r.requester_id == id) ]

-- An approved row has an approver other than the requester, and an end.
abbrev pub row_ok : AccessRequest → Bool
row_ok r = elim r.status [
  | approved ↦ by_other r && is_some r.grant_expires_at
  | rejected ↦ by_other r
  | pending ↦ true
  | expired ↦ true
  | cancelled ↦ true
]

module _ (clip : String → String) where
  write_request-row_ok :
      (id : String) (f : AccessRequest → AccessRequest) (rs : List AccessRequest)
      (r : AccessRequest)
      → find (λ q. q.id == id) rs ≡ some r
      → row_ok (f r) ≡ true
      → all row_ok rs ≡ true
      → all row_ok (write_request id f rs) ≡ true
  unfolding write_request
  write_request-row_ok id f [] r h k l = refl
  write_request-row_ok id f (q ∷ rs) r h k l = elim (Bool-cases (q.id == id)) [
    | inl here ↦ rw (here, write_request) (ground arith)
    | inr there ↦
        rw (there, write_request)
          (ground (arith, write_request-row_ok id f rs r (ground arith) k (ground arith)))
  ]

  decided_row-row_ok :
      (now : ℕ) (a : Approver) (c : Choice) (o : DecideOptions) (r : AccessRequest)
      → (r.requester_id == a.id) ≡ false
      → row_ok (decided_row clip now a c o r) ≡ true
  decided_row-row_ok now a approve o r h = ground arith
  decided_row-row_ok now a reject o r h = ground arith

  find_request_id :
      (id : String) (d : Desk) (r : AccessRequest) → find_request id d ≡ some r → r.id ≡ id
  unfolding find_request
  find_request_id id d r h = (eq_iff r.id id).0 (find_passes (λ q. q.id == id) d.requests r h)

  write_found-row_ok :
      (id : String) (f : AccessRequest → AccessRequest) (d : Desk) (r : AccessRequest)
      → find_request id d ≡ some r
      → row_ok (f r) ≡ true
      → all row_ok d.requests ≡ true
      → all row_ok (write_request r.id f d.requests) ≡ true
  write_found-row_ok id f d r h k l =
      rw (find_request_id id d r h)
        (write_request-row_ok id f d.requests r (unfold find_request in h) k l)

  conclude-row_ok :
      (now : ℕ) (id : String) (a : Approver) (c : Choice) (o : DecideOptions) (d : Desk)
      (r : AccessRequest)
      → find_request id d ≡ some r
      → (r.requester_id == a.id) ≡ false
      → all row_ok d.requests ≡ true
      → all row_ok (conclude clip now a c o r d).1.requests ≡ true
  unfolding conclude
  conclude-row_ok now id a c o d r h k l =
      write_found-row_ok id (decided_row clip now a c o) d r h (decided_row-row_ok now a c o r k) l

  decide-row_ok :
      (now : ℕ) (id : String) (a : Approver) (c : Choice) (o : DecideOptions) (d : Desk)
      → all row_ok d.requests ≡ true
      → all row_ok (decide clip now id a c o d).1.requests ≡ true
  unfolding decide
  decide-row_ok now id a c o d l = elim (Option-cases (find_request id d)) [
    | inl e ↦ ground arith
    | inr (r, e) ↦ ground (arith, conclude-row_ok now id a c o d r e)
  ]

  cancel-row_ok :
      (now : ℕ) (id user : String) (d : Desk)
      → all row_ok d.requests ≡ true
      → all row_ok (cancel clip now id user d).1.requests ≡ true
  unfolding cancel
  cancel-row_ok now id user d l = elim (Option-cases (find_request id d)) [
    | inl e ↦ ground arith
    | inr (r, e) ↦ ground (arith, write_found-row_ok id (cancelled_row clip now) d r e refl l)
  ]

  request-row_ok :
      (now : ℕ) (id : String) (i : AccessInput) (d : Desk)
      → all row_ok d.requests ≡ true
      → all row_ok (request clip now id i d).1.requests ≡ true
  unfolding request raise
  request-row_ok now id i d l = ground arith

  answer-row_ok :
      (c : Call) (d : Desk)
      → all row_ok d.requests ≡ true
      → all row_ok (answer clip c d).1.requests ≡ true
  unfolding answer
  answer-row_ok (requesting now id i) d l = request-row_ok now id i d l
  answer-row_ok (deciding now id a c o) d l = decide-row_ok now id a c o d l
  answer-row_ok (cancelling now id user) d l = cancel-row_ok now id user d l

  after-row_ok :
      (cs : List Call) (d : Desk)
      → all row_ok d.requests ≡ true
      → all row_ok (after clip cs d).requests ≡ true
  unfolding after
  after-row_ok [] d l = l
  after-row_ok (c ∷ cs) d l = after-row_ok cs (answer clip c d).1 (answer-row_ok c d l)

  -- A row that lets the user read the file at the time, decided by somebody else, up to its end.
  pub record IsGrant (now : ℕ) (file user : String) (d : Desk) : Type 0 where
    pub row : AccessRequest
    pub stored : Memᴰ row d.requests
    pub for_file : row.file_id ≡ file
    pub for_user : row.requester_id ≡ user
    pub is_granted : row.status ≡ approved
    pub approver : String
    pub decided : row.decided_by_id ≡ some approver
    pub other : approver ≢ user
    pub end : ℕ
    pub ends : row.grant_expires_at ≡ some end
    pub in_time : now < end

  is_active-IsGrant :
      (now : ℕ) (file user : String) (d : Desk) (r : AccessRequest)
      → Memᴰ r d.requests
      → is_active now file user r ≡ true
      → row_ok r ≡ true
      → IsGrant now file user d
  is_active-IsGrant now file user d r m h k = elim (Option-cases r.decided_by_id) [
    | inl e ↦ absurd (ground arith)
    | inr (a, e) ↦ elim (Option-cases r.grant_expires_at) [
      | inl n ↦ absurd (ground arith)
      | inr (t, g) ↦ record {
        row = r;
        stored = m;
        for_file = (eq_iff r.file_id file).0 (ground arith);
        for_user = (eq_iff r.requester_id user).0 (ground arith);
        is_granted = ground arith;
        approver = a;
        decided = e;
        other = ground (arith, eq_iff r.requester_id user, eq_iff r.requester_id a);
        end = t;
        ends = g;
        in_time = ground arith;
      }
    ]
  ]

  -- However the service is called on a table without requests, a user has an active grant for a file
  -- only by a stored row for both that somebody else approved, and before its end.
  pub has_active_grant-IsGrant :
      (cs : List Call) (d : Desk) (now : ℕ) (file user : String)
      → d.requests ≡ []
      → has_active_grant now file user (after clip cs d) ≡ true
      → IsGrant now file user (after clip cs d)
  unfolding has_active_grant
  has_active_grant-IsGrant cs d now file user none_yet h =
      let e = after clip cs d in
      let sound = after-row_ok cs d (ground arith) in
      elim (Option-cases (find (is_active now file user) e.requests)) [
        | inl n ↦ absurd (ground arith)
        | inr (r, f) ↦
            let m = find-Memᴰ (is_active now file user) e.requests r f in
            is_active-IsGrant now file user e r m
              (find_passes (is_active now file user) e.requests r f) (all_at row_ok sound m)
      ]
