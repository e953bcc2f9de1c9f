-- ===== src/Files/Openings.antt =====
-- Requests that are asked for more than once.
use digital_thread.Shared.{
  ℕ, ◌≤◌, String, ◌≡◌, refl, true, false, Bool, Option, none, some, List, [], ◌∷◌, arith, inl, inr,
  eq_iff, ◌==◌, find, count, Bool-cases, Option-cases,
}
use digital_thread.Governance.Approvals.{Choice, approve, reject}
use digital_thread.Files.Tables.{
  AccessRequest, AccessInput, Approver, DecideOptions, Desk, Call, requesting, deciding, cancelling,
  is_active, is_open, has_active_grant, same_id,
}
use digital_thread.Files.Requests.{
  new_request, raise, request, find_request, write_request, decided_row, conclude, decide,
  cancelled_row, cancel, answer, after,
}

-- There is at most one request of the file, the user and the iteration that nobody decided.
abbrev IsOneOpen : AccessInput → Desk → Type 0
IsOneOpen i d = count (is_open i) d.requests ≤ 1

count-find-none : {A : Type 0} → (p : A → Bool) (xs : List A) → find p xs ≡ none → count p xs ≡ 0
count-find-none p [] h = refl
count-find-none p (x ∷ xs) h = ground (arith, count-find-none p xs)

count_mono :
    {A : Type 0} (p q : A → Bool) (xs : List A)
    → ((x : A) → p x ≡ true → q x ≡ true)
    → count p xs ≤ count q xs
count_mono p q [] h = omega arith
count_mono p q (x ∷ xs) h = ground (arith, count_mono p q xs h, h x)

eq_of_same_id : (a b : Option String) → same_id a b ≡ true → a ≡ b
eq_of_same_id none none h = refl
eq_of_same_id none (some b) h = absurd (ground arith)
eq_of_same_id (some a) none h = absurd (ground arith)
eq_of_same_id (some a) (some b) h = rw ((eq_iff a b).0 h) refl

-- A row that is written closed.
count-write_request :
    (i : AccessInput) (id : String) (f : AccessRequest → AccessRequest) (rs : List AccessRequest)
    → ((r : AccessRequest) → is_open i (f r) ≡ false)
    → count (is_open i) (write_request id f rs) ≤ count (is_open i) rs
unfolding write_request
count-write_request i id f [] h = omega arith
count-write_request i id f (r ∷ rs) h = elim (Bool-cases (r.id == id)) [
  | inl here ↦ rw (here, write_request, h r) (omega arith)
  | inr there ↦ rw (there, write_request) (omega (arith, count-write_request i id f rs h))
]

module _ (clip : String → String) where
  -- A new row is open for two inputs only if they name the same file, user and iteration.
  is_open-new_request :
      (i j : AccessInput) (id : String) (r : AccessRequest)
      → is_open i (new_request clip id j) ≡ true
      → is_open i r ≡ true
      → is_open j r ≡ true
  is_open-new_request i j id r h k =
      let file : j.file_id ≡ i.file_id = (eq_iff j.file_id i.file_id).0 (ground arith) in
      let user : j.requester_id ≡ i.requester_id =
        (eq_iff j.requester_id i.requester_id).0 (ground arith) in
      let origin : j.iteration_id ≡ i.iteration_id =
        eq_of_same_id j.iteration_id i.iteration_id (ground arith) in
      rw (file, user, origin) k

  raise-IsOneOpen :
      (i j : AccessInput) (rs : List AccessRequest) (id : String)
      → find (is_open j) rs ≡ none
      → count (is_open i) rs ≤ 1
      → count (is_open i) (new_request clip id j ∷ rs) ≤ 1
  raise-IsOneOpen i j rs id h k = elim (Bool-cases (is_open i (new_request clip id j))) [
    | inr shut ↦ rw shut (omega (arith, k))
    | inl open_ ↦ rw open_ (
        omega (
          arith,
          count_mono (is_open i) (is_open j) rs (λ r. is_open-new_request i j id r open_),
          count-find-none (is_open j) rs h,
        ))
  ]

  request-IsOneOpen :
      (i : AccessInput) (now : ℕ) (id : String) (j : AccessInput) (d : Desk)
      → IsOneOpen i d
      → IsOneOpen i (request clip now id j d).1
  unfolding request raise
  request-IsOneOpen i now id j d k = ground (arith, raise-IsOneOpen i j d.requests id)

  decide-IsOneOpen :
      (i : AccessInput) (now : ℕ) (id : String) (a : Approver) (c : Choice) (o : DecideOptions)
      (d : Desk)
      → IsOneOpen i d
      → IsOneOpen i (decide clip now id a c o d).1
  unfolding decide conclude
  decide-IsOneOpen i now id a c o d k = elim (Option-cases (find_request id d)) [
    | inl e ↦ ground arith
    | inr (r, e) ↦ ground (
      arith,
      count-write_request i r.id (decided_row clip now a c o) d.requests
          (λ q. decided_closed i now a c o q),
    )
  ]
    where
      decided_closed :
          (i : AccessInput) (now : ℕ) (a : Approver) (c : Choice) (o : DecideOptions)
          (q : AccessRequest)
          → is_open i (decided_row clip now a c o q) ≡ false
      decided_closed i now a approve o q = ground arith
      decided_closed i now a reject o q = ground arith

  cancel-IsOneOpen :
      (i : AccessInput) (now : ℕ) (id user : String) (d : Desk)
      → IsOneOpen i d
      → IsOneOpen i (cancel clip now id user d).1
  unfolding cancel
  cancel-IsOneOpen i now id user d k = elim (Option-cases (find_request id d)) [
    | inl e ↦ ground arith
    | inr (r, e) ↦
        ground (
          arith,
          count-write_request i r.id (cancelled_row clip now) d.requests (λ q. ground arith),
        )
  ]

  answer-IsOneOpen :
      (i : AccessInput) (c : Call) (d : Desk) → IsOneOpen i d → IsOneOpen i (answer clip c d).1
  unfolding answer
  answer-IsOneOpen i (requesting now id j) d k = request-IsOneOpen i now id j d k
  answer-IsOneOpen i (deciding now id a c o) d k = decide-IsOneOpen i now id a c o d k
  answer-IsOneOpen i (cancelling now id user) d k = cancel-IsOneOpen i now id user d k

  after-IsOneOpen :
      (i : AccessInput) (cs : List Call) (d : Desk) → IsOneOpen i d → IsOneOpen i (after clip cs d)
  unfolding after
  after-IsOneOpen i [] d k = k
  after-IsOneOpen i (c ∷ cs) d k =
      after-IsOneOpen i cs (answer clip c d).1 (answer-IsOneOpen i c d k)

  request_granted :
      (now : ℕ) (id : String) (i : AccessInput) (d : Desk)
      → has_active_grant now i.file_id i.requester_id d ≡ true
      → (request clip now id i d).1 ≡ d
  unfolding request has_active_grant
  request_granted now id i d h =
      elim (Option-cases (find (is_active now i.file_id i.requester_id) d.requests)) [
        | inl e ↦ absurd (ground arith)
        | inr (r, e) ↦ ground arith
      ]

  -- However the service is called on a table without requests, at most one request of a user for a
  -- file from an iteration is undecided, and asking while the user has an active grant for the file
  -- changes nothing.
  pub request_once :
      (cs : List Call) (d : Desk) (i : AccessInput)
      → d.requests ≡ []
      → (count (is_open i) (after clip cs d).requests ≤ 1)
        × ((now : ℕ) (id : String)
            → has_active_grant now i.file_id i.requester_id (after clip cs d) ≡ true
            → (request clip now id i (after clip cs d)).1 ≡ after clip cs d)
  request_once cs d i none_yet = (
    after-IsOneOpen i cs d (rw none_yet (omega arith)),
    λ now id h. request_granted now id i (after clip cs d) h,
  )
