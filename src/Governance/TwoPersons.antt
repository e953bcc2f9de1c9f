-- ===== src/Governance/TwoPersons.antt =====
-- The two-approver rule.
use digital_thread.Shared.{
  ℕ, ◌+◌, ◌≤◌, String, ◌≡◌, refl, ◌≢◌, true, false, not, ◌||◌, List, [], ◌∷◌, ◌++◌, arith, ap, ◌∙◌,
  eq_iff, ◌==◌, if◌then◌else◌, leb, filter, length, count, length-filter, inl, inr, Bool-cases,
}
use mathlib.Core.List.{Memᴰ}
use digital_thread.Access.Roles.{Role, has_role, staff_roles}
use digital_thread.Governance.Approvals.{
  pending, approved, rejected, Choice, approve, reject, Decision, ApprovalRequest, RequestInput,
  request, is_approve, decided_by, counted, settle, decide, cancel, Call, deciding, cancelling,
  answer, after,
}

abbrev approvals : List Decision → ℕ
approvals ds = count is_approve ds

-- No approver decided twice.
abbrev IsDistinct : List Decision → Type 0
IsDistinct [] = Unit
IsDistinct (d ∷ ds) = (decided_by d.approver_id ds ≡ false) × IsDistinct ds

record IsSound (q : ApprovalRequest) : Type 0 where
  distinct : IsDistinct q.decisions
  others : decided_by q.requester_id q.decisions ≡ false
  agreed : q.status ≡ approved → 2 ≤ approvals q.decisions

count-append : (ds es : List Decision) → approvals (ds ++ es) ≡ approvals ds + approvals es
count-append [] es = omega arith
count-append (d ∷ ds) es = ground (arith, count-append ds es)

decided_by-append :
    (id : String) (ds : List Decision) (d : Decision)
    → decided_by id (ds ++ d ∷ []) ≡ (decided_by id ds || d.approver_id == id)
decided_by-append id [] d = ground arith
decided_by-append id (e ∷ ds) d = ground (arith, decided_by-append id ds d)

IsDistinct-append :
    (ds : List Decision) (d : Decision)
    → IsDistinct ds
    → decided_by d.approver_id ds ≡ false
    → IsDistinct (ds ++ d ∷ [])
IsDistinct-append [] d h k = (refl, tt)
IsDistinct-append (e ∷ ds) d (fresh, h) k = (
  ground (
    arith,
    decided_by-append e.approver_id ds d,
    eq_iff e.approver_id d.approver_id,
    eq_iff d.approver_id e.approver_id,
  ),
  IsDistinct-append ds d h (ground arith),
)

-- Nobody's earlier decision is replaced, since a second one is refused.
filter-others :
    (id : String) (ds : List Decision)
    → decided_by id ds ≡ false
    → filter (λ d. not (d.approver_id == id)) ds ≡ ds
filter-others id [] h = refl
filter-others id (d ∷ ds) h = ground (arith, filter-others id ds)

counted_lem :
    (id : String) (choice : Choice) (ds : List Decision)
    → decided_by id ds ≡ false
    → counted id choice ds ≡ ds ++ record { approver_id = id; choice = choice } ∷ []
unfolding counted
counted_lem id choice ds h = rw (filter-others id ds h)

abbrev entry : String → Choice → Decision
entry id choice = record { approver_id = id; choice = choice }

decided_by-entry :
    (q : ApprovalRequest) (id : String) (choice : Choice)
    → q.requester_id ≢ id
    → decided_by q.requester_id q.decisions ≡ false
    → decided_by q.requester_id (q.decisions ++ entry id choice ∷ []) ≡ false
decided_by-entry q id choice ne h = ground (
  arith,
  decided_by-append q.requester_id q.decisions (entry id choice),
  eq_iff id q.requester_id,
)

-- How many approve, once one more does.
approvals-counted :
    (id : String) (ds : List Decision)
    → decided_by id ds ≡ false
    → length (filter is_approve (counted id approve ds)) ≡ approvals ds + 1
approvals-counted id ds new =
    length-filter is_approve (counted id approve ds)
    ∙ (ap approvals (counted_lem id approve ds new) ∙ count-append ds (entry id approve ∷ []))

settle-IsSound :
    (q : ApprovalRequest) (id : String) (choice : Choice) (now : ℕ)
    → IsSound q
    → q.status ≡ pending
    → q.requester_id ≢ id
    → decided_by id q.decisions ≡ false
    → IsSound (
        settle q.decisions id choice now
          (record q { decisions = q.decisions ++ entry id choice ∷ [] }))
unfolding settle
settle-IsSound q id reject now h p ne new = record {
  distinct = IsDistinct-append q.decisions (entry id reject) h.distinct new;
  others = decided_by-entry q id reject ne h.others;
  agreed = λ e. cc;
}
settle-IsSound q id approve now h p ne new =
    let distinct = IsDistinct-append q.decisions (entry id approve) h.distinct new in
    let others = decided_by-entry q id approve ne h.others in
    let total = approvals-counted id q.decisions new in
    let joined = count-append q.decisions (entry id approve ∷ []) in
    elim (Bool-cases (leb 2 (length (filter is_approve (counted id approve q.decisions))))) [
      | inl many ↦
          rw (many, settle)
            (record {
              distinct = distinct;
              others = others;
              agreed = λ _. ground (arith, total, joined);
            })
      | inr few ↦
          rw (few, settle) (record { distinct = distinct; others = others; agreed = λ e. cc })
    ]

request-IsSound : (input : RequestInput) → IsSound (request input)
unfolding request
request-IsSound input = record { distinct = tt; others = refl; agreed = λ e. cc }

-- Every call of the service keeps the invariant.
answer-IsSound : (c : Call) (q : ApprovalRequest) → IsSound q → IsSound (answer c q).1
unfolding answer decide cancel
answer-IsSound (cancelling id now) q h = ground arith
answer-IsSound (deciding id role choice now) q h =
    ground (arith, settle-IsSound q id choice now h, eq_iff q.requester_id id)

after-IsSound : (cs : List Call) (q : ApprovalRequest) → IsSound q → IsSound (after cs q)
unfolding after
after-IsSound [] q h = h
after-IsSound (c ∷ cs) q h = after-IsSound cs (answer c q).1 (answer-IsSound c q h)

answer_requester : (c : Call) (q : ApprovalRequest) → (answer c q).1.requester_id ≡ q.requester_id
unfolding answer decide cancel settle
answer_requester c q = ground arith

-- No call changes who asked.
after_requester :
    (cs : List Call) (q : ApprovalRequest) → (after cs q).requester_id ≡ q.requester_id
unfolding after
after_requester [] q = refl
after_requester (c ∷ cs) q = after_requester cs (answer c q).1 ∙ answer_requester c q

-- Somebody approved.
abbrev pub Approves : String → List Decision → Type 0
Approves id ds = Memᴰ (record { approver_id = id; choice = approve }) ds

Approves-decided_by : (id : String) (ds : List Decision) → Approves id ds → decided_by id ds ≡ true
Approves-decided_by id [] m = elim m [ ]
Approves-decided_by id (d ∷ ds) (Memᴰ.head e) =
    ground (arith, eq_iff d.approver_id id, ap (λ (x : Decision). x.approver_id) e)
Approves-decided_by id (d ∷ ds) (Memᴰ.tail m) = ground (arith, Approves-decided_by id ds m)

approve_of :
    (d : Decision)
    → is_approve d ≡ true
    → record { approver_id = d.approver_id; choice = approve } ≡ d
approve_of d h = ground arith

one_of : (ds : List Decision) → 1 ≤ approvals ds → (a : String) × Approves a ds
one_of [] h = absurd (omega arith)
one_of (d ∷ ds) h = elim (Bool-cases (is_approve d)) [
  | inl good ↦ (d.approver_id, Memᴰ.head (approve_of d good))
  | inr bad ↦ let (a, m) = one_of ds (ground arith) in (a, Memᴰ.tail m)
]

two_of :
    (ds : List Decision)
    → IsDistinct ds
    → 2 ≤ approvals ds
    → (a b : String) × (a ≢ b) × Approves a ds × Approves b ds
two_of [] d h = absurd (omega arith)
two_of (e ∷ ds) (fresh, d) h = elim (Bool-cases (is_approve e)) [
  | inl good ↦
      let (b, m) = one_of ds (ground arith) in
      (
        e.approver_id,
        b,
        λ same. cc (Approves-decided_by b ds m, ap (λ x. decided_by x ds) same),
        Memᴰ.head (approve_of e good),
        Memᴰ.tail m,
      )
  | inr bad ↦
      let (a, b, ne, m, n) = two_of ds d (ground arith) in (a, b, ne, Memᴰ.tail m, Memᴰ.tail n)
]

-- However the service is called, a request is APPROVED only if two different users approved it,
-- neither of them the one who asked.
pub approved_by_two :
    (input : RequestInput) (cs : List Call)
    → (after cs (request input)).status ≡ approved
    → let ds = (after cs (request input)).decisions in
      (a b : String) × (a ≢ b)
      × (a ≢ input.requester_id)
      × (b ≢ input.requester_id)
      × Approves a ds
      × Approves b ds
unfolding request
approved_by_two input cs h =
    let q = after cs (request input) in
    let sound = after-IsSound cs (request input) (request-IsSound input) in
    let (a, b, ne, m, n) = two_of q.decisions sound.distinct (sound.agreed h) in
    let nobody = rw (after_requester cs (request input)) at sound.others in
    (
      a,
      b,
      ne,
      λ e. cc (Approves-decided_by a q.decisions m, ap (λ x. decided_by x q.decisions) e),
      λ e. cc (Approves-decided_by b q.decisions n, ap (λ x. decided_by x q.decisions) e),
      m,
      n,
    )

-- A second approval by a member of the staff who neither asked nor decided before completes the
-- request, and a rejection by one ends it.
pub decide_second :
    (q : ApprovalRequest) (id : String) (role : Role) (now : ℕ)
    → has_role staff_roles role ≡ true
    → q.status ≡ pending
    → q.requester_id ≢ id
    → decided_by id q.decisions ≡ false
    → ((decide id role reject now q).1.status ≡ rejected)
      × ((decide id role approve now q).1.status
          ≡ (if leb 1 (count is_approve q.decisions) then approved else pending))
unfolding decide settle
decide_second q id role now staff p ne new =
    ground (arith, eq_iff q.requester_id id, approvals-counted id q.decisions new)
