-- ===== src/Engine/Update.antt =====
-- What a write to a row and `updateNodeStatus` do to the rows.
use digital_thread.Shared.{
  sym, ◌∙◌, ℕ, ◌<◌, String, ◌≡◌, refl, ◌≢◌, Option, none, some, List, [], ◌∷◌, ◌++◌, arith, ◌⊎◌,
  inl, inr, Option-cases, eq_iff, ap,
}
use digital_thread.Engine.Store.{
  NodeStatus, idle, Column, absent, malformed, parsed, NodeState, Extra, LogLine, Message, Action,
  Run, Failure, out_of_fuel, Result, ok, err, find_state, modify_state, status_in, update_row,
  json_error,
}
use digital_thread.Engine.Status.{
  update_node_status, extend_logs, patch_row, add_timeline_event, logs_of, parse_logs, announce,
}
use digital_thread.Engine.Rows.{
  KeepsId, idle_count, status_in_find, idle_count-modify_state, find_state-modify_state,
}
use digital_thread.Engine.Moves.{
  Policy, IsNext, Progress-refl, modify_state-Progress, idle_count-modify_state_lt,
}
use digital_thread.Engine.Outcome.{Good, Quiet}

-- A write to a row that keeps its key and its status.
pub update_row-Quiet :
    (id : String) (f : NodeState → NodeState) (r : Run)
    → KeepsId f
    → ((s : NodeState) → (f s).status ≡ s.status)
    → status_in r.states id ≡ some idle
    → Quiet r (update_row id f r)
unfolding update_row status_in
update_row-Quiet id f r k same was = elim (Option-cases (find_state id r.states)) [
  | inl e ↦
      rw (e, update_row)
        (record { same = λ j. refl; as_many = refl; others = λ j ne. refl; fine = cc })
  | inr (s, e) ↦
      rw (e, update_row)
        (record {
          same =
              λ j. ground (arith, find_state-modify_state id j f r.states k, same s, eq_iff id j);
          as_many = ground (arith, idle_count-modify_state id f r.states s e, same s);
          others = λ j ne. ground (arith, find_state-modify_state id j f r.states k, eq_iff id j);
          fine = cc;
        })
]

-- What a status update does to the rows: nothing where it throws, or a write to the row.
pub data Updated (id : String) (st : NodeStatus) (e : Extra) (r : Run)
    : Result (Unit {0}) × Run → Type 0 where
  threw :
      {f : Failure} {r' : Run}
      → f ≢ out_of_fuel
      → r'.states ≡ r.states
      → Updated id st e r (err f, r')
  wrote :
      (logs : Option (List LogLine)) (s : NodeState) {r' : Run}
      → find_state id r.states ≡ some s
      → r'.states ≡ modify_state id (patch_row st e logs) r.states
      → Updated id st e r (ok tt, r')

parse_logs_cases :
    (c : Column (List LogLine)) (r : Run)
    → (parse_logs c r ≡ (err json_error, r)) ⊎ ((ls : List LogLine) × (parse_logs c r ≡ (ok ls, r)))
parse_logs_cases absent r = inr ([], refl)
parse_logs_cases malformed r = inl refl
parse_logs_cases (parsed ls) r = inr (ls, refl)

logs_of_cases :
    (o : Option NodeState) (r : Run)
    → (logs_of o r ≡ (err json_error, r)) ⊎ ((ls : List LogLine) × (logs_of o r ≡ (ok ls, r)))
logs_of_cases none r = inr ([], refl)
logs_of_cases (some s) r = parse_logs_cases s.logs r

extend_logs_cases :
    (id : String) (l : Option Message) (r : Run)
    → (extend_logs id l r ≡ (err json_error, r))
      ⊎ ((logs : Option (List LogLine)) × (extend_logs id l r ≡ (ok logs, r)))
unfolding extend_logs
extend_logs_cases id none r = inr (none, refl)
extend_logs_cases id (some message) r = elim (logs_of_cases (find_state id r.states) r) [
  | inl e ↦ inl (rw e refl)
  | inr (ls, e) ↦ inr (some (ls ++ (r.now, message) ∷ []), rw e refl)
]

-- Telling the other services changes no row.
announce_lem :
    (id : String) (st : NodeStatus) (e : Extra) (r : Run)
    → ((announce id st e r).0 ≡ ok tt) × ((announce id st e r).1.states ≡ r.states)
unfolding announce
announce_lem id st e r = ground arith

Updated-of :
    {id : String} {st : NodeStatus} {e : Extra} {r : Run} (logs : Option (List LogLine))
    (s : NodeState) (o : Result (Unit {0}) × Run)
    → find_state id r.states ≡ some s
    → (o.0 ≡ ok tt) × (o.1.states ≡ modify_state id (patch_row st e logs) r.states)
    → Updated id st e r o
Updated-of logs s (ok tt, r') found (h, k) = wrote logs s found k
Updated-of logs s (err f, r') found (h, k) = cc

pub update_node_status-Updated :
    (id : String) (st : NodeStatus) (e : Extra) (r : Run)
    → Updated id st e r (update_node_status id st e r)
unfolding update_node_status update_row
update_node_status-Updated id st e r = elim (extend_logs_cases id e.log r) [
  | inl bad ↦ rw bad (threw (λ h. cc) refl)
  | inr (logs, fine) ↦ rw fine (elim (Option-cases (find_state id r.states)) [
    | inl missing ↦ rw (missing, update_row) (threw (λ h. cc) refl)
    | inr (s, found) ↦ rw (found, update_row) (Updated-of logs s _ found (announce_lem id st e _))
  ])
]

patch_row-KeepsId :
    (st : NodeStatus) (e : Extra) (logs : Option (List LogLine)) → KeepsId (patch_row st e logs)
unfolding patch_row
patch_row-KeepsId st e logs s = refl

patch_row_status :
    (st : NodeStatus) (e : Extra) (logs : Option (List LogLine)) (s : NodeState)
    → (patch_row st e logs s).status ≡ st
unfolding patch_row
patch_row_status st e logs s = refl

module _ (pol : Policy) (id : String) (st : NodeStatus) (e : Extra) (next : IsNext st) where
  Updated-Good :
      {r : Run} {o : Result (Unit {0}) × Run} (b : ℕ)
      → status_in r.states id ≡ some idle
      → pol.Allows r.states id st
      → Updated id st e r o
      → Good pol b r o
  Updated-Good {r} b was allowed (threw {r'} ne same) = record {
    progress = rw same (Progress-refl pol r.states);
    enough = λ _ h. ne (cc);
  }
  Updated-Good {r} b was allowed (wrote logs s {r'} found same) =
      let (t, found', idle_t) = status_in_find id r.states was in
      record {
        progress = rw same (
            modify_state-Progress id (patch_row st e logs) r.states (patch_row-KeepsId st e logs)
              (patch_row_status st e logs) next t found' idle_t pol allowed);
        enough = λ _. cc;
      }

  -- A node that leaves IDLE by a status update.
  pub update_node_status-Good :
      (b : ℕ) (r : Run)
      → status_in r.states id ≡ some idle
      → pol.Allows r.states id st
      → Good pol b r (update_node_status id st e r)
  update_node_status-Good b r was allowed =
      Updated-Good b was allowed (update_node_status-Updated id st e r)

  Updated-lt :
      {r : Run} {o : Result (Unit {0}) × Run}
      → status_in r.states id ≡ some idle
      → o.0 ≡ ok tt
      → Updated id st e r o
      → idle_count o.1.states < idle_count r.states
  Updated-lt {r} was h (threw {r'} ne same) = cc
  Updated-lt {r} was h (wrote logs s {r'} found same) =
      let (t, found', idle_t) = status_in_find id r.states was in
      rw same (
        idle_count-modify_state_lt id (patch_row st e logs) r.states (patch_row-KeepsId st e logs)
          (patch_row_status st e logs) next t found' idle_t)

  pub update_node_status_lt :
      (r : Run) {r' : Run}
      → status_in r.states id ≡ some idle
      → update_node_status id st e r ≡ (ok tt, r')
      → idle_count r'.states < idle_count r.states
  update_node_status_lt r {r'} was h =
      rw (ap (λ o. o.1.states) h) at
        (Updated-lt was (ap (λ o. o.0) h) (update_node_status-Updated id st e r))

pub add_timeline_event-Quiet :
    (id label partner : String) (action : Action) (detail : String) (r : Run)
    → Quiet r (add_timeline_event id label partner action detail r)
unfolding add_timeline_event
add_timeline_event-Quiet id label partner action detail r = record {
  same = λ j. refl;
  as_many = refl;
  others = λ j ne. refl;
  fine = λ h. cc;
}

Updated-ok :
    {id : String} {st : NodeStatus} {e : Extra} {r : Run} {o : Result (Unit {0}) × Run}
    → Updated id st e r o
    → o.0 ≡ ok tt
    → (logs : Option (List LogLine)) × (s : NodeState) × (find_state id r.states ≡ some s)
      × (o.1.states ≡ modify_state id (patch_row st e logs) r.states)
Updated-ok (threw {r'} ne same) h = cc
Updated-ok (wrote logs s {r'} found same) h = (logs, s, found, same)

-- A status update that succeeds writes the row's new fields and touches no other row; the row's
-- status is the new one.
pub update_node_status_row :
    (id : String) (st : NodeStatus) (e : Extra) (r r' : Run)
    → update_node_status id st e r ≡ (ok tt, r')
    → (status_in r'.states id ≡ some st)
      × ((j : String) → id ≢ j → find_state j r'.states ≡ find_state j r.states)
unfolding status_in
update_node_status_row id st e r r' h =
    let (logs, s, found, same) =
      Updated-ok (update_node_status-Updated id st e r) (ap (λ o. o.0) h) in
    let states = sym (ap (λ o. o.1.states) h) ∙ same in
    let law = λ (j : String).
      find_state-modify_state id j (patch_row st e logs) r.states (patch_row-KeepsId st e logs) in
    (
      rw states (ground (arith, law id, eq_iff id id, found, patch_row_status st e logs s)),
      λ j ne. rw states (ground (arith, law j, eq_iff id j)),
    )

-- One that throws leaves every row as it was.
pub update_node_status_err :
    (id : String) (st : NodeStatus) (e : Extra) (r : Run) {f : Failure} {r' : Run}
    → update_node_status id st e r ≡ (err f, r')
    → r'.states ≡ r.states
update_node_status_err id st e r {f} {r'} h = go (update_node_status-Updated id st e r) h
  where
    go :
        {o : Result (Unit {0}) × Run} → Updated id st e r o → o ≡ (err f, r') → r'.states ≡ r.states
    go (threw {r'} ne same) k = rw (← ap (λ o. o.1.states) k) same
    go (wrote logs s {r'} found same) k = cc
