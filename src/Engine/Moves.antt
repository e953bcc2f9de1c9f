-- ===== src/Engine/Moves.antt =====
-- How the statuses of the nodes move while the engine works: each node stays or leaves IDLE, and
-- a policy says which nodes may leave it for which status.
use digital_thread.Shared.{
  inr, ◌≢◌, sym, ◌∙◌, subst, ◌≤◌, ◌<◌, String, ◌≡◌, refl, Option, some, List, arith, eq_iff, ◌⊎◌,
  inl,
}
use digital_thread.Engine.Store.{
  NodeStatus, idle, pending, completed, skipped, NodeState, find_state, modify_state, status_in,
}
use digital_thread.Engine.Rows.{
  KeepsId, find_state-modify_state, idle_count, idle_count-modify_state,
}

-- The transitions of a node that the engine makes by itself.
abbrev pub Moved : Option NodeStatus → Option NodeStatus → Type 0
Moved a b =
    (a ≡ b) ⊎ ((a ≡ some idle) × ((b ≡ some pending) ⊎ ((b ≡ some completed) ⊎ (b ≡ some skipped))))

pub Moved-trans : (a b c : Option NodeStatus) → Moved a b → Moved b c → Moved a c
Moved-trans a b c h k = ground arith

abbrev pub AllMoved : List NodeState → List NodeState → Type 0
AllMoved ss ts = (j : String) → Moved (status_in ss j) (status_in ts j)

-- `Allows ss j st`: with the rows `ss`, the node `j` may leave IDLE for `st`. What is allowed stays
-- so while nodes move.
pub record Policy : Type 1 where
  pub Allows : List NodeState → String → NodeStatus → Type 0
  pub persists :
      (ss ts : List NodeState) (j : String) (st : NodeStatus)
      → AllMoved ss ts
      → Allows ss j st
      → Allows ts j st

-- The statuses that the engine gives to an IDLE node.
abbrev pub IsNext : NodeStatus → Type 0
IsNext st = (st ≡ pending) ⊎ ((st ≡ completed) ⊎ (st ≡ skipped))

status_in-kept :
    (j : String) (ss ts : List NodeState)
    → find_state j ts ≡ find_state j ss
    → status_in ts j ≡ status_in ss j
unfolding status_in
status_in-kept j ss ts h = rw (status_in, h) refl

module _ (pol : Policy) where
  -- Every node stays, or leaves IDLE as the policy allows.
  pub record Progress (ss ts : List NodeState) : Type 0 where
    pub moved : AllMoved ss ts
    pub fewer : idle_count ts ≤ idle_count ss
    pub allowed :
        (j : String) (st : NodeStatus)
        → status_in ss j ≡ some idle
        → status_in ts j ≡ some st
        → st ≢ idle
        → pol.Allows ts j st
    -- Nothing is written to a row that is not IDLE.
    pub kept : (j : String) → status_in ss j ≢ some idle → find_state j ts ≡ find_state j ss

  -- A step in which no status changes.
  pub Progress-same :
      {ss ts : List NodeState}
      → ((j : String) → status_in ts j ≡ status_in ss j)
      → idle_count ts ≡ idle_count ss
      → ((j : String) → status_in ss j ≢ some idle → find_state j ts ≡ find_state j ss)
      → Progress ss ts
  Progress-same same as_many kept = record {
    moved = λ j. inl (sym (same j));
    fewer = omega arith;
    allowed = λ j st a b ne. absurd (ground (arith, same j));
    kept = kept;
  }

  pub Progress-refl : (ss : List NodeState) → Progress ss ss
  Progress-refl ss = Progress-same (λ j. refl) refl (λ j ne. refl)

  pub Progress-trans :
      {ss ts us : List NodeState} → Progress ss ts → Progress ts us → Progress ss us
  Progress-trans {ss} {ts} {us} p q = record {
    moved = λ j. Moved-trans _ _ _ (p.moved j) (q.moved j);
    fewer = omega (arith, p.fewer, q.fewer);
    allowed = λ j st a c ne. elim (q.moved j) [
      | inl stayed ↦ pol.persists ts us j st q.moved (p.allowed j st a (stayed ∙ c) ne)
      | inr (left, to) ↦ q.allowed j st left c ne
    ];
    kept =
        λ j ne. q.kept j (λ e. ne (sym (status_in-kept j ss ts (p.kept j ne)) ∙ e)) ∙ p.kept j ne;
  }

module _ (id : String) (f : NodeState → NodeState) (ss : List NodeState) {st : NodeStatus}
    (k : KeepsId f) (to : (s : NodeState) → (f s).status ≡ st) (next : IsNext st) (s : NodeState)
    (found : find_state id ss ≡ some s) (was : s.status ≡ idle) where
  modify_state-AllMoved : AllMoved ss (modify_state id f ss)
  unfolding status_in
  modify_state-AllMoved j = ground (arith, find_state-modify_state id j f ss k, to s, eq_iff id j)

  -- Only the row written leaves IDLE, for the status written.
  modify_state_left :
      (j : String) (st' : NodeStatus)
      → status_in ss j ≡ some idle
      → status_in (modify_state id f ss) j ≡ some st'
      → st' ≢ idle
      → (id ≡ j) × (st ≡ st')
  unfolding status_in
  modify_state_left j st' a b ne =
      ground (arith, find_state-modify_state id j f ss k, to s, eq_iff id j)

  modify_state-kept :
      (j : String)
      → status_in ss j ≢ some idle
      → find_state j (modify_state id f ss) ≡ find_state j ss
  unfolding status_in
  modify_state-kept j ne = ground (arith, find_state-modify_state id j f ss k, eq_iff id j)

  pub modify_state-Progress :
      (pol : Policy) → pol.Allows ss id st → Progress pol ss (modify_state id f ss)
  modify_state-Progress pol allowed = record {
    moved = modify_state-AllMoved;
    fewer = ground (arith, idle_count-modify_state id f ss s found, to s);
    allowed = λ j st' a b ne.
        let (same, same_st) = modify_state_left j st' a b ne in
        subst (λ i. pol.Allows (modify_state id f ss) i st') same
          (subst (pol.Allows (modify_state id f ss) id) same_st
            (pol.persists ss (modify_state id f ss) id st modify_state-AllMoved allowed));
    kept = modify_state-kept;
  }

  -- A row that leaves IDLE is one IDLE row less.
  pub idle_count-modify_state_lt : idle_count (modify_state id f ss) < idle_count ss
  idle_count-modify_state_lt = ground (arith, idle_count-modify_state id f ss s found, to s)
