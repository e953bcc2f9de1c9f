-- ===== src/Iterations/Restarts.antt =====
-- What a restart makes of an iteration.
use digital_thread.Shared.{String, ◌≡◌, Option, some}
use digital_thread.Engine.Store.{Run}
use digital_thread.Iterations.Forks.{IterationFlow, IterationRow, fork_of}
use digital_thread.Iterations.Forked.{IsFork}

module _ (row : IterationRow) (source : Run)
    (new_id display_id forked_from forked_into : String) where
  -- What a call makes: a new iteration with the source's columns, and statuses as in a fork.
  abbrev pub IsRestart : IterationFlow → String → Option (IterationRow × Run) → Type 0
  IsRestart f from created =
      (r : Run) × (created ≡ some (fork_of row new_id display_id from, r))
      × IsFork f.edges f.nodes from source r
