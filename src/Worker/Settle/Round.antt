-- ===== src/Worker/Settle/Round.antt =====
-- A whole round of the worker: the execution identity before it and the reaction after it.
use inryeok_bot.Prelude.{
  String, ◌≡◌, refl, false, Bool, true, false, Option, some, is_present, Bool-cases, inl, inr,
}
use inryeok_bot.Jobs.Model.{JobStatus, is_terminal}
use inryeok_bot.Worker.Session.{rollback, Session, hold, commit, IsStored, commit-IsStored}
use inryeok_bot.Worker.Settle.{
  Ending, settled, missing_greenlet, World, ensure_execution, reaction_status,
}
use inryeok_bot.Worker.Settle.Settled.{Settled}

-- If the held job is stored as it is held, then once its execution identity is ensured it is
-- present and stored, and ensuring it again, with whatever fresh identity, changes nothing.
pub ensure_execution_durable :
    (a b : String) (s : Session)
    → IsStored s
    → let s' = ensure_execution a s in
      IsStored s' × (is_present s'.held.execution_id ≡ true) × (ensure_execution b s' ≡ s')
unfolding ensure_execution commit
ensure_execution_durable a b s st = elim (Bool-cases (is_present s.held.execution_id)) [
  | inl e ↦ rw (e, ensure_execution) (st, e, rw (e, ensure_execution) refl)
  | inr e ↦
      rw (e, ensure_execution)
        (commit-IsStored (hold (record s.held { execution_id = some a }) s), refl, refl)
]

-- The result of the cleanup is recorded, where there is one.
abbrev pub Cleaned : Bool → World → Session → Type 0
Cleaned true w s = s.held.reaction_cleanup_status ≡ some (reaction_status w.reaction)
Cleaned false w s = Unit

-- How a round ends: with MissingGreenlet and what was stored before, or settled and cleaned up.
abbrev pub Ends : Bool → JobStatus → Option String → World → Session → Ending → Type 0
Ends true status e w s r = r ≡ missing_greenlet (rollback s)
Ends false status e w s r =
    (final : Session) × (r ≡ settled final)
    × Settled status e final
    × Cleaned (is_terminal status) w final
