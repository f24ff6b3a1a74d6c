-- ===== src/Jobs/Scheduler/Sweep.antt =====
-- `sweepExpiredState` of internal/jobs/scheduler.go. Cutoffs are exact, since the clock is past its
-- first 180 days.
use fund_dashboard.Prelude.{
  ℕ, ◌-◌, ◌*◌, ◌/◌, List, [], ◌∷◌, ◌++◌, Option, none, if◌then◌else◌, Bytes, second, hour,
}
use fund_dashboard.Dialect.{is_missing_table_error}
use fund_dashboard.Jobs.Calendar.{wal}
use fund_dashboard.Jobs.System.{
  Action, sweep_expired, delete_sessions, delete_confirmations, delete_audit_events,
  sweep_auth_events, Wiring, Sched, ◌>>=◌, pure, call, when, first_err,
}

-- An absent table is no error. A delete whose rows were not counted is none either.
abbrev pub sweep_error : Option Bytes → Option Bytes
sweep_error err = if is_missing_table_error err then none else err

unfoldable pub sweep_tables : ℕ → List Action → Option Bytes → Sched (Option Bytes)
sweep_tables now [] err = pure err
sweep_tables now (sweep ∷ sweeps) err =
    call wal now sweep >>= λ e. sweep_tables now sweeps (first_err err (sweep_error e))

abbrev pub days : ℕ → ℕ
days n = n * (24 * hour)

-- Without an auth service the sessions are deleted first.
abbrev pub sweeps : Wiring → ℕ → List Action
sweeps w wall =
    (if w.has_session_sweep then [] else delete_sessions (wall / second) ∷ [])
    ++ delete_confirmations (wall - days 7) ∷ delete_audit_events (wall - days 90) ∷ []

unfoldable pub sweep_expired_state : Wiring → ℕ → Sched (Option Bytes)
sweep_expired_state w now s =
    (do
      a ← when w.has_session_sweep (call wal now sweep_expired)
      b ← sweep_tables now (sweeps w s.wall) a
      c ← when w.has_auth_sweep (call wal now (sweep_auth_events ((s.wall - days 180) / second)))
      pure (first_err b c))
      s
