-- ===== src/Network/Wait/Runs.antt =====
-- WaitForTransaction against its specification: the runs that end.
use mathlib.Core.Path.{subst}
use provable_sdk.Base.{ℕ, zero, suc, ◌≤◌, ◌≡◌, refl, none, some, Bytes, arith}
use provable_sdk.Fault.{Fault}
use provable_sdk.Exec.{Result, ok, err}
use provable_sdk.Http.Env.{Env, Trace, pause}
use provable_sdk.Json.{Json}
use provable_sdk.Types.{Transaction}
use provable_sdk.Network.{NetworkClient}
use provable_sdk.Network.Queries.{get_transaction}
use provable_sdk.Network.Wait.{
  Outcome, poll_interval, after_pause, after_poll, poll, wait_for_transaction,
}

module _ (env : Env) (json : Json) (c : NetworkClient) (tx_id : Bytes) (d : ℕ) where
  -- A run from one trace to another: polls that fail, with full waits between them, up to a poll that
  -- finds the transaction or a wait in which the context ends.
  pub data Runs : Trace → Result Transaction → Trace → Type 0 where
    found :
        {t u : Trace} {tx : Transaction}
        → get_transaction env json c tx_id t ≡ (ok tx, u)
        → Runs t (ok tx) u
    cancelled :
        {t u v : Trace} {e f : Fault}
        → get_transaction env json c tx_id t ≡ (err e, u)
        → pause env d u ≡ (err f, v)
        → Runs t (err f) v
    again :
        {t u v w : Trace} {e : Fault} {r : Result Transaction}
        → get_transaction env json c tx_id t ≡ (err e, u)
        → pause env d u ≡ (ok tt, v)
        → Runs v r w
        → Runs t r w

  -- The polls of a run.
  abbrev pub polls : {t u : Trace} {r : Result Transaction} → Runs t r u → ℕ
  polls (found e) = 1
  polls (cancelled e f) = 1
  polls (again e f run) = suc (polls run)

  poll_complete :
      (fuel : ℕ) {t u : Trace} {r : Result Transaction} (run : Runs t r u)
      → polls run ≤ fuel
      → poll env json c tx_id d fuel t ≡ (some r, u)
  unfolding poll after_poll after_pause
  poll_complete zero (found e) le = absurd (omega arith)
  poll_complete zero (cancelled e f) le = absurd (omega arith)
  poll_complete zero (again e f run) le = absurd (omega arith)
  poll_complete (suc fuel) (found e) le = rw e
  poll_complete (suc fuel) (cancelled e f) le = rw e (rw f)
  poll_complete (suc fuel) (again e f run) le = rw e (rw f (poll_complete fuel run (omega arith)))

  -- What the loop has done by fuel: a run, or nothing yet.
  abbrev RunsTo : Trace → Outcome → Type 0
  RunsTo t (none, u) = Unit
  RunsTo t (some r, u) = Runs t r u

  module _ (again_runs : (v : Trace) → Outcome) (ih : (v : Trace) → RunsTo v (again_runs v)) where
    extend :
        (t : Trace) {u v : Trace} {e : Fault}
        → get_transaction env json c tx_id t ≡ (err e, u)
        → pause env d u ≡ (ok tt, v)
        → (o : Outcome) → RunsTo v o
        → RunsTo t o
    extend t e f (none, w) h = tt
    extend t e f (some r, w) h = again e f h

    pause_sound :
        (t u : Trace) {e : Fault} (p : Result (Unit {0}) × Trace)
        → get_transaction env json c tx_id t ≡ (err e, u)
        → pause env d u ≡ p
        → RunsTo t (after_pause again_runs p)
    unfolding after_pause
    pause_sound t u (ok tt, v) e f = extend t e f (again_runs v) (ih v)
    pause_sound t u (err f, v) e h = cancelled e h

    after_poll_sound :
        (t : Trace) (p : Result Transaction × Trace)
        → get_transaction env json c tx_id t ≡ p
        → RunsTo t (after_poll (pause env d) again_runs p)
    unfolding after_poll
    after_poll_sound t (ok tx, u) e = found e
    after_poll_sound t (err x, u) e = pause_sound t u (pause env d u) e refl

  poll_sound : (fuel : ℕ) (t : Trace) → RunsTo t (poll env json c tx_id d fuel t)
  unfolding poll
  poll_sound zero t = tt
  poll_sound (suc fuel) t =
      after_poll_sound (poll env json c tx_id d fuel) (poll_sound fuel) t
        (get_transaction env json c tx_id t) refl

module _ (env : Env) (json : Json) (c : NetworkClient) (tx_id : Bytes) (d : ℕ) where
  -- If WaitForTransaction returns a result, then a run of failed polls and full waits led to it (the
  -- interval 0 stands for three seconds): a poll found the transaction, or the context ended a wait.
  pub wait_for_transaction_sound :
      (fuel : ℕ) (t : Trace) {u : Trace} {r : Result Transaction}
      → wait_for_transaction env json c fuel tx_id d t ≡ (some r, u)
      → Runs env json c tx_id (poll_interval d) t r u
  unfolding wait_for_transaction
  wait_for_transaction_sound fuel t h =
      subst (RunsTo env json c tx_id (poll_interval d) t) h
        (poll_sound env json c tx_id (poll_interval d) fuel t)

  -- For every run, fuel for its polls is enough: WaitForTransaction returns the run's result and leaves
  -- its trace.
  pub wait_for_transaction_complete :
      (fuel : ℕ) {t u : Trace} {r : Result Transaction}
      (run : Runs env json c tx_id (poll_interval d) t r u)
      → polls env json c tx_id (poll_interval d) run ≤ fuel
      → wait_for_transaction env json c fuel tx_id d t ≡ (some r, u)
  unfolding wait_for_transaction
  wait_for_transaction_complete fuel run le =
      poll_complete env json c tx_id (poll_interval d) fuel run le
