-- ===== src/Network/Wait.antt =====
-- NetworkClient.WaitForTransaction: a loop with no end of its own, on fuel. `none` says that the fuel
-- ran out, which the code's loop does not know.
pub mod Runs
use provable_sdk.Base.{
  ℕ, zero, suc, ◌*◌, Bool, true, false, Option, none, some, List, [], ◌∷◌, ◌++◌, Bytes, ◌==◌,
  if◌then◌else◌,
}
use provable_sdk.Fault.{Fault}
use provable_sdk.Exec.{Result, ok, err}
use provable_sdk.Http.Env.{Env, Trace, pause}
use provable_sdk.Json.{Json}
use provable_sdk.Types.{Transaction}
use provable_sdk.Network.{NetworkClient, second}
use provable_sdk.Network.Queries.{get_transaction}

-- if pollInterval == 0 { pollInterval = 3 * time.Second }
unfoldable pub poll_interval : ℕ → ℕ
poll_interval d = if d == 0 then 3 * second else d

-- What a round of the loop leaves: a result, or the trace from which the loop goes on.
abbrev pub Outcome : Type 0
Outcome = Option (Result Transaction) × Trace

after_pause : (Trace → Outcome) → Result (Unit {0}) × Trace → Outcome
after_pause again (ok _, t) = again t
after_pause again (err e, t) = (some (err e), t)

after_poll :
    (Trace → Result (Unit {0}) × Trace) → (Trace → Outcome) → Result Transaction × Trace → Outcome
unfolding after_pause
after_poll wait again (ok tx, t) = (some (ok tx), t)
after_poll wait again (err e, t) = after_pause again (wait t)

module _ (env : Env) (json : Json) (c : NetworkClient) (tx_id : Bytes) (d : ℕ) where
  poll : ℕ → Trace → Outcome
  unfolding after_poll
  poll zero t = (none, t)
  poll (suc fuel) t = after_poll (pause env d) (poll fuel) (get_transaction env json c tx_id t)

module _ (env : Env) (json : Json) (c : NetworkClient) where
  unfoldable pub wait_for_transaction : ℕ → Bytes → ℕ → Trace → Outcome
  unfolding poll poll_interval
  wait_for_transaction fuel tx_id d t = poll env json c tx_id (poll_interval d) fuel t
