-- ===== src/Manager/Execute/Waited.antt =====
-- ExecuteAndWait as a whole: an execution, and then the polls of the node.
use provable_sdk.Base.{ℕ, ◌≡◌, ap, List, Bytes, true, none, some, Option}
use provable_sdk.Exec.{Result, ok}
use provable_sdk.Partial.{Partial, >>=-eq-ok}
use provable_sdk.Http.Env.{Trace}
use provable_sdk.Types.{Transaction}
use provable_sdk.Memory.{Memory}
use provable_sdk.Network.Wait.{poll_interval, wait_for_transaction}
use provable_sdk.Network.Wait.Runs.{Runs, wait_for_transaction_sound}
use provable_sdk.Provable.Submit.{Service}
use provable_sdk.Imports.{ProvingRequestOptions}
use provable_sdk.Manager.{ProgramManager, Managed, Managing}
use provable_sdk.Manager.Execute.{
  ExecuteOption, apply_options, request_options, execute_via_dps, execute_and_wait, on_trace,
}
use provable_sdk.Manager.Execute.Outcome.{IsExecuted, execute_via_dps-IsExecuted}

-- An action on the world alone is one on its trace.
on_trace_lem :
    {A : Type 0} (m : Partial Trace A) (s : Managed) {r : Option (Result A)} {u : Managed}
    → on_trace m s ≡ (r, u)
    → m s.session.trace ≡ (r, u.session.trace)
on_trace_lem {A} m s h = ap (λ (p : Option (Result A) × Managed). (p.0, p.1.session.trace)) h

module _ (sv : Service) (mem : Memory) (pm : ProgramManager) (fuel : ℕ) where
  -- The execution whose transaction was waited for, and the polls of the wait.
  pub record IsWaited (opts : ProvingRequestOptions) (d : ℕ) (s : Managed) (tx : Transaction)
      (u : Managed) : Type 0 where
    pub tx_id : Bytes
    pub executed : IsExecuted sv mem pm fuel opts s tx_id
    pub between : Managed
    pub executes : execute_via_dps sv mem pm fuel opts s ≡ (some (ok tx_id), between)
    pub polled :
        Runs sv.env sv.json pm.network_client tx_id
          (poll_interval d)
          between.session.trace
          (ok tx)
          u.session.trace

  -- If ExecuteAndWait returns a transaction, then an execution of the program's function, with a
  -- broadcast put before the caller's options, gave an ID; and from where that left the world, failed
  -- polls for this ID and full waits led to a poll at which the node answered with the transaction.
  pub execute_and_wait-IsWaited :
      (program function : Bytes) (d : ℕ) (opts : List ExecuteOption) (s : Managed)
      {tx : Transaction} {u : Managed}
      → execute_and_wait sv mem pm fuel program function d opts s ≡ (some (ok tx), u)
      → IsWaited (apply_options (request_options program function none true) opts) d s tx u
  unfolding execute_and_wait
  execute_and_wait-IsWaited program function d opts s h =
      let o : ProvingRequestOptions =
        apply_options (request_options program function none true) opts in
      let wait : Bytes → Managing Transaction =
        λ id. on_trace (wait_for_transaction sv.env sv.json pm.network_client fuel id d) in
      let (id, t, e, rest) = >>=-eq-ok (execute_via_dps sv mem pm fuel o) wait s h in
      record {
        tx_id = id;
        executed = execute_via_dps-IsExecuted sv mem pm fuel o s e;
        between = t;
        executes = e;
        polled =
            wait_for_transaction_sound sv.env sv.json pm.network_client id d fuel t.session.trace (
              on_trace_lem (wait_for_transaction sv.env sv.json pm.network_client fuel id d) t
                rest);
      }
