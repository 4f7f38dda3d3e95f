-- ===== src/Tests/Dps/Managers/Batches.antt =====
-- A run of ExecuteBatch with one request.
use mathlib.Core.List.{Forall₂}
use provable_sdk.Base.{refl, ap, ◌∙◌, List, [], ◌∷◌, ◌≤◌, arith, Bytes, codes}
use provable_sdk.Exec.{Result, ok}
use provable_sdk.Manager.Execute.{execute, execute_via_dps}
use provable_sdk.Manager.Batch.{
  ExecuteRequest, Phase, finished, Batch, acquire, store, release, done, spawn, turn, Run, start,
  later, Returned, waited, result_of, init, started,
}
use provable_sdk.Manager.Batch.Invariant.{IsAnswer, Inv}
use provable_sdk.Manager.Batch.Moves.{Run-Inv}
use provable_sdk.Manager.Batch.Results.{Returned-IsAnswer}
use provable_sdk.Manager.Batch.Return.{Progress, CanReturn, Run-Progress, Run-CanReturn}
use provable_sdk.Manager.Batch.Executed.{Executes, options_of, IsReported, Returned-IsReported}
use provable_sdk.Tests.Dps.{no_memory}
use provable_sdk.Tests.Dps.Managers.{prompt, manager, ready, executes, request, request_options_lem}

abbrev Outcomes : ExecuteRequest → Result Bytes → Type 0
Outcomes = Executes prompt no_memory manager 2

outcome : Outcomes request (ok (codes "at1"))
unfolding execute options_of
outcome = (
  ready,
  _,
  ap (λ o. execute_via_dps prompt no_memory manager 2 o ready) request_options_lem ∙ executes,
)

abbrev requests : List ExecuteRequest
requests = request ∷ []

abbrev spawned : Batch
spawned = record { pending = []; slots = started request ∷ []; sem = 0; wg = 1 }

abbrev at_phase : Phase → Batch
at_phase p = record {
  pending = [];
  slots = record (started request) { phase = p } ∷ [];
  sem = 1;
  wg = 1;
}

-- The end of the run.
abbrev ended : Batch
ended = record {
  pending = [];
  slots =
      record { request = request; phase = finished; result = result_of (ok (codes "at1")) } ∷ [];
  sem = 0;
  wg = 0;
}

run : Run Outcomes requests 5 ended
unfolding result_of
run =
    later
      (later
        (later
          (later (later start (spawn request [] refl))
            (turn [] _ [] refl (acquire refl (omega arith))))
          (turn [] _ [] refl (store (ok (codes "at1")) refl outcome)))
        (turn [] _ [] refl (release refl (omega arith))))
      (turn [] _ [] refl (done refl (omega arith)))

ended-Returned : Returned ended (result_of (ok (codes "at1")) ∷ [])
ended-Returned = waited refl refl

Run-Inv_example : Inv Outcomes requests ended
Run-Inv_example = Run-Inv Outcomes requests run

Returned-IsAnswer_example : Forall₂ (IsAnswer Outcomes) requests (result_of (ok (codes "at1")) ∷ [])
Returned-IsAnswer_example = Returned-IsAnswer Outcomes requests run ended-Returned

Returned-IsReported_example :
    Forall₂ (IsReported prompt no_memory manager 2) requests (result_of (ok (codes "at1")) ∷ [])
Returned-IsReported_example =
    Returned-IsReported prompt no_memory manager 2 requests run ended-Returned

Run-Progress_example : (5 ≤ 5) × Progress Outcomes ended
Run-Progress_example = Run-Progress Outcomes requests ((_, outcome), tt) run

Run-CanReturn_example : CanReturn Outcomes (init requests)
Run-CanReturn_example = Run-CanReturn Outcomes requests ((_, outcome), tt) start
