-- ===== src/Tests/Dps/Proofs.antt =====
-- Proving requests on concrete data.
use mathlib.Core.List.{cons-ne-nil}
use provable_sdk.Base.{◌≡◌, refl, [], none, arith, codes, true, inl, inr}
use provable_sdk.Exec.{ok}
use provable_sdk.Types.{ProvingResponse, DelegatedProvingParams}
use provable_sdk.Http.Within.{Grows}
use provable_sdk.Provable.Jwt.{jwt_request, get_jwt}
use provable_sdk.Provable.Jwt.Cache.{get_jwt_fresh}
use provable_sdk.Provable.Submit.{Service, submit_proving_request_safe, submit_proving_request}
use provable_sdk.Provable.Submit.Outcome.{IsAnswered, submit_proving_request-IsAnswered}
use provable_sdk.Provable.Submit.Schedule.{
  granted, proved, IsBusy, actions, IsOpen, ComesTo, answer, schedule,
  submit_proving_request_safe-ComesTo,
}
use provable_sdk.Provable.Submit.Sequence.{Sends, submit_proving_request_safe-Sends}
use provable_sdk.Tests.{calm_env, reply, at_first}
use provable_sdk.Tests.Dps.{dps_client, no_privacy, with_token, service_on}

-- A prover that is busy at first, and one that always fails.
abbrev busy : Service
busy = service_on (calm_env (at_first (reply 503 []) (reply 200 (codes "proof"))))

abbrev broken : Service
broken = service_on (calm_env (λ t q. reply 500 []))

abbrev proof : ProvingResponse
proof = record { transaction = codes "proof"; broadcast_result = none }

token :
    (sv : Service)
    → sv.env.now [] ≡ 0
    → get_jwt sv.env sv.json sv.prim dps_client with_token ≡ (ok (codes "t"), with_token)
token sv e =
    get_jwt_fresh sv.env sv.json sv.prim dps_client with_token (cons-ne-nil b't' [])
      (omega (arith, e))

busy-IsOpen : IsOpen busy dps_client no_privacy (codes "t") []
busy-IsOpen = record { plain = refl; written = refl; accepts = refl; alive = λ t d. refl }

second_answer : ComesTo busy dps_client no_privacy (codes "t") [] (ok (granted proof)) 1 0 []
unfolding answer ComesTo IsBusy actions
second_answer = ((inr refl, ([], refl)), proved proof (inl refl) refl refl)

submit_proving_request_safe-ComesTo_example :
    submit_proving_request_safe busy dps_client no_privacy with_token ≡ (
      ok (granted proof),
      record with_token { trace = schedule busy dps_client no_privacy (codes "t") [] 2 0 },
    )
submit_proving_request_safe-ComesTo_example =
    submit_proving_request_safe-ComesTo busy dps_client no_privacy (codes "t") [] busy-IsOpen 1 1
      with_token refl (omega arith) (token busy refl) second_answer

submit_proving_request-IsAnswered_example :
    IsAnswered busy dps_client no_privacy
      (submit_proving_request busy dps_client no_privacy with_token).0
submit_proving_request-IsAnswered_example =
    submit_proving_request-IsAnswered busy dps_client no_privacy with_token

-- A private request of the broken service.
abbrev privacy : DelegatedProvingParams
privacy = record no_privacy { dps_privacy = true }

submit_proving_request_safe-Sends_example :
    Grows
      (λ q. q ≡ jwt_request broken.env broken.json broken.prim dps_client)
      1
      []
      (get_jwt broken.env broken.json broken.prim dps_client with_token).1.trace
    × Sends broken dps_client privacy
        (get_jwt broken.env broken.json broken.prim dps_client with_token).0
        (get_jwt broken.env broken.json broken.prim dps_client with_token).1.trace
        (submit_proving_request_safe broken dps_client privacy with_token).1.trace
submit_proving_request_safe-Sends_example =
    submit_proving_request_safe-Sends broken dps_client privacy with_token
