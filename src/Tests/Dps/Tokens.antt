-- ===== src/Tests/Dps/Tokens.antt =====
-- The JWT cache and the sealed box on concrete data.
use provable_sdk.Base.{◌≡◌, ◌≤◌, ◌⊎◌, refl, ap, [], ◌∷◌, ◌++◌, false, codes, Bytes}
use provable_sdk.Text.{is_empty}
use provable_sdk.Fault.{Fault, plain}
use provable_sdk.Exec.{ok, err}
use provable_sdk.Text.Decimal.{format_uint}
use provable_sdk.Http.Env.{Env, Trace, new_request, do_request}
use provable_sdk.Network.Submit.{is_accepted}
use provable_sdk.Http.Within.{Grows}
use provable_sdk.Provable.{Session}
use provable_sdk.Provable.Jwt.{is_fresh, fetch_jwt, get_jwt, jwt_request}
use provable_sdk.Provable.Jwt.Locked.{
  waiting, holding, stale, fetched, leaving, returned, Callers, lock, miss, ask, fail, unlock, turn,
  Step, Run, start, later,
}
use provable_sdk.Provable.Jwt.Locked.Ending.{AllReturned, Run-Ends}
use provable_sdk.Provable.Jwt.Cache.{IsRenewed, get_jwt_stale}
use provable_sdk.Security.{sealed_box_encrypt, sealed_box_decrypt}
use provable_sdk.Security.RoundTrip.{sealed_box_decrypt-encrypt}
use provable_sdk.Tests.{calm_env, reply}
use provable_sdk.Tests.Dps.{toy_key, toy_box, toy_box-IsBox, dps_codec, dps_client}

abbrev refuses : Env
refuses = calm_env (λ t q. reply 401 [])

abbrev no_token : Session
no_token = record { trace = []; jwt = []; jwt_exp = 0 }

get_jwt_stale_example :
    IsRenewed refuses dps_codec toy_box dps_client no_token
      (get_jwt refuses dps_codec toy_box dps_client no_token).0
      (get_jwt refuses dps_codec toy_box dps_client no_token).1
    × Grows
        (λ q. q ≡ jwt_request refuses dps_codec toy_box dps_client)
        1
        []
        (get_jwt refuses dps_codec toy_box dps_client no_token).1.trace
unfolding is_fresh is_empty
get_jwt_stale_example = get_jwt_stale refuses dps_codec toy_box dps_client no_token refl

abbrev toy_sealed : Bytes
toy_sealed = toy_key ++ (codes "0123456789abcdef" ++ codes "hello")

toy_encrypt : sealed_box_encrypt toy_box [] toy_key (codes "hello") ≡ ok toy_sealed
unfolding sealed_box_encrypt
toy_encrypt = refl

sealed_box_decrypt-encrypt_example :
    sealed_box_decrypt toy_box toy_key toy_key toy_sealed ≡ ok (codes "hello")
unfolding toy_box-IsBox
sealed_box_decrypt-encrypt_example =
    sealed_box_decrypt-encrypt toy_box toy_box-IsBox [] toy_key toy_key (codes "hello") refl
      toy_encrypt

abbrev refusal : Fault
refusal = plain (codes "JWT request failed (status 401): ")

fetch_refused : (t : Trace) → (fetch_jwt refuses dps_codec toy_box dps_client t).0 ≡ err refusal
unfolding fetch_jwt new_request do_request is_accepted format_uint
fetch_refused t = refl

abbrev asked : Trace → Trace
asked t = (fetch_jwt refuses dps_codec toy_box dps_client t).1

-- Two goroutines ask for a token.
abbrev both_through : Callers
both_through = record {
  session = record no_token { trace = asked (asked []) };
  held = false;
  slots = returned (err refusal) ∷ returned (err refusal) ∷ [];
}

one_after_the_other : Run refuses dps_codec toy_box dps_client no_token 2 10 both_through
unfolding is_fresh is_empty
one_after_the_other =
    let one = returned (err refusal) ∷ [] in
    let r5 =
      later
        (later
          (later
            (later (later start (turn [] waiting (waiting ∷ []) refl (lock refl refl)))
              (turn [] holding (waiting ∷ []) refl (miss refl refl)))
            (turn [] stale (waiting ∷ []) refl (ask refl)))
          (turn [] _ (waiting ∷ []) refl (fail refusal (ap fetched (fetch_refused [])))))
        (turn [] (leaving (err refusal)) (waiting ∷ []) refl (unlock (err refusal) refl)) in
    later
      (later
        (later
          (later (later r5 (turn one waiting [] refl (lock refl refl)))
            (turn one holding [] refl (miss refl refl)))
          (turn one stale [] refl (ask refl)))
        (turn one _ [] refl (fail refusal (ap fetched (fetch_refused _)))))
      (turn one (leaving (err refusal)) [] refl (unlock (err refusal) refl))

Run-Ends_example :
    (10 ≤ 10)
    × (((b' : Callers) × Step refuses dps_codec toy_box dps_client both_through b')
        ⊎ AllReturned refuses dps_codec toy_box dps_client no_token 2 both_through)
Run-Ends_example = Run-Ends refuses dps_codec toy_box dps_client no_token 2 one_after_the_other
