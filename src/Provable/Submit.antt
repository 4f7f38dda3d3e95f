-- ===== src/Provable/Submit.antt =====
-- SubmitProvingRequest and what it calls: the two ways to submit, the retries, and ProveWithJWT.
pub mod Outcome
pub mod Requests
pub mod Privacy
pub mod Sequence
pub mod Schedule
use provable_sdk.Base.{
  ℕ, zero, suc, ℤ, rounds, List, [], ◌∷◌, ◌++◌, Bool, true, false, not, ◌&&◌, ◌||◌, Option, none,
  some, Bytes, codes, ◌==◌, if◌then◌else◌,
}
use provable_sdk.Text.{is_empty, trim_right}
use provable_sdk.Fault.{Fault, annotate, plain}
use provable_sdk.Text.Decimal.{format_uint}
use provable_sdk.Exec.{Result, ok, err, Exec, pure, raise, lift, on_fault, map_fault, ◌>>=◌}
use provable_sdk.Http.{Headers, set_header}
use provable_sdk.Http.Env.{
  Method, get, post, Request, Response, Exchange, failed, answered, Env, Net, new_request,
  do_request, pause, backoff,
}
use provable_sdk.Json.{Json}
use provable_sdk.Types.{
  ProvingRequest, ProvingResponse, ProvingResult, PubKeyResponse, DelegatedProvingParams,
}
use provable_sdk.Bridge.{Library, proving_request_to_bytes}
use provable_sdk.Security.{Primitives, encrypt_proving_request}
use provable_sdk.Provable.{ProvableClient, Session}
use provable_sdk.Provable.Jwt.{Dps, on_net, json_type, get_jwt}
use provable_sdk.Provable.Reply.{prove_answer, refused, unwrap}

-- What the client needs from elsewhere.
pub record Service : Type 0 where
  pub env : Env
  pub json : Json
  pub prim : Primitives
  pub lib : Library

pub_key_reply : Json → ℕ → Result Bytes → Net PubKeyResponse
pub_key_reply json status (err e) = raise (annotate (codes "read pubkey response") e)
pub_key_reply json status (ok body) =
    if status == 200
    then lift (map_fault (annotate (codes "decode pubkey response")) (json.pub_key body))
    else raise (
        plain (codes "pubkey request failed (status " ++ format_uint status ++ codes "): " ++ body))

pub_key_answer : Json → Exchange → Net PubKeyResponse
unfolding pub_key_reply
pub_key_answer json (failed e) = raise (annotate (codes "pubkey request failed") e)
pub_key_answer json (answered r) = pub_key_reply json r.status r.body

pub pub_key_request : Bytes → Bytes → Request
pub_key_request jwt base = record {
  method = get;
  url = base ++ codes "/pubkey";
  headers = set_header (codes "Authorization") jwt (set_header (codes "Content-Type") json_type []);
  body = [];
}

pub prove_request : Bytes → Bytes → Bytes → Request
prove_request jwt base body = record {
  method = post;
  url = base ++ codes "/prove";
  headers =
      set_header (codes "X-ALEO-METHOD") (codes "submitProvingRequest")
        (set_header (codes "Authorization") jwt (set_header (codes "Content-Type") json_type []));
  body = body;
}

encrypted_request : Bytes → Bytes → Bytes → Request
encrypted_request jwt base body = record {
  method = post;
  url = base ++ codes "/prove/encrypted";
  headers = set_header (codes "Authorization") jwt (set_header (codes "Content-Type") json_type []);
  body = body;
}

-- !result.OK && (result.Status == 500 || result.Status == 503)
unfoldable pub is_retried : ProvingResult → Bool
is_retried r = not r.success && (r.status == 500 || r.status == 503)

-- What the loop returns behind its last round.
unfoldable pub exhausted : ProvingResult
unfolding refused
exhausted = refused 503 (codes "max retries exceeded")

-- the randomness that the ephemeral key takes
draw : Env → Net Bytes
draw env t = (ok (env.random t), t)

module _ (sv : Service) where
  -- getPublicKey
  unfoldable pub get_public_key : Bytes → Bytes → Net PubKeyResponse
  unfolding pub_key_answer pub_key_request
  get_public_key jwt base = do
    req ←
        on_fault (annotate (codes "create pubkey request"))
          (new_request sv.env (pub_key_request jwt base))
    answer ← do_request sv.env req
    pub_key_answer sv.json answer

  unfoldable pub submit_unencrypted : Bytes → Bytes → ProvingRequest → Net ProvingResult
  unfolding prove_request
  submit_unencrypted jwt base pr = do
    body ←
        lift (map_fault (annotate (codes "marshal proving request")) (sv.json.marshal_proving pr))
    req ←
        on_fault (annotate (codes "create prove request"))
          (new_request sv.env (prove_request jwt base body))
    answer ← do_request sv.env req
    prove_answer sv.json answer

  unfoldable pub submit_encrypted : Bytes → Bytes → ProvingRequest → Net ProvingResult
  unfolding encrypted_request draw
  submit_encrypted jwt base pr = do
    key ← on_fault (annotate (codes "get public key")) (get_public_key jwt base)
    bytes_b64 ← lift (
        map_fault (annotate (codes "serialize proving request")) (
          proving_request_to_bytes sv.lib sv.json pr.authorization pr.fee_authorization
            pr.broadcast))
    pr_bytes ← lift (
        map_fault (annotate (codes "decode proving request base64"))
          (sv.prim.base64_decode bytes_b64))
    randomness ← draw sv.env
    ciphertext ← lift (
        map_fault (annotate (codes "encrypt proving request"))
          (encrypt_proving_request sv.prim randomness key.public_key pr_bytes))
    body ← lift (
        map_fault (annotate (codes "marshal encrypted request"))
          (sv.json.marshal_encrypted (record { key_id = key.key_id; ciphertext = ciphertext })))
    req ←
        on_fault (annotate (codes "create encrypted prove request"))
          (new_request sv.env (encrypted_request jwt base body))
    answer ← do_request sv.env req
    prove_answer sv.json answer

  unfoldable pub submit_once : Bool → Bytes → Bytes → ProvingRequest → Net ProvingResult
  submit_once privacy jwt base pr =
      if privacy then submit_encrypted jwt base pr else submit_unencrypted jwt base pr

  module _ (base_delay : ℕ) (once : Net ProvingResult) where
    unfoldable pub before_attempt : ℕ → Net Unit
    before_attempt zero = pure tt
    before_attempt (suc k) = pause sv.env (backoff sv.env base_delay k)

    -- `n` rounds are left, and `attempt` were made
    pub attempts : ℕ → ℕ → Net ProvingResult
    unfolding before_attempt is_retried exhausted
    attempts zero attempt = pure exhausted
    attempts (suc n) attempt = do
      _ ← before_attempt attempt
      r ← once
      let rest = attempts n (suc attempt)
      if is_retried r then rest else pure r

  module _ (c : ProvableClient) where
    unfoldable pub base_for : DelegatedProvingParams → Bytes
    base_for params =
        if is_empty params.url then c.prover_base else trim_right params.url (codes "/")

    unfoldable pub submit_proving_request_safe : DelegatedProvingParams → Dps ProvingResult
    unfolding base_for attempts submit_once
    submit_proving_request_safe params = do
      jwt ← on_fault (annotate (codes "get JWT")) (get_jwt sv.env sv.json sv.prim c)
      on_net (
          attempts c.base_delay
            (submit_once params.dps_privacy jwt (base_for params) params.proving_request)
            (rounds c.max_retries) 0)

    unfoldable pub submit_proving_request : DelegatedProvingParams → Dps (Option ProvingResponse)
    submit_proving_request params = do r ← submit_proving_request_safe params; lift (unwrap r)

    unfoldable pub prove : ProvingRequest → Dps (Option ProvingResponse)
    prove pr =
        submit_proving_request (record { proving_request = pr; dps_privacy = false; url = [] })

    unfoldable prove_with_jwt : Bytes → ProvingRequest → Net (Option ProvingResponse)
    prove_with_jwt jwt pr = do r ← submit_unencrypted jwt c.prover_base pr; lift (unwrap r)
