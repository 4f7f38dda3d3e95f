-- ===== src/Network/Get.antt =====
-- NetworkClient.get: a GET request with retries on transport errors, 429 and 5xx.
pub mod Steps
pub mod Schedule
pub mod Bounds
pub mod Success
pub mod Negative
use provable_sdk.Base.{
  ℕ, zero, suc, ◌*◌, ◌%◌, ◌^◌, ◌≡◌, refl, Bool, true, false, ◌||◌, Option, none, some, List, [],
  ◌∷◌, ◌++◌, foldl, ℤ, rounds, Bytes, codes, leb, ◌==◌, if◌then◌else◌,
}
use provable_sdk.Text.{is_empty}
use provable_sdk.Text.Decimal.{format_uint, atoi_positive}
use provable_sdk.Fault.{Fault, plain}
use provable_sdk.Exec.{Result, ok, err, Exec, pure, raise, ◌>>=◌}
use provable_sdk.Http.{Headers, set_header, get_header}
use provable_sdk.Http.Env.{
  Method, get, Request, Response, Exchange, failed, answered, Env, Net, new_request, do_request,
  pause, wait_turn, backoff,
}
use provable_sdk.Network.{NetworkClient, second}

-- What one round of the loop comes to when it does not return an error: the body, or the value of
-- lastErr with which the loop goes on.
pub data Verdict : Type 0 where
  give : Bytes → Verdict
  again : Fault → Verdict

-- for k, v := range c.headers { req.Header.Set(k, v) }
unfoldable pub apply_headers : NetworkClient → Headers → Headers
unfolding set_header
apply_headers c h = foldl (λ h' kv. set_header kv.0 kv.1 h') h c.headers

unfoldable pub get_request : NetworkClient → Bytes → Request
unfolding apply_headers
get_request c url = record { method = get; url = url; headers = apply_headers c []; body = [] }

unfoldable pub is_transient : ℕ → Bool
is_transient status = status == 429 || leb 500 status

unfoldable pub status_fault : ℕ → Bytes → Fault
status_fault status body = plain (codes "HTTP " ++ format_uint status ++ codes ": " ++ body)

-- return nil, lastErr: a nil body and a nil error where no round was made
pub finish : Option Fault → Net Bytes
finish none = pure []
finish (some e) = raise e

-- the end of a round: the body is returned, or the loop goes on
go_on : Verdict → (Fault → Net Bytes) → Net Bytes
go_on (give body) loop = pure body
go_on (again e) loop = loop e

module _ (env : Env) where
  -- the wait that a 429 asks for
  wait_seconds : Option ℕ → Net Unit
  wait_seconds none = pure tt
  wait_seconds (some n) = pause env ((n * second) % 2 ^ 64)

  retry_after : Headers → Net Unit
  unfolding wait_seconds
  retry_after h =
      let ra = get_header (codes "Retry-After") h in
      if is_empty ra then pure tt else wait_seconds (atoi_positive ra)

  judge_body : ℕ → Headers → Bytes → Net Verdict
  unfolding retry_after
  judge_body status h body =
      if status == 200
      then pure (give body)
      else if is_transient status
      then (do
        _ ← if status == 429 then retry_after h else pure tt
        pure (again (status_fault status body)))
      else raise (status_fault status body)

  judge_read : ℕ → Headers → Result Bytes → Net Verdict
  unfolding judge_body
  judge_read status h (err e) = pure (again e)
  judge_read status h (ok body) = judge_body status h body

  judge : Exchange → Net Verdict
  unfolding judge_read
  judge (failed e) = pure (again e)
  judge (answered r) = judge_read r.status r.headers r.body

  module _ (c : NetworkClient) (url : Bytes) where
    -- the wait before every round but the first
    before_round : ℕ → Net Unit
    before_round zero = pure tt
    before_round (suc k) = pause env (backoff env c.base_delay k)

    pub round : ℕ → Net Verdict
    unfolding before_round judge
    round attempt = do
      _ ← before_round attempt
      _ ← if c.limited then wait_turn env else pure tt
      req ← new_request env (get_request c url)
      answer ← do_request env req
      judge answer

    -- `n` rounds are left, and `attempt` were made
    pub loop : ℕ → ℕ → Option Fault → Net Bytes
    unfolding finish go_on
    loop zero attempt last = finish last
    loop (suc n) attempt last = do v ← round attempt; go_on v (λ e. loop n (suc attempt) (some e))

    unfoldable pub fetch : Net Bytes
    unfolding loop round
    fetch = loop (rounds c.max_retries) 0 none
