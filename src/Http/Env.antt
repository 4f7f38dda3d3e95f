-- ===== src/Http/Env.antt =====
-- The actions of the SDK, the environment that answers them, and the actions as steps on a trace.
use provable_sdk.Base.{ℕ, ◌*◌, ◌%◌, ◌^◌, Option, List, [], ◌∷◌, ◌++◌, Bytes, ltb, if◌then◌else◌}
use provable_sdk.Fault.{Fault}
use provable_sdk.Exec.{Result, ok, Exec, or_raise}
use provable_sdk.Http.{Headers}

pub data Method : Type 0 where
  get post : Method

pub record Request : Type 0 where
  pub method : Method
  pub url : Bytes
  pub headers : Headers
  pub body : Bytes

-- Reading a body (io.ReadAll) may fail after the status line has come.
pub record Response : Type 0 where
  pub status : ℕ
  pub headers : Headers
  pub body : Result Bytes

-- The two results of http.Client.Do.
pub data Exchange : Type 0 where
  failed : Fault → Exchange
  answered : Response → Exchange

-- A duration is the 64-bit pattern of a time.Duration, in nanoseconds.
pub data Action : Type 0 where
  sent : Request → Action
  paused : ℕ → Action
  queued : Action

-- The actions so far, the latest last.
abbrev pub Trace : Type 0
Trace = List Action

-- What the SDK does not decide. `interrupted t d` is the context's error where a wait of `d` ends by
-- `ctx.Done()`, and `none` where the timer wins.
pub record Env : Type 0 where
  -- the error of http.NewRequestWithContext for a URL
  pub reject_url : Bytes → Option Fault
  pub respond : Trace → Request → Exchange
  pub interrupted : Trace → ℕ → Option Fault
  -- the error of the rate limiter's Wait
  pub throttled : Trace → Option Fault
  -- time.Now() in nanoseconds
  pub now : Trace → ℕ
  -- what crypto/rand reads next
  pub random : Trace → Bytes
  -- time.Duration(math.Pow(2, k)) where 2^k does not fit in an int64: the language leaves it open
  pub huge_power : ℕ → ℕ

abbrev pub Net : Type 0 → Type 0
Net A = Exec Trace A

module _ (env : Env) where
  -- http.NewRequestWithContext, then http.Client.Do
  unfoldable pub new_request : Request → Net Request
  new_request req = or_raise (env.reject_url req.url) req

  unfoldable pub do_request : Request → Net Exchange
  do_request req t = (ok (env.respond t req), t ++ sent req ∷ [])

  -- select { case <-ctx.Done(): return ctx.Err(); case <-time.After(d): }
  unfoldable pub pause : ℕ → Net Unit
  pause d t = or_raise (env.interrupted t d) tt (t ++ paused d ∷ [])

  -- rateLimiter.Wait(ctx)
  unfoldable pub wait_turn : Net Unit
  wait_turn t = or_raise (env.throttled t) tt (t ++ queued ∷ [])

  -- baseDelay * time.Duration(math.Pow(2, float64(attempt-1))), for attempt = k + 1
  unfoldable pub backoff : ℕ → ℕ → ℕ
  backoff base k = (base * (if ltb k 63 then 2 ^ k else env.huge_power k)) % 2 ^ 64
