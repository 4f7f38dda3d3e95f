-- ===== src/Network/Get/Bounds.antt =====
-- What NetworkClient.get may do under any environment.
use provable_sdk.Base.{ℕ, zero, suc, ◌+◌, ◌≡◌, refl, Option, none, some, [], arith, rounds, Bytes}
use provable_sdk.Fault.{Fault}
use provable_sdk.Exec.{Result, ok, err}
use provable_sdk.Http.{Headers}
use provable_sdk.Http.Env.{Request, Exchange, failed, answered, Net, Env}
use provable_sdk.Http.Within.{
  Within, Within-pure, Within-bind, Within-if, Within-pause, Within-raise, Within-le, within_rules,
  Within-issue,
}
use provable_sdk.Network.{NetworkClient}
use provable_sdk.Network.Get.{
  Verdict, give, again, get_request, finish, wait_seconds, retry_after, judge_body, judge_read,
  judge, go_on, before_round, round, loop, fetch,
}

module _ {P : Request → Type 0} (env : Env) where
  wait_seconds-Within : (o : Option ℕ) → Within P 0 (wait_seconds env o)
  unfolding wait_seconds
  wait_seconds-Within none = Within-pure tt
  wait_seconds-Within (some n) = Within-pause env _

  retry_after-Within : (h : Headers) → Within P 0 (retry_after env h)
  unfolding retry_after
  retry_after-Within h = Within-if 0 _ _ _ (Within-pure tt) (wait_seconds-Within _)

  judge_body-Within :
      (status : ℕ) (h : Headers) (body : Bytes) → Within P 0 (judge_body env status h body)
  unfolding judge_body
  judge_body-Within status h body = search (within_rules, retry_after-Within)

  judge_read-Within :
      (status : ℕ) (h : Headers) (body : Result Bytes) → Within P 0 (judge_read env status h body)
  unfolding judge_read
  judge_read-Within status h (err e) = Within-pure (again e)
  judge_read-Within status h (ok b) = judge_body-Within status h b

  judge-Within : (x : Exchange) → Within P 0 (judge env x)
  unfolding judge
  judge-Within (failed e) = Within-pure (again e)
  judge-Within (answered r) = judge_read-Within r.status r.headers r.body

module _ (env : Env) (c : NetworkClient) (url : Bytes) where
  -- The only request that `get` makes.
  abbrev pub IsTheGet : Request → Type 0
  IsTheGet q = q ≡ get_request c url

  before_round-Within : (k : ℕ) → Within IsTheGet 0 (before_round env c url k)
  unfolding before_round
  before_round-Within zero = Within-pure tt
  before_round-Within (suc k) = Within-pause env _

  round-Within : (k : ℕ) → Within IsTheGet 1 (round env c url k)
  unfolding round
  round-Within k = search (
    within_rules,
    before_round-Within,
    judge-Within,
    Within-issue {P = IsTheGet} env 0 (get_request c url) (judge env) refl,
  )

  finish-Within : (last : Option Fault) → Within IsTheGet 0 (finish last)
  unfolding finish
  finish-Within none = Within-pure []
  finish-Within (some e) = Within-raise e

  after-Within :
      (n : ℕ) (go : Fault → Net Bytes) (v : Verdict)
      → ((e : Fault) → Within IsTheGet n (go e))
      → Within IsTheGet n (go_on v go)
  unfolding go_on
  after-Within n go (give body) h = Within-le 0 n _ (omega arith) (Within-pure body)
  after-Within n go (again e) h = h e

  loop-Within : (n k : ℕ) (last : Option Fault) → Within IsTheGet n (loop env c url n k last)
  unfolding loop
  loop-Within zero k last = finish-Within last
  loop-Within (suc n) k last = Within-le (1 + n) (suc n) _ (omega arith) (
      Within-bind 1 n (round env c url k) _ (round-Within k)
        (λ v. after-Within n _ v (λ e. loop-Within n (suc k) (some e))))

  -- Under any server, clock, limiter and context, `get` adds at most `maxRetries + 1` requests to
  -- the trace, and each of them is the client's GET of the URL.
  pub fetch-Within : Within IsTheGet (rounds c.max_retries) (fetch env c url)
  unfolding fetch
  fetch-Within = loop-Within (rounds c.max_retries) 0 none
