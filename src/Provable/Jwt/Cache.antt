-- ===== src/Provable/Jwt/Cache.antt =====
-- The JWT cache: when it is used, and what a call of GetJWT leaves in it.
use mathlib.Core.List.{cons-ne-nil}
use provable_sdk.Base.{
  ◌+◌, ◌<◌, ◌≡◌, ◌≢◌, refl, [], ◌∷◌, ◌++◌, true, false, arith, Bytes, codes, inl, inr, Bool-cases,
  ltb,
}
use provable_sdk.Text.{is_empty}
use provable_sdk.Fault.{annotate}
use provable_sdk.Exec.{Result, ok, err, continue, ◌>>=◌}
use provable_sdk.Http.Env.{Request, Exchange, failed, answered, sent, Trace, Env, do_request}
use provable_sdk.Http.Within.{Within, Grows, Within-issue_fault, within_rules}
use provable_sdk.Http.Ensures.{Ensures, OnSuccess, Ensures-do_request, Ensures-rest}
use provable_sdk.Network.Submit.{is_accepted}
use provable_sdk.Json.{Json}
use provable_sdk.Security.{Primitives}
use provable_sdk.Provable.{ProvableClient, Session}
use provable_sdk.Provable.Jwt.{
  jwt_buffer_duration, jwt_header, jwt_answer, jwt_request, fetch_jwt, is_fresh, store_jwt,
  parse_jwt_expiry, get_jwt,
}

is_empty-false : (s : Bytes) → s ≢ [] → is_empty s ≡ false
unfolding is_empty
is_empty-false [] h = absurd (h refl)
is_empty-false (c ∷ s) h = refl

jwt_header-ne-nil :
    (h : Bytes) (t : Trace) → OnSuccess (λ j _. j ≢ []) (jwt_header h t).0 (jwt_header h t).1
unfolding jwt_header is_empty
jwt_header-ne-nil [] t = tt
jwt_header-ne-nil (c ∷ h) t = cons-ne-nil c h

jwt_answer-ne-nil :
    (x : Exchange) (t : Trace) → OnSuccess (λ j _. j ≢ []) (jwt_answer x t).0 (jwt_answer x t).1
unfolding jwt_answer
jwt_answer-ne-nil (failed e) t = tt
jwt_answer-ne-nil (answered r) t = elim (Bool-cases (is_accepted r.status)) [
  | inl e ↦ rw e (jwt_header-ne-nil _ t)
  | inr e ↦ rw e tt
]

module _ {P : Request → Type 0} where
  jwt_header-Within : (h : Bytes) → Within P 0 (jwt_header h)
  unfolding jwt_header
  jwt_header-Within h = search within_rules

  jwt_answer-Within : (x : Exchange) → Within P 0 (jwt_answer x)
  unfolding jwt_answer
  jwt_answer-Within (failed e) = search within_rules
  jwt_answer-Within (answered r) = search (within_rules, jwt_header-Within)

module _ (env : Env) (json : Json) (prim : Primitives) (c : ProvableClient) where
  issue-ne-nil : (q : Request) → Ensures (λ j _. j ≢ []) (do_request env q >>= jwt_answer)
  issue-ne-nil q =
      Ensures-do_request env q jwt_answer
        (λ t. jwt_answer-ne-nil (env.respond t q) (t ++ sent q ∷ []))

  fetch_jwt-ne-nil : Ensures (λ j _. j ≢ []) (fetch_jwt env json prim c)
  unfolding fetch_jwt
  fetch_jwt-ne-nil = search (Ensures-rest, issue-ne-nil)

  fetch_jwt-Within : Within (λ q. q ≡ jwt_request env json prim c) 1 (fetch_jwt env json prim c)
  unfolding fetch_jwt
  fetch_jwt-Within =
      Within-issue_fault env 0 (annotate (codes "create JWT request")) (jwt_request env json prim c)
        jwt_answer refl jwt_answer-Within

  -- While a token is cached that lives for more than five minutes, GetJWT gives it, sends nothing and
  -- changes nothing.
  pub get_jwt_fresh :
      (s : Session)
      → s.jwt ≢ []
      → env.now s.trace + jwt_buffer_duration < s.jwt_exp
      → get_jwt env json prim c s ≡ (ok s.jwt, s)
  unfolding get_jwt
  get_jwt_fresh s ne lt =
      let now : ltb (env.now s.trace + jwt_buffer_duration) s.jwt_exp ≡ true = ground arith in
      rw (is_empty-false s.jwt ne, now)

  -- The cache behind a call that asked the service: on success the new token, which is not empty, with
  -- its expiry; on an error what it was.
  abbrev pub IsRenewed : Session → Result Bytes → Session → Type 0
  IsRenewed s (ok j) s' =
      (s'.jwt ≡ j) × (j ≢ []) × (s'.jwt_exp ≡ parse_jwt_expiry json prim (env.now s'.trace) j)
  IsRenewed s (err e) s' = (s'.jwt ≡ s.jwt) × (s'.jwt_exp ≡ s.jwt_exp)

  renew_IsRenewed :
      (s : Session) (r : Result Bytes) (t : Trace)
      → OnSuccess (λ j _. j ≢ []) r t
      → (let (r', s') = continue r (store_jwt env json prim c) (record s { trace = t }) in
          IsRenewed s r' s')
  unfolding store_jwt
  renew_IsRenewed s (ok j) t h = (refl, h, refl)
  renew_IsRenewed s (err e) t h = (refl, refl)

  trace_renew :
      (s : Session) (r : Result Bytes) (t : Trace)
      → (continue r (store_jwt env json prim c) (record s { trace = t })).1.trace ≡ t
  unfolding store_jwt
  trace_renew s (ok j) t = refl
  trace_renew s (err e) t = refl

  -- While no token is cached that lives for more than five minutes, GetJWT sends at most one request,
  -- the POST of the API key; its success puts the new token, which is not empty, and its expiry into the
  -- cache, and its failure leaves the cache as it was.
  pub get_jwt_stale :
      (s : Session)
      → is_fresh env json prim c s ≡ false
      → IsRenewed s (get_jwt env json prim c s).0 (get_jwt env json prim c s).1
        × Grows (λ q. q ≡ jwt_request env json prim c) 1 s.trace (get_jwt env json prim c s).1.trace
  unfolding get_jwt
  get_jwt_stale s h =
      let (r, t) = fetch_jwt env json prim c s.trace in
      rw h (
        renew_IsRenewed s r t (fetch_jwt-ne-nil.at s.trace),
        rw (trace_renew s r t) (fetch_jwt-Within.at s.trace),
      )
