-- ===== src/Provable/Jwt.antt =====
-- GetJWT, its cache, and the expiry of a token.
pub mod Cache
pub mod Locked
use provable_sdk.Base.{
  ℕ, zero, suc, ◌+◌, ◌*◌, ◌^◌, ℤ, pos, negsuc, rounds, List, [], ◌∷◌, ◌++◌, Bool, true, false, not,
  ◌&&◌, ◌||◌, Option, none, some, Bytes, codes, length, take, drop, get_elem?, ltb, ◌==◌,
  if◌then◌else◌,
}
use provable_sdk.Text.{bytes_eq, is_empty, trim_prefix, split}
use provable_sdk.Text.Decimal.{format_uint, atoi_positive}
use provable_sdk.Fault.{Fault, annotate, plain, text}
use provable_sdk.Exec.{Result, ok, err, Exec, pure, raise, lift, on_fault, zoom, ◌>>=◌}
use provable_sdk.Http.{Headers, set_header, get_header}
use provable_sdk.Http.Env.{
  Method, post, Request, Response, Exchange, failed, answered, Trace, Env, Net, new_request,
  do_request,
}
use provable_sdk.Json.{Json}
use provable_sdk.Security.{Primitives}
use provable_sdk.Network.{second}
use provable_sdk.Network.Submit.{is_accepted}
use provable_sdk.Provable.{ProvableClient, Session}

abbrev pub Dps : Type 0 → Type 0
Dps A = Exec Session A

-- An action on the world alone.
abbrev pub on_net : {A : Type 0} → Net A → Dps A
on_net = zoom (λ s. s.trace) (λ s t. record s { trace = t })

-- jwtBufferDuration: five minutes
abbrev jwt_buffer_duration : ℕ
jwt_buffer_duration = 300 * second

-- The bytes of a body; a body that cannot be read counts as empty.
body_text : Result Bytes → Bytes
body_text (ok body) = body
body_text (err e) = []

abbrev pub json_type : Bytes
json_type = codes "application/json"

module _ (json : Json) (prim : Primitives) where
  -- time.Unix counts from the year 1 in an int64. Where this wraps around, the time lies before every
  -- other, and 0 stands for it.
  expiry_of : ℕ → Option ℕ → ℕ
  expiry_of fallback none = fallback
  expiry_of fallback (some unix) = if ltb (unix + 62135596800) (2 ^ 63) then unix * second else 0

  claims_expiry : ℕ → Result Bytes → ℕ
  unfolding expiry_of
  claims_expiry fallback (err e) = fallback
  claims_expiry fallback (ok number) = expiry_of fallback (atoi_positive number)

  payload_expiry : ℕ → Result Bytes → ℕ
  unfolding claims_expiry
  payload_expiry fallback (err e) = fallback
  payload_expiry fallback (ok payload) = claims_expiry fallback (json.exp payload)

  parts_expiry : ℕ → List Bytes → ℕ
  unfolding payload_expiry
  parts_expiry fallback (header ∷ payload ∷ signature ∷ []) =
      payload_expiry fallback (prim.raw_url_decode payload)
  parts_expiry fallback _ = fallback

  -- parseJWTExpiry at a time: the claim "exp", or an hour from then
  unfoldable pub parse_jwt_expiry : ℕ → Bytes → ℕ
  unfolding parts_expiry trim_prefix split
  parse_jwt_expiry now token =
      parts_expiry (now + 3600 * second) (split (trim_prefix token (codes "Bearer ")) b'.')

jwt_header : Bytes → Net Bytes
jwt_header jwt =
    if is_empty jwt
    then raise (plain (codes "JWT response missing Authorization header"))
    else pure jwt

jwt_answer : Exchange → Net Bytes
unfolding jwt_header body_text
jwt_answer (failed e) = raise (annotate (codes "JWT request failed") e)
jwt_answer (answered r) =
    if is_accepted r.status
    then jwt_header (get_header (codes "Authorization") r.headers)
    else raise (
        plain (
          codes "JWT request failed (status "
          ++ format_uint r.status
          ++ codes "): "
          ++ body_text r.body))

module _ (env : Env) (json : Json) (prim : Primitives) (c : ProvableClient) where
  unfoldable pub jwt_request : Request
  jwt_request = record {
    method = post;
    url = c.api_base ++ codes "/jwts/" ++ c.consumer_id;
    headers =
        set_header (codes "X-Provable-API-Key") c.api_key
          (set_header (codes "Content-Type") json_type []);
    body = [];
  }

  unfoldable pub fetch_jwt : Net Bytes
  unfolding jwt_request jwt_answer
  fetch_jwt = do
    req ← on_fault (annotate (codes "create JWT request")) (new_request env jwt_request)
    answer ← do_request env req
    jwt_answer answer

  -- c.jwt != "" && time.Now().Before(c.jwtExp.Add(-jwtBufferDuration))
  unfoldable pub is_fresh : Session → Bool
  is_fresh s = not (is_empty s.jwt) && ltb (env.now s.trace + jwt_buffer_duration) s.jwt_exp

  pub store_jwt : Bytes → Dps Bytes
  store_jwt jwt s =
      (ok jwt, record s { jwt = jwt; jwt_exp = parse_jwt_expiry json prim (env.now s.trace) jwt })

  -- GetJWT, which holds the lock from its beginning to its end
  unfoldable pub get_jwt : Dps Bytes
  unfolding is_fresh store_jwt
  get_jwt s = (if is_fresh s then pure s.jwt else do jwt ← on_net fetch_jwt; store_jwt jwt) s
