-- ===== src/Provable/Origin.antt =====
-- Where the JWT request goes: the origin that NewProvableClient takes from the prover's URL.
use provable_sdk.Base.{
  ℕ, ◌≡◌, ◌≢◌, refl, ap, ◌∙◌, [], ◌∷◌, ◌++◌, false, some, arith, Bytes, codes, length, take, All,
}
use provable_sdk.Text.{is_empty, trim_right, in_set, index, index_miss, shift, has_prefix}
use provable_sdk.Text.Laws.{trim_end-keeps}
use provable_sdk.Exec.{ok}
use provable_sdk.Http.{set_header, get_header}
use provable_sdk.Http.Env.{Env}
use provable_sdk.Json.{Json}
use provable_sdk.Security.{Primitives}
use provable_sdk.Provable.{
  ProvableConfig, ProvableClient, api_base, prover_base, cut_at, new_provable_client,
}
use provable_sdk.Provable.Jwt.{json_type, jwt_request}

-- A base URL whose host begins with "prove" has "/prove" in "//prove", and is cut there.
api_base_prove_host : (rest : Bytes) → api_base (codes "https://prove" ++ rest) ≡ codes "https:/"
unfolding api_base
api_base_prove_host rest = refl

no_slash : (b : ℕ) (s : Bytes) → b ≢ b'/' → has_prefix (b ∷ s) (codes "/prove") ≡ false
unfolding has_prefix
no_slash b s h = ground arith

index_host :
    (host rest : Bytes)
    → All (λ b. b ≢ b'/') host
    → index (host ++ (codes "/prove" ++ rest)) (codes "/prove") ≡ some (length host)
index_host [] rest h = unfold index in refl
index_host (b ∷ host) rest (ne, h) =
    index_miss b (host ++ (codes "/prove" ++ rest)) (codes "/prove") (no_slash b _ ne)
    ∙ ap shift (index_host host rest h)
    ∙ (unfold shift in refl)

take-length : (xs ys : Bytes) → take (length xs) (xs ++ ys) ≡ xs
take-length [] ys = refl
take-length (x ∷ xs) ys = ap (λ r. x ∷ r) (take-length xs ys)

-- A base URL `https://{host}/prove{rest}`, with a host that holds no slash and does not begin with
-- "prove", is cut behind the host.
pub api_base_host :
    (host rest : Bytes)
    → All (λ b. b ≢ b'/') host
    → has_prefix (host ++ (codes "/prove" ++ rest)) (codes "prove") ≡ false
    → api_base (codes "https://" ++ (host ++ (codes "/prove" ++ rest))) ≡ codes "https://" ++ host
unfolding api_base
api_base_host host rest h e =
    let x : Bytes = host ++ (codes "/prove" ++ rest) in
    let found : index (b'/' ∷ x) (codes "/prove") ≡ shift (some (length host)) =
      index_miss b'/' x (codes "/prove") (unfold has_prefix in e)
      ∙ ap shift (index_host host rest h) in
    ap
      (λ i.
        cut_at (codes "https://" ++ x) (shift (shift (shift (shift (shift (shift (shift i))))))))
      found
    ∙ ap (λ r. codes "https://" ++ r) (take-length host (codes "/prove" ++ rest))

prover_base_url :
    (cfg : ProvableConfig)
    → is_empty cfg.prover_url ≡ false
    → prover_base cfg ≡ trim_right cfg.prover_url (codes "/")
unfolding prover_base
prover_base_url cfg h = rw h

module _ (cfg : ProvableConfig) {c : ProvableClient} (made : new_provable_client cfg ≡ ok c) where
  made_api_base : c.api_base ≡ api_base (prover_base cfg)
  unfolding new_provable_client
  made_api_base = ground arith

  made_consumer_id : c.consumer_id ≡ cfg.consumer_id
  unfolding new_provable_client
  made_consumer_id = ground arith

  made_api_key : c.api_key ≡ cfg.api_key
  unfolding new_provable_client
  made_api_key = ground arith

key_given :
    (key : Bytes)
    → get_header (codes "X-Provable-API-Key") (
        set_header
          (codes "X-Provable-API-Key")
          key
          (set_header (codes "Content-Type") json_type []))
      ≡ key
unfolding set_header get_header
key_given key = refl

-- What is left of such a URL by the removal of slashes at its end.
prove_host_trimmed :
    (rest : Bytes)
    → (rest' : Bytes) × (trim_right (codes "https://prove" ++ rest) (codes "/")
        ≡ codes "https://prove" ++ rest')
unfolding trim_right in_set
prove_host_trimmed rest = trim_end-keeps (in_set (codes "/")) (codes "https://prov") b'e' rest refl

-- The JWT request of a client whose prover's URL names a host that begins with "prove" goes to the host
-- "jwts", whatever follows in the URL, and it holds the API key, under X-Provable-API-Key.
pub jwt_request_prove_host :
    (env : Env) (json : Json) (prim : Primitives) (cfg : ProvableConfig) (rest : Bytes)
    {c : ProvableClient}
    → cfg.prover_url ≡ codes "https://prove" ++ rest
    → new_provable_client cfg ≡ ok c
    → ((jwt_request env json prim c).url ≡ codes "https://jwts/" ++ cfg.consumer_id)
      × (get_header (codes "X-Provable-API-Key") (jwt_request env json prim c).headers
          ≡ cfg.api_key)
unfolding jwt_request
jwt_request_prove_host env json prim cfg rest {c} u e =
    let (rest', p) = prove_host_trimmed rest in
    let given : is_empty cfg.prover_url ≡ false = ap is_empty u ∙ (unfold is_empty in refl) in
    let base : prover_base cfg ≡ codes "https://prove" ++ rest' =
      prover_base_url cfg given ∙ ap (λ x. trim_right x (codes "/")) u ∙ p in
    let origin : c.api_base ≡ codes "https:/" =
      made_api_base cfg e ∙ ap api_base base ∙ api_base_prove_host rest' in
    (
      ap (λ x. (x ++ codes "/jwts/") ++ c.consumer_id) origin
          ∙ ap (λ x. codes "https://jwts/" ++ x) (made_consumer_id cfg e),
      key_given c.api_key ∙ made_api_key cfg e,
    )
