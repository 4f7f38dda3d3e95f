-- ===== src/Provable/Submit/Privacy.antt =====
-- The requests of a submission, all together: how many there are, and of which kinds.
use mathlib.Core.Path.{subst}
use provable_sdk.Base.{
  ℕ, sym, ◌+◌, ◌*◌, ◌≤◌, ◌≡◌, refl, ◌⊎◌, inl, inr, Bool-cases, Bool, true, false, rounds, Bytes,
  arith, codes, if◌then◌else◌,
}
use provable_sdk.Fault.{annotate}
use provable_sdk.Exec.{Result, ok, err, map_fault, continue}
use provable_sdk.Http.Env.{Request}
use provable_sdk.Http.Within.{Grows, Grows-refl, Grows-trans, Grows-imp, Within}
use provable_sdk.Types.{ProvingRequest, DelegatedProvingParams}
use provable_sdk.Provable.{ProvableClient, Session}
use provable_sdk.Provable.Jwt.{Dps, jwt_request, is_fresh, get_jwt}
use provable_sdk.Provable.Jwt.Cache.{get_jwt_stale}
use provable_sdk.Provable.Submit.{Service, submit_once, base_for, submit_proving_request_safe}
use provable_sdk.Provable.Submit.Requests.{
  IsPrivate, IsPlain, IsPlainPost, attempts-Within, submit_unencrypted-Within,
  submit_encrypted-Within,
}

-- What follows a step of a session.
continue-Grows :
    {A : Type 0} {P : Request → Type 0} (i j n : ℕ) (r : Result Bytes) (f : Bytes → Dps A)
    (s s' : Session)
    → i + j ≤ n
    → Grows P i s.trace s'.trace
    → ((a : Bytes) → Grows P j s'.trace (f a s').1.trace)
    → Grows P n s.trace (continue r f s').1.trace
continue-Grows i j n (ok a) f s s' le g h = Grows-trans i j n s.trace le g (h a)
continue-Grows {P = P} i j n (err e) f s s' le g h =
    Grows-imp P P i n s.trace s'.trace (λ q p. p) (omega arith) g

-- The requests of one attempt.
abbrev pub per_attempt : Bool → ℕ
per_attempt privacy = if privacy then 2 else 1

module _ (sv : Service) (c : ProvableClient) where
  -- GetJWT sends at most the POST of the API key.
  pub get_jwt-Grows :
      (P : Request → Type 0) (s : Session)
      → P (jwt_request sv.env sv.json sv.prim c)
      → Grows P 1 s.trace (get_jwt sv.env sv.json sv.prim c s).1.trace
  unfolding get_jwt
  get_jwt-Grows P s p = elim (Bool-cases (is_fresh sv.env sv.json sv.prim c s)) [
    | inl e ↦ rw e (Grows-refl 1 s.trace)
    | inr e ↦
        Grows-imp (λ q. q ≡ jwt_request sv.env sv.json sv.prim c) P 1 1 s.trace _
          (λ q same. subst P (sym same) p) (omega arith)
          ((get_jwt_stale sv.env sv.json sv.prim c s e).1)
  ]

  -- What a submission to a base URL may send: the POST for a token, and the requests of its kind.
  pub MaySend : Bool → Bytes → ProvingRequest → Request → Type 0
  MaySend privacy base pr q =
      (q ≡ jwt_request sv.env sv.json sv.prim c)
      ⊎ (if privacy then IsPrivate sv base pr q else IsPlain sv base pr q)

  submit_once-Within :
      (privacy : Bool) (jwt base : Bytes) (pr : ProvingRequest)
      → Within (MaySend privacy base pr) (per_attempt privacy) (submit_once sv privacy jwt base pr)
  unfolding submit_once MaySend IsPlain
  submit_once-Within true jwt base pr = record {
    at = λ t.
        Grows-imp (IsPrivate sv base pr) (MaySend true base pr) 2 2 t _ (λ q p. inr p) (omega arith)
          ((submit_encrypted-Within sv jwt base pr).at t);
  }
  submit_once-Within false jwt base pr = record {
    at = λ t.
        Grows-imp (IsPlainPost sv jwt base pr) (MaySend false base pr) 1 1 t _ (λ q p. inr (jwt, p))
          (omega arith) ((submit_unencrypted-Within sv jwt base pr).at t);
  }

  -- A submission adds to the trace at most `1 + (maxRetries + 1)` requests, or `1 + 2 (maxRetries + 1)`
  -- with privacy. Each of them is the POST for a token, or, without privacy, a POST of the encoded
  -- proving request, or, with privacy, a question for a public key or a POST whose body is the encoding
  -- of what the encryption makes of the request's bytes.
  pub submit_proving_request_safe-MaySend :
      (params : DelegatedProvingParams) (s : Session)
      → Grows
          (MaySend params.dps_privacy (base_for sv c params) params.proving_request)
          (1 + rounds c.max_retries * per_attempt params.dps_privacy)
          s.trace
          (submit_proving_request_safe sv c params s).1.trace
  unfolding submit_proving_request_safe MaySend
  submit_proving_request_safe-MaySend params s =
      let P : Request → Type 0 =
        MaySend params.dps_privacy (base_for sv c params) params.proving_request in
      let n : ℕ = per_attempt params.dps_privacy in
      let (r, s') = get_jwt sv.env sv.json sv.prim c s in
      continue-Grows 1 (rounds c.max_retries * n) (1 + rounds c.max_retries * n)
        (map_fault (annotate (codes "get JWT")) r) _ s s' (omega arith)
        (get_jwt-Grows P s (inl refl))
        (λ jwt.
          (attempts-Within sv c.base_delay n _
              (submit_once-Within params.dps_privacy jwt (base_for sv c params)
                params.proving_request)
              (rounds c.max_retries) 0).at
            s'.trace)
