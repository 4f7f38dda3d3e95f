-- ===== src/Provable/Submit/Requests.antt =====
-- The requests of one attempt to submit, and of the attempts together.
use provable_sdk.Base.{ℕ, zero, suc, ◌+◌, ◌*◌, ◌≡◌, refl, ◌⊎◌, inl, inr, Bytes, arith, codes}
use provable_sdk.Fault.{Fault, annotate}
use provable_sdk.Exec.{Result, Result-cases, ok, err, map_fault, lift, on_fault, ◌>>=◌}
use provable_sdk.Http.Env.{Request, Exchange, failed, answered, Trace, Net, do_request, new_request}
use provable_sdk.Http.Within.{
  Grows, Grows-refl, Grows-trans, Grows-imp, Grows-rest, Within, Within-pure, Within-raise,
  Within-lift_bind, Within-bind, Within-quiet, Within-le, Within-if, Within-pause,
  Within-issue_fault, within_rules,
}
use provable_sdk.Types.{ProvingRequest, ProvingResult, PubKeyResponse}
use provable_sdk.Bridge.{proving_request_to_bytes}
use provable_sdk.Security.{encrypt_proving_request}
use provable_sdk.Provable.Reply.{prove_answer}
use provable_sdk.Provable.Submit.{
  Service, pub_key_reply, pub_key_answer, pub_key_request, prove_request, encrypted_request, draw,
  get_public_key, submit_unencrypted, submit_encrypted, before_attempt, attempts,
}

map_fault-eq-ok :
    {A : Type 0} (g : Fault → Fault) (r : Result A) {a : A} → map_fault g r ≡ ok a → r ≡ ok a
map_fault-eq-ok g (ok x) h = h
map_fault-eq-ok g (err e) h = absurd (cc h)

module _ (sv : Service) where
  -- The body is the encoding of the encrypted bytes of the request.
  pub record IsSealed (pr : ProvingRequest) (body : Bytes) : Type 0 where
    pub key_id : Bytes
    pub key : Bytes
    pub randomness : Bytes
    pub message_b64 : Bytes
    pub message : Bytes
    pub ciphertext : Bytes
    pub serializes :
        proving_request_to_bytes sv.lib sv.json pr.authorization pr.fee_authorization pr.broadcast
        ≡ ok message_b64
    pub decodes : sv.prim.base64_decode message_b64 ≡ ok message
    pub encrypts : encrypt_proving_request sv.prim randomness key message ≡ ok ciphertext
    pub encodes :
        sv.json.marshal_encrypted (record { key_id = key_id; ciphertext = ciphertext }) ≡ ok body

  -- The POST of the encrypted request with a token.
  pub IsSealedPost : Bytes → Bytes → ProvingRequest → Request → Type 0
  IsSealedPost jwt base pr q =
      (body : Bytes) × (q ≡ encrypted_request jwt base body) × IsSealed pr body

  -- The question for a public key, or the POST of the encrypted request.
  pub IsPrivate : Bytes → ProvingRequest → Request → Type 0
  IsPrivate base pr q =
      ((jwt : Bytes) × (q ≡ pub_key_request jwt base))
      ⊎ ((jwt : Bytes) × IsSealedPost jwt base pr q)

  -- The POST of a request as it is, with a token.
  pub IsPlainPost : Bytes → Bytes → ProvingRequest → Request → Type 0
  IsPlainPost jwt base pr q =
      (body : Bytes) × (q ≡ prove_request jwt base body) × (sv.json.marshal_proving pr ≡ ok body)

  -- The same, whatever the token.
  unfoldable pub IsPlain : Bytes → ProvingRequest → Request → Type 0
  IsPlain base pr q = (jwt : Bytes) × IsPlainPost jwt base pr q

  module _ {P : Request → Type 0} where
    pub_key_answer-Within : (x : Exchange) → Within P 0 (pub_key_answer sv.json x)
    unfolding pub_key_answer pub_key_reply
    pub_key_answer-Within (failed e) = search within_rules
    pub_key_answer-Within (answered r) = go r.status r.body
      where
        go : (status : ℕ) (body : Result Bytes) → Within P 0 (pub_key_reply sv.json status body)
        go status (err e) = Within-raise _
        go status (ok b) = search within_rules

    prove_answer-Within : (x : Exchange) → Within P 0 (prove_answer sv.json x)
    unfolding prove_answer
    prove_answer-Within (failed e) = Within-raise _
    prove_answer-Within (answered r) = elim (Result-cases r.body) [
      | inl (b, e) ↦ rw e (Within-pure _)
      | inr (x, e) ↦ rw e (Within-raise _)
    ]

    draw-Within : Within P 0 (draw sv.env)
    unfolding draw
    draw-Within = record { at = Grows-refl 0 }

    module _ (base_delay n : ℕ) (once : Net ProvingResult) (h : Within P n once) where
      before_attempt-Within : (k : ℕ) → Within P 0 (before_attempt sv base_delay once k)
      unfolding before_attempt
      before_attempt-Within zero = Within-pure tt
      before_attempt-Within (suc k) = Within-pause sv.env _

      pub attempts-Within : (m k : ℕ) → Within P (m * n) (attempts sv base_delay once m k)
      unfolding attempts
      attempts-Within zero k = Within-le 0 (0 * n) _ (omega arith) (Within-pure _)
      attempts-Within (suc m) k = Within-le (n + m * n) (suc m * n) _ (omega arith) (
          Within-quiet (n + m * n) (before_attempt sv base_delay once k) _ (before_attempt-Within k)
            (λ _. Within-bind n (m * n) once _ h (λ r.
              Within-if (m * n) _ _ _ (attempts-Within m (suc k))
                (Within-le 0 (m * n) _ (omega arith) (Within-pure r)))))

  pub submit_unencrypted-Within :
      (jwt base : Bytes) (pr : ProvingRequest)
      → Within (IsPlainPost jwt base pr) 1 (submit_unencrypted sv jwt base pr)
  unfolding submit_unencrypted IsPlainPost
  submit_unencrypted-Within jwt base pr = Within-lift_bind 1 _ _ (λ body e.
      Within-issue_fault sv.env 0 (annotate (codes "create prove request"))
        (prove_request jwt base body) (prove_answer sv.json) (body, refl, map_fault-eq-ok _ _ e)
        prove_answer-Within)

  get_public_key-Within :
      (jwt base : Bytes) → Within (λ q. q ≡ pub_key_request jwt base) 1 (get_public_key sv jwt base)
  unfolding get_public_key
  get_public_key-Within jwt base =
      Within-issue_fault sv.env 0 (annotate (codes "create pubkey request"))
        (pub_key_request jwt base) (pub_key_answer sv.json) refl pub_key_answer-Within

  -- The steps of a private submission behind the answer with the public key.
  module _ (jwt base : Bytes) (pr : ProvingRequest) (key : PubKeyResponse) where
    post : Bytes → Net ProvingResult
    post body = do
      req ←
          on_fault (annotate (codes "create encrypted prove request"))
            (new_request sv.env (encrypted_request jwt base body))
      answer ← do_request sv.env req
      prove_answer sv.json answer

    encoded : Bytes → Net ProvingResult
    unfolding post
    encoded ciphertext = do
      body ← lift (
          map_fault (annotate (codes "marshal encrypted request"))
            (sv.json.marshal_encrypted (record { key_id = key.key_id; ciphertext = ciphertext })))
      post body

    drawn : Bytes → Bytes → Net ProvingResult
    unfolding encoded
    drawn message randomness = do
      ciphertext ← lift (
          map_fault (annotate (codes "encrypt proving request"))
            (encrypt_proving_request sv.prim randomness key.public_key message))
      encoded ciphertext

    serialized : Bytes → Net ProvingResult
    unfolding drawn
    serialized message_b64 = do
      message ← lift (
          map_fault (annotate (codes "decode proving request base64"))
            (sv.prim.base64_decode message_b64))
      randomness ← draw sv.env
      drawn message randomness

    post-Within :
        (body : Bytes) → IsSealed pr body → Within (IsSealedPost jwt base pr) 1 (post body)
    unfolding post IsSealedPost
    post-Within body h =
        Within-issue_fault sv.env 0 (annotate (codes "create encrypted prove request"))
          (encrypted_request jwt base body) (prove_answer sv.json) (body, refl, h)
          prove_answer-Within

    drawn-Within :
        (message_b64 message randomness : Bytes)
        → proving_request_to_bytes sv.lib sv.json pr.authorization pr.fee_authorization pr.broadcast
          ≡ ok message_b64
        → sv.prim.base64_decode message_b64 ≡ ok message
        → Within (IsSealedPost jwt base pr) 1 (drawn message randomness)
    unfolding drawn encoded
    drawn-Within message_b64 message randomness serializes decodes =
        Within-lift_bind 1 _ encoded (λ ciphertext e. Within-lift_bind 1 _ post (λ body e'.
          post-Within body (record {
            key_id = key.key_id;
            key = key.public_key;
            randomness = randomness;
            message_b64 = message_b64;
            message = message;
            ciphertext = ciphertext;
            serializes = serializes;
            decodes = decodes;
            encrypts = map_fault-eq-ok (annotate (codes "encrypt proving request")) _ e;
            encodes = map_fault-eq-ok (annotate (codes "marshal encrypted request")) _ e';
          })))

    serialized-Within :
        (message_b64 : Bytes)
        → proving_request_to_bytes sv.lib sv.json pr.authorization pr.fee_authorization pr.broadcast
          ≡ ok message_b64
        → Within (IsSealedPost jwt base pr) 1 (serialized message_b64)
    unfolding serialized
    serialized-Within message_b64 serializes =
        Within-lift_bind 1 _ (λ message. draw sv.env >>= drawn message)
          (λ message e. Within-quiet 1 (draw sv.env) (drawn message) draw-Within (λ randomness.
            drawn-Within message_b64 message randomness serializes
              (map_fault-eq-ok (annotate (codes "decode proving request base64")) _ e)))

  -- A private submission asks for a public key, and then it posts what it has sealed.
  pub submit_encrypted-Grows :
      (jwt base : Bytes) (pr : ProvingRequest) (t : Trace)
      → (u : Trace) × Grows (λ q. q ≡ pub_key_request jwt base) 1 t u
        × Grows (IsSealedPost jwt base pr) 1 u (submit_encrypted sv jwt base pr t).1
  unfolding submit_encrypted serialized drawn encoded post
  submit_encrypted-Grows jwt base pr t = (
    (get_public_key sv jwt base t).1,
    (get_public_key-Within jwt base).at t,
    Grows-rest 1 (map_fault (annotate (codes "get public key")) (get_public_key sv jwt base t).0) _
        (get_public_key sv jwt base t).1
        (λ key. Within-lift_bind 1 _ (serialized jwt base pr key) (λ message_b64 e.
          serialized-Within jwt base pr key message_b64
            (map_fault-eq-ok (annotate (codes "serialize proving request")) _ e))),
  )

  pub submit_encrypted-Within :
      (jwt base : Bytes) (pr : ProvingRequest)
      → Within (IsPrivate base pr) 2 (submit_encrypted sv jwt base pr)
  unfolding IsPrivate
  submit_encrypted-Within jwt base pr = record {
    at = λ t.
        let (u, g, h) = submit_encrypted-Grows jwt base pr t in
        Grows-trans 1 1 2 t (omega arith)
          (Grows-imp _ (IsPrivate base pr) 1 1 t u (λ q p. inl (jwt, p)) (omega arith) g)
          (Grows-imp _ (IsPrivate base pr) 1 1 u _ (λ q p. inr (jwt, p)) (omega arith) h);
  }
