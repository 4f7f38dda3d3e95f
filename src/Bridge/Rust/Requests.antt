-- ===== src/Bridge/Rust/Requests.antt =====
-- rust-bridge/src/authorize.rs: the bytes of a proving request, read back.
use mathlib.Core.Path.{subst}
use provable_sdk.Base.{
  ℕ, ◌≡◌, refl, [], ◌∷◌, ◌++◌, Bool, true, false, Option, none, some, Bytes, codes, ◌==◌,
  if◌then◌else◌,
}
use provable_sdk.Text.{is_empty}
use provable_sdk.Exec.{ok}
use provable_sdk.Json.{Json}
use provable_sdk.Bridge.{c_string, optional_text, proving_request_to_bytes}
use provable_sdk.Bridge.Rust.{done}
use provable_sdk.Bridge.Rust.Crates.{Crates}
use provable_sdk.Bridge.Rust.Pointer.{is_utf8, argument-done, read_c_str}
use provable_sdk.Bridge.Rust.Authorize.{
  as_u8, fee_of, fee_bytes, write_request, aleo_proving_request_to_bytes,
}
use provable_sdk.Bridge.Rust.Authorize
use provable_sdk.Bridge.Rust.Outcomes.{on_mapped, on_done, done_inj}
use provable_sdk.Bridge.Rust.Linked.{linked}
use provable_sdk.Bridge.Rust.Calls.{IsPlain, handed_over}

-- A byte that stands for a flag.
flag : ℕ → Option Bool
flag c = if c == 0 then some false else if c == 1 then some true else none

module _ (k : Crates) (read_le : (Bytes → Option (k.Authorization × Bytes))) where
  -- The last byte of a request.
  read_end :
      k.Authorization
      → Option k.Authorization
      → Bytes
      → Option (k.Authorization × Option k.Authorization × Bool)
  unfolding flag
  read_end a fee (c ∷ []) = elim (flag c) [ none ↦ none | some b ↦ some (a, fee, b) ]
  read_end a fee _ = none

  read_fee :
      k.Authorization
      → Option (k.Authorization × Bytes)
      → Option (k.Authorization × Option k.Authorization × Bool)
  unfolding read_end
  read_fee a none = none
  read_fee a (some (fa, rest)) = read_end a (some fa) rest

  read_rest : k.Authorization → Bytes → Option (k.Authorization × Option k.Authorization × Bool)
  unfolding read_fee flag
  read_rest a [] = none
  read_rest a (c ∷ s) = elim (flag c) [
    | none ↦ none
    | some true ↦ read_fee a (read_le s)
    | some false ↦ read_end a none s
  ]

  -- A reader of requests: an authorization, a flag, a fee authorization if the flag is set, a flag.
  unfoldable pub read_request : Bytes → Option (k.Authorization × Option k.Authorization × Bool)
  unfolding read_rest
  read_request bytes = elim (read_le bytes) [ none ↦ none | some (a, rest) ↦ read_rest a rest ]

  -- snarkVM reads what it writes, whatever stands behind.
  pub record ReadsBack : Type 0 where
    pub read-write :
        (a : k.Authorization) (w rest : Bytes)
        → k.write_le a ≡ done w
        → read_le (w ++ rest) ≡ some (a, rest)

  module _ (back : ReadsBack) where
    read_end-as_u8 :
        (a : k.Authorization) (fee : Option k.Authorization) (b : Bool)
        → read_end a fee (as_u8 b ∷ []) ≡ some (a, fee, b)
    unfolding read_end as_u8
    read_end-as_u8 a fee true = refl
    read_end-as_u8 a fee false = refl

    read_rest-fee_bytes :
        (a : k.Authorization) (fee : Option k.Authorization) (b : Bool) {w : Bytes}
        → fee_bytes k fee ≡ done w
        → read_rest a (w ++ as_u8 b ∷ []) ≡ some (a, fee, b)
    unfolding fee_bytes read_rest
    read_rest-fee_bytes a none b h =
        subst (λ w. read_rest a (w ++ as_u8 b ∷ []) ≡ some (a, none, b)) (done_inj h)
          (read_end-as_u8 a none b)
    read_rest-fee_bytes a (some fa) b h = on_mapped _ (k.write_le fa) _ h λ w written h.
        subst (λ w. read_rest a (w ++ as_u8 b ∷ []) ≡ some (a, some fa, b)) (done_inj h)
          (rw (back.read-write fa w (as_u8 b ∷ []) written) (read_end-as_u8 a (some fa) b))

    -- Where snarkVM reads back what it writes, a request is read back as its authorization, its fee
    -- authorization, if there is one, and its flag.
    pub read_request-write_request :
        (a : k.Authorization) (fee : Option k.Authorization) (b : Bool) {bytes : Bytes}
        → write_request k a fee b ≡ done bytes
        → read_request bytes ≡ some (a, fee, b)
    unfolding write_request read_request
    read_request-write_request a fee b h = on_mapped _ (k.write_le a) _ h λ w written h.
        on_done (fee_bytes k fee) _ h λ f fee_written h.
          subst (λ bytes. read_request bytes ≡ some (a, fee, b)) (done_inj h)
            (rw (back.read-write a w (f ++ as_u8 b ∷ []) written, read_request)
              (read_rest-fee_bytes a fee b fee_written))

module _ (k : Crates) where
  -- The fee authorization that a text stands for: none for the empty text.
  pub data FeeIs : Bytes → Option k.Authorization → Type 0 where
    absent : FeeIs [] none
    present :
        {c : ℕ} {s : Bytes} {fa : k.Authorization}
        → is_utf8 (c_string (c ∷ s)) ≡ true
        → is_empty (c_string (c ∷ s)) ≡ false
        → k.read_authorization (c_string (c ∷ s)) ≡ done fa
        → FeeIs (c ∷ s) (some fa)

  fee_of-FeeIs :
      (s : Bytes) {fee : Option k.Authorization}
      → FeeIs s fee
      → fee_of k (read_c_str (optional_text s)) ≡ done fee
  unfolding fee_of optional_text read_c_str
  fee_of-FeeIs [] absent = refl
  fee_of-FeeIs (c ∷ s) (present utf8 given read) = rw utf8 (rw given (rw read))

  written_request :
      (a : k.Authorization) (fee : Option k.Authorization) (b : Bool) {w f : Bytes}
      → k.write_le a ≡ done w
      → fee_bytes k fee ≡ done f
      → write_request k a fee b ≡ done (w ++ (f ++ as_u8 b ∷ []))
  unfolding write_request
  written_request a fee b e e' = rw (e, e')

  module _ (rng rng' : Bytes) (json : Json)
      (read_le : (Bytes → Option (k.Authorization × Bytes))) where
    -- If the authorization and the fee authorization, if there is one, are texts in UTF-8 that are read,
    -- snarkVM writes them and reads back what it writes, and base64 makes plain texts, then
    -- ProvingRequestToBytes gives the base64 text of bytes that are read back as the authorization, the
    -- fee authorization and the flag.
    pub proving_request_to_bytes-reads :
        (auth_json fee_auth_json : Bytes) (b : Bool) {a : k.Authorization}
        {fee : Option k.Authorization} {w f : Bytes}
        → ReadsBack k read_le
        → ((s : Bytes) → IsPlain (k.base64 s))
        → is_utf8 (c_string auth_json) ≡ true
        → k.read_authorization (c_string auth_json) ≡ done a
        → FeeIs fee_auth_json fee
        → k.write_le a ≡ done w
        → fee_bytes k fee ≡ done f
        → (bytes : Bytes) × (proving_request_to_bytes
              (linked k rng rng')
              json
              auth_json
              fee_auth_json
              b
            ≡ ok (k.base64 bytes))
          × (read_request k read_le bytes ≡ some (a, fee, b))
    unfolding proving_request_to_bytes linked aleo_proving_request_to_bytes
        Authorize.proving_request_to_bytes
    proving_request_to_bytes-reads auth_json fee_auth_json b {a} {fee} {w} {f} back plain utf8 read
          fee_read written fee_written =
        let bytes : Bytes = w ++ (f ++ as_u8 b ∷ []) in
        let request : write_request k a fee b ≡ done bytes =
          written_request a fee b written fee_written in
        (
          bytes,
          handed_over json k.escape _ _ (k.base64 bytes)
              (rw (
                argument-done (codes "null authorization json") (c_string auth_json) utf8,
                read,
                fee_of-FeeIs fee_auth_json fee_read,
                request,
              ))
              (plain bytes),
          read_request-write_request k read_le back a fee b request,
        )
