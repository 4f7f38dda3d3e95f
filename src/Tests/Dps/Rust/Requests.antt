-- ===== src/Tests/Dps/Rust/Requests.antt =====
-- Executions, proving requests and hashes through the concrete version of the crates.
use mathlib.Core.List.{cons-ne-nil}
use mathlib.Core.Path.{subst}
use provable_sdk.Bridge.Rust.Outcomes.{done_inj}
use provable_sdk.Base.{
  ◌+◌, ◌<◌, ◌++◌, ℕ, ◌≡◌, ◌≢◌, ◌↔◌, refl, true, false, Option, none, some, [], ◌∷◌, Bytes, codes,
  arith,
}
use provable_sdk.Text.{bytes_eq, has_prefix, is_empty}
use provable_sdk.Exec.{ok}
use provable_sdk.Json.{Json}
use provable_sdk.Bridge.{c_string, proving_request_to_bytes, verify_execution}
use provable_sdk.Bridge.Rust.{done, prefixed, has_nul, IsMessage, IsReadable}
use provable_sdk.Bridge.Rust.Pointer.{is_utf8, argument, read_c_str}
use provable_sdk.Bridge.Rust.Authorize
use provable_sdk.Bridge.Rust.Authorize.{fee_bytes}
use provable_sdk.Bridge.Rust.Linked.{linked}
use provable_sdk.Bridge.Rust.Calls.{IsPlain}
use provable_sdk.Bridge.Rust.Verdicts.{Accepts, verify_execution-Accepts}
use provable_sdk.Bridge.Rust.Requests.{
  ReadsBack, read_request, FeeIs, proving_request_to_bytes-reads,
}
use provable_sdk.Bridge.Rust.Requests
use provable_sdk.Bridge.Rust.Hash.{literal_to_field}
use provable_sdk.Crypto.{
  hash_poseidon2, hash_poseidon4, hash_poseidon8, hash_poseidon2_multi, hash_poseidon4_multi,
  hash_poseidon8_multi,
}
use provable_sdk.Crypto.Poseidon.{Hashes, Lists, hash_poseidon-multi}
use provable_sdk.Tests.Dps.{dps_codec}
use provable_sdk.Tests.Dps.Rust.{toy_crates, shifted, shifted-IsPlain}

-- It reads the message of a proof that is refused.
abbrev error_codec : Json
error_codec = record dps_codec { error = λ b. ok (codes "verify execution: bad proof") }

refusal_read :
    IsReadable error_codec toy_crates.escape
      (codes "panic during execution verification")
      (Authorize.verify_execution toy_crates (some (c_string (codes "proof"))))
unfolding IsReadable IsMessage has_nul Authorize.verify_execution c_string argument
    Authorize.get_or_init_process prefixed read_c_str is_utf8
refusal_read = (cons-ne-nil _ _, refl, refl)

verify_execution-Accepts_example :
    ((verify_execution (linked toy_crates [] []) error_codec (codes "proof") ≡ ok true)
      ↔ Accepts toy_crates [] [] error_codec (codes "proof"))
    × (verify_execution (linked toy_crates [] []) error_codec (codes "proof") ≢ ok false)
verify_execution-Accepts_example =
    verify_execution-Accepts toy_crates [] [] error_codec (codes "proof") refusal_read

-- An authorization is one byte.
abbrev read_byte : Bytes → Option (ℕ × Bytes)
read_byte [] = none
read_byte (c ∷ s) = some (c, s)

back : ReadsBack toy_crates read_byte
back = record {
  read-write = λ a w rest e. subst (λ x. read_byte (x ++ rest) ≡ some (a, rest)) (done_inj e) refl;
}

text_utf8 : is_utf8 (c_string (codes "{}")) ≡ true
unfolding is_utf8 c_string
text_utf8 = refl

fee : FeeIs toy_crates (codes "{}") (some 7)
unfolding is_empty c_string
fee = Requests.present text_utf8 refl refl

fee_written : fee_bytes toy_crates (some 7) ≡ done (1 ∷ 7 ∷ [])
unfolding fee_bytes
fee_written = refl

proving_request_to_bytes-reads_example :
    (bytes : Bytes) × (proving_request_to_bytes
        (linked toy_crates [] [])
        dps_codec
        (codes "{}")
        (codes "{}")
        true
      ≡ ok (shifted bytes))
    × (read_request toy_crates read_byte bytes ≡ some (7, some 7, true))
proving_request_to_bytes-reads_example =
    proving_request_to_bytes-reads toy_crates [] [] dps_codec read_byte (codes "{}") (codes "{}")
      true back shifted-IsPlain text_utf8 refl fee refl fee_written

field_read : literal_to_field toy_crates (c_string (codes "1field")) ≡ done (codes "1field")
unfolding literal_to_field c_string
field_read = refl

plain : (c : ℕ) → c < 9 → IsPlain ((48 + c) ∷ codes "field")
unfolding has_nul has_prefix
plain c h = record { no_nul = ground arith; no_error = ground arith }

abbrev hashed2 : Hashes toy_crates toy_crates.hash_psd2 (codes "1field")
hashed2 = record {
  field = codes "1field";
  result = codes "2field";
  read = field_read;
  hashed = refl;
  printed = plain 2 (omega arith);
}

abbrev hashed4 : Hashes toy_crates toy_crates.hash_psd4 (codes "1field")
hashed4 = record {
  field = codes "1field";
  result = codes "4field";
  read = field_read;
  hashed = refl;
  printed = plain 4 (omega arith);
}

abbrev hashed8 : Hashes toy_crates toy_crates.hash_psd8 (codes "1field")
hashed8 = record {
  field = codes "1field";
  result = codes "8field";
  read = field_read;
  hashed = refl;
  printed = plain 8 (omega arith);
}

listed : Lists toy_crates dps_codec (codes "1field")
unfolding is_utf8 c_string bytes_eq
listed = record { text = []; marshalled = refl; input_utf8 = refl; utf8 = refl; read = refl }

hash_poseidon-multi_example :
    (hash_poseidon2 (linked toy_crates [] []) dps_codec (codes "1field") ≡ ok (codes "2field"))
    × (hash_poseidon2_multi (linked toy_crates [] []) dps_codec (some (codes "1field" ∷ []))
        ≡ ok (codes "2field"))
    × (hash_poseidon4 (linked toy_crates [] []) dps_codec (codes "1field") ≡ ok (codes "4field"))
    × (hash_poseidon4_multi (linked toy_crates [] []) dps_codec (some (codes "1field" ∷ []))
        ≡ ok (codes "4field"))
    × (hash_poseidon8 (linked toy_crates [] []) dps_codec (codes "1field") ≡ ok (codes "8field"))
    × (hash_poseidon8_multi (linked toy_crates [] []) dps_codec (some (codes "1field" ∷ []))
        ≡ ok (codes "8field"))
hash_poseidon-multi_example =
    hash_poseidon-multi toy_crates dps_codec [] [] (codes "1field") listed hashed2 hashed4 hashed8
