-- ===== src/Crypto.antt =====
-- crypto.go: the hash functions and VerifyExecution.
pub mod Dispatch
pub mod Poseidon
use provable_sdk.Base.{List, ◌++◌, Bool, Option, Bytes, codes, if◌then◌else◌}
use provable_sdk.Text.{bytes_eq}
use provable_sdk.Fault.{annotate, plain}
use provable_sdk.Exec.{Result, ok, err, map_fault}
use provable_sdk.Json.{Json}
use provable_sdk.Bridge.{Library}
use provable_sdk.Bridge

-- type HashAlgorithm string
abbrev HashAlgorithm : Type 0
HashAlgorithm = Bytes

abbrev bhp256 : HashAlgorithm
bhp256 = codes "bhp256"

abbrev bhp512 : HashAlgorithm
bhp512 = codes "bhp512"

abbrev bhp768 : HashAlgorithm
bhp768 = codes "bhp768"

abbrev bhp1024 : HashAlgorithm
bhp1024 = codes "bhp1024"

abbrev pedersen64 : HashAlgorithm
pedersen64 = codes "pedersen64"

abbrev pedersen128 : HashAlgorithm
pedersen128 = codes "pedersen128"

abbrev poseidon2 : HashAlgorithm
poseidon2 = codes "poseidon2"

abbrev poseidon4 : HashAlgorithm
poseidon4 = codes "poseidon4"

abbrev poseidon8 : HashAlgorithm
poseidon8 = codes "poseidon8"

module _ (lib : Library) (json : Json) where
  unfoldable pub hash : HashAlgorithm → Bytes → Result Bytes
  unfolding bytes_eq
  hash algo input =
      if bytes_eq algo bhp256
      then Bridge.hash_bhp256 lib json input
      else if bytes_eq algo bhp512
      then Bridge.hash_bhp512 lib json input
      else if bytes_eq algo bhp768
      then Bridge.hash_bhp768 lib json input
      else if bytes_eq algo bhp1024
      then Bridge.hash_bhp1024 lib json input
      else if bytes_eq algo pedersen64
      then Bridge.hash_pedersen64 lib json input
      else if bytes_eq algo pedersen128
      then Bridge.hash_pedersen128 lib json input
      else if bytes_eq algo poseidon2
      then Bridge.hash_poseidon2 lib json input
      else if bytes_eq algo poseidon4
      then Bridge.hash_poseidon4 lib json input
      else if bytes_eq algo poseidon8
      then Bridge.hash_poseidon8 lib json input
      else err (plain (codes "unknown hash algorithm: " ++ algo))

  unfoldable pub hash_bhp256 : Bytes → Result Bytes
  hash_bhp256 input = Bridge.hash_bhp256 lib json input

  unfoldable pub hash_bhp512 : Bytes → Result Bytes
  hash_bhp512 input = Bridge.hash_bhp512 lib json input

  unfoldable pub hash_bhp768 : Bytes → Result Bytes
  hash_bhp768 input = Bridge.hash_bhp768 lib json input

  unfoldable pub hash_bhp1024 : Bytes → Result Bytes
  hash_bhp1024 input = Bridge.hash_bhp1024 lib json input

  unfoldable pub hash_pedersen64 : Bytes → Result Bytes
  hash_pedersen64 input = Bridge.hash_pedersen64 lib json input

  unfoldable pub hash_pedersen128 : Bytes → Result Bytes
  hash_pedersen128 input = Bridge.hash_pedersen128 lib json input

  unfoldable pub hash_poseidon2 : Bytes → Result Bytes
  hash_poseidon2 input = Bridge.hash_poseidon2 lib json input

  unfoldable pub hash_poseidon4 : Bytes → Result Bytes
  hash_poseidon4 input = Bridge.hash_poseidon4 lib json input

  unfoldable pub hash_poseidon8 : Bytes → Result Bytes
  hash_poseidon8 input = Bridge.hash_poseidon8 lib json input

  -- a nil slice of inputs is `none`
  marshalled : (Bytes → Result Bytes) → Result Bytes → Result Bytes
  marshalled fn (ok j) = fn j
  marshalled fn (err e) = err (annotate (codes "marshal inputs") e)

  hash_multi : (Bytes → Result Bytes) → Option (List Bytes) → Result Bytes
  unfolding marshalled
  hash_multi fn inputs = marshalled fn (json.marshal_strings inputs)

  unfoldable pub hash_poseidon2_multi : Option (List Bytes) → Result Bytes
  unfolding hash_multi
  hash_poseidon2_multi inputs = hash_multi (Bridge.hash_poseidon2_multi lib json) inputs

  unfoldable pub hash_poseidon4_multi : Option (List Bytes) → Result Bytes
  unfolding hash_multi
  hash_poseidon4_multi inputs = hash_multi (Bridge.hash_poseidon4_multi lib json) inputs

  unfoldable pub hash_poseidon8_multi : Option (List Bytes) → Result Bytes
  unfolding hash_multi
  hash_poseidon8_multi inputs = hash_multi (Bridge.hash_poseidon8_multi lib json) inputs

  unfoldable verify_execution : Bytes → Result Bool
  verify_execution execution_json = Bridge.verify_execution lib json execution_json
