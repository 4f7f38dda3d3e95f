-- ===== src/Crypto/Dispatch.antt =====
-- Hash, against the functions of the single algorithms.
use provable_sdk.Base.{◌≡◌, ◌≢◌, refl, sym, ◌++◌, false, Bytes, codes, Bool-cases, inl, inr}
use provable_sdk.Text.{bytes_eq, bytes_eq_sound}
use provable_sdk.Fault.{plain}
use provable_sdk.Exec.{Result, err}
use provable_sdk.Json.{Json}
use provable_sdk.Bridge.{Library}
use provable_sdk.Crypto.{
  HashAlgorithm, hash, bhp256, bhp512, bhp768, bhp1024, pedersen64, pedersen128, poseidon2,
  poseidon4, poseidon8, hash_bhp256, hash_bhp512, hash_bhp768, hash_bhp1024, hash_pedersen64,
  hash_pedersen128, hash_poseidon2, hash_poseidon4, hash_poseidon8,
}

-- The algorithms of the SDK.
pub data Algorithm : Type 0 where
  a_bhp256 a_bhp512 a_bhp768 a_bhp1024 a_pedersen64 a_pedersen128 a_poseidon2 a_poseidon4
        a_poseidon8 :
      Algorithm

abbrev pub name_of : Algorithm → HashAlgorithm
name_of a_bhp256 = bhp256
name_of a_bhp512 = bhp512
name_of a_bhp768 = bhp768
name_of a_bhp1024 = bhp1024
name_of a_pedersen64 = pedersen64
name_of a_pedersen128 = pedersen128
name_of a_poseidon2 = poseidon2
name_of a_poseidon4 = poseidon4
name_of a_poseidon8 = poseidon8

module _ (lib : Library) (json : Json) where
  abbrev pub single : Algorithm → Bytes → Result Bytes
  single a_bhp256 = hash_bhp256 lib json
  single a_bhp512 = hash_bhp512 lib json
  single a_bhp768 = hash_bhp768 lib json
  single a_bhp1024 = hash_bhp1024 lib json
  single a_pedersen64 = hash_pedersen64 lib json
  single a_pedersen128 = hash_pedersen128 lib json
  single a_poseidon2 = hash_poseidon2 lib json
  single a_poseidon4 = hash_poseidon4 lib json
  single a_poseidon8 = hash_poseidon8 lib json

  known : (a : Algorithm) (input : Bytes) → hash lib json (name_of a) input ≡ single a input
  unfolding hash hash_bhp256 hash_bhp512 hash_bhp768 hash_bhp1024 hash_pedersen64 hash_pedersen128
      hash_poseidon2 hash_poseidon4 hash_poseidon8
  known a_bhp256 input = refl
  known a_bhp512 input = refl
  known a_bhp768 input = refl
  known a_bhp1024 input = refl
  known a_pedersen64 input = refl
  known a_pedersen128 input = refl
  known a_poseidon2 input = refl
  known a_poseidon4 input = refl
  known a_poseidon8 input = refl

  is_other :
      (algo : HashAlgorithm) (a : Algorithm) → name_of a ≢ algo → bytes_eq algo (name_of a) ≡ false
  is_other algo a h = elim (Bool-cases (bytes_eq algo (name_of a))) [
    | inl e ↦ absurd (h (sym (bytes_eq_sound algo (name_of a) e)))
    | inr e ↦ e
  ]

  -- Hash at the name of an algorithm is the function of that algorithm, and at any other text it is
  -- the error of an unknown algorithm.
  pub hash-single :
      (algo : HashAlgorithm) (input : Bytes)
      → ((a : Algorithm) → hash lib json (name_of a) input ≡ single a input)
        × (((a : Algorithm) → name_of a ≢ algo)
            → hash lib json algo input ≡ err (plain (codes "unknown hash algorithm: " ++ algo)))
  unfolding hash
  hash-single algo input = (
    λ a. known a input,
    λ other.
        rw
          (
            is_other algo a_bhp256 (other a_bhp256),
            is_other algo a_bhp512 (other a_bhp512),
            is_other algo a_bhp768 (other a_bhp768),
            is_other algo a_bhp1024 (other a_bhp1024),
            is_other algo a_pedersen64 (other a_pedersen64),
            is_other algo a_pedersen128 (other a_pedersen128),
            is_other algo a_poseidon2 (other a_poseidon2),
            is_other algo a_poseidon4 (other a_poseidon4),
            is_other algo a_poseidon8 (other a_poseidon8),
          )
          refl,
  )
