-- ===== src/Crypto/Poseidon.antt =====
-- crypto.go, bridge.go and hash.rs: the Poseidon hash of one input, and of a list of it alone.
use provable_sdk.Base.{◌≡◌, true, some, List, [], ◌∷◌, Bytes, codes}
use provable_sdk.Exec.{ok}
use provable_sdk.Json.{Json}
use provable_sdk.Bridge.{c_string}
use provable_sdk.Bridge
use provable_sdk.Bridge.Rust.{Outcome, done}
use provable_sdk.Bridge.Rust.Crates.{Crates}
use provable_sdk.Bridge.Rust.Pointer.{is_utf8, argument-done, collect}
use provable_sdk.Bridge.Rust.Hash.{
  literal_to_field, read_field, psd_hash, psd_hash_multi, define_psd_hash_ffi,
  define_psd_hash_multi_ffi,
}
use provable_sdk.Bridge.Rust.Linked.{linked}
use provable_sdk.Bridge.Rust.Calls.{IsPlain, handed_over}
use provable_sdk.Crypto.{
  hash_poseidon2, hash_poseidon4, hash_poseidon8, hash_multi, hash_poseidon2_multi,
  hash_poseidon4_multi, hash_poseidon8_multi,
}

module _ (k : Crates) where
  -- The literal is read as a field element, and the hasher takes it alone.
  pub record Hashes (hasher : (List k.Field → Outcome k.Field)) (input : Bytes) : Type 0 where
    pub field : k.Field
    pub result : k.Field
    pub read : literal_to_field k (c_string input) ≡ done field
    pub hashed : hasher (field ∷ []) ≡ done result
    pub printed : IsPlain (k.print_field result)

  one_read :
      (s : Bytes) {f : k.Field}
      → literal_to_field k s ≡ done f
      → collect (read_field k) 0 (s ∷ []) ≡ done (f ∷ [])
  unfolding collect read_field
  one_read s h = rw h

  single :
      (hasher : (List k.Field → Outcome k.Field)) (name input : Bytes)
      → is_utf8 (c_string input) ≡ true
      → (h : Hashes hasher input)
      → psd_hash k hasher name (some (c_string input)) ≡ done (k.print_field h.result)
  unfolding psd_hash
  single hasher name input utf8 h =
      rw (argument-done (codes "null input") (c_string input) utf8, h.read, h.hashed)

  -- The list of one input, as it is handed over.
  pub record Lists (json : Json) (input : Bytes) : Type 0 where
    pub text : Bytes
    pub marshalled : json.marshal_strings (some (input ∷ [])) ≡ ok text
    pub input_utf8 : is_utf8 (c_string input) ≡ true
    pub utf8 : is_utf8 (c_string text) ≡ true
    pub read : k.read_strings (c_string text) ≡ done (c_string input ∷ [])

  listed :
      (json : Json) (hasher : (List k.Field → Outcome k.Field)) (name input : Bytes)
      (l : Lists json input) (h : Hashes hasher input)
      → psd_hash_multi k hasher name (some (c_string l.text)) ≡ done (k.print_field h.result)
  unfolding psd_hash_multi
  listed json hasher name input l h = rw (
    argument-done (codes "null inputs json") (c_string l.text) l.utf8,
    l.read,
    one_read (c_string input) h.read,
    h.hashed,
  )

  module _ (json : Json) (rng rng' input : Bytes) (l : Lists json input) where
    -- If the input is UTF-8 and is read as a field element, snarkVM hashes this with each of the three
    -- hashers, each hash is printed without a NUL and not like an error, and the list of the input alone
    -- comes through JSON as it is, then HashPoseidon2 of the input and HashPoseidon2Multi of the list
    -- give the same text, that of the hash of the one field element; and so for 4 and 8.
    pub hash_poseidon-multi :
        (h2 : Hashes k.hash_psd2 input) (h4 : Hashes k.hash_psd4 input)
        (h8 : Hashes k.hash_psd8 input)
        → (hash_poseidon2 (linked k rng rng') json input ≡ ok (k.print_field h2.result))
          × (hash_poseidon2_multi (linked k rng rng') json (some (input ∷ []))
              ≡ ok (k.print_field h2.result))
          × (hash_poseidon4 (linked k rng rng') json input ≡ ok (k.print_field h4.result))
          × (hash_poseidon4_multi (linked k rng rng') json (some (input ∷ []))
              ≡ ok (k.print_field h4.result))
          × (hash_poseidon8 (linked k rng rng') json input ≡ ok (k.print_field h8.result))
          × (hash_poseidon8_multi (linked k rng rng') json (some (input ∷ []))
              ≡ ok (k.print_field h8.result))
    unfolding hash_poseidon2 hash_poseidon4 hash_poseidon8 hash_poseidon2_multi hash_poseidon4_multi
        hash_poseidon8_multi hash_multi linked define_psd_hash_ffi define_psd_hash_multi_ffi
        Bridge.hash_poseidon2 Bridge.hash_poseidon4 Bridge.hash_poseidon8
        Bridge.hash_poseidon2_multi Bridge.hash_poseidon4_multi Bridge.hash_poseidon8_multi
    hash_poseidon-multi h2 h4 h8 = (
      handed_over json k.escape _ _ _ (single _ _ input l.input_utf8 h2) h2.printed,
      rw l.marshalled (handed_over json k.escape _ _ _ (listed json _ _ input l h2) h2.printed),
      handed_over json k.escape _ _ _ (single _ _ input l.input_utf8 h4) h4.printed,
      rw l.marshalled (handed_over json k.escape _ _ _ (listed json _ _ input l h4) h4.printed),
      handed_over json k.escape _ _ _ (single _ _ input l.input_utf8 h8) h8.printed,
      rw l.marshalled (handed_over json k.escape _ _ _ (listed json _ _ input l h8) h8.printed),
    )
