-- ===== src/Bridge/Rust/Hash.antt =====
-- rust-bridge/src/hash.rs: the hash functions, which four macros make of snarkVM's hashers.
use provable_sdk.Base.{ℕ, List, [], ◌∷◌, ◌++◌, Bool, Option, none, some, Bytes, codes}
use provable_sdk.Bridge.Rust.{Outcome, done, ◌>>=◌, map_err, prefixed, ffi_catch}
use provable_sdk.Bridge.Rust.Crates.{Crates}
use provable_sdk.Bridge.Rust.Pointer.{argument, collect, numbered}

module _ (k : Crates) where
  read_literal : Bytes → Outcome k.Literal
  read_literal input = map_err (prefixed (codes "parse literal")) (k.parse_literal input)

  unfoldable pub literal_to_bits : Bytes → Outcome (List Bool)
  unfolding read_literal
  literal_to_bits input = do lit ← read_literal input; done (k.to_bits_le lit)

  to_field : k.Literal → Option k.Field → Outcome k.Field
  to_field other (some f) = done f
  to_field other none =
      map_err (prefixed (codes "convert to field")) (k.from_bits_le (k.to_bits_le other))

  unfoldable pub literal_to_field : Bytes → Outcome k.Field
  unfolding read_literal to_field
  literal_to_field input = do lit ← read_literal input; to_field lit (k.field_of lit)

  -- The body of define_bhp_hash_ffi! and of define_ped_hash_ffi!, by the hasher and its name.
  unfoldable pub bits_hash : (List Bool → Outcome k.Field) → Bytes → Option Bytes → Outcome Bytes
  bits_hash hasher name input_ptr = do
    input ← argument (codes "null input") input_ptr
    bits ← literal_to_bits input
    result ← map_err (prefixed name) (hasher bits)
    done (k.print_field result)

  unfoldable pub define_bits_hash_ffi : (List Bool → Outcome k.Field) → Bytes → Option Bytes → Bytes
  unfolding bits_hash
  define_bits_hash_ffi hasher name input_ptr =
      ffi_catch k.escape (codes "panic during " ++ name) (bits_hash hasher name input_ptr)

  -- The body of define_psd_hash_ffi!
  unfoldable pub psd_hash : (List k.Field → Outcome k.Field) → Bytes → Option Bytes → Outcome Bytes
  psd_hash hasher name input_ptr = do
    input ← argument (codes "null input") input_ptr
    field ← literal_to_field input
    result ← map_err (prefixed name) (hasher (field ∷ []))
    done (k.print_field result)

  unfoldable pub define_psd_hash_ffi :
      (List k.Field → Outcome k.Field) → Bytes → Option Bytes → Bytes
  unfolding psd_hash
  define_psd_hash_ffi hasher name input_ptr =
      ffi_catch k.escape (codes "panic during " ++ name) (psd_hash hasher name input_ptr)

  -- the closure at input `i`
  unfoldable pub read_field : ℕ → Bytes → Outcome k.Field
  read_field i s = map_err (prefixed (numbered (codes "input ") i)) (literal_to_field s)

  -- The body of define_psd_hash_multi_ffi!
  unfoldable pub psd_hash_multi :
      (List k.Field → Outcome k.Field) → Bytes → Option Bytes → Outcome Bytes
  unfolding read_field
  psd_hash_multi hasher name inputs_json_ptr = do
    inputs_str ← argument (codes "null inputs json") inputs_json_ptr
    input_strings ← map_err (prefixed (codes "parse inputs")) (k.read_strings inputs_str)
    fields ← collect read_field 0 input_strings
    result ← map_err (prefixed name) (hasher fields)
    done (k.print_field result)

  unfoldable pub define_psd_hash_multi_ffi :
      (List k.Field → Outcome k.Field) → Bytes → Option Bytes → Bytes
  unfolding psd_hash_multi
  define_psd_hash_multi_ffi hasher name inputs_json_ptr =
      ffi_catch k.escape (codes "panic during multi-input " ++ name)
        (psd_hash_multi hasher name inputs_json_ptr)
