-- ===== src/Tests/Dps/Rust.antt =====
-- A concrete version of the crates: two programs, keys and values that are texts, a process that is the
-- list of the programs that it knows.
pub mod Runs
pub mod Requests
pub mod Loading
pub mod Building
pub mod NoInputs
use provable_sdk.Base.{
  ℕ, ◌≡◌, refl, Bool, true, false, ◌==◌, ◌+◌, none, some, List, [], ◌∷◌, map, Bytes, codes,
  if◌then◌else◌, arith,
}
use provable_sdk.Text.{bytes_eq, is_empty, has_prefix}
use provable_sdk.Imports.{member, credits}
use provable_sdk.Bridge.Rust.{Outcome, done, failed, has_nul}
use provable_sdk.Bridge.Rust.Crates.{Crates}
use provable_sdk.Bridge.Rust.Calls.{IsPlain}

abbrev b_source : Bytes
b_source = codes "import c.aleo;\nimport credits.aleo;\nprogram b.aleo;\n"

abbrev c_source : Bytes
c_source = codes "program c.aleo;\n"

abbrev main_source : Bytes
main_source = codes "import b.aleo;\nprogram a.aleo;\n"

abbrev parse : Bytes → Outcome Bytes
parse src =
    if bytes_eq src b_source
    then done (codes "b.aleo")
    else if bytes_eq src c_source
    then done (codes "c.aleo")
    else if bytes_eq src main_source
    then done (codes "a.aleo")
    else failed (codes "no program")

abbrev add : List Bytes → Bytes → Outcome (List Bytes)
add known id = if member id known then failed (codes "already known") else done (id ∷ known)

-- Bytes that begin no error and have no NUL.
shifted : Bytes → Bytes
shifted [] = []
shifted (c ∷ s) = (200 + c) ∷ shifted s

shifted_no_nul : (s : Bytes) → has_nul (shifted s) ≡ false
unfolding has_nul shifted
shifted_no_nul [] = refl
shifted_no_nul (c ∷ s) = let r = shifted_no_nul s in ground arith

shifted-IsPlain : (s : Bytes) → IsPlain (shifted s)
unfolding shifted has_prefix
shifted-IsPlain [] = record { no_nul = shifted_no_nul []; no_error = refl }
shifted-IsPlain (c ∷ s) = record { no_nul = shifted_no_nul (c ∷ s); no_error = ground arith }

abbrev verdict_text : Bool → Bytes
verdict_text true = codes "sign1"
verdict_text false = codes "sign0"

-- A signature tells whether the message is empty.
abbrev same : Bool → Bool → Bool
same true b = b
same false true = false
same false false = true

-- The texts of a list: those of its letters behind an L, and else one input.
abbrev letters : Bytes → List Bytes
letters [] = []
letters (c ∷ s) = (if c == b'c' then c_source else codes "1field") ∷ letters s

abbrev texts : Bytes → List Bytes
texts [] = codes "1field" ∷ []
texts (c ∷ s) = if c == b'L' then letters s else codes "1field" ∷ []

abbrev toy_crates : Crates
toy_crates = record {
  PrivateKey = Bytes;
  ViewKey = Bytes;
  Address = Unit {0};
  ComputeKey = Bytes;
  GraphKey = Bytes;
  new_private_key = done;
  parse_private_key = done;
  parse_view_key = done;
  parse_address = λ s. done tt;
  view_key_of = done;
  address_of = λ sk. done tt;
  compute_key_of = done;
  graph_key_of = done;
  print_private_key = λ sk. sk;
  print_view_key = λ vk. vk;
  print_address = λ a. codes "a";
  print_graph_key = λ gk. gk;
  keys_json = λ vk a ck gk. done (codes "{}");
  Signature = Bool;
  parse_signature = λ s. done (bytes_eq s (codes "sign1"));
  print_signature = verdict_text;
  sign_bytes = λ sk msg rng. done (is_empty msg);
  verify_bytes = λ s a msg. done (same s (is_empty msg));
  Ciphertext = Bytes;
  Plaintext = Bytes;
  parse_ciphertext = done;
  decrypt = λ ct vk. done ct;
  print_plaintext = λ r. r;
  Program = Bytes;
  Value = Bytes;
  Process = List Bytes;
  Authorization = ℕ;
  Execution = Bytes;
  parse_program = parse;
  program_id = λ p. p;
  parse_value = done;
  print_value = λ v. v;
  load_process = done (credits ∷ []);
  add_program = add;
  authorize = λ p sk id name inputs rng. done 7;
  execute = λ p a rng. done [];
  verify_execution = λ p e. failed (codes "bad proof");
  read_strings =
      λ s. done (if bytes_eq s (codes "imports") then c_source ∷ b_source ∷ [] else texts s);
  write_strings = λ ss. done (codes "[]");
  read_authorization = λ s. done 7;
  write_authorization = λ a. done (codes "{}");
  read_execution = done;
  escape = λ s. s;
  write_le = λ a. done (a ∷ []);
  base64 = shifted;
  Literal = Bytes;
  Field = Bytes;
  parse_literal = done;
  to_bits_le = λ l. [];
  field_of = some;
  from_bits_le = λ bits. done [];
  print_field = λ f. f;
  hash_bhp256 = λ bits. done [];
  hash_bhp512 = λ bits. done [];
  hash_bhp768 = λ bits. done [];
  hash_bhp1024 = λ bits. done [];
  hash_ped64 = λ bits. done [];
  hash_ped128 = λ bits. done [];
  hash_psd2 = λ fields. done (codes "2field");
  hash_psd4 = λ fields. done (codes "4field");
  hash_psd8 = λ fields. done (codes "8field");
}
