-- ===== src/Bridge/Rust/Crates.antt =====
-- What the Rust library calls of snarkVM, serde_json and base64, as a parameter. Parsing, deriving,
-- signing, hashing and the like may fail or panic; printing does neither. thread_rng() is the `Bytes` that
-- an operation takes last.
use provable_sdk.Base.{List, Bool, Option, Bytes}
use provable_sdk.Bridge.Rust.{Outcome}

pub record Crates : Type 1 where
  pub PrivateKey : Type 0
  pub ViewKey : Type 0
  pub Address : Type 0
  pub ComputeKey : Type 0
  pub GraphKey : Type 0
  pub new_private_key : Bytes → Outcome PrivateKey
  pub parse_private_key : Bytes → Outcome PrivateKey
  pub parse_view_key : Bytes → Outcome ViewKey
  pub parse_address : Bytes → Outcome Address
  pub view_key_of : PrivateKey → Outcome ViewKey
  pub address_of : PrivateKey → Outcome Address
  pub compute_key_of : PrivateKey → Outcome ComputeKey
  pub graph_key_of : ViewKey → Outcome GraphKey
  pub print_private_key : PrivateKey → Bytes
  pub print_view_key : ViewKey → Bytes
  pub print_address : Address → Bytes
  pub print_graph_key : GraphKey → Bytes
  -- json!({"view_key": …, "address": …, "compute_key": …, "graph_key": …}).to_string()
  pub keys_json : Bytes → Bytes → ComputeKey → Bytes → Outcome Bytes
  pub Signature : Type 0
  pub parse_signature : Bytes → Outcome Signature
  pub print_signature : Signature → Bytes
  pub sign_bytes : PrivateKey → Bytes → Bytes → Outcome Signature
  pub verify_bytes : Signature → Address → Bytes → Outcome Bool
  -- Record<N, Ciphertext<N>>, and the record that it decrypts to
  pub Ciphertext : Type 0
  pub Plaintext : Type 0
  pub parse_ciphertext : Bytes → Outcome Ciphertext
  pub decrypt : Ciphertext → ViewKey → Outcome Plaintext
  pub print_plaintext : Plaintext → Bytes
  pub Program : Type 0
  pub Value : Type 0
  pub Process : Type 0
  pub Authorization : Type 0
  pub Execution : Type 0
  pub parse_program : Bytes → Outcome Program
  pub program_id : Program → Bytes
  pub parse_value : Bytes → Outcome Value
  pub print_value : Value → Bytes
  pub load_process : Outcome Process
  pub add_program : Process → Program → Outcome Process
  pub authorize : Process → PrivateKey → Bytes → Bytes → List Value → Bytes → Outcome Authorization
  -- the outputs of the response
  pub execute : Process → Authorization → Bytes → Outcome (List Value)
  pub verify_execution : Process → Execution → Outcome (Unit {0})
  -- serde_json::from_str and serde_json::to_string
  pub read_strings : Bytes → Outcome (List Bytes)
  pub write_strings : List Bytes → Outcome Bytes
  pub read_authorization : Bytes → Outcome Authorization
  pub write_authorization : Authorization → Outcome Bytes
  pub read_execution : Bytes → Outcome Execution
  -- how serde_json writes a text between its quotes
  pub escape : Bytes → Bytes
  -- Authorization::write_le: the bytes that it appends
  pub write_le : Authorization → Outcome Bytes
  -- base64's STANDARD.encode
  pub base64 : Bytes → Bytes
  pub Literal : Type 0
  pub Field : Type 0
  pub parse_literal : Bytes → Outcome Literal
  pub to_bits_le : Literal → List Bool
  -- the element of Literal::Field, and `none` for the other variants
  pub field_of : Literal → Option Field
  pub from_bits_le : List Bool → Outcome Field
  pub print_field : Field → Bytes
  pub hash_bhp256 : List Bool → Outcome Field
  pub hash_bhp512 : List Bool → Outcome Field
  pub hash_bhp768 : List Bool → Outcome Field
  pub hash_bhp1024 : List Bool → Outcome Field
  pub hash_ped64 : List Bool → Outcome Field
  pub hash_ped128 : List Bool → Outcome Field
  pub hash_psd2 : List Field → Outcome Field
  pub hash_psd4 : List Field → Outcome Field
  pub hash_psd8 : List Field → Outcome Field
