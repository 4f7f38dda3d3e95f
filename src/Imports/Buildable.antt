-- ===== src/Imports/Buildable.antt =====
-- What a request and the libraries have to offer for an authorization.
use provable_sdk.Base.{ℕ, suc, ◌<◌, ◌≤◌, ◌≡◌, true, false, some, List, map, Bytes, Bool, arith, All}
use provable_sdk.Text.{bytes_eq, is_empty}
use provable_sdk.Exec.{ok}
use provable_sdk.Json.{Json}
use provable_sdk.Bridge.{c_string}
use provable_sdk.Bridge.Rust.{done, has_nul}
use provable_sdk.Bridge.Rust.Crates.{Crates}
use provable_sdk.Bridge.Rust.Pointer.{is_utf8}
use provable_sdk.Bridge.Rust.Authorized.{Reads}
use provable_sdk.Bridge.Rust.Calls.{IsPlain}
use provable_sdk.Imports.Loaded.{Takes}
use provable_sdk.Imports.{credits, ProvingRequestOptions}

module _ (k : Crates) (src : Bytes → Bytes) (knows : k.Process → Bytes → Bool)
    (rank : Bytes → ℕ) where
  pub Takes-weaken : {m n : ℕ} → n ≤ m → Takes k src knows rank m → Takes k src knows rank n
  Takes-weaken le t = record {
    program = t.program;
    parses = λ id lt. t.parses id (omega (arith, lt, le));
    named = λ id lt. t.named id (omega (arith, lt, le));
    taken = t.taken;
    takes = λ p id lt. t.takes p id (omega (arith, lt, le));
    knows-taken = λ p id id' lt. t.knows-taken p id id' (omega (arith, lt, le));
  }

  -- What is needed of the request, of JSON and of snarkVM: the private key, the inputs and the names are
  -- read; the lists of sources come through JSON as they are; the loaded process knows the built-in
  -- program, and none of the programs; and the function is authorized by every process that knows the
  -- program.
  pub record IsBuildable (json : Json) (rng : Bytes) (opts : ProvingRequestOptions) : Type 0 where
    pub given : is_empty opts.private_key ≡ false
    pub key_utf8 : is_utf8 (c_string opts.private_key) ≡ true
    pub name_utf8 : is_utf8 (c_string opts.function_name) ≡ true
    pub source_utf8 : is_utf8 (src opts.program_name) ≡ true
    pub source_no_nul : has_nul (src opts.program_name) ≡ false
    pub foreign : bytes_eq opts.program_name credits ≡ false
    pub key : k.PrivateKey
    pub key_read : k.parse_private_key (c_string opts.private_key) ≡ done key
    pub inputs_text : Bytes
    pub inputs_marshalled : json.marshal_strings opts.inputs ≡ ok inputs_text
    pub inputs_utf8 : is_utf8 (c_string inputs_text) ≡ true
    pub input_texts : List Bytes
    pub inputs_listed : k.read_strings (c_string inputs_text) ≡ done input_texts
    pub inputs : List k.Value
    pub inputs_read : Reads k.parse_value input_texts inputs
    pub listing : List Bytes → Bytes
    pub sources_marshalled :
        (ids : List Bytes)
        → All (λ id. rank id < rank opts.program_name) ids
        → json.marshal_strings (some (map src ids)) ≡ ok (listing ids)
    pub sources_utf8 :
        (ids : List Bytes)
        → All (λ id. rank id < rank opts.program_name) ids
        → is_utf8 (c_string (listing ids)) ≡ true
    pub sources_read :
        (ids : List Bytes)
        → All (λ id. rank id < rank opts.program_name) ids
        → k.read_strings (c_string (listing ids)) ≡ done (map src ids)
    pub loaded : k.Process
    pub process_loaded : k.load_process ≡ done loaded
    pub knows_credits : knows loaded credits ≡ true
    pub knows_no_other :
        (id : Bytes)
        → rank id < suc (rank opts.program_name)
        → bytes_eq id credits ≡ false
        → knows loaded id ≡ false
    pub authorization : k.Process → k.Authorization
    pub authorizes :
        (p : k.Process)
        → knows p opts.program_name ≡ true
        → k.authorize p key opts.program_name (c_string opts.function_name) inputs rng
          ≡ done (authorization p)
    pub text : k.Process → Bytes
    pub writes : (p : k.Process) → k.write_authorization (authorization p) ≡ done (text p)
    pub plain : (p : k.Process) → IsPlain (text p)
