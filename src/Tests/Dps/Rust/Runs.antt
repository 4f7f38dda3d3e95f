-- ===== src/Tests/Dps/Rust/Runs.antt =====
-- Calls through the Go side and the concrete version of the crates.
use mathlib.Core.Path.{subst}
use provable_sdk.Base.{ap, ◌≡◌, ◌↔◌, refl, Bool, true, false, none, some, [], ◌∷◌, codes, arith}
use provable_sdk.Text.{bytes_eq, has_prefix, is_empty}
use provable_sdk.Exec.{ok}
use provable_sdk.Memory.{Memory}
use provable_sdk.Imports.{member, credits}
use provable_sdk.Bridge.{c_string, verify_signature}
use provable_sdk.Bridge.Heap.{Heap}
use provable_sdk.Bridge.Heap.Calls
use provable_sdk.Bridge.Heap.Freed.{IsHeap, on_heap-answer}
use provable_sdk.Bridge.Heap.Balanced.{block}
use provable_sdk.Bridge.Heap
use provable_sdk.Bridge.Rust.{done, failed, prefixed, has_nul}
use provable_sdk.Bridge.Rust.Pointer.{numbered, is_utf8}
use provable_sdk.Bridge.Rust.Authorize.{authorize, add_imports}
use provable_sdk.Bridge.Rust.Adding.{Stops, add_imports-Stops}
use provable_sdk.Bridge.Rust.Authorized.{IsAuthorized, authorize-iff-IsAuthorized}
use provable_sdk.Bridge.Rust.Adding
use provable_sdk.Bridge.Rust.Authorized
use provable_sdk.Bridge.Rust.Outcomes.{done_inj}
use provable_sdk.Text.Decimal.{format_uint}
use provable_sdk.Bridge.Rust.Linked.{linked}
use provable_sdk.Bridge.Rust.Calls.{IsPlain}
use provable_sdk.Bridge.Rust.Verdicts.{Judges, verify_signature-Judges}
use provable_sdk.Account.{Account, account_from_private_key, sign, verify}
use provable_sdk.Account.Signing.{IsSound, IsKey, verify-sign}
use provable_sdk.Tests.Dps.{dps_codec, no_memory, toy_library}
use provable_sdk.Tests.Dps.Rust.{main_source, toy_crates, c_source, b_source, same, verdict_text}

-- A heap with one block of the caller's.
abbrev one_block : Heap
one_block = record { next = 5; blocks = block 4 Heap.go (codes "mine") ∷ [] }

on_heap-answer_example :
    (h' : Heap) × (Calls.on_heap toy_library dps_codec
        (Calls.sign_message (codes "sk") (codes "hi"))
        one_block
      ≡ some
          (Calls.answer toy_library dps_codec (Calls.sign_message (codes "sk") (codes "hi")), h'))
    × (h'.blocks ≡ one_block.blocks)
    × IsHeap h'
on_heap-answer_example =
    on_heap-answer toy_library dps_codec (Calls.sign_message (codes "sk") (codes "hi")) one_block
      (omega arith, tt)

stopped :
    add_imports toy_crates 0 (c_source ∷ codes "junk" ∷ b_source ∷ []) (credits ∷ [])
    ≡ failed (codes "parse import #1: no program")
unfolding add_imports bytes_eq member prefixed numbered format_uint
stopped = refl

add_imports-Stops_example :
    Stops toy_crates 0
      (c_source ∷ codes "junk" ∷ b_source ∷ [])
      (credits ∷ [])
      (codes "parse import #1: no program")
add_imports-Stops_example =
    add_imports-Stops toy_crates 0 (c_source ∷ codes "junk" ∷ b_source ∷ []) (credits ∷ []) stopped

-- c.aleo is added, then b.aleo, and then the program.
abbrev authorized :
    IsAuthorized toy_crates []
      (codes "sk")
      main_source
      (codes "f")
      (codes "inputs")
      (codes "imports")
      (codes "{}")
unfolding is_utf8 bytes_eq member
authorized = record {
  utf8 = (refl, refl, refl, refl, refl);
  private_key = codes "sk";
  key_read = refl;
  input_texts = codes "1field" ∷ [];
  inputs = codes "1field" ∷ [];
  inputs_json_read = refl;
  inputs_read = Authorized.next refl Authorized.nothing;
  imports = c_source ∷ b_source ∷ [];
  imports_read = refl;
  loaded = credits ∷ [];
  process_loaded = refl;
  reached = codes "b.aleo" ∷ codes "c.aleo" ∷ credits ∷ [];
  imports_added = Adding.next refl refl (Adding.next refl refl Adding.nothing);
  program = codes "a.aleo";
  program_read = refl;
  process = codes "a.aleo" ∷ codes "b.aleo" ∷ codes "c.aleo" ∷ credits ∷ [];
  program_added = refl;
  authorization = 7;
  authorized = refl;
  written = refl;
}

authorize-iff-IsAuthorized_example :
    (authorize toy_crates []
        (some (codes "sk"))
        (some main_source)
        (some (codes "f"))
        (some (codes "inputs"))
        (some (codes "imports"))
      ≡ done (codes "{}"))
    ↔ IsAuthorized toy_crates []
        (codes "sk")
        main_source
        (codes "f")
        (codes "inputs")
        (codes "imports")
        (codes "{}")
authorize-iff-IsAuthorized_example =
    authorize-iff-IsAuthorized toy_crates [] (codes "sk") main_source (codes "f") (codes "inputs")
      (codes "imports") (codes "{}")

authorizes :
    authorize toy_crates []
      (some (codes "sk"))
      (some main_source)
      (some (codes "f"))
      (some (codes "inputs"))
      (some (codes "imports"))
    ≡ done (codes "{}")
authorizes = authorize-iff-IsAuthorized_example.1 authorized

parsed : (s : Bool) → bytes_eq (verdict_text s) (codes "sign1") ≡ s
unfolding bytes_eq
parsed true = refl
parsed false = refl

signature_utf8 : (s : Bool) → is_utf8 (verdict_text s) ≡ true
unfolding is_utf8
signature_utf8 true = refl
signature_utf8 false = refl

signature-IsPlain : (s : Bool) → IsPlain (verdict_text s)
unfolding has_nul has_prefix
signature-IsPlain true = record { no_nul = refl; no_error = refl }
signature-IsPlain false = record { no_nul = refl; no_error = refl }

same_self : (b : Bool) → same b b ≡ true
same_self true = refl
same_self false = refl

toy_crates-IsSound : IsSound toy_crates
unfolding is_utf8 has_nul
toy_crates-IsSound = record {
  parse-print_address = λ a. refl;
  parse-print_signature = λ s. ap done (parsed s);
  address_utf8 = λ a. refl;
  address_no_nul = λ a. refl;
  signature_utf8 = signature_utf8;
  signature_plain = signature-IsPlain;
  verify_bytes-sign_bytes = λ sk a msg rng s e h.
      subst (λ b. done (same b (is_empty msg)) ≡ done true) (done_inj h)
        (ap done (same_self (is_empty msg)));
}

toy_key : IsKey toy_crates dps_codec [] [] (codes "sk")
unfolding is_empty is_utf8 has_nul has_prefix c_string
toy_key = record {
  given = refl;
  utf8 = refl;
  key = codes "sk";
  view_key = codes "sk";
  address = tt;
  compute_key = codes "sk";
  graph_key = codes "sk";
  key_read = refl;
  view_key_made = refl;
  address_made = refl;
  compute_key_made = refl;
  graph_key_made = refl;
  text = codes "{}";
  written = refl;
  text_plain = record { no_nul = refl; no_error = refl };
  keys = record {
    view_key = codes "v";
    address = codes "a";
    compute_key = none;
    graph_key = codes "g";
  };
  decoded = refl;
  same_address = refl;
}

not_empty : is_empty (codes "hi") ≡ false
unfolding is_empty
not_empty = refl

verify-sign_example :
    (a : Account) × (m' : Memory) × (account_from_private_key
        (linked toy_crates [] [])
        dps_codec
        (codes "sk")
        no_memory
      ≡ (ok a, m'))
    × (sign (linked toy_crates [] []) dps_codec m' a (codes "hi") ≡ ok (codes "sign0"))
    × (verify (linked toy_crates [] []) dps_codec a.address (codes "hi") (codes "sign0") ≡ ok true)
verify-sign_example =
    verify-sign toy_crates dps_codec [] [] (codes "sk") toy_key no_memory (codes "hi") {s = false}
      toy_crates-IsSound (ap done not_empty)

-- A signature of another message.
refused : Judges toy_crates [] [] dps_codec (codes "a") [] (codes "sign0") false
unfolding is_utf8 c_string bytes_eq is_empty
refused = record {
  utf8 = (refl, refl);
  address = tt;
  signature = false;
  address_read = refl;
  signature_read = refl;
  judged = refl;
}

verify_signature-Judges_example :
    (verify_signature (linked toy_crates [] []) dps_codec (codes "a") [] (codes "sign0") ≡ ok false)
    ↔ Judges toy_crates [] [] dps_codec (codes "a") [] (codes "sign0") false
verify_signature-Judges_example =
    verify_signature-Judges toy_crates [] [] dps_codec (codes "a") [] (codes "sign0") false
