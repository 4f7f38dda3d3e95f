-- ===== src/Bridge/Rust/Verdicts.antt =====
-- The verdicts on signatures and executions, through the Go side and the Rust library.
use provable_sdk.Base.{
  ◌≡◌, ◌≢◌, refl, ap, sym, ◌∙◌, ◌↔◌, Bool, true, false, some, Bytes, codes, length, arith,
}
use provable_sdk.Exec.{ok}
use provable_sdk.Json.{Json}
use provable_sdk.Bridge.{
  c_string, verify_code, verify_signature, verify_execution, is_true, result_or_error,
}
use provable_sdk.Bridge.Rust.{
  Outcome, done, failed, panicked, ffi_catch, returned, IsReadable, result_or_error-ffi_catch,
}
use provable_sdk.Bridge.Rust.Crates.{Crates}
use provable_sdk.Bridge.Rust.Pointer.{is_utf8, argument-done}
use provable_sdk.Bridge.Rust.Account.{verdict, aleo_verify_signature}
use provable_sdk.Bridge.Rust.Account
use provable_sdk.Bridge.Rust.Authorize
use provable_sdk.Bridge.Rust.Authorize.{aleo_verify_execution}
use provable_sdk.Bridge.Rust.Authorized.{loads, loaded_of}
use provable_sdk.Bridge.Rust.Linked.{linked, message_pointer}
use provable_sdk.Bridge.Rust.Outcomes.{on_argument, on_done, on_mapped, done_inj}
use provable_sdk.Bridge.Rust.Calls.{slice-message_pointer}

-- A code is a verdict exactly where the outcome is.
verify_code-verdict :
    (o : Outcome Bool) (b : Bool) → (verify_code (verdict o) ≡ ok b) ↔ (o ≡ done b)
unfolding verify_code verdict
verify_code-verdict (done true) b = (λ h. ground (arith, h), λ h. ground (arith, h))
verify_code-verdict (done false) b = (λ h. ground (arith, h), λ h. ground (arith, h))
verify_code-verdict (failed e) b = (λ h. absurd (cc h), λ h. absurd (cc h))
verify_code-verdict panicked b = (λ h. absurd (cc h), λ h. absurd (cc h))

module _ (json : Json) (escape : (Bytes → Bytes)) (panic_msg : Bytes) where
  is_true-returned :
      (o : Outcome Bytes)
      → ((s : Bytes) → o ≡ done s → s ≡ codes "true")
      → ((is_true (returned json escape panic_msg o) ≡ ok true) ↔ (o ≡ done (codes "true")))
        × (is_true (returned json escape panic_msg o) ≢ ok false)
  unfolding is_true returned
  is_true-returned (done s) h = let e = h s refl in rw e ((λ _. refl, λ _. refl), λ k. cc)
  is_true-returned (failed e) h = ((λ k. absurd (cc k), λ k. absurd (cc k)), λ k. cc)
  is_true-returned panicked h = ((λ k. absurd (cc k), λ k. absurd (cc k)), λ k. cc)

  -- A function whose one result is "true".
  said_true :
      (o : Outcome Bytes)
      → IsReadable json escape panic_msg o
      → ((s : Bytes) → o ≡ done s → s ≡ codes "true")
      → ((is_true (result_or_error json (some (ffi_catch escape panic_msg o))) ≡ ok true)
          ↔ (o ≡ done (codes "true")))
        × (is_true (result_or_error json (some (ffi_catch escape panic_msg o))) ≢ ok false)
  said_true o readable h =
      rw (result_or_error-ffi_catch json escape panic_msg o readable) (is_true-returned o h)

module _ (k : Crates) (rng rng' : Bytes) (json : Json) where
  -- The address and the signature are read, and snarkVM's verdict on the message is `b`.
  pub record Judges (addr msg sig : Bytes) (b : Bool) : Type 0 where
    pub utf8 : (is_utf8 (c_string addr) ≡ true) × (is_utf8 (c_string sig) ≡ true)
    pub address : k.Address
    pub signature : k.Signature
    pub address_read : k.parse_address (c_string addr) ≡ done address
    pub signature_read : k.parse_signature (c_string sig) ≡ done signature
    pub judged : k.verify_bytes signature address msg ≡ done b

  module _ (addr msg sig : Bytes) (b : Bool) where
    body-Judges :
        Account.verify_signature k
            (some (c_string addr))
            (message_pointer msg)
            (length msg)
            (some (c_string sig))
          ≡ done b
        → Judges addr msg sig b
    unfolding Account.verify_signature
    body-Judges h = on_argument _ (c_string addr) _ h λ u1 h.
        on_argument _ (c_string sig) _ h λ u2 h.
          on_done (k.parse_address (c_string addr)) _ h λ a address_read h.
            on_done (k.parse_signature (c_string sig)) _ h λ s signature_read h. record {
              utf8 = (u1, u2);
              address = a;
              signature = s;
              address_read = address_read;
              signature_read = signature_read;
              judged = ap (k.verify_bytes s a) (sym (slice-message_pointer msg)) ∙ h;
            }

    Judges-body :
        Judges addr msg sig b
        → Account.verify_signature k
            (some (c_string addr))
            (message_pointer msg)
            (length msg)
            (some (c_string sig))
          ≡ done b
    unfolding Account.verify_signature
    Judges-body j =
        let (u1, u2) = j.utf8 in
        rw (
          argument-done (codes "null address pointer") (c_string addr) u1,
          argument-done (codes "null signature pointer") (c_string sig) u2,
          j.address_read,
          j.signature_read,
          slice-message_pointer msg,
          j.judged,
        )

    -- VerifySignature has a verdict, true or false, exactly when the address and the signature, up to
    -- their first NUL, are UTF-8 and are read, and snarkVM has this verdict on the message, all of it;
    -- in every other case it has an error.
    pub verify_signature-Judges :
        (verify_signature (linked k rng rng') json addr msg sig ≡ ok b) ↔ Judges addr msg sig b
    unfolding verify_signature linked aleo_verify_signature
    verify_signature-Judges =
        let (there, back) =
          verify_code-verdict
            (Account.verify_signature k (some (c_string addr)) (message_pointer msg) (length msg)
              (some (c_string sig)))
            b in
        (λ h. body-Judges (there h), λ j. back (Judges-body j))

  -- The execution is read and accepted.
  pub record Accepts (execution_json : Bytes) : Type 0 where
    pub utf8 : is_utf8 (c_string execution_json) ≡ true
    pub execution : k.Execution
    pub process : k.Process
    pub execution_read : k.read_execution (c_string execution_json) ≡ done execution
    pub process_loaded : k.load_process ≡ done process
    pub accepted : k.verify_execution process execution ≡ done tt

  module _ (execution_json : Bytes) where
    body_done :
        {s : Bytes}
        → Authorize.verify_execution k (some (c_string execution_json)) ≡ done s
        → Accepts execution_json × (s ≡ codes "true")
    unfolding Authorize.verify_execution
    body_done h = on_argument _ (c_string execution_json) _ h λ u h.
        on_mapped _ (k.read_execution (c_string execution_json)) _ h λ execution read h.
          on_done (Authorize.get_or_init_process k) _ h λ process loaded h.
            on_mapped _ (k.verify_execution process execution) _ h λ _ accepted h. (
              record {
                utf8 = u;
                execution = execution;
                process = process;
                execution_read = read;
                process_loaded = loads k loaded;
                accepted = accepted;
              },
              sym (done_inj h),
            )

    Accepts-body :
        Accepts execution_json
        → Authorize.verify_execution k (some (c_string execution_json)) ≡ done (codes "true")
    unfolding Authorize.verify_execution
    Accepts-body a = rw (
      argument-done (codes "null execution json") (c_string execution_json) a.utf8,
      a.execution_read,
      loaded_of k a.process_loaded,
      a.accepted,
    )

    -- Where no message of an error is lost on the way, VerifyExecution says true exactly when the text
    -- is UTF-8 and is read, the process is loaded, and snarkVM accepts the execution; it never says
    -- false without an error.
    pub verify_execution-Accepts :
        IsReadable json k.escape
          (codes "panic during execution verification")
          (Authorize.verify_execution k (some (c_string execution_json)))
        → ((verify_execution (linked k rng rng') json execution_json ≡ ok true)
            ↔ Accepts execution_json)
          × (verify_execution (linked k rng rng') json execution_json ≢ ok false)
    unfolding verify_execution linked aleo_verify_execution
    verify_execution-Accepts readable =
        let body = Authorize.verify_execution k (some (c_string execution_json)) in
        let ((there, back), never) =
          said_true json k.escape (codes "panic during execution verification") body readable
            (λ s h. (body_done h).1) in
        ((λ h. (body_done (there h)).0, λ a. back (Accepts-body a)), never)
