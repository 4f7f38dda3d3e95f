-- ===== src/Bridge/Heap/Freed.antt =====
-- Each function of the bridge, and what it leaves on the heap.
use mathlib.Core.Path.{subst}
use provable_sdk.Base.{suc, ◌<◌, ◌≡◌, refl, sym, [], ◌∷◌, some, Bytes, All, All-imp, arith, Bool}
use provable_sdk.Json.{Json}
use provable_sdk.Bridge.{Library, c_string, optional_text, result_or_error, is_true}
use provable_sdk.Bridge
use provable_sdk.Bridge.Heap.{go, Heap, find, with_optional}
use provable_sdk.Bridge.Heap.Calls
use provable_sdk.Bridge.Heap.Balanced.{
  Balanced, Balanced-pure, Balanced-load, Balanced-load_optional, Balanced-load_null,
  Balanced-with_c_string, Balanced-result, Balanced-one_text, Balanced-answered,
}

-- Every block stands below the next address.
abbrev pub IsHeap : Heap → Type 0
IsHeap h = All (λ b. b.address < h.next) h.blocks

module _ (lib : Library) (json : Json) where
  authorize-Balanced :
      (sk source name inputs imports : Bytes) (h : Heap)
      → Balanced
          (Calls.authorize_on_heap lib json sk source name inputs imports)
          (Bridge.authorize lib json sk source name inputs imports)
          h
  unfolding Calls.authorize_on_heap Bridge.authorize find
  authorize-Balanced sk source name inputs imports h = Balanced-with_c_string sk _ (
      Balanced-with_c_string source _ (
        Balanced-with_c_string name _ (
          Balanced-with_c_string inputs _ (
            Balanced-with_c_string imports _ (
              Balanced-load h.next go (c_string sk) _ (ground arith) (
                Balanced-load (suc h.next) go (c_string source) _ (ground arith) (
                  Balanced-load (suc (suc h.next)) go (c_string name) _ (ground arith) (
                    Balanced-load (suc (suc (suc h.next))) go (c_string inputs) _ (ground arith) (
                      Balanced-load (suc (suc (suc (suc h.next)))) go (c_string imports) _
                        (ground arith) (Balanced-result json _ _))))))))))

  execute_program-Balanced :
      (source name inputs sk : Bytes) (h : Heap)
      → Balanced
          (Calls.execute_program_on_heap lib json source name inputs sk)
          (Bridge.execute_program lib json source name inputs sk)
          h
  unfolding Calls.execute_program_on_heap Bridge.execute_program find
  execute_program-Balanced source name inputs sk h = Balanced-with_c_string source _ (
      Balanced-with_c_string name _ (
        Balanced-with_c_string inputs _ (
          Balanced-with_c_string sk _ (
            Balanced-load h.next go (c_string source) _ (ground arith) (
              Balanced-load (suc h.next) go (c_string name) _ (ground arith) (
                Balanced-load (suc (suc h.next)) go (c_string inputs) _ (ground arith) (
                  Balanced-load (suc (suc (suc h.next))) go (c_string sk) _ (ground arith)
                    (Balanced-result json _ _))))))))

  decrypt_record-Balanced :
      (ct vk : Bytes) (h : Heap)
      → Balanced
          (Calls.decrypt_record_on_heap lib json ct vk)
          (Bridge.decrypt_record lib json ct vk)
          h
  unfolding Calls.decrypt_record_on_heap Bridge.decrypt_record find
  decrypt_record-Balanced ct vk h = Balanced-with_c_string ct _ (
      Balanced-with_c_string vk _ (
        Balanced-load h.next go (c_string ct) _ (ground arith) (
          Balanced-load (suc h.next) go (c_string vk) _ (ground arith) (Balanced-result json _ _))))

  verify_signature-Balanced :
      (addr msg sig : Bytes) (h : Heap)
      → Balanced
          (Calls.verify_signature_on_heap lib json addr msg sig)
          (Bridge.verify_signature lib json addr msg sig)
          h
  unfolding Calls.verify_signature_on_heap Bridge.verify_signature find
  verify_signature-Balanced addr msg sig h = Balanced-with_c_string addr _ (
      Balanced-with_c_string sig _ (
        Balanced-load h.next go (c_string addr) _ (ground arith)
          (Balanced-load (suc h.next) go (c_string sig) _ (ground arith) (Balanced-pure _ _))))

  proving_request-Balanced :
      (auth fee : Bytes) (broadcast : Bool) (h : Heap)
      → Balanced
          (Calls.proving_request_on_heap lib json auth fee broadcast)
          (Bridge.proving_request_to_bytes lib json auth fee broadcast)
          h
  unfolding Calls.proving_request_on_heap Bridge.proving_request_to_bytes find with_optional
      optional_text
  proving_request-Balanced auth [] broadcast h = Balanced-with_c_string auth _ (
      Balanced-load h.next go (c_string auth) _ (ground arith)
        (Balanced-load_null _ (Balanced-result json _ _)))
  proving_request-Balanced auth (c ∷ fee) broadcast h = Balanced-with_c_string auth _ (
      Balanced-with_c_string (c ∷ fee) _ (
        Balanced-load h.next go (c_string auth) _ (ground arith) (
          Balanced-load_optional (suc h.next) go (c_string (c ∷ fee)) _ (ground arith)
            (Balanced-result json _ _))))

  call-Balanced :
      (call : Calls.Call) (h : Heap)
      → Balanced (Calls.on_heap lib json call) (Calls.answer lib json call) h
  unfolding Calls.on_heap Calls.answer Calls.private_key_new_on_heap Calls.sign_message_on_heap
      Bridge.private_key_new Bridge.derive_all_keys Bridge.program_id Bridge.verify_execution
      Bridge.sign_message Bridge.hash_bhp256 Bridge.hash_bhp512 Bridge.hash_bhp768
      Bridge.hash_bhp1024 Bridge.hash_pedersen64 Bridge.hash_pedersen128 Bridge.hash_poseidon2
      Bridge.hash_poseidon4 Bridge.hash_poseidon8 Bridge.hash_poseidon2_multi
      Bridge.hash_poseidon4_multi Bridge.hash_poseidon8_multi
  call-Balanced (Calls.private_key_new rng) h =
      Balanced-answered Calls.text _ (Balanced-result json (lib.private_key_new rng) h)
  call-Balanced (Calls.verify_execution e) h =
      Balanced-answered (λ r. Calls.verdict (is_true r)) _
        (Balanced-one_text json lib.verify_execution e h)
  call-Balanced (Calls.sign_message sk msg) h =
      Balanced-answered Calls.text _ (Balanced-one_text json (λ s. lib.sign_message s msg) sk h)
  call-Balanced (Calls.decrypt_record ct vk) h =
      Balanced-answered Calls.text _ (decrypt_record-Balanced ct vk h)
  call-Balanced (Calls.verify_signature addr msg sig) h =
      let b = verify_signature-Balanced addr msg sig h in
      record { end = b.end; runs = rw b.runs refl; same = b.same; larger = b.larger }
  call-Balanced (Calls.execute_program source name inputs sk) h =
      Balanced-answered Calls.text _ (execute_program-Balanced source name inputs sk h)
  call-Balanced (Calls.authorize sk source name inputs imports) h =
      Balanced-answered Calls.text _ (authorize-Balanced sk source name inputs imports h)
  call-Balanced (Calls.proving_request_to_bytes auth fee broadcast) h =
      Balanced-answered Calls.text _ (proving_request-Balanced auth fee broadcast h)
  call-Balanced (Calls.derive_all_keys s) h =
      Balanced-answered Calls.text _ (Balanced-one_text json lib.derive_all_keys s h)
  call-Balanced (Calls.program_id s) h =
      Balanced-answered Calls.text _ (Balanced-one_text json lib.program_id s h)
  call-Balanced (Calls.hash_bhp256 s) h =
      Balanced-answered Calls.text _ (Balanced-one_text json lib.hash_bhp256 s h)
  call-Balanced (Calls.hash_bhp512 s) h =
      Balanced-answered Calls.text _ (Balanced-one_text json lib.hash_bhp512 s h)
  call-Balanced (Calls.hash_bhp768 s) h =
      Balanced-answered Calls.text _ (Balanced-one_text json lib.hash_bhp768 s h)
  call-Balanced (Calls.hash_bhp1024 s) h =
      Balanced-answered Calls.text _ (Balanced-one_text json lib.hash_bhp1024 s h)
  call-Balanced (Calls.hash_pedersen64 s) h =
      Balanced-answered Calls.text _ (Balanced-one_text json lib.hash_ped64 s h)
  call-Balanced (Calls.hash_pedersen128 s) h =
      Balanced-answered Calls.text _ (Balanced-one_text json lib.hash_ped128 s h)
  call-Balanced (Calls.hash_poseidon2 s) h =
      Balanced-answered Calls.text _ (Balanced-one_text json lib.hash_psd2 s h)
  call-Balanced (Calls.hash_poseidon4 s) h =
      Balanced-answered Calls.text _ (Balanced-one_text json lib.hash_psd4 s h)
  call-Balanced (Calls.hash_poseidon8 s) h =
      Balanced-answered Calls.text _ (Balanced-one_text json lib.hash_psd8 s h)
  call-Balanced (Calls.hash_poseidon2_multi s) h =
      Balanced-answered Calls.text _ (Balanced-one_text json lib.hash_psd2_multi s h)
  call-Balanced (Calls.hash_poseidon4_multi s) h =
      Balanced-answered Calls.text _ (Balanced-one_text json lib.hash_psd4_multi s h)
  call-Balanced (Calls.hash_poseidon8_multi s) h =
      Balanced-answered Calls.text _ (Balanced-one_text json lib.hash_psd8_multi s h)

  -- On a heap whose blocks stand below its next address, every call of the bridge ends with no fault
  -- (nothing is read or freed that is not in use, nothing is freed by the wrong allocator), with the
  -- answer that it has over values, and with the same blocks in use as before it: what it allocated and
  -- what the library handed over is freed, on the paths of errors too.
  pub on_heap-answer :
      (call : Calls.Call) (h : Heap)
      → IsHeap h
      → (h' : Heap) × (Calls.on_heap lib json call h ≡ some (Calls.answer lib json call, h'))
        × (h'.blocks ≡ h.blocks)
        × IsHeap h'
  on_heap-answer call h below =
      let b = call-Balanced call h in
      (
        b.end,
        b.runs,
        b.same,
        subst (All (λ x. x.address < b.end.next)) (sym b.same)
            (All-imp (λ x lt. omega (arith, lt, b.larger)) h.blocks below),
      )
