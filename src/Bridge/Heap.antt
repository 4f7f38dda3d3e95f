-- ===== src/Bridge/Heap.antt =====
-- internal/ffi/bridge.go: the C strings of a call on the heap. A call allocates a C string for each text
-- and defers its C.free; the library reads them, and allocates its result, which aleo_free_string frees.
pub mod Calls
pub mod Balanced
pub mod Freed
use provable_sdk.Base.{
  ℕ, suc, ◌<◌, ◌≤◌, ◌≡◌, List, [], ◌∷◌, Option, none, some, Bytes, ◌==◌, if◌then◌else◌,
}
use provable_sdk.Exec.{Result, err}
use provable_sdk.Bridge.{c_string}

-- Who allocated a block, and has to free it: C.CString, or the Rust library.
pub data Owner : Type 0 where
  go rust : Owner

pub record Block : Type 0 where
  pub address : ℕ
  pub owner : Owner
  pub text : Bytes

-- The blocks in use, the newest first; addresses are used once.
pub record Heap : Type 0 where
  pub next : ℕ
  pub blocks : List Block

unfoldable pub find : ℕ → List Block → Option Block
find p [] = none
find p (b ∷ bs) = let rest = find p bs in if b.address == p then some b else rest

unfoldable pub remove : ℕ → List Block → List Block
remove p [] = []
remove p (b ∷ bs) = let rest = b ∷ remove p bs in if b.address == p then bs else rest

-- `none` is a fault: a block that is not in use is read or freed, or is freed by the wrong allocator.
abbrev pub Cmd : Type 0 → Type 0
Cmd A = Heap → Option (A × Heap)

module _ {A B : Type 0} where
  abbrev pub and_then : Option (A × Heap) → (A → Cmd B) → Option (B × Heap)
  and_then none f = none
  and_then (some (a, h)) f = f a h

  infixl 5 ◌>>=◌
  abbrev pub ◌>>=◌ : Cmd A → (A → Cmd B) → Cmd B
  m >>= f = λ h. and_then (m h) f

abbrev pub pure : {A : Type 0} → A → Cmd A
pure a h = some (a, h)

unfoldable pub malloc : Owner → Bytes → Cmd ℕ
malloc owner s h = some (
  h.next,
  record {
    next = suc h.next;
    blocks = record { address = h.next; owner = owner; text = s } ∷ h.blocks;
  },
)

text_at : Option Block → Cmd Bytes
text_at none h = none
text_at (some b) h = some (b.text, h)

unfoldable pub load : ℕ → Cmd Bytes
unfolding text_at find
load p h = text_at (find p h.blocks) h

free_block : Owner → Option Block → Cmd (Unit {0})
unfolding remove
free_block owner none h = none
free_block go (some b) h = elim b.owner [
  | go ↦ some (tt, record h { blocks = remove b.address h.blocks })
  | rust ↦ none
]
free_block rust (some b) h = elim b.owner [
  | go ↦ none
  | rust ↦ some (tt, record h { blocks = remove b.address h.blocks })
]

-- C.free, and aleo_free_string
unfoldable pub free : Owner → ℕ → Cmd (Unit {0})
unfolding free_block find
free owner p h = free_block owner (find p h.blocks) h

-- csk := C.CString(sk); defer C.free(unsafe.Pointer(csk)); and what follows
unfoldable pub with_c_string : {A : Type 0} → Bytes → (ℕ → Cmd A) → Cmd A
unfolding malloc free
with_c_string s body = do p ← malloc go (c_string s); a ← body p; _ ← free go p; pure a

-- The same where the pointer stays nil for the empty text.
unfoldable pub with_optional : {A : Type 0} → Bytes → (Option ℕ → Cmd A) → Cmd A
with_optional [] body = body none
with_optional (c ∷ s) body = with_c_string (c ∷ s) (λ p. body (some p))

unfoldable pub load_optional : Option ℕ → Cmd (Option Bytes)
load_optional none = pure none
load_optional (some p) = do s ← load p; pure (some s)

-- The library hands over NULL or a block of its own.
unfoldable pub hand_over : Option Bytes → Cmd (Option ℕ)
unfolding malloc
hand_over none = pure none
hand_over (some s) = do p ← malloc rust s; pure (some p)
