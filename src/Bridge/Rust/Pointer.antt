-- ===== src/Bridge/Rust/Pointer.antt =====
-- rust-bridge/src/helpers.rs: the texts and the messages that the functions are handed, and the two
-- conversions of lists of texts that more than one of them makes. A pointer is `none` where it is NULL.
use provable_sdk.Base.{
  ℕ, ◌+◌, ◌≡◌, refl, List, [], ◌∷◌, ◌++◌, Bool, true, false, ◌&&◌, Option, none, some, Bytes, codes,
  ltb, leb, ◌==◌, if◌then◌else◌, take, ◌<◌, arith, All, ◌⊎◌, inl, inr, Bool-cases,
}
use provable_sdk.Text.Decimal.{format_uint}
use provable_sdk.Bridge.Rust.{Outcome, done, failed, ◌>>=◌}

in_range : ℕ × ℕ → ℕ → Bool
in_range (lo, hi) c = leb lo c && leb c hi

abbrev continuation : ℕ × ℕ
continuation = (0x80, 0xBF)

-- The ranges of the bytes that follow a first byte in UTF-8; `none` where the byte cannot stand first.
following : ℕ → Option (List (ℕ × ℕ))
following c =
    if ltb c 0x80
    then some []
    else if ltb c 0xC2
    then none
    else if ltb c 0xE0
    then some (continuation ∷ [])
    else if c == 0xE0
    then some ((0xA0, 0xBF) ∷ continuation ∷ [])
    else if c == 0xED
    then some ((0x80, 0x9F) ∷ continuation ∷ [])
    else if ltb c 0xF0
    then some (continuation ∷ continuation ∷ [])
    else if c == 0xF0
    then some ((0x90, 0xBF) ∷ continuation ∷ continuation ∷ [])
    else if ltb c 0xF4
    then some (continuation ∷ continuation ∷ continuation ∷ [])
    else if c == 0xF4
    then some ((0x80, 0x8F) ∷ continuation ∷ continuation ∷ [])
    else none

-- The text goes on with bytes in the ranges, and is UTF-8 from there.
utf8_behind : List (ℕ × ℕ) → Bytes → Bool
unfolding in_range following
utf8_behind [] [] = true
utf8_behind (r ∷ rs) [] = false
utf8_behind [] (c ∷ s) = elim (following c) [ none ↦ false | some rs ↦ utf8_behind rs s ]
utf8_behind (r ∷ rs) (c ∷ s) = in_range r c && utf8_behind rs s

-- CStr::to_str().ok()
unfoldable pub is_utf8 : Bytes → Bool
unfolding utf8_behind
is_utf8 s = utf8_behind [] s

unfoldable pub read_c_str : Option Bytes → Option Bytes
read_c_str none = none
read_c_str (some s) = if is_utf8 s then some s else none

-- ok_or(message)?
ok_or : Bytes → Option Bytes → Outcome Bytes
ok_or message none = failed message
ok_or message (some s) = done s

unfoldable pub argument : Bytes → Option Bytes → Outcome Bytes
unfolding ok_or
argument message pointer = ok_or message (read_c_str pointer)

-- A pointer to bytes, and their count.
unfoldable pub slice : Option Bytes → ℕ → Bytes
slice none n = []
slice (some s) n = if n == 0 then [] else take n s

-- .iter().enumerate().map(…).collect::<Result<Vec<_>, _>>(), from a number on
unfoldable pub collect : {A : Type 0} → (ℕ → Bytes → Outcome A) → ℕ → List Bytes → Outcome (List A)
collect read i [] = done []
collect read i (s ∷ ss) = do a ← read i s; rest ← collect read (i + 1) ss; done (a ∷ rest)

-- format!("{before}#{i}")
unfoldable pub numbered : Bytes → ℕ → Bytes
numbered before i = before ++ (codes "#" ++ format_uint i)

-- ASCII texts are UTF-8.
pub ascii-is_utf8 : (s : Bytes) → All (λ c. c < 0x80) s → is_utf8 s ≡ true
unfolding is_utf8
ascii-is_utf8 [] h = refl
ascii-is_utf8 (c ∷ s) (h, hs) = let ih = ascii-is_utf8 s hs in ground arith

-- A pointer to a text in UTF-8 is read.
pub argument-done : (message s : Bytes) → is_utf8 s ≡ true → argument message (some s) ≡ done s
unfolding argument read_c_str
argument-done message s h = rw h refl

pub argument-cases :
    (message s : Bytes)
    → ((is_utf8 s ≡ true) × (argument message (some s) ≡ done s))
      ⊎ ((is_utf8 s ≡ false) × (argument message (some s) ≡ failed message))
unfolding argument read_c_str ok_or
argument-cases message s = elim (Bool-cases (is_utf8 s)) [
  | inl e ↦ inl (e, rw e refl)
  | inr e ↦ inr (e, rw e refl)
]
