-- ===== src/Text/Decimal.antt =====
-- The `%d` verb of `fmt`, `strconv.ParseUint(s, 10, 64)` and `strconv.Atoi`.
use mathlib.Core.Path.{subst, sym}
use mathlib.Core.List.{cons-ne-nil}
use provable_sdk.Fault.{Fault, foreign}
use provable_sdk.Text.{quote, is_empty}
use provable_sdk.Base.{
  ℤ, pos, negsuc, ◌≢◌, ℕ, zero, suc, ◌+◌, ◌-◌, ◌*◌, ◌/◌, ◌%◌, ◌^◌, ◌<◌, ◌≡◌, refl, Bool, true,
  false, ◌&&◌, Option, All, inl, inr, Bool-cases, none, some, [], ◌∷◌, ◌++◌, arith, Bytes, codes,
  ltb, leb, ◌==◌, if◌then◌else◌,
}

-- The digits of `n` in front of `out`; a number has fewer digits than the fuel `suc n`.
emit : ℕ → ℕ → Bytes → Bytes
emit zero n out = out
emit (suc fuel) n out = elim (ltb n 10) [
  | true ↦ (b'0' + n) ∷ out
  | false ↦ emit fuel (n / 10) ((b'0' + n % 10) ∷ out)
]

-- fmt.Sprintf("%d", n)
unfoldable pub format_uint : ℕ → Bytes
unfolding emit
format_uint n = emit (suc n) n []

-- fmt.Sprintf("%d", i), for a signed number
unfoldable pub format_int : ℤ → Bytes
format_int (pos n) = format_uint n
format_int (negsuc n) = b'-' ∷ format_uint (suc n)

unfoldable pub is_digit : ℕ → Bool
is_digit c = leb b'0' c && leb c b'9'

-- The number that digits spell behind `n`; `none` at any other byte.
read_digits : Bytes → ℕ → Option ℕ
unfolding is_digit
read_digits [] n = some n
read_digits (c ∷ s) n = if is_digit c then read_digits s (n * 10 + (c - b'0')) else none

bounded : ℕ → Option ℕ → Option ℕ
bounded limit none = none
bounded limit (some n) = if ltb n limit then some n else none

-- strconv.ParseUint(s, 10, 64): `none` stands for an error
unfoldable pub parse_uint : Bytes → Option ℕ
unfolding read_digits bounded
parse_uint [] = none
parse_uint (c ∷ s) = bounded (2 ^ 64) (read_digits (c ∷ s) 0)

-- Why ParseUint refuses a text: a byte that is no digit, or, if that comes first, the size.
uint_reason : Bytes → ℕ → Bytes
unfolding is_digit
uint_reason [] n = codes "value out of range"
uint_reason (c ∷ s) n =
    if is_digit c
    then (if ltb (n * 10 + (c - b'0')) (2 ^ 64)
        then uint_reason s (n * 10 + (c - b'0'))
        else codes "value out of range")
    else codes "invalid syntax"

-- the error of strconv.ParseUint(s, 10, 64)
unfoldable pub parse_uint_fault : Bytes → Fault
unfolding uint_reason
parse_uint_fault s = foreign (
    codes "strconv.ParseUint: parsing "
    ++ quote s
    ++ codes ": "
    ++ (if is_empty s then codes "invalid syntax" else uint_reason s 0))

-- strconv.Atoi(s) where its result is positive: `none` stands for an error, zero, or a negative number
unfoldable pub atoi_positive : Bytes → Option ℕ
unfolding read_digits bounded
atoi_positive [] = none
atoi_positive (c ∷ s) =
    let digits = if c == b'+' then s else c ∷ s in
    elim digits [
      | [] ↦ none
      | d ∷ r ↦ elim (bounded (2 ^ 63) (read_digits (d ∷ r) 0)) [
        | none ↦ none
        | some n ↦ if n == 0 then none else some n
      ]
    ]

-- Reading what `emit` wrote is reading the rest from `n`.
read-emit :
    (fuel n : ℕ) (out : Bytes) → n < fuel → read_digits (emit fuel n out) 0 ≡ read_digits out n
unfolding read_digits emit
read-emit zero n out h = absurd (omega arith)
read-emit (suc fuel) n out h = ground (arith, read-emit fuel (n / 10) ((b'0' + n % 10) ∷ out))

emit-ne-nil : (fuel n : ℕ) (out : Bytes) → out ≢ [] → emit fuel n out ≢ []
unfolding emit
emit-ne-nil zero n out h = h
emit-ne-nil (suc fuel) n out h =
    ground (arith, emit-ne-nil fuel (n / 10) ((b'0' + n % 10) ∷ out) (cons-ne-nil _ out))

format_uint-ne-nil : (n : ℕ) → format_uint n ≢ []
unfolding format_uint emit
format_uint-ne-nil n =
    ground (arith, emit-ne-nil n (n / 10) ((b'0' + n % 10) ∷ []) (cons-ne-nil _ []))

parse_uint_nonempty : (s : Bytes) → s ≢ [] → parse_uint s ≡ bounded (2 ^ 64) (read_digits s 0)
unfolding parse_uint
parse_uint_nonempty [] h = absurd (h refl)
parse_uint_nonempty (c ∷ s) h = refl

read-format_uint : (n : ℕ) → read_digits (format_uint n) 0 ≡ some n
unfolding format_uint read_digits
read-format_uint n = read-emit (suc n) n [] (omega arith)

-- Every uint64 is read back from its decimal print.
pub parse_uint-format_uint : (n : ℕ) → n < 2 ^ 64 → parse_uint (format_uint n) ≡ some n
unfolding bounded
parse_uint-format_uint n h =
    rw (parse_uint_nonempty _ (format_uint-ne-nil n), read-format_uint n) (ground arith)

emit_last : (fuel n : ℕ) (out : Bytes) → ltb n 10 ≡ true → emit (suc fuel) n out ≡ (b'0' + n) ∷ out
unfolding emit
emit_last fuel n out e = rw (e, emit)

emit_more :
    (fuel n : ℕ) (out : Bytes)
    → ltb n 10 ≡ false
    → emit (suc fuel) n out ≡ emit fuel (n / 10) ((b'0' + n % 10) ∷ out)
unfolding emit
emit_more fuel n out e = rw (e, emit)

emit-All :
    (fuel n : ℕ) (out : Bytes)
    → All (λ c. is_digit c ≡ true) out
    → All (λ c. is_digit c ≡ true) (emit fuel n out)
unfolding emit is_digit
emit-All zero n out h = h
emit-All (suc fuel) n out h = elim (Bool-cases (ltb n 10)) [
  | inl e ↦ subst (All (λ c. is_digit c ≡ true)) (sym (emit_last fuel n out e)) (ground arith, h)
  | inr e ↦
      subst (All (λ c. is_digit c ≡ true)) (sym (emit_more fuel n out e))
        (emit-All fuel (n / 10) ((b'0' + n % 10) ∷ out) (ground arith, h))
]

-- A decimal print is digits throughout.
pub format_uint-All : (n : ℕ) → All (λ c. is_digit c ≡ true) (format_uint n)
unfolding format_uint
format_uint-All n = emit-All (suc n) n [] tt

pub format_uint_nonempty : (n : ℕ) → format_uint n ≢ []
format_uint_nonempty = format_uint-ne-nil
