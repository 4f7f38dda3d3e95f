-- ===== src/Network/Submit/Balance.antt =====
-- GetPublicBalance on the literals of the type u64.
use mathlib.Core.Path.{subst}
use provable_sdk.Base.{
  ℕ, ◌^◌, ◌<◌, ◌≡◌, ◌≢◌, refl, ap, ◌∙◌, Bool, true, false, append_assoc, [], ◌∷◌, ◌++◌, All, arith,
  Bytes, codes,
}
use provable_sdk.Text.{trim, trim_space, trim_suffix, drop_while, trim_end, in_set, is_space}
use provable_sdk.Text.Decimal.{
  format_uint, is_digit, parse_uint, parse_uint-format_uint, format_uint-All, format_uint_nonempty,
}
use provable_sdk.Text.Laws.{drop_while_keep, trim_end_keep, trim_suffix-append}
use provable_sdk.Exec.{ok}
use provable_sdk.Network.Submit.{balance_text, balance_of, parse_balance}

-- fmt.Sprintf("%du64", n): an amount as the network and the SDK write it
abbrev pub u64_literal : ℕ → Bytes
u64_literal n = format_uint n ++ codes "u64"

-- a test that leaves digits and the letters of the suffix alone
record LeavesAlone (test : ℕ → Bool) : Type 0 where
  digits : (c : ℕ) → is_digit c ≡ true → test c ≡ false
  last : test b'4' ≡ false

trim_literal :
    (test : ℕ → Bool) (s : Bytes)
    → LeavesAlone test
    → s ≢ []
    → All (λ c. is_digit c ≡ true) s
    → trim_end test (drop_while test (s ++ codes "u64")) ≡ s ++ codes "u64"
trim_literal test [] h ne all = absurd (ne refl)
trim_literal test (c ∷ s) h ne all =
    ap (trim_end test) (drop_while_keep test c (s ++ codes "u64") (h.digits c all.0))
    ∙ subst (λ x. trim_end test x ≡ x) (append_assoc (c ∷ s) (codes "u6") (codes "4"))
        (trim_end_keep test ((c ∷ s) ++ codes "u6") b'4' h.last)

spaces : LeavesAlone is_space
unfolding is_space is_digit
spaces = record { digits = λ c h. ground arith; last = refl }

quotes : LeavesAlone (in_set (codes "\""))
unfolding in_set is_digit
quotes = record { digits = λ c h. ground arith; last = refl }

balance_text-u64_literal : (n : ℕ) → balance_text (u64_literal n) ≡ format_uint n
unfolding balance_text trim trim_space
balance_text-u64_literal n =
    let all = format_uint-All n in
    let ne = format_uint_nonempty n in
    ap
      (λ x.
        trim_suffix (trim_end (in_set (codes "\"")) (drop_while (in_set (codes "\"")) x))
          (codes "u64"))
      (trim_literal is_space (format_uint n) spaces ne all)
    ∙ ap (λ x. trim_suffix x (codes "u64"))
        (trim_literal (in_set (codes "\"")) (format_uint n) quotes ne all)
    ∙ trim_suffix-append (format_uint n) (codes "u64")

-- Every balance below 2^64 that a node prints as a u64 literal is read back.
pub parse_balance-u64_literal : (n : ℕ) → n < 2 ^ 64 → parse_balance (u64_literal n) ≡ ok n
unfolding parse_balance
parse_balance-u64_literal n h =
    ap (λ x. balance_of x (parse_uint x)) (balance_text-u64_literal n)
    ∙ ap (balance_of (format_uint n)) (parse_uint-format_uint n h)
