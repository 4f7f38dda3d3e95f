-- ===== src/Text/Quote.antt =====
-- The `%q` verb of `fmt` on a string.
use provable_sdk.Base.{
  ℕ, ◌-◌, ◌+◌, ◌/◌, ◌%◌, [], ◌∷◌, ◌++◌, Bytes, codes, ltb, ◌==◌, if◌then◌else◌, ◌||◌,
}

hex_digit : ℕ → ℕ
hex_digit n = if ltb n 10 then b'0' + n else b'a' + (n - 10)

quote_byte : ℕ → Bytes
unfolding hex_digit
quote_byte c =
    if c == 34
    then codes "\\\""
    else if c == b'\\'
    then codes "\\\\"
    else if c == 7
    then codes "\\a"
    else if c == 8
    then codes "\\b"
    else if c == 12
    then codes "\\f"
    else if c == 10
    then codes "\\n"
    else if c == 13
    then codes "\\r"
    else if c == 9
    then codes "\\t"
    else if c == 11
    then codes "\\v"
    else if ltb c 32 || c == 127
    then codes "\\x" ++ hex_digit (c / 16) ∷ hex_digit (c % 16) ∷ []
    else c ∷ []

quote_all : Bytes → Bytes
unfolding quote_byte
quote_all [] = []
quote_all (c ∷ s) = quote_byte c ++ quote_all s

unfoldable pub quote : Bytes → Bytes
unfolding quote_all
quote s = 34 ∷ (quote_all s ++ 34 ∷ [])
