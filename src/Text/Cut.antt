-- ===== src/Text/Cut.antt =====
-- Trim, TrimRight, TrimSpace, Split and Fields.
use provable_sdk.Base.{ℕ, Bool, true, false, ◌||◌, List, [], ◌∷◌, ◌++◌, reverse, Bytes, codes, ◌==◌}

-- Is the byte in the cutset?
unfoldable pub in_set : Bytes → ℕ → Bool
in_set [] c = false
in_set (d ∷ set) c = c == d || in_set set c

unfoldable pub drop_while : (ℕ → Bool) → Bytes → Bytes
drop_while test [] = []
drop_while test (c ∷ s) = elim (test c) [ true ↦ drop_while test s | false ↦ c ∷ s ]

unfoldable pub trim_end : (ℕ → Bool) → Bytes → Bytes
unfolding drop_while
trim_end test s = reverse (drop_while test (reverse s))

-- strings.TrimRight(s, cutset)
unfoldable pub trim_right : Bytes → Bytes → Bytes
unfolding trim_end in_set
trim_right s cutset = trim_end (in_set cutset) s

-- strings.Trim(s, cutset)
unfoldable pub trim : Bytes → Bytes → Bytes
unfolding trim_end in_set
trim s cutset = trim_end (in_set cutset) (drop_while (in_set cutset) s)

-- unicode.IsSpace, of ASCII
unfoldable pub is_space : ℕ → Bool
unfolding in_set
is_space = in_set (codes "\t\n\r " ++ 11 ∷ 12 ∷ [])

-- strings.TrimSpace(s)
unfoldable pub trim_space : Bytes → Bytes
unfolding trim_end is_space
trim_space s = trim_end is_space (drop_while is_space s)

split_from : ℕ → Bytes → Bytes → List Bytes
split_from sep cur [] = cur ∷ []
split_from sep cur (c ∷ s) = elim (c == sep) [
  | true ↦ cur ∷ split_from sep [] s
  | false ↦ split_from sep (cur ++ c ∷ []) s
]

-- strings.Split(s, sep) and strings.SplitSeq(s, sep), for a separator of one byte
unfoldable pub split : Bytes → ℕ → List Bytes
unfolding split_from
split s sep = split_from sep [] s

-- the word read so far, if it is one
push_word : Bytes → List Bytes → List Bytes
push_word [] words = words
push_word (c ∷ s) words = (c ∷ s) ∷ words

fields_from : Bytes → Bytes → List Bytes
unfolding push_word
fields_from cur [] = push_word cur []
fields_from cur (c ∷ s) = elim (is_space c) [
  | true ↦ push_word cur (fields_from [] s)
  | false ↦ fields_from (cur ++ c ∷ []) s
]

-- strings.Fields(s)
unfoldable pub fields : Bytes → List Bytes
unfolding fields_from is_space
fields s = fields_from [] s
