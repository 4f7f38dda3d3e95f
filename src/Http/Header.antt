-- ===== src/Http/Header.antt =====
-- http.Header: keys in canonical form, one value each.
use provable_sdk.Base.{
  ℕ, ◌-◌, ◌+◌, Bool, true, not, ◌&&◌, ◌||◌, List, [], ◌∷◌, Bytes, codes, leb, ◌==◌, if◌then◌else◌,
}
use provable_sdk.Text.{bytes_eq, in_set}
use provable_sdk.Text.Decimal.{is_digit}

abbrev pub Headers : Type 0
Headers = List (Bytes × Bytes)

is_lower : ℕ → Bool
is_lower c = leb b'a' c && leb c b'z'

is_upper : ℕ → Bool
is_upper c = leb b'A' c && leb c b'Z'

-- a byte that may stand in a header's name
is_token : ℕ → Bool
unfolding is_lower is_upper is_digit in_set
is_token c = is_lower c || is_upper c || is_digit c || in_set (codes "!#$%&'*+-.^_`|~") c

all_token : Bytes → Bool
all_token [] = true
all_token (c ∷ s) = is_token c && all_token s

-- the flag says that the next letter is an upper-case one
canonical_from : Bool → Bytes → Bytes
unfolding is_lower is_upper
canonical_from up [] = []
canonical_from up (c ∷ s) =
    (if up && is_lower c then c - 32 else if not up && is_upper c then c + 32 else c)
    ∷ canonical_from (c == b'-') s

-- textproto.CanonicalMIMEHeaderKey
unfoldable pub canonical : Bytes → Bytes
unfolding all_token canonical_from is_token
canonical key = if all_token key then canonical_from true key else key

without : Bytes → Headers → Headers
without key [] = []
without key ((k, v) ∷ h) =
    let rest = without key h in if bytes_eq k key then rest else (k, v) ∷ rest

-- req.Header.Set(key, value)
unfoldable pub set_header : Bytes → Bytes → Headers → Headers
unfolding without canonical bytes_eq
set_header key value h = (canonical key, value) ∷ without (canonical key) h

find_header : Bytes → Headers → Bytes
find_header key [] = []
find_header key ((k, v) ∷ h) = if bytes_eq k key then v else find_header key h

-- resp.Header.Get(key): the empty text where the key is missing
unfoldable pub get_header : Bytes → Headers → Bytes
unfolding find_header canonical bytes_eq
get_header key h = find_header (canonical key) h
