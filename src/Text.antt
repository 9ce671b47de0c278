-- ===== src/Text.antt =====
-- The text helpers of internal/service/service.go, and what they use of Go's strings package. A Go
-- string is a `String` here, whose `len` counts the bytes of its UTF-8 form as Go's does; texts
-- are valid UTF-8, as decoded JSON is.
pub mod Clip
pub mod Unique
mod Samples
use Prim.Native.Char.{Char, code, len_utf8}
use Prim.Native.String.{len, char_at, ◌++◌ as ◌+s+◌}
use taskboard.Common.{
  Bool, List, Result, String, [], err, false, if◌then◌else◌, leb, ltb, nat_eq, not, ok, string_eq,
  true, validation, ℕ, ◌&&◌, ◌++◌, ◌-◌, ◌==◌, ◌||◌, ◌∷◌,
}

-- unicode.IsSpace
is_space : Char → Bool
is_space c =
    let n = code c in
    leb 9 n && leb n 13
    || n == 32
    || n == 0x85
    || n == 0xa0
    || n == 0x1680
    || leb 0x2000 n && leb n 0x200a
    || n == 0x2028
    || n == 0x2029
    || n == 0x202f
    || n == 0x205f
    || n == 0x3000

pub is_empty : String → Bool
is_empty s = s == ""

trim_left : String → String
trim_left String.[] = ""
trim_left (String.◌∷◌ c s) = if is_space c then trim_left s else String.◌∷◌ c s

trim_right : String → String
trim_right String.[] = ""
trim_right (String.◌∷◌ c s) =
    let rest = trim_right s in if is_space c && rest == "" then "" else String.◌∷◌ c rest

-- strings.TrimSpace
unfoldable pub trim_space : String → String
unfolding trim_left trim_right is_space
trim_space s = trim_right (trim_left s)

-- An ASCII capital letter to its small letter.
ascii_lower : Char → Char
ascii_lower c =
    let n = code c in
    if leb b'A' n && leb n b'Z' then char_at "abcdefghijklmnopqrstuvwxyz" (n - b'A') else c

-- unicode.ToLower on the letters whose lower case is an ASCII letter; the Kelvin sign and the
-- dotted capital I are the two outside ASCII. Results are only compared with ASCII words.
lower : Char → Char
unfolding ascii_lower
lower c =
    let n = code c in
    if n == 0x212a then char_at "k" 0 else if n == 0x130 then char_at "i" 0 else ascii_lower c

-- SQLite's lower() changes ASCII letters only.
unfoldable pub sql_lower : String → String
unfolding ascii_lower
sql_lower String.[] = ""
sql_lower (String.◌∷◌ c s) = String.◌∷◌ (ascii_lower c) (sql_lower s)

-- strings.ToLower
unfoldable pub to_lower : String → String
unfolding lower
to_lower String.[] = ""
to_lower (String.◌∷◌ c s) = String.◌∷◌ (lower c) (to_lower s)

unfoldable pub default_actor : String → String → String
default_actor value fallback =
    let value = trim_space value in if value == "" then fallback else value

abbrev pub default_section : String
default_section = "General"

unfoldable pub normalized_section : String → String
normalized_section value =
    let value = trim_space value in if value == "" then default_section else value

unfoldable pub normalized_recurrence : String → String
normalized_recurrence value = to_lower (trim_space value)

-- The characters whose UTF-8 forms end within `budget` bytes: the loop of `clipped` moves the cut
-- back to the start of a character, and slices there.
take_bytes : ℕ → String → String
take_bytes budget String.[] = ""
take_bytes budget (String.◌∷◌ c s) =
    if leb (len_utf8 c) budget then String.◌∷◌ c (take_bytes (budget - len_utf8 c) s) else ""

unfoldable pub clipped : String → ℕ → String
unfolding take_bytes
clipped value limit =
    let value = trim_space value in
    if leb (len value) limit then value else trim_space (take_bytes (limit - len "…") value) +s+ "…"

unfoldable pub contains : String → List String → Bool
contains s [] = false
contains s (x ∷ xs) = x == s || contains s xs

-- The loop of `unique`: `seen` holds the values taken so far, and they are the result so far.
unique_from : List String → List String → List String
unfolding contains
unique_from seen [] = []
unique_from seen (v ∷ vs) =
    let value = trim_space v in
    let fresh = value ∷ unique_from (value ∷ seen) vs in
    let known = unique_from seen vs in
    if not (value == "") && not (contains value seen) then fresh else known

unfoldable pub unique : List String → List String
unfolding unique_from
unique values = unique_from [] values

-- One character of an idempotency key.
safe_character : Char → Bool
safe_character c =
    let n = code c in
    leb b'a' n && leb n b'z'
    || leb b'A' n && leb n b'Z'
    || leb b'0' n && leb n b'9'
    || n == b'.'
    || n == b'_'
    || n == b':'
    || n == b'-'

all_safe : String → Bool
all_safe String.[] = true
all_safe (String.◌∷◌ c s) = safe_character c && all_safe s

unfoldable pub validate_idempotency_key : String → Result (Unit {0})
unfolding all_safe safe_character
validate_idempotency_key key =
    if key == ""
    then ok tt
    else if ltb (len key) 8 || ltb 128 (len key)
    then err validation
    else if all_safe key
    then ok tt
    else err validation

-- strings.HasPrefix
unfoldable pub has_prefix : String → String → Bool
has_prefix s String.[] = true
has_prefix String.[] (String.◌∷◌ d p) = false
has_prefix (String.◌∷◌ c s) (String.◌∷◌ d p) = code c == code d && has_prefix s p
