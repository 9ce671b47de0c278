-- ===== src/Callsigns.antt =====
-- Friendly names of agent sessions: internal/agentidentity/identity.go.
use Prim.Native.Nat.{bit_xor}
use Prim.Native.Char.{Char, code, len_utf8}
use Prim.Native.String.{◌++◌ as ◌+s+◌}
use taskboard.Common.{
  List, String, [], ap, arith, if◌then◌else◌, length, length-append, nat_eq, refl, string_eq, suc,
  zero, ℕ, ◌%◌, ◌*◌, ◌++◌, ◌+◌, ◌/◌, ◌==◌, ◌^◌, ◌∷◌, ◌≡◌,
}

abbrev words : List String
words =
    "Amber" ∷ "Aspen" ∷ "Atlas" ∷ "Birch" ∷ "Bramble" ∷ "Brook" ∷ "Cedar" ∷ "Cinder" ∷ "Clover"
    ∷ "Comet" ∷ "Coral" ∷ "Cove" ∷ "Dawn" ∷ "Delta" ∷ "Dune" ∷ "Echo" ∷ "Elm" ∷ "Ember" ∷ "Fern"
    ∷ "Finch" ∷ "Flint" ∷ "Frost" ∷ "Grove" ∷ "Harbor" ∷ "Hazel" ∷ "Iris" ∷ "Jade" ∷ "Juniper"
    ∷ "Lark" ∷ "Laurel" ∷ "Maple" ∷ "Meadow" ∷ "Mica" ∷ "Moss" ∷ "Nova" ∷ "Oak" ∷ "Ocean" ∷ "Olive"
    ∷ "Onyx" ∷ "Orbit" ∷ "Pebble" ∷ "Pine" ∷ "Plum" ∷ "Quartz" ∷ "Rain" ∷ "Reed" ∷ "River" ∷ "Robin"
    ∷ "Rowan" ∷ "Sage" ∷ "Sky" ∷ "Slate" ∷ "Sol" ∷ "Sparrow" ∷ "Spruce" ∷ "Star" ∷ "Stone" ∷ "Tide"
    ∷ "Vale" ∷ "Violet" ∷ "Willow" ∷ "Wren" ∷ "Yarrow" ∷ "Zephyr" ∷ []

-- `words[i]` at an index below 64, which every index of the source is.
word_at : List String → ℕ → String
word_at [] i = ""
word_at (w ∷ ws) zero = w
word_at (w ∷ ws) (suc i) = word_at ws i

-- The UTF-8 bytes of a character.
utf8 : Char → List ℕ
utf8 c =
    let n = code c in
    let width = len_utf8 c in
    if width == 1
    then n ∷ []
    else if width == 2
    then (0xc0 + n / 64) ∷ (0x80 + n % 64) ∷ []
    else if width == 3
    then (0xe0 + n / 4096) ∷ (0x80 + n / 64 % 64) ∷ (0x80 + n % 64) ∷ []
    else (0xf0 + n / 262144) ∷ (0x80 + n / 4096 % 64) ∷ (0x80 + n / 64 % 64) ∷ (0x80 + n % 64) ∷ []

fnv_bytes : ℕ → List ℕ → ℕ
fnv_bytes h [] = h
fnv_bytes h (x ∷ xs) = fnv_bytes (bit_xor h x * 1099511628211 % 2 ^ 64) xs

fnv_from : ℕ → String → ℕ
unfolding fnv_bytes utf8
fnv_from h String.[] = h
fnv_from h (String.◌∷◌ c s) = fnv_from (fnv_bytes h (utf8 c)) s

-- hash: the 64-bit FNV-1a hash of hash/fnv
hash : String → ℕ
unfolding fnv_from
hash value = fnv_from 14695981039346656037 value

-- for offset := from; offset < from + n; offset++ { append(f(offset)) }
each : ℕ → ℕ → (ℕ → String) → List String
each zero from f = []
each (suc n) from f = f from ∷ each n (suc from) f

-- The two-word names that begin with the word at `left`.
pairs_of : ℕ → List String
unfolding each word_at
pairs_of left =
    each 63 1
      (λ offset. (word_at words (left % 64) +s+ " ") +s+ word_at words ((left + offset) % 64))

pairs_from : ℕ → ℕ → List String
unfolding pairs_of
pairs_from zero left = []
pairs_from (suc n) left = pairs_of left ++ pairs_from n (suc left)

-- Candidates
unfoldable pub candidates : String → List String
unfolding hash each word_at pairs_from
candidates seed =
    let start = hash seed % 64 in each 64 start (λ i. word_at words (i % 64)) ++ pairs_from 64 start

length-each : (n from : ℕ) (f : ℕ → String) → length (each n from f) ≡ n
unfolding each
length-each zero from f = refl
length-each (suc n) from f = ap suc (length-each n (suc from) f)

length-pairs_of : (left : ℕ) → length (pairs_of left) ≡ 63
unfolding pairs_of
length-pairs_of left =
    length-each 63 1
      (λ offset. (word_at words (left % 64) +s+ " ") +s+ word_at words ((left + offset) % 64))

length-pairs_from : (n left : ℕ) → length (pairs_from n left) ≡ n * 63
unfolding pairs_from
length-pairs_from zero left = omega arith
length-pairs_from (suc n) left = omega (
  arith,
  length-append (pairs_of left) (pairs_from n (suc left)),
  length-pairs_from n (suc left),
  length-pairs_of left,
)

-- Every seed offers 4096 candidate names: the 64 words, and 64 times 63 pairs.
length-candidates : (seed : String) → length (candidates seed) ≡ 4096
unfolding candidates
length-candidates seed =
    let start = hash seed % 64 in
    let singles = each 64 start (λ i. word_at words (i % 64)) in
    omega (
      arith,
      length-append singles (pairs_from 64 start),
      length-pairs_from 64 start,
      length-each 64 start (λ i. word_at words (i % 64)),
    )
