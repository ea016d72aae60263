-- ===== src/Web/Base32/Letters.antt =====
-- The alphabet, and the string methods that the two conversions call: `indexOf`, `toLowerCase`,
-- `toUpperCase` and `trim`.
use open_console.Prelude.{
  ℕ, suc, ◌+◌, ◌-◌, Bool, ◌&&◌, ◌||◌, Option, none, some, [], ◌∷◌, ◌++◌, leb, ◌==◌, if◌then◌else◌,
  Text, codes, get_elem?,
}

abbrev pub alphabet : Text
alphabet = codes "ABCDEFGHIJKLMNOPQRSTUVWXYZ234567"

-- `alphabet[i]`, at an index that is in range.
unfoldable pub letter : ℕ → ℕ
letter i = elim (get_elem? alphabet i) [ some c ↦ c | none ↦ 0 ]

abbrev pub index_from : ℕ → Text → ℕ → Option ℕ
index_from i [] c = none
index_from i (a ∷ rest) c = if a == c then some i else index_from (suc i) rest c

-- `alphabet.indexOf(ch)`, with `none` for -1.
unfoldable pub index_of : ℕ → Option ℕ
index_of = index_from 0 alphabet

-- `toLowerCase` on the letters of the alphabet.
abbrev pub lower : ℕ → ℕ
lower c = if leb b'A' c && leb c b'Z' then c + 32 else c

unfoldable pub to_lower : Text → Text
to_lower [] = []
to_lower (c ∷ cs) = lower c ∷ to_lower cs

-- `toUpperCase` of one code point. Apart from a-z, the code points listed are those whose upper
-- case holds an ASCII letter. Any other one stays what it is here: its upper case has no letter of
-- the alphabet either, so decoding refuses both.
unfoldable pub upper : ℕ → Text
upper c =
    if leb b'a' c && leb c b'z'
    then (c - 32) ∷ []
    else if c == 0x131
    then codes "I"
    else if c == 0x17f
    then codes "S"
    else if c == 0xdf
    then codes "SS"
    else if c == 0x149
    then 0x2bc ∷ codes "N"
    else if c == 0x1f0
    then codes "J" ++ 0x30c ∷ []
    else if c == 0x1e96
    then codes "H" ++ 0x331 ∷ []
    else if c == 0x1e97
    then codes "T" ++ 0x308 ∷ []
    else if c == 0x1e98
    then codes "W" ++ 0x30a ∷ []
    else if c == 0x1e99
    then codes "Y" ++ 0x30a ∷ []
    else if c == 0x1e9a
    then codes "A" ++ 0x2be ∷ []
    else if c == 0xfb00
    then codes "FF"
    else if c == 0xfb01
    then codes "FI"
    else if c == 0xfb02
    then codes "FL"
    else if c == 0xfb03
    then codes "FFI"
    else if c == 0xfb04
    then codes "FFL"
    else if c == 0xfb05 || c == 0xfb06
    then codes "ST"
    else c ∷ []

unfoldable pub to_upper : Text → Text
unfolding upper
to_upper [] = []
to_upper (c ∷ cs) = upper c ++ to_upper cs

-- White space and line terminators, as `trim` removes them.
unfoldable pub is_space : ℕ → Bool
is_space c =
    (leb 9 c && leb c 13)
    || c == 32
    || c == 0xa0
    || c == 0x1680
    || (leb 0x2000 c && leb c 0x200a)
    || c == 0x2028
    || c == 0x2029
    || c == 0x202f
    || c == 0x205f
    || c == 0x3000
    || c == 0xfeff

unfoldable pub trim_start : Text → Text
unfolding is_space
trim_start [] = []
trim_start (c ∷ cs) = if is_space c then trim_start cs else c ∷ cs

-- Drops the white space at the end: the tail first, then this character if nothing is left.
abbrev pub keep_end : ℕ → Text → Text
keep_end c [] = if is_space c then [] else c ∷ []
keep_end c (d ∷ ds) = c ∷ d ∷ ds

unfoldable pub trim_end : Text → Text
unfolding is_space
trim_end [] = []
trim_end (c ∷ cs) = keep_end c (trim_end cs)

unfoldable pub trim : Text → Text
unfolding trim_start trim_end
trim s = trim_end (trim_start s)
