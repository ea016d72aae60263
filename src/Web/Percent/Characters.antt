-- ===== src/Web/Percent/Characters.antt =====
-- The tokens of one escaped character, and the character that is read from its bytes.
use open_console.Prelude.{
  ◌%◌, ◌*◌, ◌+◌, ◌++◌, ◌/◌, ◌<◌, All, Bool-cases, Bytes, List, Option, Text, [], ap, append_assoc,
  arith, false, inl, inr, leb, ltb, ltb→lt, map, none, refl, some, suc, sym, true, ℕ, ◌∙◌, ◌∷◌, ◌≡◌,
}
use open_console.Web.Utf8.{utf8_char, is_scalar}
use open_console.Web.Percent.{
  tokens, Token, between, byte, characters, escaped, hex_digit, hex_value, outside, percent_step,
  prepend, utf8_step, Partial, Percent, after_digit, after_percent,
}

hex_value-hex_digit : (d : ℕ) → d < 16 → hex_value (hex_digit d) ≡ some d
unfolding hex_value
hex_value-hex_digit d h = ground arith

prepend-prepend {ℓ} :
    {A : Type ℓ} (xs ys : List A) (o : Option (List A))
    → prepend xs (prepend ys o) ≡ prepend (xs ++ ys) o
prepend-prepend xs ys none = refl
prepend-prepend xs ys (some zs) = ap some (sym (append_assoc xs ys zs))

prepend-nil {ℓ} : {A : Type ℓ} (o : Option (List A)) → prepend [] o ≡ o
prepend-nil none = refl
prepend-nil (some zs) = refl

-- One step of each machine, once its result is known.
pub tokens-cons :
    (p q : Percent) (c : ℕ) (ts : List Token) (cs : Text)
    → percent_step p c ≡ some (q, ts)
    → tokens p (c ∷ cs) ≡ prepend ts (tokens q cs)
unfolding tokens
tokens-cons outside q c ts cs h = rw (h, tokens)
tokens-cons _ q c ts cs h = rw (h, tokens)

pub characters-cons :
    (s q : Partial) (t : Token) (cs : Text) (ts : List Token)
    → utf8_step s t ≡ some (q, cs)
    → characters s (t ∷ ts) ≡ prepend cs (characters q ts)
unfolding characters
characters-cons s q t cs ts h = rw (h, characters)

digit_high : (d : ℕ) → d < 16 → percent_step after_percent (hex_digit d) ≡ some (after_digit d, [])
unfolding percent_step
digit_high d h = rw (hex_value-hex_digit d h)

digit_low :
    (b : ℕ)
    → b < 256
    → percent_step (after_digit (b / 16)) (hex_digit (b % 16)) ≡ some (outside, byte b ∷ [])
unfolding percent_step
digit_low b h =
    rw (hex_value-hex_digit (b % 16) (omega arith))
      (ap (λ n. some (outside, byte n ∷ [])) (omega arith))

tokens-escaped_byte :
    (b : ℕ) (rest : Text)
    → b < 256
    → tokens outside (b'%' ∷ hex_digit (b / 16) ∷ hex_digit (b % 16) ∷ rest)
      ≡ prepend (byte b ∷ []) (tokens outside rest)
tokens-escaped_byte b rest h =
    tokens-cons outside after_percent b'%' [] _ (unfold percent_step in refl)
    ∙ prepend-nil _
    ∙ tokens-cons after_percent (after_digit (b / 16)) _ [] _ (digit_high (b / 16) (omega arith))
    ∙ prepend-nil _
    ∙ tokens-cons (after_digit (b / 16)) outside _ (byte b ∷ []) rest (digit_low b h)

pub tokens-escaped :
    (bs : Bytes) (rest : Text)
    → All (λ b. b < 256) bs
    → tokens outside (escaped bs ++ rest) ≡ prepend (map byte bs) (tokens outside rest)
tokens-escaped [] rest h = sym (prepend-nil _)
tokens-escaped (b ∷ bs) rest h =
    tokens-escaped_byte b (escaped bs ++ rest) h.0
    ∙ ap (prepend (byte b ∷ [])) (tokens-escaped bs rest h.1)
    ∙ prepend-prepend (byte b ∷ []) (map byte bs) _

pub utf8_char-lt : (c : ℕ) → is_scalar c ≡ true → All (λ b. b < 256) (utf8_char c)
unfolding utf8_char
utf8_char-lt c h = ground arith

abbrev partial : ℕ → ℕ → ℕ → Partial
partial n a l = record { need = n; acc = a; low = l }

one_byte : (c : ℕ) → ltb c 0x80 ≡ true → utf8_step between (byte c) ≡ some (between, c ∷ [])
unfolding utf8_step
one_byte c h = rw h

lead2 : (x : ℕ) → x < 32 → utf8_step between (byte (0xc0 + x)) ≡ some (partial 1 x 0x80, [])
unfolding utf8_step
lead2 x h = ground arith

lead3 : (x : ℕ) → x < 16 → utf8_step between (byte (0xe0 + x)) ≡ some (partial 2 x 0x800, [])
unfolding utf8_step
lead3 x h = ground arith

lead4 : (x : ℕ) → x < 8 → utf8_step between (byte (0xf0 + x)) ≡ some (partial 3 x 0x10000, [])
unfolding utf8_step
lead4 x h = ground arith

more :
    (n a l x y : ℕ)
    → x < 64
    → a * 64 + x ≡ y
    → utf8_step (partial (suc (suc n)) a l) (byte (0x80 + x)) ≡ some (partial (suc n) y l, [])
unfolding utf8_step
more n a l x y h e = ground arith

last :
    (a l x c : ℕ)
    → x < 64
    → a * 64 + x ≡ c
    → leb l c ≡ true
    → is_scalar c ≡ true
    → utf8_step (partial 1 a l) (byte (0x80 + x)) ≡ some (between, c ∷ [])
unfolding utf8_step
last a l x c h e k s = ground arith

-- A byte of a longer sequence gives no character yet.
quiet_byte :
    (s q : Partial) (t : Token) (ts : List Token)
    → utf8_step s t ≡ some (q, [])
    → characters s (t ∷ ts) ≡ characters q ts
quiet_byte s q t ts h = characters-cons s q t [] ts h ∙ prepend-nil _

module _ (c : ℕ) (ts : List Token) (s : is_scalar c ≡ true) where
  characters2 :
      c < 0x800
      → leb 0x80 c ≡ true
      → characters between (byte (0xc0 + c / 64) ∷ byte (0x80 + c % 64) ∷ ts)
        ≡ prepend (c ∷ []) (characters between ts)
  characters2 h k =
      quiet_byte _ _ _ _ (lead2 (c / 64) (omega arith))
      ∙ characters-cons _ _ _ (c ∷ []) ts (last _ _ _ c (omega arith) (omega arith) k s)

  characters3 :
      c < 0x10000
      → leb 0x800 c ≡ true
      → characters between
          (byte (0xe0 + c / 4096) ∷ byte (0x80 + c / 64 % 64) ∷ byte (0x80 + c % 64) ∷ ts)
        ≡ prepend (c ∷ []) (characters between ts)
  characters3 h k =
      quiet_byte _ _ _ _ (lead3 (c / 4096) (omega arith))
      ∙ quiet_byte _ _ _ _ (more 0 _ _ _ (c / 64) (omega arith) (omega arith))
      ∙ characters-cons _ _ _ (c ∷ []) ts (last _ _ _ c (omega arith) (omega arith) k s)

  characters4 :
      c < 0x110000
      → leb 0x10000 c ≡ true
      → characters between (
          byte (0xf0 + c / 262144)
          ∷ byte (0x80 + c / 4096 % 64)
          ∷ byte (0x80 + c / 64 % 64)
          ∷ byte (0x80 + c % 64)
          ∷ ts)
        ≡ prepend (c ∷ []) (characters between ts)
  characters4 h k =
      quiet_byte _ _ _ _ (lead4 (c / 262144) (omega arith))
      ∙ quiet_byte _ _ _ _ (more 1 _ _ _ (c / 4096) (omega arith) (omega arith))
      ∙ quiet_byte _ _ _ _ (more 0 _ _ _ (c / 64) (omega arith) (omega arith))
      ∙ characters-cons _ _ _ (c ∷ []) ts (last _ _ _ c (omega arith) (omega arith) k s)

scalar_lt : (c : ℕ) → is_scalar c ≡ true → c < 0x110000
scalar_lt c h = ground arith

at_least : (c n : ℕ) → ltb c n ≡ false → leb n c ≡ true
at_least c n h = ground arith

pub characters-utf8_char :
    (c : ℕ) (ts : List Token)
    → is_scalar c ≡ true
    → characters between (map byte (utf8_char c) ++ ts) ≡ prepend (c ∷ []) (characters between ts)
unfolding utf8_char
characters-utf8_char c ts s = elim (Bool-cases (ltb c 0x80)) [
  | inl one ↦ rw one (characters-cons _ _ _ (c ∷ []) ts (one_byte c one))
  | inr long ↦ rw long (elim (Bool-cases (ltb c 0x800)) [
    | inl two ↦ rw two (characters2 c ts s (ltb→lt _ _ two) (at_least c _ long))
    | inr longer ↦ rw longer (elim (Bool-cases (ltb c 0x10000)) [
      | inl three ↦ rw three (characters3 c ts s (ltb→lt _ _ three) (at_least c _ longer))
      | inr four ↦ rw four (characters4 c ts s (scalar_lt c s) (at_least c _ four))
    ])
  ])
]
