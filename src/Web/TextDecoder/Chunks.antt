-- ===== src/Web/TextDecoder/Chunks.antt =====
-- How a text of UTF-8 is cut into chunks does not matter to the decoder of web/src/main.ts.
use open_console.Prelude.{
  ◌%◌, ◌*◌, ◌+◌, ◌++◌, ◌/◌, ◌<◌, ◌==◌, All, Bool, Bool-cases, Bytes, List, Text, [], ap,
  append_assoc, arith, false, if◌then◌else◌, if-cases, inl, inr, ltb, refl, suc, sym, true, ℕ, ◌∙◌,
  ◌∷◌, ◌≡◌, ◌≤◌,
}
use open_console.Web.Utf8.{utf8_char, text_encode, is_scalar}
use open_console.Web.TextDecoder.{
  Utf8, Decoder, idle, lead, follow, utf8_byte, utf8_bytes, new_decoder, after_mark, decode,
  decode_all,
}

utf8_bytes-append :
    (s : Utf8) (xs ys : Bytes)
    → utf8_bytes s (xs ++ ys) ≡ (
      (utf8_bytes (utf8_bytes s xs).0 ys).0,
      (utf8_bytes s xs).1 ++ (utf8_bytes (utf8_bytes s xs).0 ys).1,
    )
unfolding utf8_bytes
utf8_bytes-append s [] ys = refl
utf8_bytes-append s (x ∷ xs) ys = rw (utf8_bytes-append (utf8_byte s x).0 xs ys, append_assoc) refl

abbrev sequence : ℕ → ℕ → ℕ → ℕ → Utf8
sequence n lo hi p = record { left = n; lower = lo; upper = hi; point = p }

one : (c : ℕ) → ltb c 0x80 ≡ true → utf8_byte idle c ≡ (idle, c ∷ [])
unfolding utf8_byte lead
one c h = rw h refl

lead2 : (x : ℕ) → 2 ≤ x → x < 32 → utf8_byte idle (0xc0 + x) ≡ (sequence 1 0x80 0xbf x, [])
unfolding utf8_byte lead
lead2 x h k = ground arith

abbrev low3 : ℕ → ℕ
low3 x = if x == 0 then 0xa0 else 0x80

abbrev high3 : ℕ → ℕ
high3 x = if x == 13 then 0x9f else 0xbf

lead3 : (x : ℕ) → x < 16 → utf8_byte idle (0xe0 + x) ≡ (sequence 2 (low3 x) (high3 x) x, [])
unfolding utf8_byte lead
lead3 x h = ground arith

abbrev low4 : ℕ → ℕ
low4 x = if x == 0 then 0x90 else 0x80

abbrev high4 : ℕ → ℕ
high4 x = if x == 4 then 0x8f else 0xbf

lead4 : (x : ℕ) → x < 5 → utf8_byte idle (0xf0 + x) ≡ (sequence 3 (low4 x) (high4 x) x, [])
unfolding utf8_byte lead
lead4 x h = ground arith

more :
    (n lo hi p x : ℕ)
    → x < 64
    → lo ≤ 0x80 + x
    → 0x80 + x ≤ hi
    → utf8_byte (sequence (suc (suc n)) lo hi p) (0x80 + x)
      ≡ (sequence (suc n) 0x80 0xbf (p * 64 + x), [])
unfolding utf8_byte follow
more n lo hi p x h k l = ground arith

last :
    (lo hi p x c : ℕ)
    → x < 64
    → lo ≤ 0x80 + x
    → 0x80 + x ≤ hi
    → p * 64 + x ≡ c
    → utf8_byte (sequence 1 lo hi p) (0x80 + x) ≡ (idle, c ∷ [])
unfolding utf8_byte follow
last lo hi p x c h k l e = ground arith

-- One byte, once its result is known.
step_cons :
    (s q : Utf8) (b : ℕ) (cs : Text) (bs : Bytes)
    → utf8_byte s b ≡ (q, cs)
    → utf8_bytes s (b ∷ bs) ≡ ((utf8_bytes q bs).0, cs ++ (utf8_bytes q bs).1)
unfolding utf8_bytes
step_cons s q b cs bs e = rw e refl

quiet :
    (s q : Utf8) (b : ℕ) (bs : Bytes)
    → utf8_byte s b ≡ (q, [])
    → utf8_bytes s (b ∷ bs) ≡ utf8_bytes q bs
quiet s q b bs e = step_cons s q b [] bs e

done :
    (s : Utf8) (b c : ℕ) → utf8_byte s b ≡ (idle, c ∷ []) → utf8_bytes s (b ∷ []) ≡ (idle, c ∷ [])
unfolding utf8_bytes
done s b c e = rw e refl

utf8_char-decoded : (c : ℕ) → is_scalar c ≡ true → utf8_bytes idle (utf8_char c) ≡ (idle, c ∷ [])
unfolding utf8_char
utf8_char-decoded c h =
    if-cases (λ l. utf8_bytes idle l ≡ (idle, c ∷ [])) (ltb c 0x80) _ _
      (λ small. done idle c c (one c small))
      (λ n1.
        if-cases (λ l. utf8_bytes idle l ≡ (idle, c ∷ [])) (ltb c 0x800) _ _
          (λ two. two_bytes n1 two)
          (λ n2.
            if-cases (λ l. utf8_bytes idle l ≡ (idle, c ∷ [])) (ltb c 0x10000) _ _
              (λ three. three_bytes n2 three) (λ n3. four_bytes n3)))
  where
    two_bytes :
        ltb c 0x80 ≡ false
        → ltb c 0x800 ≡ true
        → utf8_bytes idle ((0xc0 + c / 64) ∷ (0x80 + c % 64) ∷ []) ≡ (idle, c ∷ [])
    two_bytes n1 two =
        quiet idle _ _ _ (lead2 (c / 64) (ground arith) (ground arith))
        ∙ done _ _ c (
            last 0x80 0xbf (c / 64) (c % 64) c (omega arith) (omega arith) (omega arith)
              (omega arith))

    three_bytes :
        ltb c 0x800 ≡ false
        → ltb c 0x10000 ≡ true
        → utf8_bytes idle ((0xe0 + c / 4096) ∷ (0x80 + c / 64 % 64) ∷ (0x80 + c % 64) ∷ [])
          ≡ (idle, c ∷ [])
    three_bytes n2 three =
        quiet idle _ _ _ (lead3 (c / 4096) (ground arith))
        ∙ quiet _ _ _ _ (
            more 0 (low3 (c / 4096)) (high3 (c / 4096)) (c / 4096) (c / 64 % 64) (omega arith)
              (ground arith) (ground arith))
        ∙ done _ _ c (
            last 0x80 0xbf (c / 4096 * 64 + c / 64 % 64) (c % 64) c (omega arith) (omega arith)
              (omega arith) (omega arith))

    four_bytes :
        ltb c 0x10000 ≡ false
        → utf8_bytes idle (
            (0xf0 + c / 262144)
            ∷ (0x80 + c / 4096 % 64)
            ∷ (0x80 + c / 64 % 64)
            ∷ (0x80 + c % 64)
            ∷ [])
          ≡ (idle, c ∷ [])
    four_bytes n3 =
        quiet idle _ _ _ (lead4 (c / 262144) (ground arith))
        ∙ quiet _ _ _ _ (
            more 1 (low4 (c / 262144)) (high4 (c / 262144)) (c / 262144) (c / 4096 % 64)
              (omega arith) (ground arith) (ground arith))
        ∙ quiet _ _ _ _ (
            more 0 0x80 0xbf (c / 262144 * 64 + c / 4096 % 64) (c / 64 % 64) (omega arith)
              (omega arith) (omega arith))
        ∙ done _ _ c (
            last 0x80 0xbf ((c / 262144 * 64 + c / 4096 % 64) * 64 + c / 64 % 64) (c % 64) c
              (omega arith) (omega arith) (omega arith) (omega arith))

-- The bytes of a text are read as the text.
pub text_encode-decoded :
    (s : Text) → All (λ c. is_scalar c ≡ true) s → utf8_bytes idle (text_encode s) ≡ (idle, s)
unfolding text_encode
text_encode-decoded [] h = unfold utf8_bytes in refl
text_encode-decoded (c ∷ cs) h =
    rw (h.0, utf8_bytes-append, utf8_char-decoded c h.0, text_encode-decoded cs h.1) refl

after_mark-append :
    (b : Bool) (xs ys : Text)
    → after_mark b (xs ++ ys) ≡ (
      (after_mark (after_mark b xs).0 ys).0,
      (after_mark b xs).1 ++ (after_mark (after_mark b xs).0 ys).1,
    )
after_mark-append true xs ys = refl
after_mark-append false [] ys = refl
after_mark-append false (c ∷ xs) ys = elim (Bool-cases (c == 0xfeff)) [
  | inl mark ↦ rw mark refl
  | inr none_here ↦ rw none_here refl
]

decode-append :
    (d : Decoder) (xs ys : Bytes)
    → decode d (xs ++ ys)
      ≡ ((decode (decode d xs).0 ys).0, (decode d xs).1 ++ (decode (decode d xs).0 ys).1)
unfolding decode
decode-append d xs ys = rw (utf8_bytes-append, after_mark-append) refl

decode-nil : (d : Decoder) → decode d [] ≡ (d, [])
unfolding decode utf8_bytes
decode-nil d = by_begun d.begun
  where
    by_begun :
        (b : Bool)
        → ◌≡◌ {A = Decoder × Text}
            (record { utf8 = d.utf8; begun = (after_mark b []).0 }, (after_mark b []).1)
            (record { utf8 = d.utf8; begun = b }, [])
    by_begun true = refl
    by_begun false = refl

abbrev pub joined : List Bytes → Bytes
joined [] = []
joined (c ∷ cs) = c ++ joined cs

pub decode_all-joined : (d : Decoder) (cs : List Bytes) → decode_all d cs ≡ decode d (joined cs)
unfolding decode_all
decode_all-joined d [] = sym (decode-nil d)
decode_all-joined d (c ∷ cs) =
    rw (decode-append d c (joined cs), decode_all-joined (decode d c).0 cs) refl

-- However the UTF-8 of a text is cut into chunks, inside characters too, the decoder returns the
-- text, less a byte order mark at its start.
pub decode_all-text_encode :
    (s : Text) (cs : List Bytes)
    → All (λ c. is_scalar c ≡ true) s
    → joined cs ≡ text_encode s
    → (decode_all new_decoder cs).1 ≡ (after_mark false s).1
unfolding decode
decode_all-text_encode s cs h e =
    ap (λ r. r.1) (decode_all-joined new_decoder cs)
    ∙ ap (λ l. (decode new_decoder l).1) e
    ∙ ap (λ r. (after_mark false r.1).1) (text_encode-decoded s h)
