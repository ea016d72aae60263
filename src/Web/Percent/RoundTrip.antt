-- ===== src/Web/Percent/RoundTrip.antt =====
-- decodeURIComponent undoes encodeURIComponent.
use open_console.Prelude.{
  ◌++◌, ◌==◌, All, Bool-cases, List, Option, Text, [], ap, arith, false, inl, inr, map, none, refl,
  some, subst, true, ℕ, ◌∙◌, ◌∷◌, ◌≡◌,
}
use open_console.Web.Utf8.{utf8_char, is_scalar}
use open_console.Web.Percent.{
  tokens, Token, between, byte, characters, outside, percent_step, prepend, utf8_step, encode_char,
  plain, unreserved, append_both, decode_uri_component, encode_uri_component,
}
use open_console.Web.Percent.Characters.{
  characters-cons, characters-utf8_char, tokens-cons, tokens-escaped, utf8_char-lt,
}

-- The tokens that stand for one character, as it is or escaped.
record Spells (c : ℕ) (text : Text) : Type 0 where
  spelled : List Token
  lexes : (rest : Text) → tokens outside (text ++ rest) ≡ prepend spelled (tokens outside rest)
  reads :
      (ts : List Token)
      → characters between (spelled ++ ts) ≡ prepend (c ∷ []) (characters between ts)

not_percent : (c : ℕ) → unreserved c ≡ true → c == b'%' ≡ false
unfolding unreserved
not_percent c h = ground arith

unreserved-Spells : (c : ℕ) → unreserved c ≡ true → Spells c (c ∷ [])
unreserved-Spells c h = record {
  spelled = plain c ∷ [];
  lexes = λ rest.
      tokens-cons outside outside c (plain c ∷ []) rest
        (unfold percent_step in rw (not_percent c h));
  reads = λ ts. characters-cons between between (plain c) (c ∷ []) ts (unfold utf8_step in refl);
}

encode_char-Spells : (c : ℕ) (text : Text) → encode_char c ≡ some text → Spells c text
unfolding encode_char
encode_char-Spells c text h = elim (Bool-cases (unreserved c)) [
  | inl free ↦ subst (Spells c) (ground arith) (unreserved-Spells c free)
  | inr coded ↦ elim (Bool-cases (is_scalar c)) [
    | inl scalar ↦ subst (Spells c) (ground arith) (record {
      spelled = map byte (utf8_char c);
      lexes = λ rest. tokens-escaped (utf8_char c) rest (utf8_char-lt c scalar);
      reads = λ ts. characters-utf8_char c ts scalar;
    })
    | inr surrogate ↦ absurd (ground arith)
  ]
]

record Reads (text s : Text) : Type 0 where
  stream : List Token
  lexes : tokens outside text ≡ some stream
  reads : characters between stream ≡ some s

Reads-nil : Reads [] []
unfolding tokens characters
Reads-nil = record { stream = []; lexes = refl; reads = refl }

Reads-cons : (c : ℕ) (a b s : Text) → Spells c a → Reads b s → Reads (a ++ b) (c ∷ s)
Reads-cons c a b s x y = record {
  stream = x.spelled ++ y.stream;
  lexes = x.lexes b ∙ ap (prepend x.spelled) y.lexes;
  reads = x.reads y.stream ∙ ap (prepend (c ∷ [])) y.reads;
}

append_both-some :
    (a b : Option Text) (t : Text)
    → append_both a b ≡ some t
    → (x y : Text) × (a ≡ some x) × (b ≡ some y) × (x ++ y ≡ t)
append_both-some (some x) (some y) t h = (x, y, refl, refl, cc)
append_both-some (some x) none t h = cc
append_both-some none b t h = cc

Reads-encoded : (s t : Text) → encode_uri_component s ≡ some t → Reads t s
unfolding encode_uri_component
Reads-encoded [] t h = subst (λ x. Reads x []) (cc h) Reads-nil
Reads-encoded (c ∷ s) t h =
    let (a, b, x, y, e) = append_both-some (encode_char c) (encode_uri_component s) t h in
    subst (λ z. Reads z (c ∷ s)) e
      (Reads-cons c a b s (encode_char-Spells c a x) (Reads-encoded s b y))

Reads-decode : (t s : Text) → Reads t s → decode_uri_component t ≡ some s
unfolding decode_uri_component
Reads-decode t s r = rw r.lexes r.reads

-- What encodeURIComponent returns decodes to the text that it was given. It throws only for a text
-- with a lone surrogate.
pub decode-encode : (s t : Text) → encode_uri_component s ≡ some t → decode_uri_component t ≡ some s
decode-encode s t h = Reads-decode t s (Reads-encoded s t h)

plain-Spells : (c : ℕ) → c == b'%' ≡ false → Spells c (c ∷ [])
plain-Spells c h = record {
  spelled = plain c ∷ [];
  lexes = λ rest. tokens-cons outside outside c (plain c ∷ []) rest (unfold percent_step in rw h);
  reads = λ ts. characters-cons between between (plain c) (c ∷ []) ts (unfold utf8_step in refl);
}

Reads-plain : (s : Text) → All (λ c. c == b'%' ≡ false) s → Reads s s
Reads-plain [] h = record {
  stream = [];
  lexes = unfold tokens in refl;
  reads = unfold characters in refl;
}
Reads-plain (c ∷ s) h = Reads-cons c (c ∷ []) s s (plain-Spells c h.0) (Reads-plain s h.1)

-- A text with no percent sign decodes to itself.
pub decode-plain : (s : Text) → All (λ c. c == b'%' ≡ false) s → decode_uri_component s ≡ some s
decode-plain s h = Reads-decode s s (Reads-plain s h)
