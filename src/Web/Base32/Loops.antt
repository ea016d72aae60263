-- ===== src/Web/Base32/Loops.antt =====
-- The inner loop of encodeBase32 ends: two rounds of fuel are all that it ever takes.
use open_console.Prelude.{
  ◌%◌, ◌*◌, ◌+◌, ◌++◌, ◌-◌, ◌<◌, Bool, Bool-cases, Bytes, [], ap, arith, false, inl, inr, leb, refl,
  subst, suc, sym, true, zero, ℕ, ◌∙◌, ◌∷◌, ◌≡◌, ◌≤◌,
}
use open_console.Web.Base32.{Acc, emit, encode_byte, encode_bytes, letter, sar32, shl32}

-- One round of the loop.
abbrev after : Acc ℕ → Acc ℕ
after s = record {
  bits = s.bits - 5;
  value = s.value;
  out = s.out ++ letter (sar32 s.value (s.bits - 5) % 32) ∷ [];
}

abbrev one_round : (Acc ℕ → Acc ℕ) → Acc ℕ → Bool → Acc ℕ
one_round rest s b = elim b [ true ↦ rest (after s) | false ↦ s ]

emit-round : (fuel : ℕ) (s : Acc ℕ) → emit (suc fuel) s ≡ one_round (emit fuel) s (leb 5 s.bits)
unfolding emit
emit-round fuel s = refl

emit-go : (fuel : ℕ) (s : Acc ℕ) → 5 ≤ s.bits → emit (suc fuel) s ≡ emit fuel (after s)
emit-go fuel s h =
    let e : leb 5 s.bits ≡ true = ground arith in emit-round fuel s ∙ ap (one_round (emit fuel) s) e

-- When the loop is left, more fuel changes nothing.
emit-settled : (fuel : ℕ) (s : Acc ℕ) → s.bits < 5 → emit fuel s ≡ s
emit-settled zero s h = unfold emit in refl
emit-settled (suc fuel) s h =
    let e : leb 5 s.bits ≡ false = ground arith in
    emit-round fuel s ∙ ap (one_round (emit fuel) s) e

-- What the loop has before the first round: a byte more than was left over.
abbrev pub loaded : Acc ℕ → ℕ → Acc ℕ
loaded s b = record { bits = s.bits + 8; value = shl32 s.value 8 + b; out = s.out }

emit-leaves : (fuel : ℕ) (s : Acc ℕ) → s.bits < 5 * fuel + 5 → (emit fuel s).bits < 5
emit-leaves zero s h = unfold emit in omega arith
emit-leaves (suc fuel) s h = elim (Bool-cases (leb 5 s.bits)) [
  | inl go ↦
      subst (λ u. u.bits < 5) (sym (emit-go fuel s (ground arith)))
        (emit-leaves fuel (after s) (ground arith))
  | inr stop ↦
      subst (λ u. u.bits < 5) (sym (emit-settled (suc fuel) s (ground arith))) (ground arith)
]

emit-more :
    (fuel more : ℕ) (s : Acc ℕ) → s.bits < 5 * fuel + 5 → fuel ≤ more → emit more s ≡ emit fuel s
emit-more zero more s h k = emit-settled more s (omega arith) ∙ sym (emit-settled 0 s (omega arith))
emit-more (suc fuel) zero s h k = absurd (omega arith)
emit-more (suc fuel) (suc more) s h k = elim (Bool-cases (leb 5 s.bits)) [
  | inl go ↦
      emit-go more s (ground arith)
      ∙ emit-more fuel more (after s) (ground arith) (omega arith)
      ∙ sym (emit-go fuel s (ground arith))
  | inr stop ↦
      emit-settled (suc more) s (ground arith) ∙ sym (emit-settled (suc fuel) s (ground arith))
]

abbrev pub start : Acc ℕ
start = record { bits = 0; value = 0; out = [] }

encode_bytes-leaves : (bs : Bytes) (s : Acc ℕ) → s.bits < 5 → (encode_bytes s bs).bits < 5
unfolding encode_bytes encode_byte
encode_bytes-leaves [] s h = h
encode_bytes-leaves (b ∷ bs) s h =
    encode_bytes-leaves bs (encode_byte s b) (emit-leaves 2 (loaded s b) (omega arith))

-- Wherever encodeBase32 is in its input, the inner loop for the next byte ends: it is left with
-- fewer than five bits, and however much more fuel it had, the result would be the same.
pub encode_byte-ends :
    (before : Bytes) (b fuel : ℕ)
    → 2 ≤ fuel
    → ((encode_byte (encode_bytes start before) b).bits < 5)
      × (emit fuel (loaded (encode_bytes start before) b)
          ≡ encode_byte (encode_bytes start before) b)
unfolding encode_byte
encode_byte-ends before b fuel h =
    let s = encode_bytes start before in
    let few = encode_bytes-leaves before start (omega arith) in
    (
      emit-leaves 2 (loaded s b) (omega (arith, few)),
      emit-more 2 fuel (loaded s b) (omega (arith, few)) h,
    )
