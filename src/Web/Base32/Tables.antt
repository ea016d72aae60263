-- ===== src/Web/Base32/Tables.antt =====
-- Facts about the 32 letters, each checked at every index.
use open_console.Prelude.{
  ◌&&◌, ◌<◌, ◌==◌, Bool, Option, [], arith, false, none, not, refl, some, suc, text_eq, text_eq_iff,
  true, zero, ℕ, ◌∷◌, ◌≡◌,
}
use open_console.Web.Base32.Letters.{letter, index_of, upper, lower, is_space}

-- Every one of the first `n` letters passes the test.
unfoldable pub each_letter : (ℕ → Bool) → ℕ → Bool
each_letter test zero = true
each_letter test (suc n) = each_letter test n && test n

pub each_letter_at : (test : ℕ → Bool) (n i : ℕ) → i < n → each_letter test n ≡ true → test i ≡ true
unfolding each_letter
each_letter_at test zero i small all = absurd (omega arith)
each_letter_at test (suc n) i small all = ground (arith, each_letter_at test n i)

abbrev found_at : Option ℕ → ℕ → Bool
found_at none i = false
found_at (some j) i = j == i

found_at-some : (o : Option ℕ) (i : ℕ) → found_at o i ≡ true → o ≡ some i
found_at-some none i h = ground arith
found_at-some (some j) i h = ground arith

index_table : each_letter (λ i. found_at (index_of (letter i)) i) 32 ≡ true
unfolding each_letter index_of letter
index_table = refl

-- A letter is found where it stands.
pub index_of-letter : (i : ℕ) → i < 32 → index_of (letter i) ≡ some i
index_of-letter i h = found_at-some _ i (each_letter_at _ 32 i h index_table)

upper_table : each_letter (λ i. text_eq (upper (lower (letter i))) (letter i ∷ [])) 32 ≡ true
unfolding each_letter upper letter
upper_table = refl

pub upper-lower-letter : (i : ℕ) → i < 32 → upper (lower (letter i)) ≡ letter i ∷ []
upper-lower-letter i h = (text_eq_iff _ _).0 (each_letter_at _ 32 i h upper_table)

space_table : each_letter (λ i. not (is_space (lower (letter i)))) 32 ≡ true
unfolding each_letter is_space letter
space_table = refl

not-true : (b : Bool) → not b ≡ true → b ≡ false
not-true b h = ground arith

pub is_space-letter : (i : ℕ) → i < 32 → is_space (lower (letter i)) ≡ false
is_space-letter i h = not-true _ (each_letter_at _ 32 i h space_table)
