-- ===== src/Web/Page/Fit.antt =====
-- `refit` of web/src/main.ts: the font size at which the host's grid fits the window.
--
-- JavaScript's numbers are a parameter, with NaN left out: the grids that the fit addon proposes
-- have positive sides, so that no quotient here is 0 / 0. What the addon proposes at a font size in
-- the present window is a parameter too.
use open_console.Prelude.{
  ◌==◌, Bool, Option, false, if◌then◌else◌, none, some, suc, true, zero, ◌||◌, ℕ, ◌≡◌, ◌≤◌,
}
use open_console.Web.Json.{Number}

pub record Floats : Type 1 where
  pub R : Type 0
  pub of_nat : ℕ → R
  pub of_number : Number → R
  pub mul : R → R → R
  pub div : R → R → R
  pub floor : R → R
  pub le : R → R → Bool
  pub same : R → R → Bool
  pub le_total : (a b : R) → le a b ≡ false → le b a ≡ true
  pub le-of_nat : (m n : ℕ) → m ≤ n → le (of_nat m) (of_nat n) ≡ true

abbrev pub min_font : ℕ
min_font = 6

abbrev pub max_font : ℕ
max_font = 22

abbrev pub base_font : ℕ
base_font = 14

module _ (n : Floats) where
  open n use {R, of_nat, of_number, mul, div, floor, le, same}

  -- `fit.proposeDimensions()` at a font size; `none` is undefined.
  abbrev pub Proposal : Type 0
  Proposal = R → Option (ℕ × ℕ)

  -- `Math.min` and `Math.max`
  abbrev pub least : R → R → R
  least a b = if le a b then a else b

  abbrev pub greatest : R → R → R
  greatest a b = if le a b then b else a

  unfoldable pub next_font : R → ℕ × ℕ → Number → Number → R
  next_font font (cols, rows) host_cols host_rows =
      let scale =
        least (div (of_nat cols) (of_number host_cols)) (div (of_nat rows) (of_number host_rows)) in
      greatest (of_nat min_font) (least (of_nat max_font) (floor (mul font scale)))

  -- `!proposed || !proposed.cols || !proposed.rows`
  abbrev pub usable : Option (ℕ × ℕ) → Option (ℕ × ℕ)
  usable none = none
  usable (some (cols, rows)) = if cols == 0 || rows == 0 then none else some (cols, rows)

  -- One pass, and what the later ones make of the new size. The second part says whether the code
  -- gets to `term.resize`.
  abbrev pub pass : (R → R × Bool) → R → Number → Number → Option (ℕ × ℕ) → R × Bool
  pass rest font host_cols host_rows none = (font, false)
  pass rest font host_cols host_rows (some grid) =
      let next = next_font font grid host_cols host_rows in
      let later = rest next in if same next font then (font, true) else later

  unfoldable pub passes : ℕ → Proposal → Number → Number → R → R × Bool
  unfolding next_font
  passes zero propose host_cols host_rows font = (font, true)
  passes (suc left) propose host_cols host_rows font =
      pass (passes left propose host_cols host_rows) font host_cols host_rows
        (usable (propose font))

  unfoldable pub refit : Proposal → Number → Number → R → R × Bool
  unfolding passes
  refit propose host_cols host_rows font = passes 2 propose host_cols host_rows font
