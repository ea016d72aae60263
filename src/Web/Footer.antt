-- ===== src/Web/Footer.antt =====
-- web/src/footer.ts: the version and the year at the foot of both pages.
use open_console.Prelude.{
  ◌%◌, ◌+◌, ◌/◌, Bool, List, Option, Text, [], false, if◌then◌else◌, ltb, map, none, some, suc,
  zero, ℕ, ◌∷◌,
}

-- What the pages read of the answer of /health; a field that is absent is undefined.
pub record Health : Type 0 where
  pub version : Option Text
  pub client_version : Option Text
  pub ssh_port : Option ℕ
  pub ssh_host : Option Text

-- `fetch`, its answer and `res.json()`: `unreachable` is whatever makes the `catch` run.
pub data Answer : Type 0 where
  unreachable not_ok : Answer
  healthy : Health → Answer

-- `a || b` on an optional text.
abbrev pub or_else : Option Text → Text → Text
or_else none b = b
or_else (some []) b = b
or_else (some (c ∷ cs)) b = c ∷ cs

-- `footerVersion`
unfoldable pub footer_version : Health → Text
footer_version h = or_else h.client_version (or_else h.version [])

-- Digits of a number, the last ones after `digits`.
abbrev pub decimal_from : ℕ → ℕ → Text → Text
decimal_from zero n digits = digits
decimal_from (suc fuel) n digits =
    let more = decimal_from fuel (n / 10) ((b'0' + n % 10) ∷ digits) in
    if ltb n 10 then (b'0' + n % 10) ∷ digits else more

-- `String(n)`
unfoldable pub decimal : ℕ → Text
decimal n = decimal_from (suc n) n []

-- The nodes that the footer writes to. The slot of the version may be missing from a page.
pub record Foot : Type 0 where
  pub years : List Text
  pub version : Option Text
  pub version_hidden : Bool

abbrev pub show_nonempty : Text → Foot → Foot
show_nonempty [] f = f
show_nonempty (c ∷ cs) f = record f { version = some (c ∷ cs); version_hidden = false }

abbrev pub show_answer : Answer → Foot → Foot
show_answer unreachable f = f
show_answer not_ok f = f
show_answer (healthy h) f = show_nonempty (footer_version h) f

-- `showVersion`
unfoldable pub show_version : Answer → Foot → Foot
unfolding footer_version
show_version a f = elim f.version [ none ↦ f | some slot ↦ show_answer a f ]

-- `mountFooter`
unfoldable pub mount_footer : ℕ → Answer → Foot → Foot
unfolding decimal show_version
mount_footer year a f = show_version a (record f { years = map (λ node. decimal year) f.years })
