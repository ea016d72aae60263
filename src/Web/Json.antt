-- ===== src/Web/Json.antt =====
-- The values that JSON.parse returns and JSON.stringify takes, as web/src/protocol.ts uses them.
--
-- A number is a natural number, or any other number, known by its literal. The keys of an object
-- are distinct, as they are in what JSON.parse builds.
use open_console.Prelude.{
  Bool, Option, Text, [], false, if◌then◌else◌, none, some, suc, text_eq, true, zero, ℕ, ◌∷◌,
}

pub data Number : Type 0 where
  nat : ℕ → Number
  real : Text → Number

mutual
  pub data Json : Type 0 where
    null : Json
    bool : Bool → Json
    num : Number → Json
    str : Text → Json
    arr : Items → Json
    obj : Fields → Json

  pub data Items : Type 0 where
    nil : Items
    cons : Json → Items → Items

  pub data Fields : Type 0 where
    end : Fields
    field : Text → Json → Fields → Fields

unfoldable pub lookup : Text → Fields → Option Json
lookup k end = none
lookup k (field j v fs) = if text_eq j k then some v else lookup k fs

-- `v.k`, with `none` for undefined. Only for a `k` that no prototype defines.
unfoldable pub get : Text → Json → Option Json
unfolding lookup
get k (obj fs) = lookup k fs
get k _ = none

-- Whether JavaScript takes the value for true; undefined is not. Of the numbers, 0 alone is false
-- here: a literal that is no natural number stands for a number other than zero.
unfoldable pub truthy : Option Json → Bool
truthy none = false
truthy (some null) = false
truthy (some (bool b)) = b
truthy (some (num (nat zero))) = false
truthy (some (num (nat (suc n)))) = true
truthy (some (num (real r))) = true
truthy (some (str [])) = false
truthy (some (str (c ∷ cs))) = true
truthy (some (arr xs)) = true
truthy (some (obj fs)) = true
