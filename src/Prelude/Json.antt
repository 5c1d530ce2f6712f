-- ===== src/Prelude/Json.antt =====
-- Numbers of JavaScript, integers, and what `JSON.parse` returns.
use mathlib.Core.Bool.{Bool}
use mathlib.Core.Option.{Option, none, some}
use Prim.Native.Nat.{ℕ, ◌+◌, suc}
use supabash_fs.Prelude.Tests.{if◌then◌else◌, ltb}
use supabash_fs.Prelude.Strings.{Text, ◌===◌}

-- A JavaScript number: a safe integer, at least 0 or -(n + 1), or any other.
pub data Number : Type 0 where
  natural negative : ℕ → Number
  unsafe : Number

-- `negsuc n` is -(n + 1).
pub data ℤ : Type 0 where
  pos negsuc : ℕ → ℤ

abbrev pub pos_part : ℤ → ℕ
pos_part (pos n) = n
pos_part (negsuc n) = 0

abbrev pub neg_part : ℤ → ℕ
neg_part (pos n) = 0
neg_part (negsuc n) = suc n

-- a < b + k and a + k < b, over the integers
abbrev pub lt_plus : ℤ → ℤ → ℕ → Bool
lt_plus a b k = ltb (pos_part a + neg_part b) (pos_part b + neg_part a + k)

abbrev pub plus_lt : ℤ → ℕ → ℤ → Bool
plus_lt a k b = ltb (pos_part a + neg_part b + k) (pos_part b + neg_part a)

mutual
  pub data Json : Type 0 where
    null : Json
    boolean : Bool → Json
    number : Number → Json
    string : Text → Json
    array : Items → Json
    object : Fields → Json

  pub data Items : Type 0 where
    end : Items
    item : Json → Items → Items

  -- The keys are distinct.
  pub data Fields : Type 0 where
    none_left : Fields
    field : Text → Json → Fields → Fields

-- `record[key]`; a missing key is `undefined`.
unfoldable pub get_field : Fields → Text → Option Json
get_field none_left key = none
get_field (field name value rest) key = if name === key then some value else get_field rest key
