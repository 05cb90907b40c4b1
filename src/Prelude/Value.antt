-- ===== src/Prelude/Value.antt =====
-- JavaScript values, as far as the options and the binds of a statement tell them apart, and the
-- tests of lib/util.ts on them.
use Prim.Native.Nat.{ℕ, zero, suc}
use Prim.Native.String.{String}
use mathlib.Core.Bool.{Bool, true, false}
use snowflake_connector_node.Prelude.Int.{ℤ}

-- A number: not finite, whole, or with a fraction (which is named by a number).
pub data Number : Type 0 where
  not_finite : Number
  whole : ℤ → Number
  fraction : ℕ → Number

-- Functions, dates and plain objects are named by a number.
mutual
  pub data Value : Type 0 where
    undefined null_value : Value
    boolean : Bool → Value
    number : Number → Value
    string : String → Value
    function date object : ℕ → Value
    array : Values → Value

  pub data Values : Type 0 where
    nil : Values
    cons : Value → Values → Values

unfoldable pub exists : Value → Bool
exists undefined = false
exists null_value = false
exists _ = true

unfoldable pub is_function : Value → Bool
is_function (function f) = true
is_function _ = false

unfoldable pub is_object : Value → Bool
is_object (object o) = true
is_object _ = false

unfoldable pub is_array : Value → Bool
is_array (array vs) = true
is_array _ = false

unfoldable pub is_string : Value → Bool
is_string (string s) = true
is_string _ = false

unfoldable pub is_boolean : Value → Bool
is_boolean (boolean b) = true
is_boolean _ = false

unfoldable pub is_finite : Number → Bool
is_finite not_finite = false
is_finite (whole n) = true
is_finite (fraction k) = true

unfoldable pub is_number : Value → Bool
unfolding is_finite
is_number (number n) = is_finite n
is_number _ = false

-- Array.prototype.length, and an element; outside the array it is `undefined`.
abbrev pub length_of : Values → ℕ
length_of nil = 0
length_of (cons v vs) = suc (length_of vs)

abbrev pub element : Values → ℕ → Value
element nil i = undefined
element (cons v vs) zero = v
element (cons v vs) (suc i) = element vs i
