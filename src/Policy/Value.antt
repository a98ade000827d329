-- ===== src/Policy/Value.antt =====
-- The values of Go's `any` that a policy or a decision request carries: what encoding/json decodes
-- into. A number is a float64, kept as its 64 bits; a map is the list of its entries, one to a key.
use Prim.Native.String.{String}
use package.text.Mathlib.Text.{◌==◌ as str_eq}
use permission_center_go.Common.{
  ℕ, ◌+◌, ◌%◌, ◌^◌, Bool, true, false, not, ◌&&◌, ◌||◌, Option, none, some, ltb, ◌==◌,
  if◌then◌else◌,
}
use permission_center_go.Text.{contains_text}

mutual
  pub data Value : Type 0 where
    nil : Value
    boolean : Bool → Value
    number : ℕ → Value
    text : String → Value
    slice : Items → Value
    object : Fields → Value

  pub data Items : Type 0 where
    end : Items
    item : Value → Items → Items

  pub data Fields : Type 0 where
    no_field : Fields
    field : String → Value → Fields → Fields

abbrev pub is_nil : Value → Bool
is_nil nil = true
is_nil _ = false

-- A Go map's `value, ok := m[key]`.
unfoldable pub get_field : Fields → String → Option Value
get_field no_field key = none
get_field (field name value rest) key = if str_eq name key then some value else get_field rest key

count_fields : Fields → ℕ
count_fields no_field = 0
count_fields (field name value rest) = count_fields rest + 1

-- IEEE 754 equality of float64 bits: no NaN equals anything, and the two zeros are equal.
is_nan : ℕ → Bool
is_nan bits = ltb 0x7ff0000000000000 (bits % 2 ^ 63)

is_zero : ℕ → Bool
is_zero bits = bits % 2 ^ 63 == 0

float_eq : ℕ → ℕ → Bool
unfolding is_nan is_zero
float_eq a b = not (is_nan a) && not (is_nan b) && (a == b || (is_zero a && is_zero b))

bool_eq : Bool → Bool → Bool
bool_eq true b = b
bool_eq false b = not b

abbrev field_is : Option Value → (Value → Bool) → Bool
field_is none test = false
field_is (some value) test = test value

-- reflect.DeepEqual at such values
unfoldable mutual
  unfolding float_eq bool_eq get_field count_fields

  pub deep_equal : Value → Value → Bool
  deep_equal nil nil = true
  deep_equal (boolean a) (boolean b) = bool_eq a b
  deep_equal (number a) (number b) = float_eq a b
  deep_equal (text s) (text t) = str_eq s t
  deep_equal (slice xs) (slice ys) = items_equal xs ys
  deep_equal (object fs) (object gs) = count_fields fs == count_fields gs && fields_equal fs gs
  deep_equal _ _ = false

  pub items_equal : Items → Items → Bool
  items_equal end end = true
  items_equal (item x xs) (item y ys) = deep_equal x y && items_equal xs ys
  items_equal _ _ = false

  pub fields_equal : Fields → Fields → Bool
  fields_equal no_field gs = true
  fields_equal (field name value rest) gs =
      field_is (get_field gs name) (deep_equal value) && fields_equal rest gs

some_item : Items → Value → Bool
unfolding deep_equal
some_item end value = false
some_item (item x xs) value = deep_equal x value || some_item xs value

-- eval.go: contains
unfoldable pub contains : Value → Value → Bool
unfolding some_item contains_text
contains (text s) (text part) = contains_text s part
contains (slice xs) value = some_item xs value
contains _ _ = false
