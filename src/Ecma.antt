-- ===== src/Ecma.antt =====
-- ECMAScript values as far as the code in app/static/js reads them: what `JSON.parse` returns, objects
-- as lists of own properties, `String(v)`, `Number(v)`, truthiness and object spread.
-- A finite number is a decimal with six fractional digits, kept as a signed count of millionths;
-- binary rounding is not modelled. The conversions between numbers and text, and the Unicode
-- tables behind `trim` and `toLowerCase`, are the fields of `Ecma`.
pub mod Laws
use fetchly.Common.{ℕ, String, Bool, true, false, not, ◌||◌, List, [], ◌∷◌, ◌==◌, if◌then◌else◌}
use fetchly.Common.Int.{ℤ, pos, eqb_ℤ}
use Prim.Native.String

-- One, in millionths.
abbrev pub unit : ℕ
unit = 1_000_000

pub data Number : Type 0 where
  nan : Number
  infinite : Bool → Number
  finite : ℤ → Number

mutual
  pub data Value : Type 0 where
    null undefined : Value
    bool : Bool → Value
    num : Number → Value
    text : String → Value
    arr : Items → Value
    obj : Object → Value

  pub data Items : Type 0 where
    nil : Items
    cons : Value → Items → Items

  -- The own properties of an object; the first of a name counts.
  pub data Object : Type 0 where
    end : Object
    field : String → Value → Object → Object

pub record Ecma : Type 0 where
  pub number_of_text : String → Number
  pub text_of_number : Number → String
  pub trim : String → String
  pub lower : String → String

-- `v == null`
abbrev pub is_nullish : Value → Bool
is_nullish null = true
is_nullish undefined = true
is_nullish _ = false

-- `v ?? d`
abbrev pub or_nullish : Value → Value → Value
or_nullish v d = if is_nullish v then d else v

-- The default of a parameter or of a destructured property.
abbrev pub or_default : Value → Value → Value
or_default undefined d = d
or_default v _ = v

abbrev pub is_finite : Number → Bool
is_finite (finite _) = true
is_finite _ = false

abbrev pub same_number : Number → Number → Bool
same_number nan nan = true
same_number (infinite true) (infinite true) = true
same_number (infinite false) (infinite false) = true
same_number (finite a) (finite b) = eqb_ℤ a b
same_number _ _ = false

-- `Boolean(v)`
abbrev pub truthy_number : Number → Bool
truthy_number nan = false
truthy_number (infinite _) = true
truthy_number (finite a) = not (eqb_ℤ a (pos 0))

abbrev pub truthy : Value → Bool
truthy null = false
truthy undefined = false
truthy (bool b) = b
truthy (num n) = truthy_number n
truthy (text s) = not (s == "")
truthy (arr _) = true
truthy (obj _) = true

-- `a || b`
abbrev pub or_truthy : Value → Value → Value
or_truthy a b = if truthy a then a else b

-- `Set.prototype.has` on primitive values; two objects are never the same one here.
abbrev pub same_value : Value → Value → Bool
same_value null null = true
same_value undefined undefined = true
same_value (bool true) (bool b) = b
same_value (bool false) (bool b) = not b
same_value (num a) (num b) = same_number a b
same_value (text s) (text t) = s == t
same_value _ _ = false

unfoldable pub set_has : List Value → Value → Bool
set_has [] v = false
set_has (x ∷ xs) v = same_value x v || set_has xs v

-- `o[k]`
unfoldable pub get : String → Object → Value
get k end = undefined
get k (field j v o) = if j == k then v else get k o

-- `Object.hasOwn(o, k)`
unfoldable pub has_own : String → Object → Bool
has_own k end = false
has_own k (field j v o) = if j == k then true else has_own k o

-- `o[k] = v`
unfoldable pub put : String → Value → Object → Object
put k v end = field k v end
put k v (field j w o) = if j == k then field j v o else field j w (put k v o)

-- `delete o[k]`
unfoldable pub delete_key : String → Object → Object
delete_key k end = end
delete_key k (field j w o) = if j == k then delete_key k o else field j w (delete_key k o)

-- `{ ...a, ...b }`; the order of the new properties is not kept.
unfoldable pub spread : Object → Object → Object
spread a end = a
spread a (field k v b) = put k v (spread a b)

-- `v?.k` where `v` may be no object
abbrev pub properties : Value → Object
properties (obj o) = o
properties _ = end

module _ (js : Ecma) where
  open js use {number_of_text, text_of_number}

  -- `String(v)`, with an array's elements joined by commas
  unfoldable mutual
    pub string_of : Value → String
    string_of null = "null"
    string_of undefined = "undefined"
    string_of (bool true) = "true"
    string_of (bool false) = "false"
    string_of (num n) = text_of_number n
    string_of (text s) = s
    string_of (arr xs) = join_items xs
    string_of (obj _) = "[object Object]"

    pub join_items : Items → String
    join_items nil = ""
    join_items (cons x nil) = if is_nullish x then "" else string_of x
    join_items (cons x (cons y ys)) =
        String.◌++◌ (if is_nullish x then "" else string_of x)
          (String.◌++◌ "," (join_items (cons y ys)))

  -- `Number(v)`
  unfoldable pub number_of : Value → Number
  unfolding string_of
  number_of null = finite (pos 0)
  number_of undefined = nan
  number_of (bool true) = finite (pos unit)
  number_of (bool false) = finite (pos 0)
  number_of (num n) = n
  number_of (text s) = number_of_text s
  number_of (arr xs) = number_of_text (join_items xs)
  number_of (obj _) = nan
