-- ===== src/Rules/Value.antt =====
-- JSON values as Python objects: `==`, the orders and `in`. A number is an integer: JSON fractions
-- are not modelled. `foreign` is a UUID or a date time of a record: it equals no JSON value, and is
-- ordered with none.
use Prim.Native.Nat.{Ordering}
use Prim.Native.String.{compare as compare_text}
use text.Mathlib.Text.{◌==◌ as text_eq}
use helpdesk_agent.Prelude.{
  ℕ, suc, String, Bool, true, false, ◌&&◌, ◌||◌, Option, none, some, ◌==◌, if◌then◌else◌,
}
use helpdesk_agent.Prelude.Int.{ℤ, pos, compare_ℤ}

mutual
  pub data Value : Type 0 where
    null : Value
    boolean : Bool → Value
    number : ℤ → Value
    str : String → Value
    foreign : ℕ → Value
    arr : Items → Value
    obj : Fields → Value

  -- A dictionary: no two fields have one name.
  pub data Fields : Type 0 where
    end : Fields
    field : String → Value → Fields → Fields

  pub data Items : Type 0 where
    nil : Items
    cons : Value → Items → Items

-- `d.get(key)`, and whether the key is there.
abbrev pub get_field : String → Fields → Option Value
get_field key end = none
get_field key (field k v rest) = if text_eq k key then some v else get_field key rest

abbrev pub count_fields : Fields → ℕ
count_fields end = 0
count_fields (field k v rest) = suc (count_fields rest)

abbrev pub eq_ordering : Ordering → Bool
eq_ordering Ordering.eq = true
eq_ordering Ordering.lt = false
eq_ordering Ordering.gt = false

-- `True` and `False` are the numbers 1 and 0.
abbrev pub truth : Bool → ℤ
truth true = pos 1
truth false = pos 0

-- `v == w`
unfoldable mutual
  pub equal : Value → Value → Bool
  equal null null = true
  equal (boolean b) (boolean c) = eq_ordering (compare_ℤ (truth b) (truth c))
  equal (boolean b) (number z) = eq_ordering (compare_ℤ (truth b) z)
  equal (number y) (boolean c) = eq_ordering (compare_ℤ y (truth c))
  equal (number y) (number z) = eq_ordering (compare_ℤ y z)
  equal (str s) (str t) = text_eq s t
  equal (foreign m) (foreign n) = m == n
  equal (arr xs) (arr ys) = equal_items xs ys
  equal (obj fs) (obj gs) = count_fields fs == count_fields gs && equal_fields fs gs
  equal _ _ = false

  pub equal_items : Items → Items → Bool
  equal_items nil nil = true
  equal_items (cons x xs) (cons y ys) = equal x y && equal_items xs ys
  equal_items _ _ = false

  pub equal_fields : Fields → Fields → Bool
  equal_fields end gs = true
  equal_fields (field k v fs) gs =
      elim (get_field k gs) [ none ↦ false | some w ↦ equal v w ] && equal_fields fs gs

-- The order of two values, if Python has one; else `<` and the like raise `TypeError`.
unfoldable mutual
  pub order : Value → Value → Option Ordering
  order (boolean b) (boolean c) = some (compare_ℤ (truth b) (truth c))
  order (boolean b) (number z) = some (compare_ℤ (truth b) z)
  order (number y) (boolean c) = some (compare_ℤ y (truth c))
  order (number y) (number z) = some (compare_ℤ y z)
  order (str s) (str t) = some (compare_text s t)
  order (arr xs) (arr ys) = order_items xs ys
  order _ _ = none

  -- The first items that differ decide.
  pub order_items : Items → Items → Option Ordering
  order_items nil nil = some Ordering.eq
  order_items nil (cons y ys) = some Ordering.lt
  order_items (cons x xs) nil = some Ordering.gt
  order_items (cons x xs) (cons y ys) = if equal x y then order_items xs ys else order x y

-- `v in items`
abbrev pub member : Value → Items → Bool
member v nil = false
member v (cons x xs) = equal v x || member v xs
