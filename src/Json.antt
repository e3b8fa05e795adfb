-- ===== src/Json.antt =====
-- The JSON values of the crate `serde_json`, as the contract checks read them: its `Value`, with an
-- object's members in the order that its map has them (built with `preserve_order`, the order they
-- were inserted in), and its `Number`, which is an unsigned or a negative integer or a float. A float
-- is its IEEE 754 bit pattern; what Rust does with floats is the record `Floats`.
use Prim.Native.Nat.{Ordering, compare}
use cloakpipe.Base.{
  ℕ, suc, String, Bool, true, false, ◌&&◌, ◌||◌, Option, none, some, List, [], ◌∷◌, ◌==◌, nat_eq,
  if◌then◌else◌,
}
use cloakpipe.Base.Options.{◌>>=◌}

-- `negative n` is -(n + 1).
pub data Number : Type 0 where
  unsigned : ℕ → Number
  negative : ℕ → Number
  float : ℕ → Number

mutual
  -- An object's map, in its own order.
  pub data Fields : Type 0 where
    no_fields : Fields
    field : String → Value → Fields → Fields

  -- An array.
  pub data Items : Type 0 where
    no_items : Items
    item : Value → Items → Items

  -- `serde_json::Value`
  pub data Value : Type 0 where
    null : Value
    boolean : Bool → Value
    number : Number → Value
    string : String → Value
    array : Items → Value
    object : Fields → Value

-- Rust's `f64`, by bit patterns: conversion of an integer, `partial_cmp`, `==`, and whether a float
-- is finite with no fractional part.
pub record Floats : Type 0 where
  pub of_unsigned : ℕ → ℕ
  pub of_negative : ℕ → ℕ
  pub partial_cmp : ℕ → ℕ → Option Ordering
  pub same : ℕ → ℕ → Bool
  pub is_whole : ℕ → Bool

-- `as_f64`
unfoldable pub as_f64 : Floats → Number → ℕ
as_f64 fl (unsigned n) = fl.of_unsigned n
as_f64 fl (negative n) = fl.of_negative n
as_f64 fl (float b) = b

-- Exact for integers, IEEE otherwise.
unfoldable pub cmp_number : Floats → Number → Number → Option Ordering
unfolding as_f64
cmp_number fl (unsigned a) (unsigned b) = some (compare a b)
cmp_number fl (unsigned a) (negative b) = some Ordering.gt
cmp_number fl (negative a) (unsigned b) = some Ordering.lt
cmp_number fl (negative a) (negative b) = some (compare b a)
cmp_number fl (float a) n = fl.partial_cmp a (as_f64 fl n)
cmp_number fl (unsigned a) (float b) = fl.partial_cmp (fl.of_unsigned a) b
cmp_number fl (negative a) (float b) = fl.partial_cmp (fl.of_negative a) b

unfoldable pub number_eq : Floats → Number → Number → Bool
number_eq fl (unsigned a) (unsigned b) = nat_eq a b
number_eq fl (negative a) (negative b) = nat_eq a b
number_eq fl (float a) (float b) = fl.same a b
number_eq fl _ _ = false

unfoldable pub size : Fields → ℕ
size no_fields = 0
size (field j v fs) = suc (size fs)

-- `map.get(key)`
unfoldable pub get : String → Fields → Option Value
get k no_fields = none
get k (field j v fs) = if j == k then some v else get k fs

-- `==` on values.
unfoldable mutual
  unfolding number_eq size get

  pub value_eq : Floats → Value → Value → Bool
  value_eq fl null null = true
  value_eq fl (boolean true) (boolean b) = b
  value_eq fl (boolean false) (boolean true) = false
  value_eq fl (boolean false) (boolean false) = true
  value_eq fl (number m) (number n) = number_eq fl m n
  value_eq fl (string s) (string t) = s == t
  value_eq fl (array xs) (array ys) = items_eq fl xs ys
  value_eq fl (object xs) (object ys) = nat_eq (size xs) (size ys) && fields_in fl xs ys
  value_eq fl _ _ = false

  pub items_eq : Floats → Items → Items → Bool
  items_eq fl no_items no_items = true
  items_eq fl (item x xs) (item y ys) = value_eq fl x y && items_eq fl xs ys
  items_eq fl _ _ = false

  -- Every member of the first map has an equal one in the second, whatever the order.
  pub fields_in : Floats → Fields → Fields → Bool
  fields_in fl no_fields ys = true
  fields_in fl (field j x xs) ys =
      elim (get j ys) [ none ↦ false | some y ↦ value_eq fl x y ] && fields_in fl xs ys

abbrev pub after_first : String → Value → Fields → Fields
after_first k v no_fields = field k v no_fields
after_first k v (field j w fs) = field j w (field k v fs)

-- The members with the last one first.
unfoldable pub last_first : Fields → Fields
last_first no_fields = no_fields
last_first (field k v no_fields) = field k v no_fields
last_first (field k v (field j w fs)) = after_first k v (last_first (field j w fs))

-- `map.remove(key)`. With `preserve_order` the last member takes the place of the one removed.
unfoldable pub remove : Bool → String → Fields → Fields
unfolding last_first
remove preserve_order k no_fields = no_fields
remove preserve_order k (field j v fs) =
    let rest = remove preserve_order k fs in
    if j == k then (if preserve_order then last_first fs else fs) else field j v rest

unfoldable pub keys : Fields → List String
keys no_fields = []
keys (field j v fs) = j ∷ keys fs

unfoldable pub item_count : Items → ℕ
item_count no_items = 0
item_count (item v vs) = suc (item_count vs)

-- `slice.contains(&v)`
unfoldable pub items_contain : Floats → Value → Items → Bool
items_contain fl v no_items = false
items_contain fl v (item x xs) = value_eq fl x v || items_contain fl v xs

-- The value at a path of object keys.
unfoldable pub get_path : List String → Value → Option Value
unfolding get
get_path [] v = some v
get_path (k ∷ ks) (object fs) = do v ← get k fs; get_path ks v
get_path (k ∷ ks) _ = none
