-- ===== src/Base/Json/Equality.antt =====
-- `==` of Python on JSON values. Dictionaries are equal if they have equal values under the same keys,
-- and a truth value equals its number.
use xyn.Base.Tests.{if◌then◌else◌, ◌==◌, ◌=?◌}
use Prim.Native.Nat.{ℕ, zero, suc}
use Prim.Native.String.{String}
use mathlib.Core.Bool.{Bool, true, false, ◌&&◌}
use mathlib.Core.Option.{Option, none, some}
use xyn.Base.Json.{
  Json, Items, Members, null, boolean, number, text, array, object, no_items, item, no_members,
  member,
}

unfoldable pub value_at : String → Members → Option Json
value_at k no_members = none
value_at k (member j v ms) = let rest = value_at k ms in if j =? k then some v else rest

unfoldable pub size : Members → ℕ
size no_members = zero
size (member k v ms) = suc (size ms)

abbrev pub as_number : Bool → ℕ
as_number false = 0
as_number true = 1

unfoldable mutual
  unfolding size value_at

  pub json_eq : Json → Json → Bool
  json_eq null null = true
  json_eq (boolean a) (boolean b) = as_number a == as_number b
  json_eq (boolean a) (number n) = as_number a == n
  json_eq (number m) (boolean b) = m == as_number b
  json_eq (number m) (number n) = m == n
  json_eq (text s) (text t) = s =? t
  json_eq (array is) (array js) = items_eq is js
  json_eq (object ms) (object ns) = (size ms == size ns) && members_within ms ns
  json_eq _ _ = false

  pub items_eq : Items → Items → Bool
  items_eq no_items no_items = true
  items_eq (item v is) (item w js) = json_eq v w && items_eq is js
  items_eq _ _ = false

  pub members_within : Members → Members → Bool
  members_within no_members ns = true
  members_within (member k v ms) ns =
      (elim (value_at k ns) [ none ↦ false | some w ↦ json_eq v w ]) && members_within ms ns
