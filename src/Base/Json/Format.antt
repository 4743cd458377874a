-- ===== src/Base/Json/Format.antt =====
-- `str` of a JSON value.
use mathlib.Core.Bool.{true, false}
use mathlib.Core.List.{[], ◌∷◌}
use Prim.Native.String.{String}
use xyn.Base.Text.Format.{concat, decimal}
use xyn.Base.Json.{
  Json, Items, Members, null, boolean, number, text, array, object, no_items, item, no_members,
  member,
}

-- `repr` of a value inside a container, for texts without quotes, backslashes and control characters.
unfoldable mutual
  unfolding concat decimal

  pub repr : Json → String
  repr null = "None"
  repr (boolean false) = "False"
  repr (boolean true) = "True"
  repr (number n) = decimal n
  repr (text s) = concat ("'" ∷ s ∷ "'" ∷ [])
  repr (array is) = concat ("[" ∷ repr_items "" is ∷ "]" ∷ [])
  repr (object ms) = concat ("{" ∷ repr_members "" ms ∷ "}" ∷ [])

  pub repr_items : String → Items → String
  repr_items separator no_items = ""
  repr_items separator (item v is) = concat (separator ∷ repr v ∷ repr_items ", " is ∷ [])

  pub repr_members : String → Members → String
  repr_members separator no_members = ""
  repr_members separator (member k v ms) =
      concat (separator ∷ "'" ∷ k ∷ "': " ∷ repr v ∷ repr_members ", " ms ∷ [])

-- `str(value)`
unfoldable pub str_of : Json → String
unfolding repr
str_of (text s) = s
str_of v = repr v
