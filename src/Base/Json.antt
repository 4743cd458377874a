-- ===== src/Base/Json.antt =====
-- Values of JSON as Python's `json` reads them, numbers being natural, and `==` on them.
pub mod Equality
pub mod Format
use xyn.Base.Tests.{if◌then◌else◌, ◌==◌, ◌=?◌}
use Prim.Native.Nat.{ℕ, zero, suc}
use Prim.Native.String.{String}
use mathlib.Core.Bool.{Bool, true, false, not, ◌&&◌}
use mathlib.Core.Option.{Option, none, some}
use mathlib.Core.List.{List, [], ◌∷◌}

-- `Items` and `Members` are the list inside an array and the dictionary inside an object.
mutual
  pub data Json : Type 0 where
    null : Json
    boolean : Bool → Json
    number : ℕ → Json
    text : String → Json
    array : Items → Json
    object : Members → Json

  pub data Items : Type 0 where
    no_items : Items
    item : Json → Items → Items

  pub data Members : Type 0 where
    no_members : Members
    member : String → Json → Members → Members

unfoldable pub entries : Members → List (String × Json)
entries no_members = []
entries (member k v ms) = (k, v) ∷ entries ms

unfoldable pub of_entries : List (String × Json) → Members
of_entries [] = no_members
of_entries ((k, v) ∷ d) = member k v (of_entries d)

unfoldable pub elements : Items → List Json
elements no_items = []
elements (item v is) = v ∷ elements is

unfoldable pub of_elements : List Json → Items
of_elements [] = no_items
of_elements (v ∷ vs) = item v (of_elements vs)

-- `bool(v)`
unfoldable pub truthy : Json → Bool
truthy null = false
truthy (boolean b) = b
truthy (number n) = not (n == 0)
truthy (text s) = not (s =? "")
truthy (array no_items) = false
truthy (array (item v is)) = true
truthy (object no_members) = false
truthy (object (member k v ms)) = true
