-- ===== src/Repos/Bounds.antt =====
-- core/source_tree_bounds.py: the rows of a source tree within limits on their number and depth. A
-- limit below one, which counts as one, is the number 0 where it is negative.
use Prim.Native.Char.{char}
use Prim.Native.Nat.{max}
use xyn.Base.{
  ℕ, zero, suc, ◌≤◌, String, ◌≡◌, Bool, true, false, inl, inr, Option, none, some, List, [], ◌∷◌,
  leb, if◌then◌else◌, Bool-cases, arith,
}
use xyn.Base.Text.Split.{split_on}
use xyn.Base.Sort.{All}
use xyn.Base.Table.{select}
use xyn.Base.Dict.{lookup}
use xyn.Base.Json.{Json, object, entries, truthy}
use xyn.Base.Json.Format.{str_of}

unfoldable pub length : {A : Type 0} → List A → ℕ
length [] = 0
length (x ∷ xs) = suc (length xs)

-- `rows[:n]`
unfoldable pub take : {A : Type 0} → ℕ → List A → List A
take zero xs = []
take (suc n) [] = []
take (suc n) (x ∷ xs) = x ∷ take n xs

abbrev path_text : Option Json → String
path_text none = ""
path_text (some v) = if truthy v then str_of v else ""

-- `len(str(row.get("path") or "").split("/"))`, and nothing for a row that is no dictionary.
unfoldable pub depth_of : Json → Option ℕ
unfolding truthy str_of lookup entries split_on length
depth_of (object ms) =
    some (length (split_on (char 47 tt) (path_text (lookup "path" (entries ms)))))
depth_of _ = none

abbrev pub within : ℕ → Option ℕ → Bool
within limit none = false
within limit (some depth) = leb depth limit

unfoldable pub limit_depth : Option ℕ → List Json → List Json
unfolding depth_of select
limit_depth none rows = rows
limit_depth (some max_depth) rows = select (λ row. within (max 1 max_depth) (depth_of row)) rows

unfoldable pub limit_files : Option ℕ → List Json → List Json
unfolding take
limit_files none rows = rows
limit_files (some max_files) rows = take (max 1 max_files) rows

-- `apply_source_tree_bounds`
unfoldable pub apply_source_tree_bounds : List Json → Option ℕ → Option ℕ → List Json
unfolding limit_depth limit_files
apply_source_tree_bounds rows max_files max_depth =
    limit_files max_files (limit_depth max_depth rows)

take-length : {A : Type 0} (n : ℕ) (xs : List A) → length (take n xs) ≤ n
unfolding length take
take-length zero xs = omega arith
take-length (suc n) [] = omega arith
take-length (suc n) (x ∷ xs) = omega (arith, take-length n xs)

take-All : {A : Type 0} (P : A → Type 0) (n : ℕ) (xs : List A) → All P xs → All P (take n xs)
unfolding take
take-All P zero xs h = tt
take-All P (suc n) [] h = tt
take-All P (suc n) (x ∷ xs) h = (h.0, take-All P n xs h.1)

select-satisfies :
    {A : Type 0} (p : A → Bool) (P : A → Type 0) (xs : List A)
    → All P xs
    → All (λ x. (p x ≡ true) × P x) (select p xs)
unfolding select
select-satisfies p P [] h = tt
select-satisfies p P (x ∷ xs) h = elim (Bool-cases (p x)) [
  | inl e ↦ rw e ((e, h.0), select-satisfies p P xs h.1)
  | inr e ↦ rw e (select-satisfies p P xs h.1)
]

-- Bounding a source tree gives at most the permitted number of rows, at least one being permitted,
-- each no deeper than the permitted depth, and each with whatever held of all rows before.
pub bounds-hold :
    (P : Json → Type 0) (rows : List Json) (max_files max_depth : ℕ)
    → All P rows
    → (length (apply_source_tree_bounds rows (some max_files) (some max_depth)) ≤ max 1 max_files)
      × All
          (λ row. (within (max 1 max_depth) (depth_of row) ≡ true) × P row)
          (apply_source_tree_bounds rows (some max_files) (some max_depth))
unfolding apply_source_tree_bounds limit_files limit_depth
bounds-hold P rows max_files max_depth h = (
  take-length (max 1 max_files) _,
  take-All _ (max 1 max_files) _
      (select-satisfies (λ row. within (max 1 max_depth) (depth_of row)) P rows h),
)
