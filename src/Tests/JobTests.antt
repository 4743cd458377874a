-- ===== src/Tests/JobTests.antt =====
-- Theorems about stage contracts and source trees at concrete inputs.
use Prim.Native.Nat.{max}
use xyn.Base.{◌≤◌, ◌≡◌, refl, true, some, List, [], ◌∷◌}
use xyn.Base.Text.{strip, is_space}
use xyn.Base.Sort.{All}
use xyn.Base.Dict.{lookup}
use xyn.Base.Json.{Json, number, text, object, of_entries}
use xyn.Jobs.StageContracts.{
  FollowUpPayload, StageOutput, stage_output_from_dict, stage_output_to_dict,
}
use xyn.Jobs.Written.{stage_output_from-to_dict}
use xyn.Repos.Bounds.{length, depth_of, within, apply_source_tree_bounds, bounds-hold}

abbrev deploy : FollowUpPayload
deploy = record {
  type = "deploy_app_local";
  input_json = ("port", number 80) ∷ [];
  extra = ("delay", number 5) ∷ [];
}

abbrev generated : StageOutput
generated = record {
  output_json = ("app", text "shop") ∷ [];
  follow_up = deploy ∷ [];
  extra = ("note", text "done") ∷ [];
}

stage_output_from-to_dict_example :
    stage_output_from_dict (stage_output_to_dict generated) ≡ generated
unfolding lookup strip is_space
stage_output_from-to_dict_example =
    stage_output_from-to_dict generated
      (((refl, (refl, tt), ((refl, refl), tt)), tt), (refl, tt), ((refl, refl), tt))

abbrev rows : List Json
rows =
    object (of_entries (("path", text "a.py") ∷ []))
    ∷ object (of_entries (("path", text "src/a/b.py") ∷ []))
    ∷ object (of_entries (("path", text "b.py") ∷ []))
    ∷ []

abbrev Anything : Json → Type 0
Anything row = Unit

bounds-hold_example :
    (length (apply_source_tree_bounds rows (some 1) (some 2)) ≤ max 1 1)
    × All
        (λ row. (within (max 1 2) (depth_of row) ≡ true) × Anything row)
        (apply_source_tree_bounds rows (some 1) (some 2))
bounds-hold_example = bounds-hold Anything rows 1 2 (tt, (tt, (tt, tt)))
