-- ===== src/Jobs/StageContracts.antt =====
-- core/job_pipeline/stage_contracts.py: what the stages of a job take and give.
use xyn.Base.{String, not, ◌&&◌, Option, none, some, List, [], ◌∷◌, map, ◌=?◌, if◌then◌else◌}
use xyn.Base.Text.{strip}
use xyn.Base.Table.{select}
use xyn.Base.Dict.{lookup, merge}
use xyn.Base.Json.{Json, text, array, object, entries, of_entries, elements, of_elements, truthy}
use xyn.Base.Json.Format.{str_of}

abbrev pub JsonDict : Type 0
JsonDict = List (String × Json)

pub record StageInput : Type 0 where
  pub payload : JsonDict

pub record FollowUpPayload : Type 0 where
  pub type : String
  pub input_json : JsonDict
  pub extra : JsonDict

pub record StageOutput : Type 0 where
  pub output_json : JsonDict
  pub follow_up : List FollowUpPayload
  pub extra : JsonDict

-- `str(value or "")`
unfoldable pub text_of : Option Json → String
unfolding str_of truthy
text_of none = ""
text_of (some v) = if truthy v then str_of v else ""

-- The dictionary under a key, or an empty one.
unfoldable pub dict_of : Option Json → JsonDict
unfolding entries
dict_of (some (object ms)) = entries ms
dict_of _ = []

-- The list under a key, or an empty one.
unfoldable pub list_of : Option Json → List Json
unfolding elements
list_of (some (array is)) = elements is
list_of _ = []

-- The entries under other keys than these two.
unfoldable pub extra_of : String → String → JsonDict → JsonDict
unfolding select
extra_of k j d = select (λ e. not (e.0 =? k) && not (e.0 =? j)) d

-- `StageInput.from_dict` and `parse_stage_input`
unfoldable pub stage_input_from_dict : Json → StageInput
unfolding dict_of
stage_input_from_dict input_json = record { payload = dict_of (some input_json) }

-- `StageInput.to_dict`
unfoldable pub stage_input_to_dict : StageInput → Json
unfolding of_entries
stage_input_to_dict input = object (of_entries input.payload)

unfoldable pub follow_up_of : JsonDict → FollowUpPayload
unfolding lookup strip text_of dict_of extra_of
follow_up_of payload = record {
  type = strip (text_of (lookup "type" payload));
  input_json = dict_of (lookup "input_json" payload);
  extra = extra_of "type" "input_json" payload;
}

-- `FollowUpPayload.from_dict`
unfoldable pub follow_up_from_dict : Json → FollowUpPayload
unfolding follow_up_of entries
follow_up_from_dict (object ms) = follow_up_of (entries ms)
follow_up_from_dict _ = record { type = ""; input_json = []; extra = [] }

-- `FollowUpPayload.to_dict`
unfoldable pub follow_up_to_dict : FollowUpPayload → Json
unfolding of_entries merge
follow_up_to_dict follow_up = object (
    of_entries (
      merge
        (("type", text follow_up.type)
          ∷ ("input_json", object (of_entries follow_up.input_json))
          ∷ [])
        follow_up.extra))

unfoldable pub stage_output_of : JsonDict → StageOutput
unfolding lookup dict_of list_of follow_up_from_dict extra_of
stage_output_of payload = record {
  output_json = dict_of (lookup "output_json" payload);
  follow_up = map follow_up_from_dict (list_of (lookup "follow_up" payload));
  extra = extra_of "output_json" "follow_up" payload;
}

-- `StageOutput.from_dict`
unfoldable pub stage_output_from_dict : Json → StageOutput
unfolding stage_output_of entries
stage_output_from_dict (object ms) = stage_output_of (entries ms)
stage_output_from_dict _ = record { output_json = []; follow_up = []; extra = [] }

-- `StageOutput.to_dict`
unfoldable pub stage_output_to_dict : StageOutput → Json
unfolding of_entries of_elements merge follow_up_to_dict
stage_output_to_dict output = object (
    of_entries (
      merge
        (("output_json", object (of_entries output.output_json))
          ∷ ("follow_up", array (of_elements (map follow_up_to_dict output.follow_up)))
          ∷ [])
        output.extra))

-- `build_follow_up`
unfoldable pub build_follow_up : String → JsonDict → JsonDict → FollowUpPayload
unfolding strip
build_follow_up job_type input_json extra = record {
  type = strip job_type;
  input_json = input_json;
  extra = extra;
}

-- `build_stage_output`
unfoldable pub build_stage_output : JsonDict → List FollowUpPayload → JsonDict → StageOutput
build_stage_output output_json follow_up extra = record {
  output_json = output_json;
  follow_up = follow_up;
  extra = extra;
}
