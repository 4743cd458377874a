-- ===== src/Jobs/Written.antt =====
-- Follow-ups and outputs of a stage read back from the dictionaries that they are written as.
use xyn.Base.{
  String, ◌≡◌, refl, sym, false, inl, inr, some, List, [], ◌∷◌, map, ◌=?◌, Bool-cases, arith,
  eq_iff,
}
use xyn.Base.Text.{strip}
use xyn.Base.Sort.{All}
use xyn.Base.Dict.{lookup, merge}
use xyn.Base.Dict.Unique.{IsUnique}
use xyn.Base.Json.{Json, text, array, object, of_entries, of_elements, truthy}
use xyn.Base.Json.Format.{str_of}
use xyn.Jobs.StageContracts.{
  JsonDict, FollowUpPayload, StageOutput, text_of, dict_of, list_of, follow_up_of,
  follow_up_from_dict, follow_up_to_dict, stage_output_of, stage_output_from_dict,
  stage_output_to_dict,
}
use xyn.Jobs.RoundTrip.{
  IsFree, entries-of_entries, elements-of_elements, merge-new, IsFree-new, extra_of-merge,
}

-- What `build_follow_up` makes of extra fields with names of their own.
abbrev pub IsFollowUp : FollowUpPayload → Type 0
IsFollowUp f = (strip f.type ≡ f.type) × IsUnique f.extra × IsFree "type" "input_json" f.extra

abbrev pub IsOutput : StageOutput → Type 0
IsOutput o =
    All IsFollowUp o.follow_up × IsUnique o.extra × IsFree "output_json" "follow_up" o.extra

text_of_text : (s : String) → text_of (some (text s)) ≡ s
unfolding text_of truthy str_of
text_of_text s = elim (Bool-cases (s =? "")) [
  | inl e ↦ rw e (sym ((eq_iff s "").0 e))
  | inr e ↦ rw e refl
]

module _ (k j : String) (apart : (k =? j) ≡ false) (v w : Json) (e : JsonDict) (u : IsUnique e)
    (free : IsFree k j e) where
  lookup_first : lookup k (merge ((k, v) ∷ (j, w) ∷ []) e) ≡ some v
  unfolding lookup
  lookup_first =
      rw (merge-new ((k, v) ∷ (j, w) ∷ []) e u (IsFree-new k j apart v w e free))
        (ground (arith, eq_iff k k))

  lookup_second : lookup j (merge ((k, v) ∷ (j, w) ∷ []) e) ≡ some w
  unfolding lookup
  lookup_second =
      rw (merge-new ((k, v) ∷ (j, w) ∷ []) e u (IsFree-new k j apart v w e free))
        (ground (arith, eq_iff j j, apart))

-- A follow-up reads back from its dictionary, if its type is stripped and its extra fields have other
-- names than `type` and `input_json`, each once.
pub follow_up_from-to_dict :
    (f : FollowUpPayload) → IsFollowUp f → follow_up_from_dict (follow_up_to_dict f) ≡ f
unfolding follow_up_from_dict follow_up_to_dict follow_up_of dict_of
follow_up_from-to_dict f (stripped, u, free) = rw entries-of_entries (
    rw
      (
        lookup_first "type" "input_json" refl (text f.type) (object (of_entries f.input_json))
            f.extra u free,
        lookup_second "type" "input_json" refl (text f.type) (object (of_entries f.input_json))
            f.extra u free,
        extra_of-merge "type" "input_json" refl (text f.type) (object (of_entries f.input_json))
            f.extra u free,
      )
      (rw (text_of_text f.type, stripped) (rw (entries-of_entries f.input_json) refl)))

follow_ups_from-to_dict :
    (fs : List FollowUpPayload)
    → All IsFollowUp fs
    → map follow_up_from_dict (map follow_up_to_dict fs) ≡ fs
follow_ups_from-to_dict [] h = refl
follow_ups_from-to_dict (f ∷ fs) h =
    λ i. follow_up_from-to_dict f h.0 i ∷ follow_ups_from-to_dict fs h.1 i

-- The output of a stage reads back from its dictionary with all its follow-ups, if each of these does
-- and the extra fields have other names than `output_json` and `follow_up`, each once.
pub stage_output_from-to_dict :
    (o : StageOutput) → IsOutput o → stage_output_from_dict (stage_output_to_dict o) ≡ o
unfolding stage_output_from_dict stage_output_to_dict stage_output_of dict_of list_of
stage_output_from-to_dict o (follow, u, free) =
    let output = object (of_entries o.output_json) in
    let follow_up = array (of_elements (map follow_up_to_dict o.follow_up)) in
    rw entries-of_entries (
      rw
        (
          lookup_first "output_json" "follow_up" refl output follow_up o.extra u free,
          lookup_second "output_json" "follow_up" refl output follow_up o.extra u free,
          extra_of-merge "output_json" "follow_up" refl output follow_up o.extra u free,
        )
        (rw
          (
            entries-of_entries o.output_json,
            elements-of_elements (map follow_up_to_dict o.follow_up),
            follow_ups_from-to_dict o.follow_up follow,
          )
          refl))
