-- ===== src/Wfmodel/RunProperties.antt =====
-- pkg/wfmodel/run_properties.go: the nodes that a run affects, and the runs that a node depends on.
use Prim.Native.String.{String}
use text.Mathlib.Text.{◌==◌ as str_eq}
use capillaries.Prelude.{Bool, List, [], ◌∷◌, ◌++◌, any, filter, not, ◌==◌, if◌then◌else◌}
use capillaries.Prelude.Int.{ℤ, pos}
use capillaries.Prelude.Text.{Text, text_eq}
use capillaries.Prelude.IntMap.{IntMap, put}
use capillaries.Wfmodel.Row.{
  Row, Result, ok, err, unknown_field, dependency_not_affected, ◌>>=◌, read_int16_from_row,
  read_string_from_row,
}

pub record RunProperties : Type 0 where
  pub run_id : ℤ
  pub start_nodes : Text
  pub affected_nodes : Text
  pub script_url : Text
  pub script_params_url : Text
  pub run_description : Text

-- `&RunProperties{}`
abbrev blank_properties : RunProperties
blank_properties = record {
  run_id = pos 0;
  start_nodes = [];
  affected_nodes = [];
  script_url = [];
  script_params_url = [];
  run_description = [];
}

read_properties_field : String → Row → RunProperties → Result RunProperties
read_properties_field name r p =
    if str_eq name "run_id"
    then (do v ← read_int16_from_row name r; ok (record p { run_id = v }))
    else if str_eq name "start_nodes"
    then (do v ← read_string_from_row name r; ok (record p { start_nodes = v }))
    else if str_eq name "affected_nodes"
    then (do v ← read_string_from_row name r; ok (record p { affected_nodes = v }))
    else if str_eq name "script_url"
    then (do v ← read_string_from_row name r; ok (record p { script_url = v }))
    else if str_eq name "script_params_url"
    then (do v ← read_string_from_row name r; ok (record p { script_params_url = v }))
    else if str_eq name "run_description"
    then (do v ← read_string_from_row name r; ok (record p { run_description = v }))
    else err (unknown_field name)

read_properties_fields : List String → Row → RunProperties → Result RunProperties
unfolding read_properties_field
read_properties_fields [] r p = ok p
read_properties_fields (name ∷ names) r p = do
  p' ← read_properties_field name r p
  read_properties_fields names r p'

unfoldable pub new_run_properties_from_map : Row → List String → Result RunProperties
unfolding read_properties_fields
new_run_properties_from_map r fields = read_properties_fields fields r blank_properties

-- The text up to the next comma is collected in `part`, in order.
split_from : Text → Text → List Text
split_from part [] = part ∷ []
split_from part (c ∷ s) =
    if c == b',' then part ∷ split_from [] s else split_from (part ++ c ∷ []) s

-- `strings.Split(s, ",")`
unfoldable pub split_commas : Text → List Text
unfolding split_from
split_commas s = split_from [] s

abbrev pub mentions : List Text → Text → Bool
mentions l n = any (λ a. text_eq a n) l

-- The nodes of the second slice that are in the first, each once: a hit is deleted from the map.
unfoldable pub intersect_two_slices : List Text → List Text → List Text
intersect_two_slices map1 [] = []
intersect_two_slices map1 (v ∷ slice2) =
    let rest = intersect_two_slices map1 slice2 in
    let others = intersect_two_slices (filter (λ a. not (text_eq a v)) map1) slice2 in
    if mentions map1 v then v ∷ others else rest

pub record DependencyRuns : Type 0 where
  pub run_ids : List ℤ
  pub run_nodes : IntMap (List Text)
  pub present : List Text

abbrev no_dependency_runs : DependencyRuns
no_dependency_runs = record { run_ids = []; run_nodes = []; present = [] }

note_dependency_run : ℤ → List Text → DependencyRuns → DependencyRuns
note_dependency_run run_id [] d = d
note_dependency_run run_id (n ∷ nodes) d = record d {
  run_ids = d.run_ids ++ run_id ∷ [];
  run_nodes = put run_id (n ∷ nodes) d.run_nodes;
}

unfoldable pub dependency_round : RunProperties → List Text → DependencyRuns → DependencyRuns
unfolding note_dependency_run intersect_two_slices split_commas
dependency_round p deps d =
    let affected = split_commas p.affected_nodes in
    let noted = note_dependency_run p.run_id (intersect_two_slices affected deps) d in
    record noted { present = filter (mentions affected) deps ++ d.present }

unfoldable pub dependency_loop :
    List Row → List Text → List String → DependencyRuns → Result DependencyRuns
unfolding dependency_round
dependency_loop [] deps fields d = ok d
dependency_loop (r ∷ rows) deps fields d = do
  p ← new_run_properties_from_map r fields
  dependency_loop rows deps fields (dependency_round p deps d)

-- Every dependency node must be among the affected nodes of some run.
unfoldable pub verify_present : List Text → DependencyRuns → Result DependencyRuns
verify_present [] d = ok d
verify_present (n ∷ deps) d =
    if mentions d.present n then verify_present deps d else err (dependency_not_affected n)

unfoldable pub multiple_runs_properties_to_dependencies :
    List Row → List Text → List String → Result DependencyRuns
unfolding dependency_loop verify_present
multiple_runs_properties_to_dependencies rows deps fields = do
  d ← dependency_loop rows deps fields no_dependency_runs
  verify_present deps d
