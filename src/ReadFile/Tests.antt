-- ===== src/ReadFile/Tests.antt =====
-- The theorems on the reading of parameters at a concrete document.
use ecs_private.Common.{ℕ, ◌≡◌, refl, [], ◌∷◌, none, some, true, str_eq, if◌then◌else◌, ◌==◌, ◌&&◌}
use ecs_private.ReadFile.{
  double, double_value, Cjson, Param, failed, succeeded, find_slash, find_element, element_loop,
  last_dot, read_from_input_file,
}
use ecs_private.ReadFile.Path.{
  has_slash, join, path_name, are_names, descend, find_element-path_name,
}
use ecs_private.ReadFile.Entries.{AllResolve, no_params, param, read_all, read_missing, write_all}

-- A document is the nodes 0 (the root), 1 (`wheel`) and 2 (`wheel/radius`, of value 7).
abbrev document : Cjson
document = record {
  Node = ℕ;
  Int = ℕ;
  Double = ℕ;
  file = λ name. if str_eq name "drive.json" then some "{...}" else none;
  parse = λ text. some 0;
  item = λ n name.
      if (n == 0) && str_eq name "wheel"
      then some 1
      else if (n == 1) && str_eq name "radius"
      then some 2
      else none;
  valueint = λ n. 7;
  valuedouble = λ n. 7;
  valuestring = λ n. none;
}

names : are_names "wheel" ("radius" ∷ []) ≡ true
unfolding are_names has_slash
names = refl

find_element-path_name_example : find_element document 0 "wheel/radius" ≡ some 2
unfolding path_name join descend
find_element-path_name_example = find_element-path_name document 0 "wheel" ("radius" ∷ []) names

-- The memory is one number.
abbrev radius : Param document ℕ
radius = record {
  param_name = "wheel/radius";
  param_pointer = λ v s. elim v [ double_value d ↦ some d | _ ↦ none ];
  param_type = double;
}

abbrev track : Param document ℕ
track = record radius { param_name = "wheel/track" }

json : last_dot "drive.json" ≡ some ".json"
unfolding last_dot
json = refl

radius_resolves : AllResolve document 0 ((radius, double_value 7) ∷ [])
unfolding find_element element_loop find_slash
radius_resolves = param (record { element = 2; found = refl; has_value = refl }) no_params

read_all_example :
    read_from_input_file document "drive.json" (radius ∷ []) failed 3 ≡ some (succeeded, 7)
unfolding write_all
read_all_example =
    read_all document "drive.json" "{...}" 0 ((radius, double_value 7) ∷ []) failed 3 json refl refl
      radius_resolves

track_missing : find_element document 0 "wheel/track" ≡ none
unfolding find_element element_loop find_slash
track_missing = refl

radius_written : write_all document ((radius, double_value 7) ∷ []) 3 ≡ some 7
unfolding write_all
radius_written = refl

read_missing_example :
    (read_from_input_file document "drive.json" (radius ∷ []) failed 3 ≡ some (succeeded, 7))
    × (read_from_input_file document "drive.json" (radius ∷ track ∷ []) failed 3 ≡ none)
read_missing_example =
    read_missing document "drive.json" "{...}" 0 ((radius, double_value 7) ∷ []) track [] failed 3 7
      json refl refl radius_resolves radius_written track_missing refl
