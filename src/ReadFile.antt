-- ===== src/ReadFile.antt =====
-- Reading of parameters: mobile_platform_5c/baseline/read_parameter_struct/src/read_file.c and
-- include/read_file/read_file.h.
-- cJSON and the files are the interface `Cjson`. A pointer to a node is `none` when it is null, and a
-- read through it a fault. A pointer to a parameter is the write that goes through it, which may be a
-- fault too: `strcpy` into a field that is too short.
pub mod Path
pub mod Entries
pub mod Kept
mod Tests
use Prim.Native.Char.{code}
use ecs_private.Common.{
  ℕ, zero, suc, List, [], ◌∷◌, Option, none, some, Bool, true, false, ◌==◌, if◌then◌else◌, ◌>>=◌,
  String, str_eq, characters,
}

-- `PARAM_TYPE_INT` and the others; all other numbers are `other`.
pub data ParamType : Type 0 where
  int float char double other : ParamType

-- What is written: the number of `valueint`, `valuedouble` narrowed or as it is, or the text.
pub data Value (Int Double : Type 0) : Type 0 where
  int_value : Int → Value Int Double
  float_value : Double → Value Int Double
  double_value : Double → Value Int Double
  text_value : String → Value Int Double

-- `file` gives what the buffer of 2048 bytes holds, up to its first zero byte, after the file was
-- opened and read.
pub record Cjson : Type 1 where
  pub Node : Type 0
  pub Int : Type 0
  pub Double : Type 0
  pub file : String → Option String
  pub parse : String → Option Node
  pub item : Node → String → Option Node
  pub valueint : Node → Int
  pub valuedouble : Node → Double
  pub valuestring : Node → Option String

-- `CONFIGURATION_FROM_FILE_FAILED`, `CONFIGURATION_FROM_FILE_SUCCEEDED`
pub data Status : Type 0 where
  failed succeeded : Status

-- `strchr(foo, '/')`: what stands before the first slash, and behind it.
unfoldable pub find_slash : String → Option (String × String)
find_slash String.[] = none
find_slash (String.◌∷◌ c s) =
    let rest = find_slash s in
    if code c == 47
    then some ("", s)
    else elim rest [ none ↦ none | some (before, after) ↦ some (String.◌∷◌ c before, after) ]

-- `strrchr(filename, '.')`: what begins at the last dot.
unfoldable pub last_dot : String → Option String
last_dot String.[] = none
last_dot (String.◌∷◌ c s) = elim (last_dot s) [
  | some t ↦ some t
  | none ↦ if code c == 46 then some (String.◌∷◌ c s) else none
]

module _ (cjson : Cjson) where
  open cjson use {Node, Int, Double, file, parse, item, valueint, valuedouble, valuestring}

  -- `param_array_t`, with the memory `S` that its pointer points into
  pub record Param (S : Type 0) : Type 0 where
    pub param_name : String
    pub param_pointer : Value Int Double → S → Option S
    pub param_type : ParamType

  -- `cJSON_GetObjectItemCaseSensitive`, which gives a null pointer for a null pointer.
  abbrev pub get_object_item : Option Node → String → Option Node
  get_object_item none name = none
  get_object_item (some n) name = item n name

  -- The loop that goes down to the element. Each round makes `foo` shorter.
  unfoldable pub element_loop : ℕ → String → Option Node → Option Node
  unfolding find_slash
  element_loop zero foo element = none
  element_loop (suc rounds) foo element = elim (find_slash foo) [
    | none ↦ get_object_item element foo
    | some (subelement, rest) ↦ element_loop rounds rest (get_object_item element subelement)
  ]

  unfoldable pub find_element : Node → String → Option Node
  unfolding element_loop
  find_element root param_name = element_loop (suc (characters param_name)) param_name (some root)

  module _ {S : Type 0} where
    -- The read of one parameter. The comparisons with NAN are always false, so they are left out; the
    -- outer Option is the fault, the inner one the jump to `ErrorRead`.
    unfoldable pub read_value : Param S → Node → S → Option (Option S)
    read_value p element s = elim p.param_type [
      | int ↦ do s' ← p.param_pointer (int_value (valueint element)) s; some (some s')
      | float ↦ do s' ← p.param_pointer (float_value (valuedouble element)) s; some (some s')
      | double ↦ do s' ← p.param_pointer (double_value (valuedouble element)) s; some (some s')
      | char ↦ elim (valuestring element) [
        | none ↦ some none
        | some t ↦ do s' ← p.param_pointer (text_value t) s; some (some s')
      ]
      | other ↦ some none
    ]

    -- The loop over the parameters. A null element is read through, unless the type is not valid.
    unfoldable pub param_loop : Node → List (Param S) → S → Option (Status × S)
    unfolding find_element read_value
    param_loop root [] s = some (succeeded, s)
    param_loop root (p ∷ ps) s = elim (find_element root p.param_name) [
      | none ↦ elim p.param_type [ other ↦ some (failed, s) | _ ↦ none ]
      | some element ↦ do
        result ← read_value p element s
        elim result [ none ↦ some (failed, s) | some s' ↦ param_loop root ps s' ]
    ]

    unfoldable pub read_from_json_file : String → List (Param S) → S → Option (Status × S)
    unfolding param_loop
    read_from_json_file filename ps s = elim (file filename) [
      | none ↦ some (failed, s)
      | some buffer ↦ elim (parse buffer) [
        | none ↦ some (failed, s)
        | some root ↦ param_loop root ps s
      ]
    ]

    -- The argument of type `Status` is what `*status` holds before; a name without a dot is a null
    -- pointer for `strcmp`.
    unfoldable pub read_from_input_file : String → List (Param S) → Status → S → Option (Status × S)
    unfolding read_from_json_file last_dot
    read_from_input_file filename ps status s = do
      extension ← last_dot filename
      (if str_eq extension ".json"
          then read_from_json_file filename ps s
          else if str_eq extension ".xml"
          then some (status, s)
          else some (failed, s))
