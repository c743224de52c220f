-- ===== src/Registration.antt =====
-- The table of shared variables: mobile_platform_5c/baseline/data_structure/src/registration and
-- include/data_structure/registration.
-- A pointer to an object is its address. What `malloc` returns is an argument, `none` for a null
-- pointer. The table's own mutex orders the calls of different threads; here each call is one step.
pub mod RoundTrip
mod Tests
use ecs_private.Common.{
  ℕ, ◌+◌, Option, none, some, Bool, true, false, ◌&&◌, ltb, if◌then◌else◌, ◌>>=◌, ◌>>◌, guard,
  String, str_eq, characters,
}
use ecs_private.Common.HashMap.{HashMap}

-- `hash_result_t`
pub data HashResult : Type 0 where
  entry_found entry_added entry_not_found entry_already_exists : HashResult
  entry_unkown_datatype entry_memory_allocation_error : HashResult

-- How many results of `malloc` the registration used.
abbrev pub used_by : HashResult → Option ℕ → ℕ
used_by entry_added entry = 2
used_by entry_memory_allocation_error none = 1
used_by entry_memory_allocation_error (some e) = 2
used_by _ entry = 0

-- `semantic_id_t`, of which the macros fill two fields and clear the others
pub record SemanticId : Type 0 where
  pub model : String
  pub meta_model : String

-- The keys are compared byte by byte.
abbrev pub sid_eq : SemanticId → SemanticId → Bool
sid_eq a b = str_eq a.model b.model && str_eq a.meta_model b.meta_model

-- `variable_entry_t`; the mutex is known by the address of its entry, and `mutex_init` tells whether
-- `mtx_init` was called on it
pub record VariableEntry : Type 0 where
  pub pointer : ℕ
  pub mutex : ℕ
  pub mutex_init : Bool

-- `semantic_id_t sid = {.meta_model=#datatype}; strcpy(sid.model, name);`, into a field of 50 bytes
unfoldable pub make_sid : String → String → Option SemanticId
make_sid name datatype = do
  guard (ltb (characters name) 50)
  some (record { model = name; meta_model = datatype })

module _ (uthash : HashMap SemanticId sid_eq VariableEntry) where
  open uthash use {Map, empty, find, add}

  unfoldable pub create_variable_table : Map
  create_variable_table = empty

  unfoldable pub find_variable_entry : Map → SemanticId → HashResult
  find_variable_entry root sid = elim (find root sid) [
    | none ↦ entry_not_found
    | some entry ↦ entry_found
  ]

  -- The entry that `*entry` points to afterwards; it is left alone when nothing is found.
  unfoldable pub get_variable_entry :
      Map → SemanticId → Option VariableEntry → HashResult × Option VariableEntry
  get_variable_entry root sid entry = elim (find root sid) [
    | none ↦ (entry_not_found, entry)
    | some e ↦ (entry_found, some e)
  ]

  -- `FIND_VARIABLE_IN_TABLE`
  unfoldable pub find_variable_in_table : Map → String → String → Option HashResult
  unfolding make_sid
  find_variable_in_table root name datatype = do
    sid ← make_sid name datatype
    some (elim (find root sid) [ none ↦ entry_not_found | some entry ↦ entry_found ])

  -- `GET_VARIABLE_IN_TABLE`: the result, the object's pointer and the pointer to its mutex.
  unfoldable pub get_variable_in_table :
      Map → String → String → Option ℕ → Option ℕ → Option (HashResult × Option ℕ × Option ℕ)
  unfolding make_sid
  get_variable_in_table root name datatype object_pointer object_mutex = do
    sid ← make_sid name datatype
    some (elim (find root sid) [
      | none ↦ (entry_not_found, object_pointer, object_mutex)
      | some entry ↦ (entry_found, some entry.pointer, some entry.mutex)
    ])

  -- `REGISTER_VARIABLE_IN_TABLE`. A failed allocation of the object leaves the entry unused.
  unfoldable pub register_variable_in_table :
      Option ℕ → Option ℕ → Map → String → String → Option (HashResult × Map)
  unfolding make_sid find_variable_entry
  register_variable_in_table entry_hh object root name datatype = do
    sid ← make_sid name datatype
    some (elim (find_variable_entry root sid) [
      | entry_not_found ↦ elim entry_hh [
        | none ↦ (entry_memory_allocation_error, root)
        | some e ↦ elim object [
          | none ↦ (entry_memory_allocation_error, root)
          | some p ↦
              (entry_added, add root sid (record { pointer = p; mutex = e; mutex_init = true }))
        ]
      ]
      | _ ↦ (entry_already_exists, root)
    ])

  -- `REGISTER_AND_GET_VARIABLE_IN_TABLE`. It has no call of `mtx_init`, and it leaves the two pointers
  -- alone when the name is taken.
  unfoldable pub register_and_get_variable_in_table :
      Option ℕ
      → Option ℕ
      → Map
      → String
      → String
      → Option ℕ
      → Option ℕ
      → Option ((HashResult × Map) × (Option ℕ × Option ℕ))
  unfolding make_sid find_variable_entry
  register_and_get_variable_in_table entry_hh object root name datatype object_pointer
        object_mutex =
      do
        sid ← make_sid name datatype
        some (elim (find_variable_entry root sid) [
          | entry_not_found ↦ elim entry_hh [
            | none ↦ ((entry_memory_allocation_error, root), (object_pointer, object_mutex))
            | some e ↦ elim object [
              | none ↦ ((entry_memory_allocation_error, root), (object_pointer, object_mutex))
              | some p ↦ (
                (entry_added, add root sid (record { pointer = p; mutex = e; mutex_init = false })),
                (some p, some e),
              )
            ]
          ]
          | _ ↦ ((entry_already_exists, root), (object_pointer, object_mutex))
        ])
