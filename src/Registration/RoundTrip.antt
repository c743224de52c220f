-- ===== src/Registration/RoundTrip.antt =====
-- What is registered under a name is what is found under it
-- (data_structure/registration/hash_table_variable.h).
use text.Mathlib.TextPositions.{eq_refl}
use ecs_private.Common.{
  ℕ, ◌<◌, ◌≡◌, refl, ◌∙◌, Option, none, some, true, false, ◌&&◌, String, str_eq, characters, lt→ltb,
}
use ecs_private.Common.HashMap.{HashMap}
use ecs_private.Registration.{
  entry_found, entry_added, entry_already_exists, SemanticId, sid_eq, VariableEntry, make_sid,
  find_variable_entry, get_variable_in_table, register_variable_in_table,
  register_and_get_variable_in_table,
}

-- The key of a name and a type.
abbrev pub key : String → String → SemanticId
key name datatype = record { model = name; meta_model = datatype }

make_sid_lem :
    (name datatype : String)
    → characters name < 50
    → make_sid name datatype ≡ some (key name datatype)
unfolding make_sid
make_sid_lem name datatype h = rw (lt→ltb (characters name) 50 h) refl

sid_refl : (name datatype : String) → (str_eq name name && str_eq datatype datatype) ≡ true
sid_refl name datatype = rw (eq_refl name, eq_refl datatype) refl

module _ (uthash : HashMap SemanticId sid_eq VariableEntry) where
  open uthash use {Map, empty, find, add, find-add}

  added :
      (root : Map) (name datatype : String) (entry : VariableEntry)
      → find root (key name datatype) ≡ none
      → find (add root (key name datatype) entry) (key name datatype) ≡ some entry
  added root name datatype entry h =
      find-add root (key name datatype) (key name datatype) entry h
      ∙ rw (sid_refl name datatype) refl

  -- A variable of a new name of less than 50 characters is registered, if memory is given for it. A
  -- later lookup under the name and the type gives the pointer to the object and its mutex, whatever
  -- the caller's pointers were; and registering the name once more adds nothing.
  pub register-get :
      (root : Map) (name datatype : String) (e p : ℕ) (object_pointer object_mutex : Option ℕ)
      → characters name < 50
      → find root (key name datatype) ≡ none
      → (root' : Map) × (register_variable_in_table uthash (some e) (some p) root name datatype
          ≡ some (entry_added, root'))
        × (get_variable_in_table uthash root' name datatype object_pointer object_mutex
            ≡ some (entry_found, some p, some e))
        × ((e' p' : Option ℕ)
            → register_variable_in_table uthash e' p' root' name datatype
              ≡ some (entry_already_exists, root'))
  unfolding register_variable_in_table get_variable_in_table find_variable_entry
  register-get root name datatype e p object_pointer object_mutex short fresh = (
    root',
    rw (make_sid_lem name datatype short, fresh) refl,
    rw (make_sid_lem name datatype short, found) refl,
    λ e' p'. rw (make_sid_lem name datatype short, found) refl,
  )
    where
      entry : VariableEntry
      entry = record { pointer = p; mutex = e; mutex_init = true }

      root' : Map
      root' = add root (key name datatype) entry

      found : find root' (key name datatype) ≡ some entry
      found = added root name datatype entry fresh

  -- Registering and getting in one gives the caller the same object and mutex as a lookup does after
  -- it, but the mutex was never initialised. A second caller of the same name gets no pointer.
  pub register_and_get_mutex :
      (root : Map) (name datatype : String) (e p : ℕ) (object_pointer object_mutex : Option ℕ)
      → characters name < 50
      → find root (key name datatype) ≡ none
      → (root' : Map) × (register_and_get_variable_in_table uthash
            (some e)
            (some p)
            root
            name
            datatype
            object_pointer
            object_mutex
          ≡ some ((entry_added, root'), (some p, some e)))
        × (get_variable_in_table uthash root' name datatype object_pointer object_mutex
            ≡ some (entry_found, some p, some e))
        × (find root' (key name datatype)
            ≡ some (record { pointer = p; mutex = e; mutex_init = false }))
        × (register_and_get_variable_in_table uthash (some e) (some p) root' name datatype none none
            ≡ some ((entry_already_exists, root'), (none, none)))
  unfolding register_and_get_variable_in_table get_variable_in_table find_variable_entry
  register_and_get_mutex root name datatype e p object_pointer object_mutex short fresh = (
    root',
    rw (make_sid_lem name datatype short, fresh) refl,
    rw (make_sid_lem name datatype short, found) refl,
    found,
    rw (make_sid_lem name datatype short, found) refl,
  )
    where
      entry : VariableEntry
      entry = record { pointer = p; mutex = e; mutex_init = false }

      root' : Map
      root' = add root (key name datatype) entry

      found : find root' (key name datatype) ≡ some entry
      found = added root name datatype entry fresh
