-- ===== src/Registration/Tests.antt =====
-- The theorems on the table of variables at concrete inputs.
use ecs_private.Common.{ℕ, ◌≡◌, refl, Option, none, some, arith, []}
use ecs_private.Common.HashMap.{HashMap, pairs_map}
use ecs_private.Registration.{
  entry_found, entry_added, entry_already_exists, SemanticId, sid_eq, VariableEntry,
  get_variable_in_table, register_variable_in_table,
}
use ecs_private.Registration.RoundTrip.{register-get}

abbrev uthash : HashMap SemanticId sid_eq VariableEntry
uthash = pairs_map sid_eq VariableEntry

register-get_example :
    (root' : HashMap.Map uthash) × (register_variable_in_table uthash
        (some 8)
        (some 40)
        []
        "kelo_drive"
        "differential_drive_t"
      ≡ some (entry_added, root'))
    × (get_variable_in_table uthash root' "kelo_drive" "differential_drive_t" none none
        ≡ some (entry_found, some 40, some 8))
    × ((e' p' : Option ℕ)
        → register_variable_in_table uthash e' p' root' "kelo_drive" "differential_drive_t"
          ≡ some (entry_already_exists, root'))
register-get_example =
    register-get uthash [] "kelo_drive" "differential_drive_t" 8 40 none none (omega arith) refl
