-- ===== src/Navigation/Startup.antt =====
-- How the navigation activity comes to run
-- (navigation_template/src/activity/navigation_with_kelo_control.c).
use ecs_private.Common.{
  ℕ, ◌+◌, ◌≡◌, refl, [], ◌∷◌, ◌++◌, Option, none, some, true, false, arith, ◌>>=◌, String,
}
use ecs_private.Common.HashMap.{HashMap}
use ecs_private.Lcsm.{resource_configuration, capability_configuration, running}
use ecs_private.Schedule.{execute_named_function}
use ecs_private.Schedule.Execute.{calls}
use ecs_private.Registration.{entry_found, VariableEntry, get_variable_in_table, make_sid}
use ecs_private.Registration.RoundTrip.{key}
use ecs_private.Activity.{initialisation, execution}
use ecs_private.Navigation.{
  Platform, creation_compute, creation_coordinate, resource_configuration_compute,
  resource_configuration_coordinate, capability_configuration_coordinate, running_coordinate, World,
  Params, Continuous, Coordination,
}
use ecs_private.Navigation.Behaviour as behaviour
use ecs_private.Navigation.Behaviour.{
  in_time, command, set_params, set_protocol, set_state, set_flags, set_coordination,
  set_resource_complete, write_drive,
}
use ecs_private.Navigation.Lifecycle.{call}
use ecs_private.Navigation.Slots.{post_of, cells}

module _ (platform : Platform) where
  open platform use {Double, Config, Sensor, variable_map}

  -- What the application and the other activities have set before: the four allocations, with their
  -- contents; the requests; and the two variables, which are in the table.
  pub record Prepared (w : World platform) : Type 0 where
    pub params : Params Double Config Sensor
    pub continuous : Continuous
    pub coordination : Coordination
    pub drive_entry : VariableEntry
    pub odometry_entry : VariableEntry
    pub params_at : w.activity.params ≡ some params
    pub continuous_at : w.activity.continuous ≡ some continuous
    pub coordination_at : w.activity.coordination_state ≡ some coordination
    pub table_at : w.activity.table ≡ some tt
    pub no_drive : params.rt_drive ≡ none
    pub no_odometry : params.rt_odometry ≡ none
    pub execution_requested : w.execution_request ≡ true
    pub deleting_not_requested : w.deleting_request ≡ false
    pub drive_found :
        HashMap.find variable_map w.variables (key "kelo_drive" "differential_drive_t")
        ≡ some drive_entry
    pub odometry_found :
        HashMap.find variable_map w.variables (key "odometry" "odometry2d_t") ≡ some odometry_entry

  -- The world when the creation is complete and the state was left.
  abbrev pub created : World platform → Params Double Config Sensor → World platform
  created x p =
      let a = set_params platform x (record p { actuation_chunk_id = 0 }) in
      let b : World platform = record a {
        activity = record (a.activity) { continuous = some (record { iteration_count = 0 }) };
      } in
      set_state platform
        (set_flags platform b (record (b.activity.lcsm_flags) { creation_complete = true }))
        resource_configuration

  got :
      (root : HashMap.Map variable_map) (name datatype : String) (entry : VariableEntry)
      (pointer mutex : Option ℕ)
      → make_sid name datatype ≡ some (key name datatype)
      → HashMap.find variable_map root (key name datatype) ≡ some entry
      → get_variable_in_table variable_map root name datatype pointer mutex
        ≡ some (entry_found, some entry.pointer, some entry.mutex)
  unfolding get_variable_in_table
  got root name datatype entry pointer mutex s e = rw (s, e) refl

  drive_sid :
      make_sid "kelo_drive" "differential_drive_t" ≡ some (key "kelo_drive" "differential_drive_t")
  unfolding make_sid
  drive_sid = refl

  odometry_sid : make_sid "odometry" "odometry2d_t" ≡ some (key "odometry" "odometry2d_t")
  unfolding make_sid
  odometry_sid = refl

  pub create_compute_lem :
      (x : World platform) (p : Params Double Config Sensor) (n : Continuous)
      → x.activity.params ≡ some p
      → x.activity.continuous ≡ some n
      → (call platform creation_compute x >>= call platform creation_coordinate)
        ≡ some (created x p)
  unfolding call behaviour.creation_compute behaviour.creation_coordinate
  create_compute_lem x p n e c = rw (e, c) refl

  drive_lem :
      (x : World platform) (p : Params Double Config Sensor) (k : Coordination)
      (drive : VariableEntry)
      → x.activity.params ≡ some p
      → x.activity.coordination_state ≡ some k
      → x.activity.table ≡ some tt
      → p.rt_drive ≡ none
      → HashMap.find variable_map x.variables (key "kelo_drive" "differential_drive_t") ≡ some drive
      → behaviour.get_drive platform x
        ≡ some (
            set_coordination platform
              (set_params platform x (record p { rt_drive = some drive.pointer }))
              (record k { drive_lock = some drive.mutex }))
  unfolding behaviour.get_drive behaviour.not_found
  drive_lem x p k drive pe ke te nd fd = ground (
    arith,
    pe,
    ke,
    te,
    nd,
    got x.variables "kelo_drive" "differential_drive_t" drive p.rt_drive k.drive_lock drive_sid fd,
  )

  odometry_lem :
      (x : World platform) (p : Params Double Config Sensor) (k : Coordination)
      (odometry : VariableEntry)
      → x.activity.params ≡ some p
      → x.activity.coordination_state ≡ some k
      → x.activity.table ≡ some tt
      → p.rt_odometry ≡ none
      → HashMap.find variable_map x.variables (key "odometry" "odometry2d_t") ≡ some odometry
      → behaviour.get_odometry platform x
        ≡ some (
            set_coordination platform
              (set_params platform x (record p { rt_odometry = some odometry.pointer }))
              (record k { odometry_lock = some odometry.mutex }))
  unfolding behaviour.get_odometry behaviour.not_found
  odometry_lem x p k odometry pe ke te nd fd = ground (
    arith,
    pe,
    ke,
    te,
    nd,
    got x.variables "odometry" "odometry2d_t" odometry p.rt_odometry k.odometry_lock odometry_sid
        fd,
  )

  -- The world when the resources were found and the state was left.
  abbrev pub resourced :
      World platform
      → Params Double Config Sensor
      → Coordination
      → VariableEntry
      → VariableEntry
      → World platform
  resourced x p k drive odometry =
      set_state platform
        (set_coordination platform
          (set_params platform (set_resource_complete platform x true)
            (record p { rt_drive = some drive.pointer; rt_odometry = some odometry.pointer }))
          (record k { drive_lock = some drive.mutex; odometry_lock = some odometry.mutex }))
        capability_configuration

  pub resources_lem :
      (x : World platform) (p : Params Double Config Sensor) (k : Coordination)
      (drive odometry : VariableEntry)
      → x.activity.params ≡ some p
      → x.activity.coordination_state ≡ some k
      → x.activity.table ≡ some tt
      → x.activity.lcsm_protocol ≡ initialisation
      → x.deleting_request ≡ false
      → p.rt_drive ≡ none
      → p.rt_odometry ≡ none
      → HashMap.find variable_map x.variables (key "kelo_drive" "differential_drive_t") ≡ some drive
      → HashMap.find variable_map x.variables (key "odometry" "odometry2d_t") ≡ some odometry
      → (call platform resource_configuration_compute x
          >>= call platform resource_configuration_coordinate)
        ≡ some (resourced x p k drive odometry)
  unfolding call behaviour.resource_configuration_compute
      behaviour.resource_configuration_coordinate behaviour.resources_complete
  resources_lem x p k drive odometry pe ke te ie de nd noo fd fo =
      rw
        (
          drive_lem (set_resource_complete platform x true) p k drive pe ke te nd fd,
          odometry_lem y (record p { rt_drive = some drive.pointer })
              (record k { drive_lock = some drive.mutex }) odometry refl refl te noo fo,
          de,
          ie,
        )
        refl
    where
      y : World platform
      y =
          set_coordination platform
            (set_params platform (set_resource_complete platform x true)
              (record p { rt_drive = some drive.pointer }))
            (record k { drive_lock = some drive.mutex })

  pub resource_stays :
      (x : World platform) (k : Coordination)
      → x.activity.coordination_state ≡ some k
      → x.deleting_request ≡ false
      → x.activity.lcsm_flags.resource_configuration_complete ≡ false
      → call platform resource_configuration_coordinate x ≡ some x
  unfolding call behaviour.resource_configuration_coordinate
  resource_stays x k c d f = rw (c, d, f) refl

  pub capability_lem :
      (x : World platform) (k : Coordination)
      → x.activity.coordination_state ≡ some k
      → x.execution_request ≡ true
      → x.deleting_request ≡ false
      → call platform capability_configuration_coordinate x
        ≡ some (set_state platform (set_protocol platform x execution) running)
  unfolding call behaviour.capability_configuration_coordinate behaviour.capabilities_next
  capability_lem x k c e d = rw (c, e, d) refl

  pub running_stays :
      (x : World platform) (k : Coordination)
      → x.activity.coordination_state ≡ some k
      → x.deleting_request ≡ false
      → x.activity.lcsm_protocol ≡ execution
      → call platform running_coordinate x ≡ some x
  unfolding call behaviour.running_coordinate behaviour.running_next
  running_stays x k c d p = rw (c, d, p) refl

  -- The world when the command was computed, sent and logged.
  abbrev pub commanded : World platform → Params Double Config Sensor → ℕ → World platform
  commanded x p address =
      let p' = record p {
        drive = record (p.drive) { actuation = command platform };
        actuation_chunk_id = p.actuation_chunk_id + 1;
      } in
      let a = set_params platform x p' in
      record a {
        activity = record (a.activity) { continuous = some (record { iteration_count = 1 }) };
        drives =
            write_drive platform x.drives address
              (record (x.drives address) { actuation = command platform });
        trace = x.trace ++ (p.actuation_chunk_id, command platform) ∷ [];
      }

  pub running_post_lem :
      (x : World platform) (p : Params Double Config Sensor) (k : Coordination) (address lock : ℕ)
      → x.activity.params ≡ some p
      → x.activity.continuous ≡ some (record { iteration_count = 0 })
      → x.activity.coordination_state ≡ some k
      → p.rt_drive ≡ some address
      → k.drive_lock ≡ some lock
      → p.actuation_chunk_id ≡ 0
      → in_time platform 0 ≡ true
      → calls (call platform) (cells "running" (post_of running)) x ≡ some (commanded x p address)
  unfolding calls execute_named_function call behaviour.running_compute
      behaviour.running_communicate_control behaviour.running_logging
  running_post_lem x p k address lock pe ce ke ae le ze te = rw (pe, ce, te, ke, ae, le, ze) refl
