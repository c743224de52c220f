-- ===== src/Navigation/Deletion.antt =====
-- How a request for deletion brings the navigation activity to its end
-- (navigation_template/src/activity/navigation_with_kelo_control.c).
use ecs_private.Common.{ℕ, ◌≡◌, refl, some, true, ◌>>=◌, Bool-cases, inl, inr}
use ecs_private.Lcsm.{resource_configuration, capability_configuration, running, done}
use ecs_private.Activity.{deinitialisation}
use ecs_private.Navigation.{Platform, World, Params, Coordination}
use ecs_private.Navigation.Behaviour.{
  running_communicate_sensor_and_estimation, running_coordinate, running_next,
  resource_configuration_coordinate, resources_complete, capability_configuration_compute,
  capability_configuration_coordinate, capabilities_next, set_params, set_protocol, set_state,
  set_flags,
}
use ecs_private.Navigation.Lifecycle.{same_state, Table, schedule_table, call, pass}
use ecs_private.Navigation.Slots.{
  schedule_of, first_of, coordinate_of, config_schedule, Holds, emptied,
}
use ecs_private.Navigation.Pass.{pass_config_last}
use ecs_private.Navigation.Steps.{passes, after, installed_as, leave_whole, leave_config}

module _ (platform : Platform) where
  -- The activity is done: it has said so to its thread, and its eventloop is empty. The shared drives
  -- and the trace are as they were in `w`.
  pub record Deleted (w w' : World platform) : Type 0 where
    pub complete : w'.activity.lcsm_flags.deletion_complete ≡ true
    pub state_done : w'.activity.lcsm.state ≡ done
    pub empty_eventloop : (schedule_table platform w').number_of_eventloop_schedules ≡ 0
    pub same_drives : w'.drives ≡ w.drives
    pub same_trace : w'.trace ≡ w.trace

  -- From the configuration of the resources, with `activity_config` in the eventloop: two passes.
  pub deletion_config :
      (w : World platform) (k : Coordination)
      → Holds platform config_schedule w
      → w.activity.lcsm.state ≡ resource_configuration
      → w.deleting_request ≡ true
      → w.activity.coordination_state ≡ some k
      → (w' : World platform) × (passes platform 2 w ≡ some w') × Deleted w w'
  unfolding passes resource_configuration_coordinate resources_complete call same_state
  deletion_config w k h s d c = (
    emptied platform x step.2,
    rw (step.1, pass_config_last platform x step.2 refl) refl,
    record {
      complete = refl;
      state_done = refl;
      empty_eventloop = refl;
      same_drives = refl;
      same_trace = refl;
    },
  )
    where
      w0 : World platform
      w0 = set_protocol platform (installed_as platform resource_configuration w h) deinitialisation

      w1 : World platform
      w1 =
          resources_complete platform
            (set_flags platform w0
              (record (w0.activity.lcsm_flags) { resource_configuration_complete = true }))
            deinitialisation

      coordinated :
          call platform
            (coordinate_of resource_configuration)
            (installed_as platform resource_configuration w h)
          ≡ some w1
      coordinated = rw (c, d) refl

      step :
          (t : Table platform) × (pass platform w
            ≡ some (after platform resource_configuration w1 t))
          × Holds platform config_schedule (after platform resource_configuration w1 t)
      step = leave_config platform resource_configuration w w1 h s refl coordinated refl

      x : World platform
      x = after platform resource_configuration w1 step.0

  -- A running activity whose pointers are set and that is asked for its deletion is deleted after
  -- three passes. It writes to no drive on the way: the last command stays in shared memory.
  pub deletion_running :
      (w : World platform) (p : Params platform.Double platform.Config platform.Sensor)
      (k : Coordination) (lock address : ℕ)
      → Holds platform (schedule_of running) w
      → w.activity.lcsm.state ≡ running
      → w.deleting_request ≡ true
      → w.activity.params ≡ some p
      → w.activity.coordination_state ≡ some k
      → p.rt_drive ≡ some address
      → k.drive_lock ≡ some lock
      → (w' : World platform) × (passes platform 3 w ≡ some w') × Deleted w w'
  unfolding passes running_communicate_sensor_and_estimation running_coordinate running_next call
      same_state
  deletion_running w p k lock address h s d pe c pa kl =
      let ends = deletion_config x k step.2 refl d c in
      (
        ends.0,
        rw step.1 ends.1,
        record {
          complete = ends.2.complete;
          state_done = ends.2.state_done;
          empty_eventloop = ends.2.empty_eventloop;
          same_drives = ends.2.same_drives;
          same_trace = ends.2.same_trace;
        },
      )
    where
      sensed : World platform
      sensed = set_params platform w (record p {
        drive = record (p.drive) {
          config = (w.drives address).config;
          sensor = (w.drives address).sensor;
        };
      })

      w1 : World platform
      w1 = set_state platform (set_protocol platform sensed deinitialisation) resource_configuration

      coordinated :
          (call platform (first_of running) w >>= call platform (coordinate_of running)) ≡ some w1
      coordinated = rw (pe, c, kl, pa, d) refl

      step :
          (t : Table platform) × (pass platform w ≡ some (after platform running w1 t))
          × Holds platform config_schedule (after platform running w1 t)
      step = leave_whole platform running w w1 refl h coordinated refl

      x : World platform
      x = after platform running w1 step.0

  -- The same of an activity that is configuring its capabilities.
  pub deletion_capability_configuration :
      (w : World platform) (k : Coordination)
      → Holds platform (schedule_of capability_configuration) w
      → w.activity.lcsm.state ≡ capability_configuration
      → w.deleting_request ≡ true
      → w.activity.coordination_state ≡ some k
      → (w' : World platform) × (passes platform 3 w ≡ some w') × Deleted w w'
  unfolding passes capability_configuration_compute capability_configuration_coordinate
      capabilities_next call same_state
  deletion_capability_configuration w k h s d c =
      let ends = deletion_config x k step.2 refl d c in
      (
        ends.0,
        rw step.1 ends.1,
        record {
          complete = ends.2.complete;
          state_done = ends.2.state_done;
          empty_eventloop = ends.2.empty_eventloop;
          same_drives = ends.2.same_drives;
          same_trace = ends.2.same_trace;
        },
      )
    where
      w1 : World platform
      w1 = set_state platform (set_protocol platform w deinitialisation) resource_configuration

      coordinated :
          (call platform (first_of capability_configuration) w
            >>= call platform (coordinate_of capability_configuration))
          ≡ some w1
      coordinated = elim (Bool-cases w.execution_request) [
        | inl e ↦ rw (c, e, d) refl
        | inr e ↦ rw (c, e, d) refl
      ]

      step :
          (t : Table platform) × (pass platform w
            ≡ some (after platform capability_configuration w1 t))
          × Holds platform config_schedule (after platform capability_configuration w1 t)
      step = leave_whole platform capability_configuration w w1 refl h coordinated refl

      x : World platform
      x = after platform capability_configuration w1 step.0
