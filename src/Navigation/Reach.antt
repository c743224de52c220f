-- ===== src/Navigation/Reach.antt =====
-- The way of the navigation activity from its configuration to its first command
-- (navigation_template/src/activity/navigation_with_kelo_control.c).
use ecs_private.Common.{
  ℕ, suc, ◌≡◌, refl, ◌∙◌, some, true, false, arith, ◌>>=◌, ◌==◌, >>=-eq-some, eq_of_some,
}
use ecs_private.Lcsm.{creation, resource_configuration, capability_configuration, running}
use ecs_private.Schedule.Execute.{calls}
use ecs_private.Activity.{initialisation, execution}
use ecs_private.Navigation.{Platform, World, Params, Coordination}
use ecs_private.Navigation.Behaviour as behaviour
use ecs_private.Navigation.Behaviour.{in_time, command, set_protocol, set_state}
use ecs_private.Navigation.Lifecycle.{same_state, Table, schedule_table, call, pass}
use ecs_private.Navigation.Slots.{schedule_of, post_of, cells, config_schedule, Holds}
use ecs_private.Navigation.Configure.{Holds-table, keeps_post}
use ecs_private.Schedule.Slot.{calls_keep}
use ecs_private.Navigation.Steps.{
  passes, after, installed_as, leave_whole, leave_config, stay_config,
}
use ecs_private.Navigation.Startup.{
  Prepared, created, create_compute_lem, resourced, resources_lem, resource_stays, capability_lem,
  running_stays, commanded, running_post_lem,
}

module _ (platform : Platform) where
  open platform use {Double, Config, Sensor}

  -- The two passes that leave the creation.
  creation_passes :
      (w : World platform) (r : Prepared platform w)
      → Holds platform config_schedule w
      → w.activity.lcsm.state ≡ creation
      → w.activity.lcsm_flags.creation_complete ≡ false
      → (t u : Table platform) × (passes platform 2 w
          ≡ some (
              after platform creation
                (created platform
                  (record w { activity = record (w.activity) { schedule_table = t } })
                  r.params)
                u))
        × Holds platform config_schedule (
            after platform creation
              (created platform
                (record w { activity = record (w.activity) { schedule_table = t } })
                r.params)
              u)
  unfolding call behaviour.creation_coordinate same_state calls passes
  creation_passes w r h s fresh =
      (schedule_table platform w1, second.0, rw (first.0, second.1) refl, second.2)
    where
      w1 : World platform
      w1 = installed_as platform creation w h

      first : (pass platform w ≡ some w1) × Holds platform (schedule_of creation) w1
      first = stay_config platform creation w w1 h s refl (rw fresh refl) (rw s refl)

      second :
          (t : Table platform) × (pass platform w1
            ≡ some (after platform creation (created platform w1 r.params) t))
          × Holds platform config_schedule
              (after platform creation (created platform w1 r.params) t)
      second =
          leave_whole platform creation w1 (created platform w1 r.params) refl first.1
            (create_compute_lem platform w1 r.params r.continuous r.params_at r.continuous_at) refl

  -- The two passes that leave the configuration of the resources.
  resource_passes :
      (x : World platform) (r : Prepared platform x)
      → Holds platform config_schedule x
      → x.activity.lcsm.state ≡ resource_configuration
      → x.activity.lcsm_protocol ≡ initialisation
      → x.activity.lcsm_flags.resource_configuration_complete ≡ false
      → (t u : Table platform) × (passes platform 2 x
          ≡ some (
              after platform resource_configuration
                (resourced platform
                  (record x { activity = record (x.activity) { schedule_table = t } })
                  r.params
                  r.coordination
                  r.drive_entry
                  r.odometry_entry)
                u))
        × Holds platform config_schedule (
            after platform resource_configuration
              (resourced platform
                (record x { activity = record (x.activity) { schedule_table = t } })
                r.params
                r.coordination
                r.drive_entry
                r.odometry_entry)
              u)
  unfolding same_state calls passes
  resource_passes x r h s i fresh =
      (schedule_table platform x1, second.0, rw (first.0, second.1) refl, second.2)
    where
      x1 : World platform
      x1 = installed_as platform resource_configuration x h

      first : (pass platform x ≡ some x1) × Holds platform (schedule_of resource_configuration) x1
      first =
          stay_config platform resource_configuration x x1 h s refl
            (resource_stays platform x1 r.coordination r.coordination_at r.deleting_not_requested
              fresh)
            (rw s refl)

      y : World platform
      y = resourced platform x1 r.params r.coordination r.drive_entry r.odometry_entry

      second :
          (t : Table platform) × (pass platform x1
            ≡ some (after platform resource_configuration y t))
          × Holds platform config_schedule (after platform resource_configuration y t)
      second =
          leave_whole platform resource_configuration x1 y refl first.1
            (resources_lem platform x1 r.params r.coordination r.drive_entry r.odometry_entry
              r.params_at r.coordination_at r.table_at i r.deleting_not_requested r.no_drive
              r.no_odometry r.drive_found r.odometry_found)
            refl

  -- The two passes from the configuration of the capabilities to the first command.
  running_passes :
      (x : World platform) (p : Params Double Config Sensor) (k : Coordination) (address lock : ℕ)
      → Holds platform config_schedule x
      → x.activity.lcsm.state ≡ capability_configuration
      → x.activity.params ≡ some p
      → x.activity.continuous ≡ some (record { iteration_count = 0 })
      → x.activity.coordination_state ≡ some k
      → p.rt_drive ≡ some address
      → k.drive_lock ≡ some lock
      → p.actuation_chunk_id ≡ 0
      → in_time platform 0 ≡ true
      → x.execution_request ≡ true
      → x.deleting_request ≡ false
      → (w' : World platform) × (passes platform 2 x ≡ some w')
        × Holds platform (schedule_of running) w'
        × (w'.activity.lcsm.state ≡ running)
        × ((w'.drives address).actuation ≡ command platform)
  unfolding same_state passes
  running_passes x p k address lock h s pe ce ke ae le ze te ee de = (
    w',
    rw (first.1, second.0, commanding) refl,
    Holds-table platform (schedule_of running) y1 w'
        (calls_keep (call platform) (schedule_table platform) (cells "running" (post_of running)) y1
          (keeps_post platform running) commanding)
        second.1,
    refl,
    rw (self address) refl,
  )
    where
      self : (n : ℕ) → (n == n) ≡ true
      self n = ground arith

      x1 : World platform
      x1 =
          set_state platform
            (set_protocol platform (installed_as platform capability_configuration x h) execution)
            running

      first :
          (t : Table platform) × (pass platform x
            ≡ some (after platform capability_configuration x1 t))
          × Holds platform config_schedule (after platform capability_configuration x1 t)
      first =
          leave_config platform capability_configuration x x1 h s refl
            (capability_lem platform (installed_as platform capability_configuration x h) k ke ee
              de)
            refl

      y : World platform
      y = after platform capability_configuration x1 first.0

      y1 : World platform
      y1 = installed_as platform running y first.2

      second :
          (pass platform y ≡ calls (call platform) (cells "running" (post_of running)) y1)
          × Holds platform (schedule_of running) y1
      second =
          stay_config platform running y y1 first.2 refl refl
            (running_stays platform y1 k ke de refl) refl

      w' : World platform
      w' = commanded platform y1 p address

      commanding : calls (call platform) (cells "running" (post_of running)) y1 ≡ some w'
      commanding = running_post_lem platform y1 p k address lock pe ce ke ae le ze te

  passes-two :
      (n : ℕ) (w x : World platform)
      → passes platform 2 w ≡ some x
      → passes platform (suc (suc n)) w ≡ passes platform n x
  unfolding passes
  passes-two n w x e =
      let a = >>=-eq-some (pass platform w) (λ u. pass platform u >>= λ v. some v) e in
      let b = >>=-eq-some (pass platform a.0) (λ v. some v) a.2 in
      rw (a.1, b.1, eq_of_some b.2) refl

  -- A configured activity in its first state, in the initialisation, with its two flags of completion
  -- cleared and `activity_config` alone in the eventloop, runs after six passes, and in the sixth it
  -- has written its command to the shared drive. The conditions are that its parameters, its
  -- continuous state, its coordination state and its table are allocated; that its pointers to the
  -- drive and to the odometry are null; that both variables are in the table; that the execution is
  -- requested and the deletion is not, in all six passes, between which nothing else changes; and that
  -- the experiment lasts longer than no time, which is a property of `double`.
  pub startup_reaches_running :
      (w : World platform) (r : Prepared platform w)
      → Holds platform config_schedule w
      → w.activity.lcsm.state ≡ creation
      → w.activity.lcsm_protocol ≡ initialisation
      → w.activity.lcsm_flags.creation_complete ≡ false
      → w.activity.lcsm_flags.resource_configuration_complete ≡ false
      → in_time platform 0 ≡ true
      → (w' : World platform) × (passes platform 6 w ≡ some w')
        × Holds platform (schedule_of running) w'
        × (w'.activity.lcsm.state ≡ running)
        × ((w'.drives r.drive_entry.pointer).actuation ≡ command platform)
  startup_reaches_running w r h s i fresh fresh_resources te =
      (last.0, passes-two 4 w x one.2 ∙ passes-two 2 x y two.2 ∙ last.1, last.2, last.3, last.4)
    where
      one :
          (t u : Table platform) × (passes platform 2 w
            ≡ some (
                after platform creation
                  (created platform
                    (record w { activity = record (w.activity) { schedule_table = t } })
                    r.params)
                  u))
          × Holds platform config_schedule (
              after platform creation
                (created platform
                  (record w { activity = record (w.activity) { schedule_table = t } })
                  r.params)
                u)
      one = creation_passes w r h s fresh

      x : World platform
      x =
          after platform creation
            (created platform
              (record w { activity = record (w.activity) { schedule_table = one.0 } }) r.params)
            one.1

      prepared : Prepared platform x
      prepared = record {
        params = record (r.params) { actuation_chunk_id = 0 };
        continuous = record { iteration_count = 0 };
        coordination = r.coordination;
        drive_entry = r.drive_entry;
        odometry_entry = r.odometry_entry;
        params_at = refl;
        continuous_at = refl;
        coordination_at = r.coordination_at;
        table_at = r.table_at;
        no_drive = r.no_drive;
        no_odometry = r.no_odometry;
        execution_requested = r.execution_requested;
        deleting_not_requested = r.deleting_not_requested;
        drive_found = r.drive_found;
        odometry_found = r.odometry_found;
      }

      two :
          (t u : Table platform) × (passes platform 2 x
            ≡ some (
                after platform resource_configuration
                  (resourced platform
                    (record x { activity = record (x.activity) { schedule_table = t } })
                    prepared.params
                    r.coordination
                    r.drive_entry
                    r.odometry_entry)
                  u))
          × Holds platform config_schedule (
              after platform resource_configuration
                (resourced platform
                  (record x { activity = record (x.activity) { schedule_table = t } })
                  prepared.params
                  r.coordination
                  r.drive_entry
                  r.odometry_entry)
                u)
      two = resource_passes x prepared one.3 refl i fresh_resources

      y : World platform
      y =
          after platform resource_configuration
            (resourced platform
              (record x { activity = record (x.activity) { schedule_table = two.0 } })
              prepared.params r.coordination r.drive_entry r.odometry_entry)
            two.1

      last :
          (w' : World platform) × (passes platform 2 y ≡ some w')
          × Holds platform (schedule_of running) w'
          × (w'.activity.lcsm.state ≡ running)
          × ((w'.drives r.drive_entry.pointer).actuation ≡ command platform)
      last =
          running_passes y
            (record (r.params) {
              actuation_chunk_id = 0;
              rt_drive = some r.drive_entry.pointer;
              rt_odometry = some r.odometry_entry.pointer;
            })
            (record (r.coordination) {
              drive_lock = some r.drive_entry.mutex;
              odometry_lock = some r.odometry_entry.mutex;
            })
            r.drive_entry.pointer r.drive_entry.mutex two.3 refl refl refl refl refl refl refl te
            r.execution_requested r.deleting_not_requested
