-- ===== src/Navigation/Memory.antt =====
-- What `navigation_activity_create_lcsm` leaves in the memory of the activity
-- (navigation_template/src/activity/navigation_with_kelo_control.c).
use ecs_private.Common.{ℕ, ◌≡◌, refl, Option, none, some, arith}
use ecs_private.Activity.{Activity}
use ecs_private.Navigation.{Platform, World, Params, Continuous, Coordination, navigation_types}
use ecs_private.Navigation.Behaviour.{get_drive, running_communicate_sensor_and_estimation}
use ecs_private.Navigation.Lifecycle.{navigation_create_lcsm}

module _ (platform : Platform) where
  open platform use {Double, Config, Sensor}

  get_drive-known :
      (x : World platform) (p : Params Double Config Sensor) (k : Coordination) (address : ℕ)
      → x.activity.params ≡ some p
      → x.activity.coordination_state ≡ some k
      → p.rt_drive ≡ some address
      → get_drive platform x ≡ some x
  unfolding get_drive
  get_drive-known x p k address pe ke e = ground (arith, pe, ke, e)

  -- `navigation_activity_create_lcsm` does not clear `rt_drive`. If the memory that `malloc` gave
  -- holds anything but zero there, the search for the drive is skipped, the lock of the drive stays
  -- null, and the first step of the running state locks a null mutex.
  pub uninitialised_drive :
      (w : World platform) (memory : Params Double Config Sensor) (continuous : Option Continuous)
      (coordination : Coordination) (garbage : ℕ)
      → memory.rt_drive ≡ some garbage
      → (activity : Activity (navigation_types platform)) × (navigation_create_lcsm platform
            (some memory)
            continuous
            (some coordination)
            w.activity
          ≡ some activity)
        × (get_drive platform (record w { activity = activity })
            ≡ some (record w { activity = activity }))
        × (running_communicate_sensor_and_estimation platform (record w { activity = activity })
            ≡ none)
  unfolding navigation_create_lcsm running_communicate_sensor_and_estimation
  uninitialised_drive w memory continuous coordination garbage e =
      (_, refl, get_drive-known (record w { activity = _ }) _ _ garbage refl refl e, refl)
