-- ===== src/Navigation/Keeps.antt =====
-- The behaviour of the navigation activity leaves its schedules alone
-- (navigation_template/src/activity/navigation_with_kelo_control.c).
use ecs_private.Common.{◌≡◌, ◌∙◌, Option, some, true, arith, >>=-eq-some}
use ecs_private.Navigation.{Platform, World}
use ecs_private.Navigation.Behaviour.{
  creation_compute, creation_coordinate, resources_complete, resource_configuration_coordinate,
  get_drive, get_odometry, resource_configuration_compute, capabilities_next,
  capability_configuration_coordinate, capability_configuration_compute,
  running_communicate_sensor_and_estimation, running_next, running_coordinate, running_compute,
  running_communicate_control, running_logging, set_resource_complete,
}
use ecs_private.Navigation.Lifecycle.{schedule_table}

module _ (platform : Platform) where
  abbrev pub Keeps : (World platform → Option (World platform)) → Type 0
  Keeps f =
      (w w' : World platform)
      → f w ≡ some w'
      → schedule_table platform w' ≡ schedule_table platform w

  pub keep_creation_compute : Keeps (creation_compute platform)
  unfolding creation_compute
  keep_creation_compute w w' e = ground arith

  pub keep_creation_coordinate : Keeps (creation_coordinate platform)
  unfolding creation_coordinate
  keep_creation_coordinate w w' e = ground arith

  pub keep_resource_configuration_coordinate : Keeps (resource_configuration_coordinate platform)
  unfolding resource_configuration_coordinate resources_complete
  keep_resource_configuration_coordinate w w' e = ground arith

  pub keep_get_drive : Keeps (get_drive platform)
  unfolding get_drive
  keep_get_drive w w' e = ground arith

  pub keep_get_odometry : Keeps (get_odometry platform)
  unfolding get_odometry
  keep_get_odometry w w' e = ground arith

  pub keep_capability_configuration_coordinate :
      Keeps (capability_configuration_coordinate platform)
  unfolding capability_configuration_coordinate capabilities_next
  keep_capability_configuration_coordinate w w' e = ground arith

  pub keep_running_communicate_sensor_and_estimation :
      Keeps (running_communicate_sensor_and_estimation platform)
  unfolding running_communicate_sensor_and_estimation
  keep_running_communicate_sensor_and_estimation w w' e = ground arith

  pub keep_running_coordinate : Keeps (running_coordinate platform)
  unfolding running_coordinate running_next
  keep_running_coordinate w w' e = ground arith

  pub keep_running_compute : Keeps (running_compute platform)
  unfolding running_compute
  keep_running_compute w w' e = ground arith

  pub keep_running_communicate_control : Keeps (running_communicate_control platform)
  unfolding running_communicate_control
  keep_running_communicate_control w w' e = ground arith

  pub keep_running_logging : Keeps (running_logging platform)
  unfolding running_logging
  keep_running_logging w w' e = ground arith

  pub keep_resource_configuration_compute : Keeps (resource_configuration_compute platform)
  unfolding resource_configuration_compute
  keep_resource_configuration_compute w w' e =
      let step =
        >>=-eq-some (get_drive platform (set_resource_complete platform w true))
          (get_odometry platform) e in
      keep_get_odometry step.0 w' step.2
      ∙ keep_get_drive (set_resource_complete platform w true) step.0 step.1

  pub keep_capability_configuration_compute : Keeps (capability_configuration_compute platform)
  unfolding capability_configuration_compute
  keep_capability_configuration_compute w w' e = ground arith

  -- A function that does not change the state of the life cycle.
  abbrev pub KeepsState : (World platform → Option (World platform)) → Type 0
  KeepsState f =
      (w w' : World platform) → f w ≡ some w' → w'.activity.lcsm.state ≡ w.activity.lcsm.state

  pub keep_state_compute : KeepsState (running_compute platform)
  unfolding running_compute
  keep_state_compute w w' e = ground arith

  pub keep_state_communicate_control : KeepsState (running_communicate_control platform)
  unfolding running_communicate_control
  keep_state_communicate_control w w' e = ground arith

  pub keep_state_logging : KeepsState (running_logging platform)
  unfolding running_logging
  keep_state_logging w w' e = ground arith
