-- ===== src/Proprioception/Encoders.antt =====
-- The odometry of a tricycle (mobile_platform_proprioception/src/delta_tricycle.c).
use ecs_private.Common.{Bool, ◌||◌, if◌then◌else◌}
use ecs_private.MathRob.{Reals, wrap_to_pi}
use ecs_private.Navigation.{Drive}
use ecs_private.Drive.{DriveSensor}
use ecs_private.Drive.Activity.{DriveConfig}
use ecs_private.Proprioception.{Odometry, Tricycle, Velocity, Pose}

module _ (reals : Reals) (Float : Type 0) where
  open reals use {Double, literal, plus, minus, times, divide, negate, less, fabs, cos, sin}

  abbrev pub KeloWheels : Type 0
  KeloWheels = Drive Double (DriveConfig Double) (DriveSensor Double Float)

  -- The two distances that the formulas divide by.
  abbrev pub singular : Tricycle Double → KeloWheels → Bool
  singular platform drive =
      less (fabs platform.wheel.x) (literal "1e-3")
      || less drive.config.params.wheel_track (literal "1e-3")

  -- The velocities of the platform from those of the wheels.
  unfoldable pub tricycle_velocity : Tricycle Double → KeloWheels → Velocity Double
  tricycle_velocity platform drive =
      let tx = platform.wheel.x in
      let ty = platform.wheel.y in
      let params = drive.config.params in
      let left = drive.sensor.encoder.left_wheel.velocity in
      let right = drive.sensor.encoder.right_wheel.velocity in
      let steering_angle = plus platform.wheel.yaw drive.sensor.pivot.position in
      let cos_steering_angle = cos steering_angle in
      let sin_steering_angle = sin steering_angle in
      let current_drive_velocity =
        times (times (literal ".5") params.wheel_radius) (minus left right) in
      let current_drive_steering_rate =
        divide (times params.wheel_radius (minus (negate left) right)) params.wheel_track in
      record {
        vx =
            plus
              (times current_drive_velocity
                (plus cos_steering_angle (times (divide ty tx) sin_steering_angle)))
              (times (times current_drive_steering_rate params.pivot_offset)
                (plus (negate sin_steering_angle) (times (divide ty tx) cos_steering_angle)));
        vy = literal "0";
        w = plus (times current_drive_velocity (divide sin_steering_angle tx)) (
            times (times current_drive_steering_rate params.pivot_offset)
              (divide cos_steering_angle tx));
      }

  -- One step of Euler's method; `x` and `y` use the angle before the step.
  unfoldable pub integrate : Double → Velocity Double → Pose Double → Pose Double
  unfolding wrap_to_pi
  integrate dt velocity pose = record {
    x = plus pose.x (times (times velocity.vx (cos pose.yaw)) dt);
    y = plus pose.y (times (times velocity.vx (sin pose.yaw)) dt);
    yaw = wrap_to_pi reals (plus pose.yaw (times velocity.w dt));
  }

  unfoldable pub odometry_from_encoders_delta_tricycle :
      Tricycle Double → KeloWheels → Double → Odometry Double → Odometry Double
  unfolding tricycle_velocity integrate
  odometry_from_encoders_delta_tricycle platform drive sampling_time_ms odometry =
      let velocity = tricycle_velocity platform drive in
      if singular platform drive then odometry else record {
        pose = integrate (divide sampling_time_ms (literal "1000.0")) velocity odometry.pose;
        velocity = velocity;
      }
