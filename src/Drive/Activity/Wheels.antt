-- ===== src/Drive/Activity/Wheels.antt =====
-- The loops over the wheels (mobile_platform_drive/src/activity/kelo_drive_activity.c). The
-- definitions named after a loop are its body, for the wheel with an index.
use Prim.Native.Nat.{bit_or}
use ecs_private.Common.{
  ℕ, Option, some, Bool, true, ◌==◌, ◌||◌, if◌then◌else◌, ◌>>=◌, get_elem?, set,
}
use ecs_private.Navigation.{Wheels, Actuation, command_mode_torque, command_mode_velocity}
use ecs_private.Drive.{SoemState, Rxpdo}
use ecs_private.Drive.Ethercat.{read_write_ethercat}
use ecs_private.Drive.Sensor.{txpdo1_to_differential_drive_sensor}
use ecs_private.Drive.Activity.{
  Platform, KeloDrive, Params, Continuous, World, pointer_at, for_range,
}

-- `COM1_ENABLE1`, `COM1_ENABLE2`
abbrev pub com1_enable1 : ℕ
com1_enable1 = 0x0001

abbrev pub com1_enable2 : ℕ
com1_enable2 = 0x0002

-- `COM1_MODE_TORQUE`, `COM1_MODE_VELOCITY`
abbrev pub com1_mode_torque : ℕ
com1_mode_torque = 0

abbrev pub com1_mode_velocity : ℕ
com1_mode_velocity = 8

module _ (platform : Platform) where
  open platform use {numbers, soem}
  open numbers use {Double, Float, Int, literal, float_of}
  open soem use {rx, write_rx, tx}

  abbrev pub W : Type 0
  W = World platform

  abbrev pub set_params : W → Params platform → W
  set_params w p = record w { activity = record (w.activity) { params = some p } }

  abbrev pub set_continuous : W → Continuous platform → W
  set_continuous w c = record w { activity = record (w.activity) { continuous = some c } }

  abbrev pub set_soem_state : W → Continuous platform → SoemState Int → W
  set_soem_state w c s = set_continuous w (record c { kelo_soem_state = s })

  -- A write into `params->drive[i]`.
  abbrev pub set_drive : W → Params platform → ℕ → KeloDrive platform → W
  set_drive w p i d = set_params w (record p { drive = set p.drive i d })

  abbrev pub write_drive : W → ℕ → KeloDrive platform → W
  write_drive w a d = record w { drives = λ b. if a == b then d else w.drives b }

  abbrev pub write_flag : W → ℕ → Bool → W
  write_flag w a b = record w { flags = λ x. if a == x then b else w.flags x }

  abbrev pub no_wheels : Wheels Double
  no_wheels = record { left_wheel = literal "0"; right_wheel = literal "0" }

  -- A write through `cmd_data_smart_wheel[i]`.
  abbrev pub change_message : (Rxpdo Float → Rxpdo Float) → SoemState Int → ℕ → W → Option W
  change_message change s i w = do
    a ← pointer_at s.cmd_data_smart_wheel i
    some (record w { ethercat = write_rx w.ethercat a (change (rx w.ethercat a)) })

  -- `for (int i = 0; i < kelo_soem_state->nb_smart_wheel_detected; i++)`
  abbrev pub for_wheels : (Continuous platform → ℕ → W → Option W) → W → Option W
  for_wheels body w = do
    c ← w.activity.continuous
    for_range c.kelo_soem_state.nb_smart_wheel_detected 0 (body c) w

  -- Resource configuration: the messages to the wheels.
  unfoldable pub reset_message : Continuous platform → ℕ → W → Option W
  reset_message c i w =
      change_message
        (λ r. record r {
          command1 = 0x00;
          command2 = 0x00;
          setpoint1 = float_of (literal "0.0");
          setpoint2 = float_of (literal "0.0");
          limit1_p = float_of (literal "4.0");
          limit1_n = float_of (literal "-4.0");
          limit2_p = float_of (literal "4.0");
          limit2_n = float_of (literal "-4.0");
        })
        c.kelo_soem_state i w

  -- And the local drives.
  unfoldable pub reset_drive : Continuous platform → ℕ → W → Option W
  reset_drive c i w = do
    p ← w.activity.params
    d ← get_elem? p.drive i
    some (
        set_drive w p i (record d {
          actuation = record (d.actuation) {
            mode = 0x00;
            velocity = no_wheels;
            current = no_wheels;
          };
        }))

  -- Capability configuration: the mode that other activities ask for.
  unfoldable pub communicate_mode : Continuous platform → ℕ → W → Option W
  communicate_mode c i w = do
    p ← w.activity.params
    coord ← w.activity.coordination_state
    lock ← pointer_at coord.drive_lock i
    d ← get_elem? p.drive i
    a ← pointer_at p.rt_drive i
    some (
        set_drive w p i
          (record d { actuation = record (d.actuation) { mode = (w.drives a).actuation.mode } }))

  -- The mode in the message to the wheel.
  abbrev pub mode_message : ℕ → Rxpdo Float → Rxpdo Float
  mode_message mode r =
      if mode == command_mode_torque
      then record r { command1 = com1_mode_torque }
      else if mode == command_mode_velocity
      then record r { command1 = com1_mode_velocity }
      else record r {
        command1 = 0x00;
        setpoint1 = float_of (literal "0.0");
        setpoint2 = float_of (literal "0.0");
      }

  unfoldable pub compute_mode : Continuous platform → ℕ → W → Option W
  compute_mode c i w = do
    p ← w.activity.params
    d ← get_elem? p.drive i
    change_message (mode_message d.actuation.mode) c.kelo_soem_state i w

  -- Running: what other activities ask for, when the mode is the one that they ask for.
  unfoldable pub communicate_setpoint : Continuous platform → ℕ → W → Option W
  communicate_setpoint c i w = do
    p ← w.activity.params
    coord ← w.activity.coordination_state
    lock ← pointer_at coord.drive_lock i
    a ← pointer_at p.rt_drive i
    d ← get_elem? p.drive i
    let asked = (w.drives a).actuation
    let stopped = record d {
      actuation = record (d.actuation) { velocity = no_wheels; current = no_wheels };
    }
    (if asked.mode == d.actuation.mode
        then some (
            set_drive w p i (record d {
              actuation = record (d.actuation) {
                velocity = asked.velocity;
                current = asked.current;
              };
            }))
        else if (asked.mode == command_mode_torque) || (asked.mode == command_mode_velocity)
        then (do
          request ← coord.configuration_request
          some (set_drive (write_flag w request true) p i stopped))
        else some (set_drive w p i stopped))

  -- The message of a running wheel. Motor 1 drives the right wheel.
  abbrev pub setpoint_message : Actuation Double → Rxpdo Float → Rxpdo Float
  setpoint_message actuation r =
      let enabled = record r { command1 = bit_or r.command1 (bit_or com1_enable1 com1_enable2) } in
      if actuation.mode == command_mode_velocity
      then record enabled {
        setpoint1 = float_of actuation.velocity.right_wheel;
        setpoint2 = float_of actuation.velocity.left_wheel;
      }
      else if actuation.mode == command_mode_torque
      then record enabled {
        setpoint1 = float_of actuation.current.right_wheel;
        setpoint2 = float_of actuation.current.left_wheel;
      }
      else record enabled { setpoint1 = float_of (literal "0"); setpoint2 = float_of (literal "0") }

  unfoldable pub send_setpoint : Continuous platform → ℕ → W → Option W
  send_setpoint c i w = do
    p ← w.activity.params
    d ← get_elem? p.drive i
    change_message (setpoint_message d.actuation) c.kelo_soem_state i w

  unfoldable pub read_sensor : Continuous platform → ℕ → W → Option W
  unfolding txpdo1_to_differential_drive_sensor
  read_sensor c i w = do
    p ← w.activity.params
    d ← get_elem? p.drive i
    a ← pointer_at c.kelo_soem_state.sensor_data_smart_wheel i
    some (
        set_drive w p i
          (record d { sensor = txpdo1_to_differential_drive_sensor numbers (tx w.ethercat a) }))

  unfoldable pub share_sensor : Continuous platform → ℕ → W → Option W
  share_sensor c i w = do
    p ← w.activity.params
    coord ← w.activity.coordination_state
    lock ← pointer_at coord.drive_lock i
    a ← pointer_at p.rt_drive i
    d ← get_elem? p.drive i
    some (write_drive w a (record (w.drives a) { sensor = d.sensor }))

  -- `read_write_ethercat(&continuous_state->kelo_soem_state)`
  unfoldable pub exchange_messages : W → Option W
  exchange_messages w = do
    c ← w.activity.continuous
    let (s, e) = read_write_ethercat soem c.kelo_soem_state w.ethercat
    some (set_soem_state (record w { ethercat = e }) c s)
