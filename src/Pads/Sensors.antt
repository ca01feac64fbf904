-- ===== src/Pads/Sensors.antt =====
-- The sensors and the touchpad of a gamepad: `stream_input_handle_csensor` and
-- `stream_input_handle_ctouchpad` of src/app/stream/input/session_gamepad.c.
use moonlight_tv.Base.{
  ℕ, ◌+◌, ◌-◌, ◌%◌, ◌^◌, List, [], ◌∷◌, Bool, false, not, ◌&&◌, ◌||◌, ltb, ◌==◌, if◌then◌else◌,
}
use moonlight_tv.Pads.{Session, sends_moonlight}

-- The type of floating-point numbers is an argument, with its test `==` and the factor from radians
-- to degrees.
pub data Reading (F : Type 0) : Type 0 where
  axes : F → F → F → Reading F

-- `app_gamepad_sensor_state_t`
pub record SensorState (F : Type 0) : Type 0 where
  pub period_ms : ℕ
  pub last_timestamp : ℕ
  pub values : Reading F

pub record Sensors (F : Type 0) : Type 0 where
  pub accel : SensorState F
  pub gyro : SensorState F

pub data Sensor : Type 0 where
  sensor_accel sensor_gyro sensor_unknown : Sensor

pub data PadTouch : Type 0 where
  touch_down touch_up touch_move touch_unknown : PadTouch

pub data SensorCall (F : Type 0) : Type 0 where
  motion : ℕ → Sensor → Reading F → SensorCall F
  pad_touch : ℕ → PadTouch → ℕ → F → F → F → SensorCall F

-- `SDL_TICKS_PASSED`: the difference, as a signed number of 32 bits, is not positive.
abbrev pub ticks_passed : ℕ → ℕ → Bool
ticks_passed a b =
    let d : ℕ = (b % 2 ^ 32 + 2 ^ 32 - a % 2 ^ 32) % 2 ^ 32 in d == 0 || not (ltb d (2 ^ 31))

module _ {F : Type 0} (same : F → F → Bool) (to_degrees : F → F) where
  unfoldable pub same_reading : Reading F → Reading F → Bool
  same_reading (axes x y z) (axes x' y' z') = same x x' && same y y' && same z z'

  unfoldable pub needs_update : SensorState F → ℕ → Reading F → Bool
  unfolding same_reading
  needs_update s timestamp r =
      if s.period_ms == 0 || not (ticks_passed timestamp (s.last_timestamp + s.period_ms))
      then false
      else not (same_reading s.values r)

  abbrev pub in_degrees : Reading F → Reading F
  in_degrees (axes x y z) = axes (to_degrees x) (to_degrees y) (to_degrees z)

  abbrev pub updated : SensorState F → ℕ → Reading F → SensorState F
  updated s timestamp r = record s { last_timestamp = timestamp; values = r }

  -- `stream_input_handle_csensor`, for a gamepad that has a slot.
  unfoldable pub handle_csensor :
      Session → ℕ → Sensors F → Sensor → ℕ → Reading F → Sensors F × List (SensorCall F)
  unfolding needs_update
  handle_csensor s gs_id t sensor_unknown timestamp r = (t, [])
  handle_csensor s gs_id t sensor_accel timestamp r =
      if not (sends_moonlight s gs_id)
      then (t, [])
      else if needs_update t.accel timestamp r
      then (record t { accel = updated t.accel timestamp r }, motion gs_id sensor_accel r ∷ [])
      else (t, [])
  handle_csensor s gs_id t sensor_gyro timestamp r =
      if not (sends_moonlight s gs_id)
      then (t, [])
      else if needs_update t.gyro timestamp r
      then (
        record t { gyro = updated t.gyro timestamp r },
        motion gs_id sensor_gyro (in_degrees r) ∷ [],
      )
      else (t, [])

-- `stream_input_handle_ctouchpad`, for a gamepad that has a slot.
unfoldable pub handle_ctouchpad :
    {F : Type 0} → Session → ℕ → ℕ → PadTouch → ℕ → F → F → F → List (SensorCall F)
handle_ctouchpad s gs_id touchpad touch_unknown finger x y pressure = []
handle_ctouchpad s gs_id touchpad k finger x y pressure =
    if not (sends_moonlight s gs_id)
    then []
    else if touchpad == 0
    then pad_touch gs_id k finger x y pressure ∷ []
    else []
