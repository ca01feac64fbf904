-- ===== src/Gamepad/Examples.antt =====
-- The theorems about gamepad slots at concrete devices.
use moonlight_tv.Base.{ℕ, [], ◌∷◌, none, some, true, arith}
use moonlight_tv.Text.{codes}
use moonlight_tv.Gamepad.{Candidate, init}
use moonlight_tv.Gamepad.Invariant.{Inv}
use moonlight_tv.Gamepad.Preserve.{plugged, unplugged, run, run-Inv}

abbrev pad : ℕ → Candidate
pad id = record {
  is_controller = true;
  opens = true;
  name = some (codes "Xbox Controller");
  axes = 6;
  buttons = 11;
  device = record { sdl_id = id; guid = 77; serial = none };
}

run-Inv_example : Inv (run init (plugged true (pad 0) ∷ plugged true (pad 1) ∷ unplugged 0 ∷ []))
run-Inv_example =
    run-Inv (plugged true (pad 0) ∷ plugged true (pad 1) ∷ unplugged 0 ∷ []) (omega arith)
