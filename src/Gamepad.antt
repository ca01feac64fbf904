-- ===== src/Gamepad.antt =====
-- Gamepad slots: src/app/input/input_gamepad.c and the part of src/app/input/app_input.c that
-- initialises them. SDL is not part of the repository: what it says of a device is an argument.
pub mod Invariant
pub mod Search
pub mod Preserve
mod Examples
use moonlight_tv.Base.{
  ℕ, zero, suc, ◌+◌, ◌-◌, List, [], ◌∷◌, Option, none, some, Bool, true, false, not, ◌&&◌, ◌||◌,
  leb, ltb, ◌==◌, if◌then◌else◌, length, get_elem?, set, replicate,
}
use moonlight_tv.Base.Bits.{test_bit, set_bit, clear_bit}
use moonlight_tv.Text.{codes, contains_ci}

-- What SDL reports of an open controller. `serial` is the CRC of its serial number, if it has one.
pub record Device : Type 0 where
  pub sdl_id : ℕ
  pub guid : ℕ
  pub serial : Option ℕ

-- `app_gamepad_state_t`, without the button and sensor state. An `instance_id` or `gs_id` of -1 is
-- `none`.
pub record Slot : Type 0 where
  pub instance_id : Option ℕ
  pub controller : Bool
  pub guid : ℕ
  pub serial_crc : ℕ
  pub gs_id : Option ℕ

-- `app_input_t`: the first `max_num_gamepads` slots.
pub record Input : Type 0 where
  pub gamepads : List Slot
  pub gamepads_count : ℕ
  pub active_mask : ℕ

abbrev pub unused : Slot
unused = record { instance_id = none; controller = false; guid = 0; serial_crc = 0; gs_id = none }

-- The slots as `app_input_init` leaves them; `app_t` is zeroed before.
unfoldable pub init : Input
init = record { gamepads = replicate 4 unused; gamepads_count = 0; active_mask = 0 }

unfoldable pub is_open : Slot → Bool
is_open s = elim s.instance_id [ none ↦ false | some id ↦ true ]

unfoldable pub is_same_gamepad : Slot → Device → Bool
is_same_gamepad s d =
    if not (s.guid == d.guid)
    then false
    else elim d.serial [ none ↦ s.serial_crc == 0 | some crc ↦ s.serial_crc == crc ]

-- The variable `index` of the loop, kept from the first free slot on.
unfoldable pub or_else : Option ℕ → ℕ → ℕ
or_else none i = i
or_else (some j) i = j

-- The loop of `new_gamepad_state_index` from slot `i` on.
unfoldable pub scan_slots : Device → List Slot → ℕ → Option ℕ → Option ℕ
unfolding or_else
scan_slots d [] i index = index
scan_slots d (s ∷ ss) i index = elim (is_open s) [
  | true ↦ scan_slots d ss (i + 1) index
  | false ↦ elim (is_same_gamepad s d) [
    | true ↦ some i
    | false ↦ scan_slots d ss (i + 1) (some (or_else index i))
  ]
]

unfoldable pub new_gamepad_state_index : Input → Device → Option ℕ
new_gamepad_state_index input d = scan_slots d input.gamepads 0 none

-- The loop of `next_gamepad_gs_id` with `n` rounds left.
unfoldable pub next_free_bit : ℕ → ℕ → ℕ → Option ℕ
next_free_bit mask zero i = none
next_free_bit mask (suc n) i = elim (test_bit mask i) [
  | true ↦ next_free_bit mask n (i + 1)
  | false ↦ some i
]

unfoldable pub next_gamepad_gs_id : Input → Option ℕ
next_gamepad_gs_id input = next_free_bit input.active_mask (length input.gamepads) 0

-- The number that a slot keeps, or the next free one.
unfoldable pub slot_gs_id : Input → Slot → Option ℕ
slot_gs_id input s = elim s.gs_id [ none ↦ next_gamepad_gs_id input | some g ↦ some g ]

abbrev pub crc_of : Option ℕ → ℕ
crc_of none = 0
crc_of (some crc) = crc

abbrev pub opened : Device → ℕ → Slot
opened d gs = record {
  instance_id = some d.sdl_id;
  controller = true;
  guid = d.guid;
  serial_crc = crc_of d.serial;
  gs_id = some gs;
}

-- A slot at an index is filled for a device; with it the number that it got.
unfoldable pub fill_slot : Input → Device → ℕ → Option Slot → Option (Input × ℕ)
unfolding slot_gs_id
fill_slot input d i none = none
fill_slot input d i (some s) = elim (slot_gs_id input s) [
  | none ↦ none
  | some gs ↦ some (record input { gamepads = set input.gamepads i (opened d gs) }, gs)
]

unfoldable pub state_init : Input → Device → Option (Input × ℕ)
unfolding fill_slot
state_init input d = elim (new_gamepad_state_index input d) [
  | none ↦ none
  | some i ↦ fill_slot input d i (get_elem? input.gamepads i)
]

-- A candidate as SDL lists it: whether it has a mapping, opens, and what it looks like.
pub record Candidate : Type 0 where
  pub is_controller : Bool
  pub opens : Bool
  pub name : Option (List ℕ)
  pub axes : ℕ
  pub buttons : ℕ
  pub device : Device

unfoldable pub name_is_non_gamepad : Option (List ℕ) → Bool
name_is_non_gamepad name =
    contains_ci name (codes "remote")
    || (contains_ci name (codes "keyboard")
        || (contains_ci name (codes "mouse")
            || (contains_ci name (codes "pointer")
                || (contains_ci name (codes "touch")
                    || (contains_ci name (codes "air mouse")
                        || (contains_ci name (codes "webos")
                            || (contains_ci name (codes "lge")
                                || contains_ci name (codes "lg electronics"))))))))

unfoldable pub should_ignore : Candidate → Bool
should_ignore c = name_is_non_gamepad c.name || (ltb c.axes 4 || ltb c.buttons 8)

-- `app_input_init_gamepad`; the first argument says whether the target is webOS.
unfoldable pub init_gamepad : Bool → Input → Candidate → Input × Bool
init_gamepad webos input c =
    if not c.is_controller
    then (input, false)
    else if not c.opens
    then (input, false)
    else if webos && should_ignore c
    then (input, false)
    else elim (state_init input c.device) [
      | none ↦ (input, false)
      | some (input', gs) ↦ (
        record input' {
          active_mask = set_bit input'.active_mask gs;
          gamepads_count = input'.gamepads_count + 1;
        },
        true,
      )
    ]

-- `app_input_gamepad_state_deinit`
unfoldable pub deinit_slot : Slot → Slot
deinit_slot s = record s { instance_id = none; controller = false }

unfoldable pub has_instance : Slot → ℕ → Bool
has_instance s id = elim s.instance_id [ none ↦ false | some j ↦ j == id ]

-- `app_input_gamepad_state_by_instance_id` from slot `i` on: the slot and where it is.
unfoldable pub by_instance_id : List Slot → ℕ → ℕ → Option (ℕ × Slot)
by_instance_id [] i id = none
by_instance_id (s ∷ ss) i id = elim (has_instance s id) [
  | true ↦ some (i, s)
  | false ↦ by_instance_id ss (i + 1) id
]

-- `app_input_gamepad_state_by_index`
unfoldable pub by_index : Input → ℕ → Option Slot
by_index input i = elim (get_elem? input.gamepads i) [
  | none ↦ none
  | some s ↦ if is_open s then some s else none
]

-- What `app_input_close_gamepad` does with the slot that it found. The code asserts that the slot
-- has a number.
unfoldable pub close_slot : Input → Option (ℕ × Slot) → Input
close_slot input none = input
close_slot input (some (i, s)) = if not s.controller then input else elim s.gs_id [
  | none ↦ input
  | some gs ↦ record {
    gamepads = set input.gamepads i (deinit_slot s);
    gamepads_count = input.gamepads_count - 1;
    active_mask = clear_bit input.active_mask gs;
  }
]

unfoldable pub close_gamepad : Input → ℕ → Input
unfolding close_slot
close_gamepad input id = close_slot input (by_instance_id input.gamepads 0 id)
