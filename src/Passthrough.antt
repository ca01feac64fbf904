-- ===== src/Passthrough.antt =====
-- Gamepads that a HID device takes over from the stream, and the search for the one that belongs to
-- a device: src/app/hid_passthrough/hid_pt_gamepad_match.c.
mod Slots
pub mod Autoplug
pub mod Match
pub mod Handover
mod Examples
use moonlight_tv.Base.{
  ℕ, zero, suc, ◌+◌, ◌%◌, List, [], ◌∷◌, ◌++◌, Option, none, some, Bool, true, false, not, ◌&&◌,
  ◌||◌, leb, ltb, ◌==◌, if◌then◌else◌, length,
}
use moonlight_tv.Base.Bits.{set_bit, clear_bit}
use moonlight_tv.Text.{codes, lower, str_eq, search_ci}
use moonlight_tv.Prefs.{Table, is_blank}
use moonlight_tv.Prefs.Ids.{
  Logical, Joystick, id_for_logical, id_for_gamepad, auto_plugin_for_gamepad,
}
use moonlight_tv.Pads.{Pad, Session, PadCall, send_arrive, send_remove}

-- A gamepad in a slot: what the host is told of it, and its joystick if the controller is open.
pub record Player : Type 0 where
  pub pad : Pad
  pub joystick : Option Joystick

-- The slots of `app_input_t` as `app_input_gamepad_state_by_index` gives them, and its count.
pub record Players : Type 0 where
  pub slots : List (Option Player)
  pub gamepads_count : ℕ

unfoldable pub ids_equal : List ℕ → List ℕ → Bool
ids_equal a b = if is_blank a || is_blank b then false else str_eq a b

-- `strcasecmp(a, b) == 0`
unfoldable pub same_ci : List ℕ → List ℕ → Bool
same_ci [] [] = true
same_ci [] (b ∷ bs) = false
same_ci (a ∷ as') [] = false
same_ci (a ∷ as') (b ∷ bs) = lower a == lower b && same_ci as' bs

unfoldable pub names_match : List ℕ → List ℕ → Bool
unfolding same_ci
names_match a b =
    let shorter = if leb (length a) (length b) then a else b in
    let longer = if leb (length a) (length b) then b else a in
    if is_blank a || is_blank b
    then false
    else if same_ci a b
    then true
    else if ltb (length shorter) 4
    then false
    else search_ci longer shorter

abbrev pub has_serial : Joystick → Bool
has_serial j = elim j.serial [ none ↦ false | some s ↦ not (is_blank s) ]

-- The first slot that passes a test.
unfoldable pub first_slot : (Player → Bool) → List (Option Player) → Option Player
first_slot f [] = none
first_slot f (none ∷ gs) = first_slot f gs
first_slot f (some g ∷ gs) = let rest = first_slot f gs in if f g then some g else rest

unfoldable pub gamepad_by_gs_id : List (Option Player) → ℕ → Option Player
unfolding first_slot
gamepad_by_gs_id slots gs_id = first_slot (λ g. g.pad.gs_id == gs_id) slots

abbrev pub has_vid_pid : ℕ → ℕ → Player → Bool
has_vid_pid vid pid g = elim g.joystick [
  | none ↦ false
  | some j ↦ j.vendor % 65536 == vid && j.product % 65536 == pid
]

-- `count_gamepads_vid_pid`: how many, and the last of them.
unfoldable pub count_vid_pid : ℕ → ℕ → List (Option Player) → ℕ × Option Player → ℕ × Option Player
count_vid_pid vid pid [] acc = acc
count_vid_pid vid pid (none ∷ gs) acc = count_vid_pid vid pid gs acc
count_vid_pid vid pid (some g ∷ gs) (n, last) =
    let hit = count_vid_pid vid pid gs (n + 1, some g) in
    let miss = count_vid_pid vid pid gs (n, last) in if has_vid_pid vid pid g then hit else miss

unfoldable pub sole_gamepad : Players → Option Player
unfolding first_slot
sole_gamepad ps = if ps.gamepads_count == 1 then first_slot (λ g. true) ps.slots else none

abbrev pub or_else : Option Player → Option Player → Option Player
or_else none b = b
or_else (some g) b = some g

abbrev pub remember : Logical → Option Player → Logical × Option Player
remember item none = (record item { moonlight_gs_id = none }, none)
remember item (some g) = (record item { moonlight_gs_id = some g.pad.gs_id }, some g)

unfoldable pub cached_gamepad : Players → Logical → Option Player
unfolding gamepad_by_gs_id
cached_gamepad ps item = elim item.moonlight_gs_id [
  | none ↦ none
  | some k ↦ gamepad_by_gs_id ps.slots k
]

-- `moonlight_exclude_gamepad` and `moonlight_restore_gamepad`
unfoldable pub exclude_gamepad : Session → Player → Session × List PadCall
unfolding send_remove
exclude_gamepad s g =
    let (s1, calls) = if s.started then send_remove s g.pad else (s, []) in
    (record s1 { excluded = set_bit s1.excluded g.pad.gs_id }, calls)

unfoldable pub restore_gamepad : Session → Player → Session × List PadCall
unfolding send_arrive
restore_gamepad s g =
    let s1 : Session = record s { excluded = clear_bit s.excluded g.pad.gs_id } in
    if s1.started then send_arrive s1 g.pad else (s1, [])

abbrev pub assigned : Logical → Player → Logical
assigned item g = record item { moonlight_gs_id = some g.pad.gs_id }

-- The reader of hexadecimal numbers (`sscanf` with `%x`) is the C library's, an argument here.
module _ (scan_hex : List ℕ → Option ℕ) where
  unfoldable pub vid_pid_equal : List ℕ → List ℕ → ℕ → ℕ → Bool
  vid_pid_equal vid pid v p = if is_blank vid || is_blank pid then false else elim (scan_hex vid) [
    | none ↦ false
    | some hv ↦ elim (scan_hex pid) [ none ↦ false | some hp ↦ hv == v && hp == p ]
  ]

  -- `hid_pt_match_gamepad_to_logical`
  unfoldable pub matches : Player → Logical → Bool
  unfolding ids_equal vid_pid_equal names_match id_for_gamepad id_for_logical
  matches g item = elim g.joystick [
    | none ↦ false
    | some j ↦
        let pad_id = id_for_gamepad (some j) in
        let item_id = id_for_logical item in
        if ids_equal pad_id item_id
        then true
        else if has_serial j
            && not (is_blank pad_id)
            && length pad_id == 12
            && ids_equal pad_id item_id
        then true
        else if not (vid_pid_equal item.vid item.pid (j.vendor % 65536) (j.product % 65536))
        then false
        else if names_match j.joy_name item.name
        then true
        else not (is_blank pad_id) && not (is_blank item_id) && str_eq pad_id item_id
  ]

  unfoldable pub only_vid_pid : List (Option Player) → Logical → Option Player
  unfolding count_vid_pid
  only_vid_pid slots item =
      if is_blank item.vid || is_blank item.pid then none else elim (scan_hex item.vid) [
        | none ↦ none
        | some v ↦ elim (scan_hex item.pid) [
          | none ↦ none
          | some p ↦
              let (n, last) = count_vid_pid (v % 65536) (p % 65536) slots (0, none) in
              if n == 1 then last else none
        ]
      ]

  -- The three ways to find a gamepad that is not cached, in order.
  unfoldable pub search_gamepad : Players → Logical → Option Player
  unfolding first_slot matches only_vid_pid sole_gamepad
  search_gamepad ps item =
      or_else (first_slot (λ g. matches g item) ps.slots)
        (or_else (only_vid_pid ps.slots item) (sole_gamepad ps))

  -- `hid_pt_find_gamepad_for_logical`
  unfoldable pub find_gamepad : Players → Logical → Logical × Option Player
  unfolding cached_gamepad search_gamepad
  find_gamepad ps item = elim (cached_gamepad ps item) [
    | some g ↦ (item, some g)
    | none ↦ remember item (search_gamepad ps item)
  ]

  -- `hid_pt_find_logical_for_gamepad`: the devices, and whether one was found.
  unfoldable pub find_logical : List Logical → Player → List Logical × Bool
  unfolding matches
  find_logical [] g = ([], false)
  find_logical (item ∷ items) g =
      let (rest, found) = find_logical items g in
      if matches g item
      then (record item { moonlight_gs_id = some g.pad.gs_id } ∷ items, true)
      else (item ∷ rest, found)

  -- `hid_pt_moonlight_excluded_mask_at_start`, from a mask on.
  unfoldable pub excluded_at_start :
      Table → ℕ → List Logical → List (Option Player) → ℕ × List Logical
  unfolding find_logical auto_plugin_for_gamepad
  excluded_at_start t mask items [] = (mask, items)
  excluded_at_start t mask items (none ∷ gs) = excluded_at_start t mask items gs
  excluded_at_start t mask items (some g ∷ gs) =
      let skip = excluded_at_start t mask items gs in
      let take_over = excluded_at_start t (set_bit mask g.pad.gs_id) (find_logical items g).0 gs in
      if auto_plugin_for_gamepad t g.joystick then take_over else skip

  -- `hid_pt_moonlight_exclude` and `hid_pt_moonlight_restore`
  unfoldable pub moonlight_exclude :
      Players → Session → Logical → Logical × (Session × List PadCall)
  unfolding find_gamepad exclude_gamepad
  moonlight_exclude ps s item =
      let (item1, found) = find_gamepad ps item in
      elim found [ none ↦ (item1, (s, [])) | some g ↦ (assigned item1 g, exclude_gamepad s g) ]

  unfoldable pub moonlight_restore :
      Players → Session → Logical → Logical × (Session × List PadCall)
  unfolding find_gamepad restore_gamepad
  moonlight_restore ps s item =
      let (item1, found) = find_gamepad ps item in
      elim found [ none ↦ (item1, (s, [])) | some g ↦ (assigned item1 g, restore_gamepad s g) ]
