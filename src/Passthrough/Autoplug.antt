-- ===== src/Passthrough/Autoplug.antt =====
-- The automatic plugging of controllers: `hid_pt_autoplug_reconcile` of
-- src/app/hid_passthrough/ctm/ui_bridge.c.
use moonlight_tv.Base.{
  ℕ, zero, suc, ◌+◌, ◌-◌, ◌≤◌, ◌<◌, List, [], ◌∷◌, ◌++◌, Option, none, some, Bool, true, false, not,
  ◌&&◌, ◌||◌, ltb, leb, ◌==◌, if◌then◌else◌, ◌≡◌, refl, sym, ap, ◌∙◌, arith, length, if_both,
  if_split,
}
use moonlight_tv.Text.{str_eq}
pub mod Gentle

-- `MAX_DEVICES` bounds the table.
abbrev pub max_fails : ℕ
max_fails = 3

abbrev pub cooldown_polls : ℕ
cooldown_polls = 4

pub data EntryState : Type 0 where
  pending : EntryState
  done : EntryState
  given_up : EntryState

-- `autoplug_entry_t`
pub record Entry : Type 0 where
  pub entry_key : List ℕ
  pub state : EntryState
  pub fail_count : ℕ

-- What a round reads of a logical device: its settings, its kind and the usage of its first node.
pub record Item : Type 0 where
  pub item_key : List ℕ
  pub plugged : Bool
  pub auto_plugin : Bool
  pub is_plain_hid : Bool
  pub is_puck : Bool
  pub usage_page : ℕ
  pub usage : ℕ

unfoldable pub usage_is_input_peripheral : ℕ → ℕ → Bool
usage_is_input_peripheral page usage =
    if page == 0x0c
    then true
    else page == 0x01 && (usage == 0x01 || usage == 0x02 || usage == 0x06 || usage == 0x07)

abbrev pub find_entry : List ℕ → List Entry → Option Entry
find_entry key [] = none
find_entry key (e ∷ es) = if str_eq e.entry_key key then some e else find_entry key es

abbrev pub put_entry : Entry → List Entry → List Entry
put_entry e [] = []
put_entry e (x ∷ xs) = if str_eq x.entry_key e.entry_key then e ∷ xs else x ∷ put_entry e xs

abbrev pub new_entry : List ℕ → Entry
new_entry key = record { entry_key = key; state = pending; fail_count = 0 }

-- `autoplug_entry_for` with `create`: the entry and the table; none for an empty key or a full table.
unfoldable pub entry_for : ℕ → List ℕ → List Entry → Option (Entry × List Entry)
entry_for max_devices [] es = none
entry_for max_devices (c ∷ cs) es = elim (find_entry (c ∷ cs) es) [
  | some e ↦ some (e, es)
  | none ↦
      if leb max_devices (length es)
      then none
      else some (new_entry (c ∷ cs), es ++ (new_entry (c ∷ cs) ∷ []))
]

-- `autoplug_mark_done`
abbrev pub done_with : Option (Entry × List Entry) → List Entry → List Entry
done_with none es = es
done_with (some (e, es')) es = put_entry (record e { state = done; fail_count = 0 }) es'

unfoldable pub mark_done : ℕ → List ℕ → List Entry → List Entry
mark_done max_devices key es = done_with (entry_for max_devices key es) es

abbrev pub is_pending : EntryState → Bool
is_pending pending = true
is_pending done = false
is_pending given_up = false

-- An entry after a failed attempt.
abbrev pub failed_once : Entry → Entry
failed_once e =
    if leb max_fails (e.fail_count + 1)
    then record e { state = given_up; fail_count = e.fail_count + 1 }
    else record e { fail_count = e.fail_count + 1 }

-- The tests before the entry is looked up: the setting, the kind and the usage.
abbrev pub is_eligible : Item → Bool
is_eligible i =
    i.auto_plugin
    && not i.is_plain_hid
    && (i.is_puck || not (usage_is_input_peripheral i.usage_page i.usage))

-- The table, the cooldown, the items, and the attempts in order with their results. For each that
-- succeeds the key of the device is added to the plugged ones (`set_plug_key`) and its gamepad handed
-- over (`hid_pt_moonlight_exclude`); the loop reads neither.
pub record Round : Type 0 where
  pub entries : List Entry
  pub cooldown : ℕ
  pub items : List Item
  pub attempts : List (List ℕ × Bool)

abbrev pub with_item : Item → Round → Round
with_item i r = record r { items = i ∷ r.items }

abbrev pub with_attempt : Item → Round → Round
with_attempt i r = record r {
  items = record i { plugged = true } ∷ r.items;
  attempts = (i.item_key, true) ∷ r.attempts;
}

abbrev pub failed_round : Item → List Item → Entry → List Entry → Round
failed_round i is e es = record {
  entries = put_entry (failed_once e) es;
  cooldown = cooldown_polls;
  items = i ∷ is;
  attempts = (i.item_key, false) ∷ [];
}

-- The loop over the devices; `plugs` says whether plugging a device succeeds.
unfoldable pub reconcile_items : (List ℕ → Bool) → ℕ → List Item → List Entry → Round
reconcile_items plugs m [] es = record { entries = es; cooldown = 0; items = []; attempts = [] }
reconcile_items plugs m (i ∷ is) es =
    let seen : Round = reconcile_items plugs m is (mark_done m i.item_key es) in
    let passed : Round = reconcile_items plugs m is es in
    if i.plugged
    then with_item i seen
    else if not (is_eligible i)
    then with_item i passed
    else (elim (entry_for m i.item_key es) [
      | none ↦ with_item i passed
      | some t ↦
          if not (is_pending (t.0).state)
          then with_item i (reconcile_items plugs m is t.1)
          else if plugs i.item_key
          then with_attempt i (
              reconcile_items plugs m is
                (put_entry (record t.0 { state = done; fail_count = 0 }) t.1))
          else failed_round i is t.0 t.1
    ])

-- While it cools down a round only notes the devices that are plugged.
abbrev pub note_plugged : ℕ → List Item → List Entry → List Entry
note_plugged m [] es = es
note_plugged m (i ∷ is) es = note_plugged m is (if i.plugged then mark_done m i.item_key es else es)

-- `hid_pt_autoplug_reconcile` behind the two functions that drop what is gone.
unfoldable pub reconcile : (List ℕ → Bool) → ℕ → ℕ → List Item → List Entry → Round
reconcile plugs m zero is es = reconcile_items plugs m is es
reconcile plugs m (suc cooldown) is es = record {
  entries = note_plugged m is es;
  cooldown = cooldown;
  items = is;
  attempts = [];
}
