-- ===== src/Prefs.antt =====
-- The preferences of single devices: src/app/hid_passthrough/hid_pt_device_prefs.c.
pub mod Table
pub mod Ids
mod Places
pub mod Answers
pub mod File
pub mod Flush
pub mod RoundTrip
mod Examples
use moonlight_tv.Base.{
  ℕ, zero, suc, ◌+◌, List, [], ◌∷◌, ◌++◌, Option, none, some, Bool, true, false, not, ◌&&◌, ◌||◌,
  leb, ltb, ◌==◌, if◌then◌else◌, length, take,
}
use moonlight_tv.Text.{codes, lower, str_eq}
use moonlight_tv.Settings.{is_true}

-- `HID_PT_PREFS_MAX`, and the characters that an id of `HID_PT_STABLE_ID_LEN` bytes holds.
abbrev pub max_entries : ℕ
max_entries = 32

abbrev pub id_len : ℕ
id_len = 95

-- `hid_pt_pref_entry_t`
pub record Entry : Type 0 where
  pub id : List ℕ
  pub auto_plugin : Bool

abbrev pub Table : Type 0
Table = List Entry

-- What `hid_pt_prefs_init` and `hid_pt_prefs_clear` leave.
abbrev pub cleared : Table
cleared = []

abbrev pub is_separator : ℕ → Bool
is_separator c = c == b':' || c == b'-' || c == b' '

-- `normalize_mac_to_stable_id` with room for so many characters.
unfoldable pub normalize_mac : ℕ → List ℕ → List ℕ
normalize_mac zero src = []
normalize_mac (suc room) [] = []
normalize_mac (suc room) (c ∷ cs) =
    let short = normalize_mac (suc room) cs in
    let more = lower c ∷ normalize_mac room cs in if is_separator c then short else more

-- `pref_find`: the place of the entry.
unfoldable pub find_from : ℕ → Table → List ℕ → Option ℕ
find_from i [] id = none
find_from i (e ∷ es) id =
    let rest = find_from (i + 1) es id in if str_eq e.id id then some i else rest

unfoldable pub pref_find : Table → List ℕ → Option ℕ
unfolding find_from
pref_find t [] = none
pref_find t (c ∷ cs) = find_from 0 t (c ∷ cs)

abbrev pub is_blank : List ℕ → Bool
is_blank [] = true
is_blank (c ∷ cs) = false

-- `pref_upsert`: the table and the place of the entry.
unfoldable pub pref_upsert : Table → List ℕ → Table × Option ℕ
unfolding pref_find
pref_upsert t id = elim (pref_find t id) [
  | some i ↦ (t, some i)
  | none ↦
      if leb max_entries (length t) || is_blank id
      then (t, none)
      else (t ++ (record { id = take id_len id; auto_plugin = false } ∷ []), some (length t))
]

-- `e->auto_plugin = value` for the entry at a place.
unfoldable pub assign_at : Table → ℕ → Bool → Table
assign_at [] i v = []
assign_at (e ∷ es) zero v = record e { auto_plugin = v } ∷ es
assign_at (e ∷ es) (suc i) v = e ∷ assign_at es i v

-- `hid_pt_prefs_set_auto_plugin` on the table; the flag says whether the file is written.
unfoldable pub set_auto_plugin : Table → List ℕ → Bool → Table × Bool
unfolding pref_upsert assign_at
set_auto_plugin t id v =
    let (t1, place) = pref_upsert t id in
    elim place [ none ↦ (t1, false) | some i ↦ (assign_at t1 i v, true) ]

unfoldable pub value_at : Table → ℕ → Bool
value_at [] i = false
value_at (e ∷ es) zero = e.auto_plugin
value_at (e ∷ es) (suc i) = value_at es i

unfoldable pub get_auto_plugin : Table → List ℕ → Bool
unfolding pref_find value_at
get_auto_plugin t id = elim (pref_find t id) [ none ↦ false | some i ↦ value_at t i ]

abbrev pub section_name : List ℕ
section_name = codes "hid_pt_devices"

-- `hid_pt_prefs_ini_handler`; the flag is its result.
unfoldable pub ini_handler : Table → List ℕ → List ℕ → List ℕ → Table × Bool
unfolding set_auto_plugin is_true
ini_handler t section name value =
    if not (str_eq section section_name)
    then (t, false)
    else if is_blank name
    then (t, false)
    else let (t1, written) = set_auto_plugin t name (is_true value) in (t1, true)

abbrev pub bool_text : Bool → List ℕ
bool_text b = if b then codes "true" else codes "false"

-- The names and values of `hid_pt_prefs_write_section`.
unfoldable pub section_lines : Table → List (List ℕ × List ℕ)
section_lines [] = []
section_lines (e ∷ es) = (e.id, bool_text e.auto_plugin) ∷ section_lines es

unfoldable pub read_section : Table → List (List ℕ × List ℕ) → Table
unfolding ini_handler
read_section t [] = t
read_section t ((name, value) ∷ ls) = read_section (ini_handler t section_name name value).0 ls
