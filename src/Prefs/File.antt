-- ===== src/Prefs/File.antt =====
-- The flush that rewrites the section of the preferences in the ini file:
-- `hid_pt_prefs_flush` of src/app/hid_passthrough/hid_pt_device_prefs.c.
use moonlight_tv.Base.{
  ℕ, ◌+◌, ◌*◌, List, [], ◌∷◌, ◌++◌, Option, none, some, Bool, true, false, not, ◌&&◌, ◌||◌, leb,
  ◌==◌, if◌then◌else◌,
}
use moonlight_tv.Text.{str_eq}
use moonlight_tv.Prefs.{Table, section_name, set_auto_plugin}

-- `strchr`: whether the byte is there, and what stands before it.
unfoldable pub has_byte : ℕ → List ℕ → Bool
has_byte c [] = false
has_byte c (x ∷ xs) = x == c || has_byte c xs

unfoldable pub before_byte : ℕ → List ℕ → List ℕ
before_byte c [] = []
before_byte c (x ∷ xs) = let rest = before_byte c xs in if x == c then [] else x ∷ rest

abbrev pub opens : List ℕ → Bool
opens [] = false
opens (x ∷ xs) = x == b'['

abbrev pub is_header : List ℕ → Bool
is_header l = opens l && has_byte b']' l

-- The line after its closing bracket is overwritten with a zero.
abbrev pub cut_line : List ℕ → List ℕ
cut_line l = if is_header l then before_byte b']' l else l

-- `strcmp(sec, "hid_pt_devices") == 0`, from the byte behind the opening bracket.
abbrev pub names_section : List ℕ → Bool
names_section [] = false
names_section (x ∷ xs) = str_eq xs section_name

abbrev pub is_own : List ℕ → Bool
is_own l = is_header l && names_section (before_byte b']' l)

-- One line: whether the section is skipped from here on, and whether the line is kept.
unfoldable pub line_step : Bool → List ℕ → Bool × Bool
line_step skip l =
    if is_header l
    then (is_own l, not (is_own l))
    else if skip
    then (not (opens l), opens l)
    else (false, true)

unfoldable pub kept_lines : Bool → List (List ℕ) → List (List ℕ)
unfolding line_step
kept_lines skip [] = []
kept_lines skip (l ∷ ls) =
    let rest = kept_lines (line_step skip l).0 ls in
    if (line_step skip l).1 then cut_line l ∷ rest else rest

-- The array of lines: `grows` says whether it gets a capacity, `copies` whether a line is copied.
unfoldable pub store_lines : (ℕ → Bool) → (List ℕ → Bool) → ℕ → ℕ → List (List ℕ) → List (List ℕ)
store_lines grows copies count cap [] = []
store_lines grows copies count cap (l ∷ ls) =
    let full = leb cap count in
    let cap1 : ℕ = if full then (if cap == 0 then 64 else cap * 2) else cap in
    let stored = store_lines grows copies (count + 1) cap1 ls in
    let lost = store_lines grows copies count cap1 ls in
    if full && not (grows cap1) then [] else if copies l then l ∷ stored else lost

abbrev pub concat : List (List ℕ) → List ℕ
concat [] = []
concat (l ∷ ls) = l ++ concat ls

-- What writes the ini file, and what the system grants.
pub record Writer : Type 0 where
  pub ini_section : List ℕ → List ℕ
  pub ini_bool : List ℕ → Bool → List ℕ
  pub grows : ℕ → Bool
  pub copies : List ℕ → Bool
  pub can_write : Bool

unfoldable pub write_entries : Writer → Table → List ℕ
write_entries w [] = []
write_entries w (e ∷ es) = w.ini_bool e.id e.auto_plugin ++ write_entries w es

-- `hid_pt_prefs_write_section`
unfoldable pub write_section : Writer → Table → List ℕ
unfolding write_entries
write_section w [] = []
write_section w (e ∷ es) = w.ini_section section_name ++ write_entries w (e ∷ es)

-- `hid_pt_prefs_flush`, for a file with these lines or none that can be read; the result is what is
-- written.
unfoldable pub flush : Writer → Table → Option (List (List ℕ)) → Option (List ℕ)
unfolding write_section store_lines kept_lines
flush w t none = none
flush w t (some file) =
    if w.can_write
    then some
        (concat (store_lines w.grows w.copies 0 0 (kept_lines false file)) ++ write_section w t)
    else none

-- `hid_pt_prefs_set_auto_plugin`: the table, and what is written.
unfoldable pub set_preference :
    Writer → Option (List (List ℕ)) → Table → List ℕ → Bool → Table × Option (List ℕ)
unfolding set_auto_plugin flush
set_preference w file t id v =
    let (t1, changed) = set_auto_plugin t id v in (t1, if changed then flush w t1 file else none)
