-- ===== src/Prefs/RoundTrip.antt =====
-- The preferences that are written to the ini file are those that are read from it:
-- `hid_pt_prefs_write_section` and `hid_pt_prefs_ini_handler` of
-- src/app/hid_passthrough/hid_pt_device_prefs.c.
use moonlight_tv.Base.{ℕ, List, [], ◌∷◌, true, ◌≡◌}
use moonlight_tv.Settings.{Line}
use moonlight_tv.Settings.RoundTrip.{is_plain}
use moonlight_tv.Prefs.{Table, section_name, bool_text, ini_handler}
use moonlight_tv.Prefs.File.{Writer, write_section}

-- The lines that the parser hands over, one by one, and the table after them.
unfoldable pub read_lines : Table → List Line → Table
unfolding ini_handler
read_lines t [] = t
read_lines t ((section, name, value) ∷ ls) = read_lines (ini_handler t section name value).0 ls

abbrev pub entry_lines : Table → List Line
entry_lines [] = []
entry_lines (e ∷ es) = (section_name, e.id, bool_text e.auto_plugin) ∷ entry_lines es

-- Ids that an ini file takes as names.
abbrev pub ArePlainIds : Table → Type 0
ArePlainIds [] = Unit {0}
ArePlainIds (e ∷ es) = (is_plain e.id ≡ true) × ArePlainIds es

-- What is taken from the library of ini files: a section with plain names is parsed into its names
-- and values, in order.
pub record IsIni (w : Writer) (parse : List ℕ → List Line) : Type 0 where
  pub reads_section : (t : Table) → ArePlainIds t → parse (write_section w t) ≡ entry_lines t
