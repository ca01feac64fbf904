-- ===== src/Prefs/Examples.antt =====
-- The theorems on the preferences at concrete inputs.
use moonlight_tv.Base.{ℕ, List, [], ◌∷◌, ◌++◌, map, some, true, false, ◌≡◌, refl, arith, ◌⊎◌}
use moonlight_tv.Text.{codes, str_eq}
use moonlight_tv.Settings.Sample.{write_text}
use moonlight_tv.Prefs.{Table, section_name, bool_text, set_auto_plugin}
use moonlight_tv.Prefs.Table.{IsTable}
use moonlight_tv.Prefs.Answers.{Holds, IsFull, set_auto_plugin-Holds}
use moonlight_tv.Prefs.File.{
  Writer, line_step, store_lines, kept_lines, cut_line, before_byte, has_byte, write_section, flush,
  concat,
}
use moonlight_tv.Prefs.Flush.{All, IsBroken, kept_lines-around, flush_breaks_headers}

abbrev two_pads : Table
two_pads =
    record { id = codes "a4ae1122"; auto_plugin = true }
    ∷ record { id = codes "b0b1"; auto_plugin = false }
    ∷ []

two_pads-IsTable : IsTable two_pads
unfolding str_eq
two_pads-IsTable = record {
  few = omega arith;
  distinct = ((refl, tt), (tt, tt));
  ids = ((refl, omega arith), ((refl, omega arith), tt));
}

abbrev sample_writer : Writer
sample_writer = record {
  ini_section = λ s. [];
  ini_bool = λ s b. write_text section_name (write_text s (write_text (bool_text b) []));
  grows = λ n. true;
  copies = λ l. true;
  can_write = true;
}

set_auto_plugin-Holds_example :
    (((set_auto_plugin two_pads (codes "c2") true).1 ≡ true)
      × Holds two_pads (codes "c2") true (set_auto_plugin two_pads (codes "c2") true).0)
    ⊎ (IsFull two_pads (codes "c2")
        × (set_auto_plugin two_pads (codes "c2") true ≡ (two_pads, false)))
set_auto_plugin-Holds_example =
    set_auto_plugin-Holds two_pads (codes "c2") true two_pads-IsTable (refl, omega arith)

abbrev host_lines : List (List ℕ)
host_lines = codes "[host]" ∷ codes "bitrate = 1000" ∷ []

abbrev video_lines : List (List ℕ)
video_lines = codes "[video]" ∷ []

abbrev own_line : List ℕ
own_line = codes "[hid_pt_devices]"

kept_lines-around_example :
    kept_lines false (host_lines ++ own_line ∷ ((codes "b0b1 = true" ∷ []) ++ video_lines))
    ≡ map cut_line (host_lines ++ video_lines)
unfolding before_byte has_byte str_eq
kept_lines-around_example =
    kept_lines-around host_lines own_line (codes "b0b1 = true" ∷ []) video_lines (refl, (refl, tt))
      refl (refl, tt) refl (refl, tt)

abbrev plain_writer : Writer
plain_writer = record {
  ini_section = λ s. s;
  ini_bool = λ s b. s;
  grows = λ n. true;
  copies = λ l. true;
  can_write = true;
}

flush_breaks_headers_example :
    let ls = store_lines plain_writer.grows plain_writer.copies 0 0 (kept_lines false host_lines) in
    All IsBroken ls
    × (flush plain_writer two_pads (some host_lines)
        ≡ some (concat ls ++ write_section plain_writer two_pads))
flush_breaks_headers_example = flush_breaks_headers plain_writer two_pads host_lines refl

-- The first line of the file loses its bracket and its end.
flush_cuts : flush plain_writer [] (some (codes "[host]" ∷ codes "a" ∷ [])) ≡ some (codes "[hosta")
unfolding flush kept_lines line_step store_lines before_byte has_byte str_eq write_section
flush_cuts = refl
