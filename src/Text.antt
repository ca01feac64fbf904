-- ===== src/Text.antt =====
-- C strings as lists of bytes, without the terminating zero, and the case-insensitive search that
-- the program writes three times: `str_contains_ci` (src/app/input/input_gamepad.c),
-- `hid_str_contains_ci` (src/app/hid_passthrough/hid_device.c) and `contains_ci`
-- (src/app/hid_passthrough/ctm/ctm_state.c).
pub mod Contains
mod Examples
use Prim.Native.Char.{code}
use Prim.Native.String.{String}
use moonlight_tv.Base.{
  ℕ, ◌+◌, List, [], ◌∷◌, Option, none, some, Bool, true, false, ◌&&◌, ◌||◌, leb, ◌==◌,
  if◌then◌else◌,
}

-- The bytes of a text literal, all of which are ASCII here.
abbrev pub codes : String → List ℕ
codes String.[] = []
codes (String.◌∷◌ c s) = code c ∷ codes s

-- `tolower` in the C locale, which `ascii_lower` repeats.
unfoldable pub lower : ℕ → ℕ
lower c = if leb b'A' c && leb c b'Z' then c + 32 else c

-- The inner loop: the needle lies at the start of the text.
unfoldable pub prefix_ci : List ℕ → List ℕ → Bool
prefix_ci text [] = true
prefix_ci [] (n ∷ ns) = false
prefix_ci (c ∷ text) (n ∷ ns) = lower c == lower n && prefix_ci text ns

-- The outer loop, over the positions that hold a byte.
unfoldable pub search_ci : List ℕ → List ℕ → Bool
search_ci [] needle = false
search_ci (c ∷ text) needle = prefix_ci (c ∷ text) needle || search_ci text needle

unfoldable pub contains_ci : Option (List ℕ) → List ℕ → Bool
contains_ci none needle = false
contains_ci (some text) [] = false
contains_ci (some text) (n ∷ ns) = search_ci text (n ∷ ns)

-- `strcmp(a, b) == 0`
unfoldable pub str_eq : List ℕ → List ℕ → Bool
str_eq [] [] = true
str_eq [] (b ∷ bs) = false
str_eq (a ∷ as') [] = false
str_eq (a ∷ as') (b ∷ bs) = a == b && str_eq as' bs
