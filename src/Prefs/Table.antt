-- ===== src/Prefs/Table.antt =====
-- Tables with distinct ids, and the section of the file that is written for them:
-- src/app/hid_passthrough/hid_pt_device_prefs.c.
use mathlib.Core.List.{append_assoc, append-nil}
use moonlight_tv.Base.{
  ℕ, zero, suc, ◌+◌, ◌≤◌, ◌<◌, List, [], ◌∷◌, ◌++◌, Option, none, some, Bool, true, false, ◌||◌,
  leb, ◌≡◌, ◌≢◌, refl, sym, ap, ◌∙◌, arith, inl, inr, Bool-cases, length, take, length-append,
}
use moonlight_tv.Text.{str_eq}
use moonlight_tv.Text.Contains.{str_eq_iff}
use moonlight_tv.Settings.{is_true}
use moonlight_tv.Prefs.{
  max_entries, id_len, Entry, Table, find_from, pref_find, is_blank, pref_upsert, assign_at,
  set_auto_plugin, section_name, ini_handler, bool_text, section_lines, read_section,
}

-- No entry has this id.
abbrev pub Absent : List ℕ → Table → Type 0
Absent id [] = Unit {0}
Absent id (e ∷ es) = (str_eq e.id id ≡ false) × Absent id es

abbrev pub Distinct : Table → Type 0
Distinct [] = Unit {0}
Distinct (e ∷ es) = Absent e.id es × Distinct es

-- An id that can be found again as it was given.
abbrev pub IsId : List ℕ → Type 0
IsId id = (is_blank id ≡ false) × (length id ≤ id_len)

abbrev pub AllIds : Table → Type 0
AllIds [] = Unit {0}
AllIds (e ∷ es) = IsId e.id × AllIds es

pub record IsTable (t : Table) : Type 0 where
  pub few : length t ≤ max_entries
  pub distinct : Distinct t
  pub ids : AllIds t

pub str_eq_refl : (s : List ℕ) → str_eq s s ≡ true
str_eq_refl s = (str_eq_iff s s).1 refl

take_whole : {A : Type 0} (n : ℕ) (xs : List A) → length xs ≤ n → take n xs ≡ xs
take_whole zero [] h = refl
take_whole zero (x ∷ xs) h = absurd (omega arith)
take_whole (suc n) [] h = refl
take_whole (suc n) (x ∷ xs) h = ap (λ t. x ∷ t) (take_whole n xs (omega arith))

pub Absent-append : (id : List ℕ) (t u : Table) → Absent id t → Absent id u → Absent id (t ++ u)
Absent-append id [] u h k = k
Absent-append id (e ∷ t) u (x, h) k = (x, Absent-append id t u h k)

pub find-Absent : (t : Table) (i : ℕ) (id : List ℕ) → Absent id t → find_from i t id ≡ none
unfolding find_from
find-Absent [] i id h = refl
find-Absent (e ∷ t) i id (x, h) = rw x (find-Absent t (i + 1) id h)

pub pref_find-Absent : (t : Table) (id : List ℕ) → Absent id t → pref_find t id ≡ none
unfolding pref_find
pref_find-Absent t [] h = refl
pref_find-Absent t (c ∷ cs) h = find-Absent t 0 (c ∷ cs) h

assign_last :
    (t : Table) (e : Entry) (v : Bool)
    → assign_at (t ++ (e ∷ [])) (length t) v ≡ t ++ (record e { auto_plugin = v } ∷ [])
unfolding assign_at
assign_last [] e v = refl
assign_last (x ∷ t) e v = ap (λ u. x ∷ u) (assign_last t e v)

room_left :
    (t : Table) (id : List ℕ)
    → is_blank id ≡ false
    → length t < max_entries
    → (leb max_entries (length t) || is_blank id) ≡ false
room_left t id b few = ground arith

upsert_new :
    (t : Table) (id : List ℕ)
    → Absent id t
    → IsId id
    → length t < max_entries
    → pref_upsert t id ≡ (t ++ (record { id = id; auto_plugin = false } ∷ []), some (length t))
unfolding pref_upsert
upsert_new t id a (b, l) few =
    rw (pref_upsert, pref_find-Absent t id a, room_left t id b few, take_whole id_len id l) refl

abbrev pub after_upsert : Bool → Table × Option ℕ → Table × Bool
after_upsert v p = elim p.1 [ none ↦ (p.0, false) | some i ↦ (assign_at p.0 i v, true) ]

pub set_after :
    (t : Table) (id : List ℕ) (v : Bool) (p : Table × Option ℕ)
    → pref_upsert t id ≡ p
    → set_auto_plugin t id v ≡ after_upsert v p
unfolding set_auto_plugin
set_after t id v p e = ap (after_upsert v) e

-- A new id is put behind the others.
pub set_new :
    (t : Table) (id : List ℕ) (v : Bool)
    → Absent id t
    → IsId id
    → length t < max_entries
    → set_auto_plugin t id v ≡ (t ++ (record { id = id; auto_plugin = v } ∷ []), true)
set_new t id v a i few =
    set_after t id v (t ++ (record { id = id; auto_plugin = false } ∷ []), some (length t))
      (upsert_new t id a i few)
    ∙ ap (λ u. (u, true)) (assign_last t (record { id = id; auto_plugin = false }) v)

pub str_eq_swap : (a b : List ℕ) → str_eq a b ≡ false → str_eq b a ≡ false
str_eq_swap a b h = elim (Bool-cases (str_eq b a)) [
  | inl e ↦ absurd (differ (sym h ∙ (str_eq_iff a b).1 (sym ((str_eq_iff b a).0 e))))
  | inr e ↦ e
]
  where
    differ : false ≢ true
    differ e = cc

-- No id of the second table is in the first.
abbrev pub Apart : Table → Table → Type 0
Apart t [] = Unit {0}
Apart t (e ∷ es) = Absent e.id t × Apart t es

Apart-snoc :
    (t : Table) (e : Entry) (u : Table) → Apart t u → Absent e.id u → Apart (t ++ (e ∷ [])) u
Apart-snoc t e [] h k = tt
Apart-snoc t e (x ∷ u) (hx, h) (kx, k) =
    (Absent-append x.id t (e ∷ []) hx (str_eq_swap x.id e.id kx, tt), Apart-snoc t e u h k)

is_true-bool_text : (b : Bool) → is_true (bool_text b) ≡ b
unfolding is_true str_eq
is_true-bool_text true = refl
is_true-bool_text false = refl

handler_new :
    (t : Table) (e : Entry)
    → Absent e.id t
    → IsId e.id
    → length t < max_entries
    → ini_handler t section_name e.id (bool_text e.auto_plugin) ≡ (t ++ (e ∷ []), true)
unfolding ini_handler
handler_new t e a (b, l) few =
    rw
      (
        ini_handler,
        str_eq_refl section_name,
        b,
        is_true-bool_text e.auto_plugin,
        set_new t e.id e.auto_plugin a (b, l) few,
      )
      refl

read_rest :
    (t u : Table)
    → Apart t u
    → Distinct u
    → AllIds u
    → length t + length u ≤ max_entries
    → read_section t (section_lines u) ≡ t ++ u
unfolding read_section section_lines
read_rest t [] a d i few = sym (append-nil t)
read_rest t (e ∷ u) (ae, a) (de, d) (ie, i) few =
    ap (λ p. read_section p.0 (section_lines u)) (handler_new t e ae ie (omega arith))
    ∙ read_rest (t ++ (e ∷ [])) u (Apart-snoc t e u a de) d i
        (omega (arith, length-append t (e ∷ [])))
    ∙ append_assoc t (e ∷ []) u

Apart-empty : (u : Table) → Apart [] u
Apart-empty [] = tt
Apart-empty (e ∷ u) = (tt, Apart-empty u)

-- Reading the section that is written for a table of at most 32 entries, with distinct ids that
-- are not blank and fit, gives the table back.
pub read_section-section_lines : (t : Table) → IsTable t → read_section [] (section_lines t) ≡ t
read_section-section_lines t h =
    read_rest [] t (Apart-empty t) h.distinct h.ids (omega (arith, h.few))
