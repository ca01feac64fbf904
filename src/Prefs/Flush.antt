-- ===== src/Prefs/Flush.antt =====
-- What the flush keeps of the ini file: `hid_pt_prefs_flush` of
-- src/app/hid_passthrough/hid_pt_device_prefs.c.
use mathlib.Core.List.{append-nil, map-append}
use moonlight_tv.Base.{
  ℕ, ◌+◌, ◌*◌, List, [], ◌∷◌, ◌++◌, map, some, Bool, true, false, not, ◌&&◌, leb, ◌==◌,
  if◌then◌else◌, ◌≡◌, refl, sym, subst, ap, ◌∙◌, arith, inl, inr, Bool-cases, if_both,
}
use moonlight_tv.Prefs.{Table}
use moonlight_tv.Prefs.File.{
  has_byte, before_byte, opens, is_header, cut_line, is_own, line_step, kept_lines, store_lines,
  concat, Writer, write_section, flush,
}

-- A property of each line.
abbrev pub All : (List ℕ → Type 0) → List (List ℕ) → Type 0
All P [] = Unit {0}
All P (l ∷ ls) = P l × All P ls

-- A line that is not the header of the own section, and one that is no header at all.
abbrev pub IsOther : List ℕ → Type 0
IsOther l = is_own l ≡ false

abbrev pub IsPlain : List ℕ → Type 0
IsPlain l = opens l ≡ false

-- Where a section ends: at the end of the file or at a line that opens another.
abbrev pub IsEnd : List (List ℕ) → Type 0
IsEnd [] = Unit {0}
IsEnd (l ∷ ls) = opens l ≡ true

step_as :
    (skip : Bool) (l : List ℕ) (ls : List (List ℕ)) (p : Bool × Bool)
    → line_step skip l ≡ p
    → kept_lines skip (l ∷ ls) ≡ (if p.1 then cut_line l ∷ kept_lines p.0 ls else kept_lines p.0 ls)
unfolding kept_lines
step_as skip l ls p e =
    ap (λ q. if q.1 then cut_line l ∷ kept_lines q.0 ls else kept_lines q.0 ls) e

step_other : (l : List ℕ) → IsOther l → line_step false l ≡ (false, true)
unfolding line_step
step_other l o = ground (arith, o)

step_own : (l : List ℕ) → is_own l ≡ true → line_step false l ≡ (true, false)
unfolding line_step
step_own l o = ground (arith, o)

step_plain : (l : List ℕ) → IsPlain l → line_step true l ≡ (true, false)
unfolding line_step
step_plain l o = ground (arith, o)

step_end : (l : List ℕ) → opens l ≡ true → IsOther l → line_step true l ≡ (false, true)
unfolding line_step
step_end l o h = ground (arith, o, h)

-- Outside the own section every line is kept, its bracket cut.
kept_other :
    (ls rest : List (List ℕ))
    → All IsOther ls
    → kept_lines false (ls ++ rest) ≡ map cut_line ls ++ kept_lines false rest
kept_other [] rest h = refl
kept_other (l ∷ ls) rest (o, h) =
    step_as false l (ls ++ rest) (false, true) (step_other l o)
    ∙ ap (λ t. cut_line l ∷ t) (kept_other ls rest h)

-- Inside, nothing is.
kept_body :
    (ls rest : List (List ℕ)) → All IsPlain ls → kept_lines true (ls ++ rest) ≡ kept_lines true rest
kept_body [] rest h = refl
kept_body (l ∷ ls) rest (o, h) =
    step_as true l (ls ++ rest) (true, false) (step_plain l o) ∙ kept_body ls rest h

kept_end : (ls : List (List ℕ)) → IsEnd ls → All IsOther ls → kept_lines true ls ≡ map cut_line ls
unfolding kept_lines
kept_end [] e h = refl
kept_end (l ∷ ls) e (o, h) =
    step_as true l ls (false, true) (step_end l e o) ∙ ap (λ t. cut_line l ∷ t) (all_kept ls h)
  where
    all_kept : (ls : List (List ℕ)) → All IsOther ls → kept_lines false ls ≡ map cut_line ls
    all_kept ls h =
        ap (kept_lines false) (sym (append-nil ls))
        ∙ kept_other ls [] h
        ∙ append-nil (map cut_line ls)

-- Of a file with one section of the preferences, which ends at a line that opens a section or
-- with the file, the flush keeps the lines before and after that section, in order, a header
-- among them without its bracket and what follows it.
pub kept_lines-around :
    (before : List (List ℕ)) (own : List ℕ) (body after : List (List ℕ))
    → All IsOther before
    → is_own own ≡ true
    → All IsPlain body
    → IsEnd after
    → All IsOther after
    → kept_lines false (before ++ own ∷ (body ++ after)) ≡ map cut_line (before ++ after)
kept_lines-around before own body after hb ho hp he ha =
    kept_other before (own ∷ (body ++ after)) hb
    ∙ ap (λ t. map cut_line before ++ t)
        (step_as false own (body ++ after) (true, false) (step_own own ho)
          ∙ kept_body body after hp
          ∙ kept_end after he ha)
    ∙ sym (map-append cut_line before after)

has_byte-before : (c : ℕ) (l : List ℕ) → has_byte c (before_byte c l) ≡ false
unfolding has_byte before_byte
has_byte-before c [] = refl
has_byte-before c (x ∷ xs) = ground (arith, has_byte-before c xs)

-- A line that is no header.
abbrev pub IsBroken : List ℕ → Type 0
IsBroken l = is_header l ≡ false

IsBroken-cut : (l : List ℕ) → IsBroken (cut_line l)
IsBroken-cut l = elim (Bool-cases (is_header l)) [
  | inl e ↦
      subst (λ t. IsBroken t) (sym (cut_as true e))
        (half (opens (before_byte b']' l)) (has_byte-before b']' l))
  | inr e ↦ subst (λ t. IsBroken t) (sym (cut_as false e)) e
]
  where
    cut_as : (b : Bool) → is_header l ≡ b → cut_line l ≡ (if b then before_byte b']' l else l)
    cut_as b e = ap (λ c. if c then before_byte b']' l else l) e

    half : (a : Bool) {b : Bool} → b ≡ false → (a && b) ≡ false
    half a e = ground (arith, e)

kept-IsBroken : (skip : Bool) (ls : List (List ℕ)) → All IsBroken (kept_lines skip ls)
unfolding kept_lines
kept-IsBroken skip [] = tt
kept-IsBroken skip (l ∷ ls) =
    if_both (All IsBroken) (line_step skip l).1
      (IsBroken-cut l, kept-IsBroken (line_step skip l).0 ls)
      (kept-IsBroken (line_step skip l).0 ls)

store-All :
    (P : List ℕ → Type 0) (grows : ℕ → Bool) (copies : List ℕ → Bool) (count cap : ℕ)
    (ls : List (List ℕ))
    → All P ls
    → All P (store_lines grows copies count cap ls)
unfolding store_lines
store-All P grows copies count cap [] h = tt
store-All P grows copies count cap (l ∷ ls) (p, h) =
    let cap1 : ℕ = if leb cap count then (if cap == 0 then 64 else cap * 2) else cap in
    if_both (All P) (leb cap count && not (grows cap1)) tt (
      if_both (All P) (copies l) (p, store-All P grows copies (count + 1) cap1 ls h)
        (store-All P grows copies count cap1 ls h))

-- Where the file can be written, the lines of the file that the flush keeps and stores are
-- written back, none of them a section's header, and behind them the section of the preferences.
pub flush_breaks_headers :
    (w : Writer) (t : Table) (file : List (List ℕ))
    → w.can_write ≡ true
    → let ls = store_lines w.grows w.copies 0 0 (kept_lines false file) in
      All IsBroken ls × (flush w t (some file) ≡ some (concat ls ++ write_section w t))
unfolding flush
flush_breaks_headers w t file e = (
  store-All IsBroken w.grows w.copies 0 0 (kept_lines false file) (kept-IsBroken false file),
  rw (flush, e) refl,
)
