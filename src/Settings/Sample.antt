-- ===== src/Settings/Sample.antt =====
-- A file format and numbers for the tests: each text is written behind its length.
use moonlight_tv.Base.{
  ℕ, zero, suc, ◌+◌, ◌-◌, ◌≤◌, List, [], ◌∷◌, ◌++◌, Option, none, some, true, ◌==◌, ◌≡◌,
  if◌then◌else◌, refl, ap, arith, length, take, drop, length-append,
}
use moonlight_tv.Base.Int.{ℤ, pos, negsuc}
use moonlight_tv.Settings.{Line}
use moonlight_tv.Settings.RoundTrip.{is_plain, IsIni}

abbrev pub print_sample : ℤ → List ℕ
print_sample (pos n) = 100 ∷ ((n + 100) ∷ [])
print_sample (negsuc n) = 101 ∷ ((n + 100) ∷ [])

abbrev pub read_sample : List ℕ → Option ℤ
read_sample (sign ∷ (n ∷ [])) = some (if sign == 100 then pos (n - 100) else negsuc (n - 100))
read_sample _ = none

abbrev pub write_text : List ℕ → List ℕ → List ℕ
write_text s rest = length s ∷ (s ++ rest)

abbrev pub write_lines : List Line → List ℕ
write_lines [] = []
write_lines ((section, name, value) ∷ ls) =
    write_text section (write_text name (write_text value (write_lines ls)))

abbrev read_text : List ℕ → List ℕ × List ℕ
read_text [] = ([], [])
read_text (n ∷ bs) = (take n bs, drop n bs)

abbrev read_lines : ℕ → List ℕ → List Line
read_lines zero bs = []
read_lines (suc fuel) [] = []
read_lines (suc fuel) (b ∷ bs) =
    let (section, bs1) = read_text (b ∷ bs) in
    let (name, bs2) = read_text bs1 in
    let (value, bs3) = read_text bs2 in (section, name, value) ∷ read_lines fuel bs3

abbrev pub parse_sample : List ℕ → List Line
parse_sample bs = read_lines (length bs) bs

take_text : (s rest : List ℕ) → take (length s) (s ++ rest) ≡ s
take_text [] rest = refl
take_text (x ∷ s) rest = ap (λ l. x ∷ l) (take_text s rest)

drop_text : (s rest : List ℕ) → drop (length s) (s ++ rest) ≡ rest
drop_text [] rest = refl
drop_text (x ∷ s) rest = drop_text s rest

read_lines-write_lines :
    (fuel : ℕ) (ls : List Line)
    → length (write_lines ls) ≤ fuel
    → read_lines fuel (write_lines ls) ≡ ls
read_lines-write_lines zero [] h = refl
read_lines-write_lines (suc fuel) [] h = refl
read_lines-write_lines zero ((section, name, value) ∷ ls) h = absurd (omega arith)
read_lines-write_lines (suc fuel) ((section, name, value) ∷ ls) h =
    let rest : List ℕ = write_lines ls in
    let ih = read_lines-write_lines fuel ls (
      omega (
        arith,
        h,
        length-append section (write_text name (write_text value rest)),
        length-append name (write_text value rest),
        length-append value rest,
      )) in
    rw
      (
        take_text section (write_text name (write_text value rest)),
        drop_text section (write_text name (write_text value rest)),
        take_text name (write_text value rest),
        drop_text name (write_text value rest),
        take_text value rest,
        drop_text value rest,
        ih,
      )
      refl

pub parse_sample-write_lines : (ls : List Line) → parse_sample (write_lines ls) ≡ ls
parse_sample-write_lines ls = read_lines-write_lines (length (write_lines ls)) ls (omega arith)

number_is_plain : (n : ℕ) → is_plain ((n + 100) ∷ []) ≡ true
number_is_plain n = ground arith

pub sample-IsIni : IsIni read_sample print_sample write_lines parse_sample
sample-IsIni = record {
  reads_int = λ z h. back z;
  prints_plain = λ z h. plain z;
  reads_lines = λ ls h. parse_sample-write_lines ls;
}
  where
    back : (z : ℤ) → read_sample (print_sample z) ≡ some z
    back (pos n) = ap (λ m. some (pos m)) (omega arith)
    back (negsuc n) = ap (λ m. some (negsuc m)) (omega arith)

    plain : (z : ℤ) → is_plain (print_sample z) ≡ true
    plain (pos n) = number_is_plain n
    plain (negsuc n) = number_is_plain n
