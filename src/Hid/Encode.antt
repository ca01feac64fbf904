-- ===== src/Hid/Encode.antt =====
-- Descriptors as they are written, for the walks of src/app/hid_passthrough/ctm_hid.c.
use moonlight_tv.Base.{
  ℕ, zero, suc, ◌+◌, ◌*◌, ◌/◌, ◌%◌, ◌<◌, List, [], ◌∷◌, ◌++◌, Option, some, false, ltb, ◌≡◌, ◌≢◌,
  refl, sym, ap, ◌∙◌, arith, ne→==-false, length, take, drop, length-append,
}
use moonlight_tv.Ctmb.{le_value}
use moonlight_tv.Hid.Descriptor.{
  Item, Next, stop, skipped, read, item_len, long_item, short_item, next_item, walk, no_lengths,
  length_step, scan_lengths, no_usage, usage_step, top_usage,
}

-- A descriptor as its author writes it: short items of a type, a tag, a size code and a value of that
-- many bytes, and long items of a tag and data.
pub data Raw : Type 0 where
  short_raw : ℕ → ℕ → ℕ → List ℕ → Raw
  long_raw : ℕ → List ℕ → Raw

abbrev pub encode_raw : Raw → List ℕ
encode_raw (short_raw kind tag size_code value) = (size_code + 4 * kind + 16 * tag) ∷ value
encode_raw (long_raw tag content) = 0xfe ∷ length content ∷ tag ∷ content

abbrev pub encode : List Raw → List ℕ
encode [] = []
encode (r ∷ rs) = encode_raw r ++ encode rs

-- The items of it that the walks see: the short ones, their values read as little-endian numbers.
abbrev pub items : List Raw → List Item
items [] = []
items (short_raw kind tag size_code value ∷ rs) =
    record { kind = kind; tag = tag; value = le_value 4 value } ∷ items rs
items (long_raw tag content ∷ rs) = items rs

-- The fields are in range, and the prefix is not that of a long item.
abbrev pub IsRaw : Raw → Type 0
IsRaw (short_raw kind tag size_code value) =
    (kind < 4)
    × (tag < 16)
    × (size_code < 4)
    × (length value ≡ item_len size_code)
    × (size_code + 4 * kind + 16 * tag ≢ 254)
IsRaw (long_raw tag content) = Unit {0}

abbrev pub AllRaw : List Raw → Type 0
AllRaw [] = Unit {0}
AllRaw (r ∷ rs) = IsRaw r × AllRaw rs

abbrev pub run_items {ℓ} : {S : Type ℓ} → (S → Item → S) → S → List Item → S
run_items step s [] = s
run_items step s (i ∷ is) = run_items step (step s i) is

-- The round at the start of an encoded item.
abbrev After : Raw → List ℕ → Next
After (short_raw kind tag size_code value) rest =
    read (record { kind = kind; tag = tag; value = le_value 4 value }) rest
After (long_raw tag content) rest = skipped rest

cut_front :
    (xs rest : List ℕ) (n : ℕ)
    → n ≡ length xs
    → (take n (xs ++ rest) ≡ xs) × (drop n (xs ++ rest) ≡ rest)
cut_front [] rest zero e = (refl, refl)
cut_front [] rest (suc n) e = absurd (omega arith)
cut_front (x ∷ xs) rest zero e = absurd (omega arith)
cut_front (x ∷ xs) rest (suc n) e =
    let (t, d) = cut_front xs rest n (omega arith) in (ap (λ l. x ∷ l) t, d)

enough : (xs rest : List ℕ) (n : ℕ) → n ≡ length xs → ltb (length (xs ++ rest)) n ≡ false
enough xs rest n e = ground (arith, length-append xs rest)

next_item-encode_raw :
    (r : Raw) (rest : List ℕ) → IsRaw r → next_item (encode_raw r ++ rest) ≡ After r rest
unfolding next_item long_item short_item
next_item-encode_raw (long_raw tag content) rest v =
    let (t, d) = cut_front content rest (length content) refl in
    rw (enough content rest (length content) refl, d)
next_item-encode_raw (short_raw kind tag size_code value) rest (k, g, c, l, n) =
    let (t, d) = cut_front value rest (item_len size_code) (sym l) in
    let b : ℕ = size_code + 4 * kind + 16 * tag in
    let e1 : b % 4 ≡ size_code = omega arith in
    let e2 : b / 4 % 4 ≡ kind = omega arith in
    let e3 : b / 16 % 16 ≡ tag = omega arith in
    rw (ne→==-false b 254 n, e1, e2, e3, enough value rest (item_len size_code) (sym l), t, d)

-- One round on an encoded item, and none behind the last.
walk_raw :
    {S : Type 0} (step : S → Item → S) (fuel : ℕ) (s : S) (r : Raw) (rest : List ℕ)
    → IsRaw r
    → walk (suc fuel) step s (encode_raw r ++ rest)
      ≡ walk fuel step (run_items step s (items (r ∷ []))) rest
unfolding walk
walk_raw {S} step fuel s r rest v = ap (round s) (next_item-encode_raw r rest v) ∙ at_after r
  where
    round : S → Next → Option S
    round s n = elim n [
      | stop ↦ some s
      | skipped more ↦ walk fuel step s more
      | read i more ↦ walk fuel step (step s i) more
    ]

    at_after :
        (r : Raw) → round s (After r rest) ≡ walk fuel step (run_items step s (items (r ∷ []))) rest
    at_after (short_raw kind tag size_code value) = refl
    at_after (long_raw tag content) = refl

encode_raw_long : (r : Raw) (rest : List ℕ) → length rest < length (encode_raw r ++ rest)
encode_raw_long (short_raw kind tag size_code value) rest = omega (arith, length-append value rest)
encode_raw_long (long_raw tag content) rest = omega (arith, length-append content rest)

walk-encode :
    {S : Type 0} (step : S → Item → S) (rs : List Raw) (fuel : ℕ) (s : S)
    → AllRaw rs
    → length (encode rs) < fuel
    → walk fuel step s (encode rs) ≡ some (run_items step s (items rs))
walk-encode step rs zero s v h = absurd (omega arith)
walk-encode step [] (suc fuel) s v h = unfold walk next_item in refl
walk-encode step (r ∷ rs) (suc fuel) s (vr, vs) h =
    walk_raw step fuel s r (encode rs) vr
    ∙ walk-encode step rs fuel (run_items step s (items (r ∷ []))) vs
        (omega (arith, encode_raw_long r (encode rs)))
    ∙ ap some (items_cons step s r rs)
  where
    items_cons :
        {S : Type 0} (step : S → Item → S) (s : S) (r : Raw) (rs : List Raw)
        → run_items step (run_items step s (items (r ∷ []))) (items rs)
          ≡ run_items step s (items (r ∷ rs))
    items_cons step s (short_raw kind tag size_code value) rs = refl
    items_cons step s (long_raw tag content) rs = refl

-- On the bytes of any well-formed items, both walks end with what their step makes of the short
-- items in turn, the values read as little-endian numbers and the long items passed over.
pub scan_lengths-encode :
    (rs : List Raw)
    → AllRaw rs
    → (scan_lengths (encode rs) ≡ some (run_items length_step no_lengths (items rs)))
      × (top_usage (encode rs) ≡ some (run_items usage_step no_usage (items rs)))
unfolding scan_lengths top_usage
scan_lengths-encode rs v = (
  walk-encode length_step rs (length (encode rs) + 1) no_lengths v (omega arith),
  walk-encode usage_step rs (length (encode rs) + 1) no_usage v (omega arith),
)
