-- ===== src/Controller/Sign.antt =====
-- The checksum of the Bluetooth output reports: `crc32_step` and `ctm_bt_sign_output` of
-- src/app/hid_passthrough/ctm/controllers/controller_common.c. A report is a list of bytes.
use Prim.Native.Nat.{bit_and, bit_xor}
use moonlight_tv.Base.{
  ℕ, zero, suc, ◌-◌, ◌/◌, ◌%◌, ◌^◌, ◌≤◌, ◌<◌, List, [], ◌∷◌, ◌++◌, true, ltb, if◌then◌else◌, ◌≡◌,
  refl, sym, ap, ◌∙◌, arith, length, take, drop, length-append, length-take, take-append-drop,
  if_split, Bool-cases, inl, inr, get_or,
}
use moonlight_tv.Ctmb.{le_bytes}

-- One bit: `(crc >> 1) ^ (0xedb88320 & (0 - (crc & 1)))` on 32 bits.
unfoldable pub crc_bit : ℕ → ℕ
crc_bit crc = bit_xor (crc / 2) (bit_and 0xedb88320 ((2 ^ 32 - crc % 2) % 2 ^ 32))

unfoldable pub crc_bits : ℕ → ℕ → ℕ
unfolding crc_bit
crc_bits zero crc = crc
crc_bits (suc n) crc = crc_bits n (crc_bit crc)

unfoldable pub crc32_step : ℕ → List ℕ → ℕ
unfolding crc_bits
crc32_step crc [] = crc
crc32_step crc (b ∷ bs) = crc32_step (crc_bits 8 (bit_xor crc b)) bs

-- The checksum of the bytes before it, with the seed 0xa2; `~` on 32 bits.
unfoldable pub checksum : List ℕ → ℕ
unfolding crc32_step
checksum bs = 2 ^ 32 - 1 - crc32_step (crc32_step 0xffffffff (0xa2 ∷ [])) bs

abbrev pub unsigned_part : List ℕ → List ℕ
unsigned_part bs = take (length bs - 4) bs

unfoldable pub bt_sign_output : List ℕ → List ℕ
unfolding checksum le_bytes
bt_sign_output bs =
    if ltb (length bs) 8 then bs else unsigned_part bs ++ le_bytes 4 (checksum (unsigned_part bs))

-- The last four bytes are the checksum of the others: what the device tests.
abbrev pub IsSigned : List ℕ → Type 0
IsSigned bs = drop (length bs - 4) bs ≡ le_bytes 4 (checksum (unsigned_part bs))

length-le_bytes : (n w : ℕ) → length (le_bytes n w) ≡ n
unfolding le_bytes
length-le_bytes zero w = refl
length-le_bytes (suc n) w = ap suc (length-le_bytes n (w / 256))

-- Taken apart where they were joined.
pub take-append_at : (n : ℕ) (xs ys : List ℕ) → n ≡ length xs → take n (xs ++ ys) ≡ xs
take-append_at zero [] ys h = refl
take-append_at zero (x ∷ xs) ys h = absurd (omega arith)
take-append_at (suc n) [] ys h = absurd (omega arith)
take-append_at (suc n) (x ∷ xs) ys h = ap (λ l. x ∷ l) (take-append_at n xs ys (omega arith))

pub drop-append_at : (n : ℕ) (xs ys : List ℕ) → n ≡ length xs → drop n (xs ++ ys) ≡ ys
drop-append_at zero [] ys h = refl
drop-append_at zero (x ∷ xs) ys h = absurd (omega arith)
drop-append_at (suc n) [] ys h = absurd (omega arith)
drop-append_at (suc n) (x ∷ xs) ys h = drop-append_at n xs ys (omega arith)

module _ (bs : List ℕ) (long : 8 ≤ length bs) where
  sum : List ℕ
  sum = le_bytes 4 (checksum (unsigned_part bs))

  sign_long : bt_sign_output bs ≡ unsigned_part bs ++ sum
  unfolding bt_sign_output sum
  sign_long =
      if_split (λ o. o ≡ unsigned_part bs ++ sum) (ltb (length bs) 8) (λ e. absurd (ground arith))
        (λ _. refl)

  length-unsigned_part : length (unsigned_part bs) ≡ length bs - 4
  length-unsigned_part = omega (arith, length-take (length bs - 4) bs)

  length-sign_long : length (unsigned_part bs ++ sum) ≡ length bs
  unfolding sum
  length-sign_long = omega (
    arith,
    length-append (unsigned_part bs) sum,
    length-unsigned_part,
    length-le_bytes 4 (checksum (unsigned_part bs)),
  )

  -- A signed report keeps its length and the bytes before the checksum, and the checksum is right.
  pub bt_sign_output-IsSigned :
      (length (bt_sign_output bs) ≡ length bs)
      × (unsigned_part (bt_sign_output bs) ≡ unsigned_part bs)
      × IsSigned (bt_sign_output bs)
  unfolding sum
  bt_sign_output-IsSigned =
      let p : length (unsigned_part bs ++ sum) - 4 ≡ length (unsigned_part bs) =
        omega (arith, length-sign_long, length-unsigned_part) in
      let t = take-append_at _ (unsigned_part bs) sum p in
      rw (sign_long) (
        length-sign_long,
        t,
        drop-append_at _ (unsigned_part bs) sum p ∙ ap (λ u. le_bytes 4 (checksum u)) (sym t),
      )

-- A report that is signed already stays as it is.
pub bt_sign_output_of_signed : (bs : List ℕ) → 8 ≤ length bs → IsSigned bs → bt_sign_output bs ≡ bs
unfolding sum
bt_sign_output_of_signed bs long h =
    sign_long bs long
    ∙ ap (λ s. unsigned_part bs ++ s) (sym h)
    ∙ take-append-drop (length bs - 4) bs

pub length-bt_sign_output : (bs : List ℕ) → length (bt_sign_output bs) ≡ length bs
unfolding bt_sign_output sum
length-bt_sign_output bs =
    if_split (λ (o : List ℕ). length o ≡ length bs) (ltb (length bs) 8) {x = bs}
      {y = unsigned_part bs ++ le_bytes 4 (checksum (unsigned_part bs))} (λ _. refl)
      (λ e. length-sign_long bs (ground arith))

get_or-take : (n i : ℕ) (xs : List ℕ) → i < n → get_or (take n xs) i 0 ≡ get_or xs i 0
get_or-take zero i xs h = absurd (omega arith)
get_or-take (suc n) i [] h = refl
get_or-take (suc n) zero (x ∷ xs) h = refl
get_or-take (suc n) (suc i) (x ∷ xs) h = get_or-take n i xs (omega arith)

sign_short : (bs : List ℕ) → ltb (length bs) 8 ≡ true → bt_sign_output bs ≡ bs
unfolding bt_sign_output
sign_short bs e =
    ap (λ b. if b then bs else unsigned_part bs ++ le_bytes 4 (checksum (unsigned_part bs))) e

-- The bytes before the checksum, one by one.
pub get-bt_sign_output :
    (bs : List ℕ) (i : ℕ) → i < length bs - 4 → get_or (bt_sign_output bs) i 0 ≡ get_or bs i 0
get-bt_sign_output bs i h = elim (Bool-cases (ltb (length bs) 8)) [
  | inl e ↦ ap (λ (o : List ℕ). get_or o i 0) (sign_short bs e)
  | inr e ↦
      let (l, u, s) = bt_sign_output-IsSigned bs (ground arith) in
      sym (get_or-take (length (bt_sign_output bs) - 4) i (bt_sign_output bs) (omega arith))
      ∙ ap (λ (o : List ℕ). get_or o i 0) u
      ∙ get_or-take (length bs - 4) i bs h
]
