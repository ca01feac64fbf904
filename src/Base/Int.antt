-- ===== src/Base/Int.antt =====
-- Signed integers over the native natural numbers.
use Prim.Native.Nat.{ℕ, ◌+◌, ◌-◌, ◌%◌}
use moonlight_tv.Base.Tests.{ltb, leb, if◌then◌else◌}

-- `negsuc n` is -(n + 1).
pub data ℤ : Type 0 where
  pos : ℕ → ℤ
  negsuc : ℕ → ℤ

abbrev pub pos_part : ℤ → ℕ
pos_part (pos n) = n
pos_part (negsuc n) = 0

abbrev pub neg_part : ℤ → ℕ
neg_part (pos n) = 0
neg_part (negsuc n) = n + 1

-- `a - b`, without its sign.
abbrev pub distance : ℤ → ℤ → ℕ
distance a b =
    let p : ℕ = pos_part a + neg_part b in
    let q : ℕ = pos_part b + neg_part a in if leb q p then p - q else q - p

-- The residue of an integer modulo `2 ^ 16`, and `(short)`, which reads it with a sign.
unfoldable pub low_word : ℤ → ℕ
low_word (pos n) = n % 65536
low_word (negsuc n) = 65535 - n % 65536

unfoldable pub to_short : ℤ → ℤ
unfolding low_word
to_short z = let u : ℕ = low_word z in if ltb u 32768 then pos u else negsuc (65535 - u)
