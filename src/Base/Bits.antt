-- ===== src/Base/Bits.antt =====
-- Single bits of a mask by position: `m & (1 << i)`, `m |= 1 << i`, `m &= ~(1 << i)`, and
-- `m & ~e` on `w` bits. Each recurs on the position, so that the laws are inductions.
use Prim.Native.Nat.{ℕ, zero, suc, ◌+◌, ◌*◌, ◌/◌, ◌%◌, ◌^◌, ◌<◌}
use mathlib.Core.Path.{◌≡◌, refl, ap, ◌∙◌}
use mathlib.Core.Logic.{◌≢◌}
use mathlib.Core.Bool.{Bool, true, false, not, ◌&&◌}
use native.Mathlib.Nat.{pow-suc}
use native.Mathlib.Omega.{arith}
use moonlight_tv.Base.Tests.{◌==◌, if◌then◌else◌}

unfoldable pub test_bit : ℕ → ℕ → Bool
test_bit m zero = m % 2 == 1
test_bit m (suc i) = test_bit (m / 2) i

unfoldable pub set_bit : ℕ → ℕ → ℕ
set_bit m zero = m / 2 * 2 + 1
set_bit m (suc i) = set_bit (m / 2) i * 2 + m % 2

unfoldable pub clear_bit : ℕ → ℕ → ℕ
clear_bit m zero = m / 2 * 2
clear_bit m (suc i) = clear_bit (m / 2) i * 2 + m % 2

unfoldable pub and_not : ℕ → ℕ → ℕ → ℕ
and_not zero m e = 0
and_not (suc w) m e = and_not w (m / 2) (e / 2) * 2 + (if e % 2 == 1 then 0 else m % 2)

half_join : (a m : ℕ) → (a * 2 + m % 2) / 2 ≡ a
half_join a m = omega arith

at_half : (a m i : ℕ) → test_bit ((a * 2 + m % 2) / 2) i ≡ test_bit a i
at_half a m i = ap (λ t. test_bit t i) (half_join a m)

pub test_bit-set_self : (m i : ℕ) → test_bit (set_bit m i) i ≡ true
unfolding test_bit set_bit
test_bit-set_self m zero = ground arith
test_bit-set_self m (suc i) =
    ground (arith, at_half (set_bit (m / 2) i) m i, test_bit-set_self (m / 2) i)

pub test_bit-set_ne : (m i j : ℕ) → i ≢ j → test_bit (set_bit m i) j ≡ test_bit m j
unfolding test_bit set_bit
test_bit-set_ne m zero zero h = absurd (h refl)
test_bit-set_ne m zero (suc j) h = ap (λ t. test_bit t j) (omega arith)
test_bit-set_ne m (suc i) zero h = ground arith
test_bit-set_ne m (suc i) (suc j) h =
    ground (arith, at_half (set_bit (m / 2) i) m j, test_bit-set_ne (m / 2) i j (λ e. h (ap suc e)))

pub test_bit-clear_self : (m i : ℕ) → test_bit (clear_bit m i) i ≡ false
unfolding test_bit clear_bit
test_bit-clear_self m zero = ground arith
test_bit-clear_self m (suc i) =
    ground (arith, at_half (clear_bit (m / 2) i) m i, test_bit-clear_self (m / 2) i)

pub test_bit-clear_ne : (m i j : ℕ) → i ≢ j → test_bit (clear_bit m i) j ≡ test_bit m j
unfolding test_bit clear_bit
test_bit-clear_ne m zero zero h = absurd (h refl)
test_bit-clear_ne m zero (suc j) h = ap (λ t. test_bit t j) (omega arith)
test_bit-clear_ne m (suc i) zero h = ground arith
test_bit-clear_ne m (suc i) (suc j) h =
    ground
      (arith, at_half (clear_bit (m / 2) i) m j, test_bit-clear_ne (m / 2) i j (λ e. h (ap suc e)))

-- A bit that is not set is cleared without effect, and setting it again undoes a clearing.
pub clear_bit_of_unset : (m i : ℕ) → test_bit m i ≡ false → clear_bit m i ≡ m
unfolding test_bit clear_bit
clear_bit_of_unset m zero h = ground arith
clear_bit_of_unset m (suc i) h = omega (arith, clear_bit_of_unset (m / 2) i h)

pub clear_bit-set_bit : (m i : ℕ) → test_bit m i ≡ false → clear_bit (set_bit m i) i ≡ m
unfolding test_bit clear_bit set_bit
clear_bit-set_bit m zero h = ground arith
clear_bit-set_bit m (suc i) h = omega (
  arith,
  ap (λ t. clear_bit t i) (half_join (set_bit (m / 2) i) m),
  clear_bit-set_bit (m / 2) i h,
)

pub set_bit-clear_bit : (m i : ℕ) → test_bit m i ≡ true → set_bit (clear_bit m i) i ≡ m
unfolding test_bit clear_bit set_bit
set_bit-clear_bit m zero h = ground arith
set_bit-clear_bit m (suc i) h = omega (
  arith,
  ap (λ t. set_bit t i) (half_join (clear_bit (m / 2) i) m),
  set_bit-clear_bit (m / 2) i h,
)

pub test_bit-and_not :
    (w m e i : ℕ) → i < w → test_bit (and_not w m e) i ≡ (test_bit m i && not (test_bit e i))
unfolding test_bit and_not
test_bit-and_not zero m e i h = elim h [ ]
test_bit-and_not (suc w) m e zero h = ground arith
test_bit-and_not (suc w) m e (suc i) h =
    ap (λ t. test_bit t i) (shift (if e % 2 == 1 then 0 else m % 2) (ground arith))
    ∙ test_bit-and_not w (m / 2) (e / 2) i (omega arith)
  where
    shift : (b : ℕ) → b < 2 → (and_not w (m / 2) (e / 2) * 2 + b) / 2 ≡ and_not w (m / 2) (e / 2)
    shift b lt = omega arith

-- A mask of `w` bits stays below `2 ^ w`.
pub set_bit-lt : (w m i : ℕ) → m < 2 ^ w → i < w → set_bit m i < 2 ^ w
unfolding set_bit
set_bit-lt zero m i h k = elim k [ ]
set_bit-lt (suc w) m zero h k = omega (arith, pow-suc 2 w)
set_bit-lt (suc w) m (suc i) h k =
    omega (arith, pow-suc 2 w, set_bit-lt w (m / 2) i (omega (arith, pow-suc 2 w)) (omega arith))

-- One more bit doubles what stands above the others.
double_shift : (w above : ℕ) → above * 2 ^ suc w ≡ above * 2 ^ w + above * 2 ^ w
double_shift w above =
    let doubled = ap (λ (p : ℕ). above * p) (pow-suc 2 w) in omega (arith, doubled)

-- What stands above `w` bits does not show in them.
pub test_bit-add_high : (w q r i : ℕ) → i < w → test_bit (q * 2 ^ w + r) i ≡ test_bit r i
unfolding test_bit
test_bit-add_high zero q r i h = absurd (omega arith)
test_bit-add_high (suc w) q r zero h =
    let e : (q * 2 ^ suc w + r) % 2 ≡ r % 2 = omega (arith, double_shift w q) in ap (λ t. t == 1) e
test_bit-add_high (suc w) q r (suc i) h =
    let e : (q * 2 ^ suc w + r) / 2 ≡ q * 2 ^ w + r / 2 = omega (arith, double_shift w q) in
    ap (λ t. test_bit t i) e ∙ test_bit-add_high w q (r / 2) i (omega arith)

-- A bit that is set is set without effect.
pub set_bit_of_set : (m i : ℕ) → test_bit m i ≡ true → set_bit m i ≡ m
unfolding test_bit set_bit
set_bit_of_set m zero h = ground arith
set_bit_of_set m (suc i) h = omega (arith, set_bit_of_set (m / 2) i h)
