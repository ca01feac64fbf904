-- ===== src/Gamepad/Invariant.antt =====
-- The slots, the numbers given to the host and the mask of active gamepads agree.
use moonlight_tv.Base.{
  ℕ, zero, suc, ◌+◌, ◌≤◌, List, [], ◌∷◌, none, some, true, if◌then◌else◌, get_elem?, set, ◌≡◌, ◌≢◌,
  sym, ap, ◌∙◌, subst, subst₂, arith, ◌⊎◌,
}
use moonlight_tv.Base.Bits.{test_bit}
use moonlight_tv.Gamepad.{Slot, Input, init, is_open}

-- Slot number `i`: it is open exactly if its bit of the mask is set; its number for the host, once
-- it has one, is its own position, and an open slot has one; an unused slot has no GUID.
pub record SlotOk (mask i : ℕ) (s : Slot) : Type 0 where
  pub open_iff_bit : is_open s ≡ test_bit mask i
  pub number : (s.gs_id ≡ none) ⊎ (s.gs_id ≡ some i)
  pub open_numbered : is_open s ≡ true → s.gs_id ≡ some i
  pub open_controller : s.controller ≡ is_open s
  pub unused_no_guid : s.gs_id ≡ none → s.guid ≡ 0

abbrev pub AllOk : ℕ → ℕ → List Slot → Type 0
AllOk mask i [] = Unit {0}
AllOk mask i (s ∷ ss) = SlotOk mask i s × AllOk mask (i + 1) ss

abbrev pub open_count : List Slot → ℕ
open_count [] = 0
open_count (s ∷ ss) = (if is_open s then 1 else 0) + open_count ss

pub record Inv (input : Input) : Type 0 where
  pub slots_ok : AllOk input.active_mask 0 input.gamepads
  pub counted : input.gamepads_count ≡ open_count input.gamepads

pub init-Inv : Inv init
unfolding init is_open test_bit
init-Inv = ground arith

-- Masks that agree from position `i` on are as good as one another for the slots from there on.
AllOk-agree :
    (mask mask' i : ℕ) (ss : List Slot)
    → ((j : ℕ) → i ≤ j → test_bit mask' j ≡ test_bit mask j)
    → AllOk mask i ss
    → AllOk mask' i ss
AllOk-agree mask mask' i [] h a = tt
AllOk-agree mask mask' i (s ∷ ss) h (o, a) = (
  record {
    open_iff_bit = o.open_iff_bit ∙ sym (h i (omega arith));
    number = o.number;
    open_numbered = o.open_numbered;
    open_controller = o.open_controller;
    unused_no_guid = o.unused_no_guid;
  },
  AllOk-agree mask mask' (i + 1) ss (λ j le. h j (omega arith)) a,
)

-- One slot and its bit are changed together.
pub AllOk-set :
    (mask mask' i k r : ℕ) (ss : List Slot) (s' : Slot)
    → r ≡ i + k
    → ((j : ℕ) → j ≢ r → test_bit mask' j ≡ test_bit mask j)
    → SlotOk mask' r s'
    → AllOk mask i ss
    → AllOk mask' i (set ss k s')
AllOk-set mask mask' i k r [] s' e h o a = tt
AllOk-set mask mask' i zero r (s ∷ ss) s' e h o (p, a) = (
  subst (λ t. SlotOk mask' t s') (omega arith) o,
  AllOk-agree mask mask' (i + 1) ss (λ j le. h j (omega arith)) a,
)
AllOk-set mask mask' i (suc k) r (s ∷ ss) s' e h o (p, a) = (
  record {
    open_iff_bit = p.open_iff_bit ∙ sym (h i (omega arith));
    number = p.number;
    open_numbered = p.open_numbered;
    open_controller = p.open_controller;
    unused_no_guid = p.unused_no_guid;
  },
  AllOk-set mask mask' (i + 1) k r ss s' (omega arith) h o a,
)

pub AllOk-get :
    (mask i k : ℕ) (ss : List Slot) {s : Slot}
    → AllOk mask i ss
    → get_elem? ss k ≡ some s
    → SlotOk mask (i + k) s
AllOk-get mask i k [] a e = absurd (cc e)
AllOk-get mask i zero (x ∷ ss) (o, a) e = subst₂ (SlotOk mask) (omega arith) (ground (arith, e)) o
AllOk-get mask i (suc k) (x ∷ ss) {s} (o, a) e =
    subst (λ t. SlotOk mask t s) (omega arith) (AllOk-get mask (i + 1) k ss a e)

pub open_count-set :
    (ss : List Slot) (k : ℕ) (s' : Slot) {s : Slot}
    → get_elem? ss k ≡ some s
    → open_count (set ss k s') + (if is_open s then 1 else 0)
      ≡ open_count ss + (if is_open s' then 1 else 0)
open_count-set [] k s' e = absurd (cc e)
open_count-set (x ∷ ss) zero s' {s} e = ground (arith, ap (λ t. t) e)
open_count-set (x ∷ ss) (suc k) s' e = omega (arith, open_count-set ss k s' e)
