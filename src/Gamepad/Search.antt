-- ===== src/Gamepad/Search.antt =====
-- The search for a slot, `new_gamepad_state_index` of src/app/input/input_gamepad.c, takes a free
-- slot, and an unused one only if all before it are open.
use native.Mathlib.Decide.{ℕ_discrete}
use moonlight_tv.Base.{
  some_eq, ℕ, suc, ◌+◌, ◌<◌, ◌≤◌, List, [], ◌∷◌, Option, none, some, true, false, get_elem?, ◌≡◌,
  ◌≢◌, refl, sym, ◌∙◌, arith, ◌⊎◌, inl, inr, Bool-cases,
}
use moonlight_tv.Base.Bits.{test_bit}
use moonlight_tv.Gamepad.{Device, Slot, is_open, is_same_gamepad, or_else, scan_slots}
use moonlight_tv.Gamepad.Invariant.{SlotOk, AllOk}

-- What the search for a slot found: the slot at `r` is free, and if it was never used, all slots
-- before it are open.
pub record Found (mask i : ℕ) (ss : List Slot) (index : Option ℕ) (r : ℕ) : Type 0 where
  pub k : ℕ
  pub slot : Slot
  pub position : r ≡ i + k
  pub here : get_elem? ss k ≡ some slot
  pub is_free : is_open slot ≡ false
  pub first_if_unused :
      slot.gs_id ≡ none → (index ≡ none) × ((j : ℕ) → i ≤ j → j < r → test_bit mask j ≡ true)

Found-past_open :
    (mask i : ℕ) (s : Slot) (ss : List Slot) (index : Option ℕ) (r : ℕ)
    → test_bit mask i ≡ true
    → Found mask (i + 1) ss index r
    → Found mask i (s ∷ ss) index r
Found-past_open mask i s ss index r b f = record {
  k = suc f.k;
  slot = f.slot;
  position = omega (arith, f.position);
  here = f.here;
  is_free = f.is_free;
  first_if_unused = λ u.
      let (none_yet, all_set) = f.first_if_unused u in
      (
        none_yet,
        λ j lo hi. elim (ℕ_discrete j i) [ yes e ↦ rw e b | no ne ↦ all_set j (omega arith) hi ],
      );
}

Found-past_free :
    (mask i q : ℕ) (s : Slot) (ss : List Slot) (index : Option ℕ) (r : ℕ)
    → Found mask (i + 1) ss (some q) r
    → Found mask i (s ∷ ss) index r
Found-past_free mask i q s ss index r f = record {
  k = suc f.k;
  slot = f.slot;
  position = omega (arith, f.position);
  here = f.here;
  is_free = f.is_free;
  first_if_unused = λ u. absurd (cc (f.first_if_unused u).0);
}

-- A slot without a GUID is the same gamepad as no device that has one.
same_gamepad_used :
    (s : Slot) (d : Device) → d.guid ≢ 0 → s.guid ≡ 0 → is_same_gamepad s d ≡ true → ⊥
unfolding is_same_gamepad
same_gamepad_used s d g z e = g (ground arith)

Found-here :
    (d : Device) (mask i : ℕ) (s : Slot) (ss : List Slot) (index : Option ℕ) (r : ℕ)
    → d.guid ≢ 0
    → SlotOk mask i s
    → is_open s ≡ false
    → is_same_gamepad s d ≡ true
    → i ≡ r
    → Found mask i (s ∷ ss) index r
Found-here d mask i s ss index r g o cl same e = record {
  k = 0;
  slot = s;
  position = omega arith;
  here = refl;
  is_free = cl;
  first_if_unused = λ u. absurd (same_gamepad_used s d g (o.unused_no_guid u) same);
}

-- A free slot that is not the same gamepad is taken only if none was found before it.
Found-or_kept :
    (mask i : ℕ) (s : Slot) (ss : List Slot) (index : Option ℕ) (r : ℕ)
    → is_open s ≡ false
    → (some (or_else index i) ≡ some r) ⊎ Found mask (i + 1) ss (some (or_else index i)) r
    → (index ≡ some r) ⊎ Found mask i (s ∷ ss) index r
unfolding or_else
Found-or_kept mask i s ss (some q) r cl (inl e) = inl e
Found-or_kept mask i s ss none r cl (inl e) = inr (record {
  k = 0;
  slot = s;
  position = omega (arith, some_eq e);
  here = refl;
  is_free = cl;
  first_if_unused = λ u. (refl, λ j lo hi. absurd (omega (arith, some_eq e)));
})
Found-or_kept mask i s ss index r cl (inr f) =
    inr (Found-past_free mask i (or_else index i) s ss index r f)

pub scan_slots-Found :
    (d : Device) (mask : ℕ) (ss : List Slot) (i : ℕ) (index : Option ℕ) (r : ℕ)
    → d.guid ≢ 0
    → AllOk mask i ss
    → scan_slots d ss i index ≡ some r
    → (index ≡ some r) ⊎ Found mask i ss index r
unfolding scan_slots
scan_slots-Found d mask [] i index r g a e = inl e
scan_slots-Found d mask (s ∷ ss) i index r g (o, a) e = elim (Bool-cases (is_open s)) [
  | inl op ↦ elim (scan_slots-Found d mask ss (i + 1) index r g a (rw (op, scan_slots) at e)) [
    | inl old ↦ inl old
    | inr f ↦ inr (Found-past_open mask i s ss index r (sym o.open_iff_bit ∙ op) f)
  ]
  | inr cl ↦ elim (Bool-cases (is_same_gamepad s d)) [
    | inl same ↦
        inr
          (Found-here d mask i s ss index r g o cl same (some_eq (rw (cl, same, scan_slots) at e)))
    | inr other ↦ Found-or_kept mask i s ss index r cl (
        scan_slots-Found d mask ss (i + 1) (some (or_else index i)) r g a
          (rw (cl, other, scan_slots) at e))
  ]
]
