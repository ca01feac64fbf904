-- ===== src/Gamepad/Preserve.antt =====
-- Connecting and disconnecting gamepads keeps slots, numbers, mask and count in agreement.
use native.Mathlib.Decide.{ℕ_discrete}
use moonlight_tv.Base.{
  some_eq, ℕ, zero, suc, ◌+◌, ◌<◌, ◌≤◌, List, [], ◌∷◌, none, some, Bool, true, false, not, ◌&&◌,
  length, get_elem?, set, ◌≡◌, ◌≢◌, refl, sym, ap, ◌∙◌, subst, arith, inl, inr, Bool-cases,
  Option-cases, if_both,
}
use moonlight_tv.Base.Bits.{
  test_bit, set_bit, clear_bit, test_bit-set_self, test_bit-set_ne, test_bit-clear_self,
  test_bit-clear_ne,
}
use moonlight_tv.Gamepad.{
  Device, Slot, Input, is_open, new_gamepad_state_index, next_free_bit, next_gamepad_gs_id,
  slot_gs_id, opened, fill_slot, state_init, Candidate, init_gamepad, init, deinit_slot,
  has_instance, by_instance_id, close_slot, close_gamepad, should_ignore,
}
use moonlight_tv.Gamepad.Invariant.{SlotOk, Inv, init-Inv, AllOk-set, AllOk-get, open_count-set}
use moonlight_tv.Gamepad.Search.{Found, scan_slots-Found}

-- The first number that is not taken is found if there is a round left for it.
next_free_bit_first :
    (mask n i r : ℕ)
    → i ≤ r
    → r < i + n
    → ((j : ℕ) → i ≤ j → j < r → test_bit mask j ≡ true)
    → test_bit mask r ≡ false
    → next_free_bit mask n i ≡ some r
unfolding next_free_bit
next_free_bit_first mask zero i r le lt h f = absurd (omega arith)
next_free_bit_first mask (suc n) i r le lt h f = elim (ℕ_discrete i r) [
  | yes e ↦ rw (e, f, next_free_bit) (ap some e)
  | no ne ↦
      rw (h i (omega arith) (omega arith), next_free_bit)
        (next_free_bit_first mask n (i + 1) r (omega arith) (omega arith)
          (λ j lo hi. h j (omega arith) hi) f)
]

get_elem?-lt : (ss : List Slot) (k : ℕ) {s : Slot} → get_elem? ss k ≡ some s → k < length ss
get_elem?-lt [] k e = absurd (cc e)
get_elem?-lt (x ∷ ss) zero e = omega arith
get_elem?-lt (x ∷ ss) (suc k) e = omega (arith, get_elem?-lt ss k e)

-- A slot that the search found gets its own position as number.
slot_gs_id-Found :
    (input : Input) (r : ℕ)
    → Inv input
    → (f : Found input.active_mask 0 input.gamepads none r) → slot_gs_id input f.slot ≡ some r
unfolding slot_gs_id next_gamepad_gs_id
slot_gs_id-Found input r v f = elim ok.number [
  | inl u ↦
      rw (u, slot_gs_id)
        (next_free_bit_first input.active_mask (length input.gamepads) 0 r (omega arith)
          (omega (arith, get_elem?-lt input.gamepads f.k f.here)) (f.first_if_unused u).1
          (sym ok.open_iff_bit ∙ f.is_free))
  | inr n ↦ rw (n, slot_gs_id)
]
  where
    ok : SlotOk input.active_mask r f.slot
    ok =
        subst (λ t. SlotOk input.active_mask t f.slot) (sym f.position)
          (AllOk-get input.active_mask 0 f.k input.gamepads v.slots_ok f.here)

-- What a successful `app_input_gamepad_state_init` did: slot `r` was free, it is now open for the
-- device, its number is `r`, and nothing else changed.
pub record Filled (input : Input) (d : Device) (out : Input × ℕ) : Type 0 where
  pub old : Slot
  pub was_here : get_elem? input.gamepads out.1 ≡ some old
  pub was_free : is_open old ≡ false
  pub result : out.0 ≡ record input { gamepads = set input.gamepads out.1 (opened d out.1) }

pub state_init-Filled :
    (input : Input) (d : Device) {out : Input × ℕ}
    → d.guid ≢ 0
    → Inv input
    → state_init input d ≡ some out
    → Filled input d out
unfolding state_init new_gamepad_state_index
state_init-Filled input d {out} g v e = elim (Option-cases (new_gamepad_state_index input d)) [
  | inl n ↦ absurd (cc (rw (n, state_init) at e))
  | inr (r, n) ↦
      elim (scan_slots-Found d input.active_mask input.gamepads 0 none r g v.slots_ok n) [
        | inl bad ↦ absurd (cc bad)
        | inr f ↦
            let at_r : get_elem? input.gamepads r ≡ some f.slot =
              ap (get_elem? input.gamepads) (omega (arith, f.position)) ∙ f.here in
            let done =
              some_eq (rw (n, at_r, slot_gs_id-Found input r v f, state_init, fill_slot) at e) in
            subst (Filled input d) done
              (record { old = f.slot; was_here = at_r; was_free = f.is_free; result = refl })
      ]
]

connected-Inv :
    (input : Input) (d : Device) (out : Input × ℕ)
    → Inv input
    → Filled input d out
    → Inv (record out.0 {
      active_mask = set_bit out.0.active_mask out.1;
      gamepads_count = out.0.gamepads_count + 1;
    })
unfolding is_open
connected-Inv input d out v f = rw f.result (record {
  slots_ok =
      AllOk-set input.active_mask (set_bit input.active_mask out.1) 0 out.1 out.1 input.gamepads
        (opened d out.1) (omega arith)
        (λ j ne. test_bit-set_ne input.active_mask out.1 j (λ e. ne (sym e)))
        (record {
          open_iff_bit = sym (test_bit-set_self input.active_mask out.1);
          number = inr refl;
          open_numbered = λ _. refl;
          open_controller = refl;
          unused_no_guid = λ u. absurd (cc u);
        })
        v.slots_ok;
  counted = ground (
    arith,
    v.counted,
    f.was_free,
    open_count-set input.gamepads out.1 (opened d out.1) f.was_here,
  );
})

-- Connecting a gamepad keeps slots, numbers, mask and count in agreement, on every target and
-- whether or not it is accepted, if the device reports a GUID.
pub init_gamepad-Inv :
    (webos : Bool) (input : Input) (c : Candidate)
    → c.device.guid ≢ 0
    → Inv input
    → Inv (init_gamepad webos input c).0
unfolding init_gamepad
init_gamepad-Inv webos input c g v = elim (Option-cases (state_init input c.device)) [
  | inl n ↦
      rw (n, init_gamepad)
        (if_both P (not c.is_controller) v
          (if_both P (not c.opens) v (if_both P (webos && should_ignore c) v v)))
  | inr (out, n) ↦
      rw (n, init_gamepad)
        (if_both P (not c.is_controller) v (
          if_both P (not c.opens) v (
            if_both P (webos && should_ignore c) v
              (connected-Inv input c.device out v (state_init-Filled input c.device g v n)))))
]
  where
    P : Input × Bool → Type 0
    P out = Inv out.0

has_instance_open : (s : Slot) (id : ℕ) → has_instance s id ≡ true → is_open s ≡ true
unfolding has_instance is_open
has_instance_open s id e = ground arith

-- The slot that a lookup by instance finds is open and where it says.
pub record Located (id i : ℕ) (ss : List Slot) (at : ℕ) (s : Slot) : Type 0 where
  pub k : ℕ
  pub position : at ≡ i + k
  pub here : get_elem? ss k ≡ some s
  pub has_id : has_instance s id ≡ true

by_instance_id-Located :
    (ss : List Slot) (i id : ℕ) {at : ℕ} {s : Slot}
    → by_instance_id ss i id ≡ some (at, s)
    → Located id i ss at s
unfolding by_instance_id
by_instance_id-Located [] i id e = absurd (cc e)
by_instance_id-Located (x ∷ ss) i id {at} {s} e = elim (Bool-cases (has_instance x id)) [
  | inl h ↦
      let p = some_eq (rw (h, by_instance_id) at e) in
      record {
        k = 0;
        position = omega (arith, ap (λ t. t.0) p);
        here = ap (λ t. some t.1) p;
        has_id = subst (λ t. has_instance t id ≡ true) (ap (λ t. t.1) p) h;
      }
  | inr h ↦
      let l = by_instance_id-Located ss (i + 1) id (rw (h, by_instance_id) at e) in
      record { k = suc l.k; position = omega (arith, l.position); here = l.here; has_id = l.has_id }
]

is_open-deinit_slot : (s : Slot) → is_open (deinit_slot s) ≡ false
unfolding is_open deinit_slot
is_open-deinit_slot s = refl

deinit_slot-SlotOk :
    (mask i : ℕ) (s : Slot) → s.gs_id ≡ some i → SlotOk (clear_bit mask i) i (deinit_slot s)
unfolding is_open deinit_slot
deinit_slot-SlotOk mask i s n = record {
  open_iff_bit = sym (test_bit-clear_self mask i);
  number = inr n;
  open_numbered = λ _. n;
  open_controller = refl;
  unused_no_guid = λ u. cc;
}

closed-Inv :
    (input : Input) (id at : ℕ) (s : Slot)
    → Inv input
    → Located id 0 input.gamepads at s
    → Inv (close_slot input (some (at, s)))
unfolding close_slot
closed-Inv input id at s v l =
    simp (ok.open_controller, op, ok.open_numbered op)
      (record {
        slots_ok =
            AllOk-set input.active_mask (clear_bit input.active_mask at) 0 at at input.gamepads
              (deinit_slot s) (omega arith)
              (λ j ne. test_bit-clear_ne input.active_mask at j (λ e. ne (sym e)))
              (deinit_slot-SlotOk input.active_mask at s (ok.open_numbered op)) v.slots_ok;
        counted = ground (
          arith,
          v.counted,
          op,
          is_open-deinit_slot s,
          open_count-set input.gamepads at (deinit_slot s) here,
        );
      })
  where
    here : get_elem? input.gamepads at ≡ some s
    here = ap (get_elem? input.gamepads) (omega (arith, l.position)) ∙ l.here

    ok : SlotOk input.active_mask at s
    ok =
        subst (λ t. SlotOk input.active_mask t s) (omega arith)
          (AllOk-get input.active_mask 0 at input.gamepads v.slots_ok here)

    op : is_open s ≡ true
    op = has_instance_open s id l.has_id

-- Disconnecting a gamepad keeps slots, numbers, mask and count in agreement.
pub close_gamepad-Inv : (input : Input) (id : ℕ) → Inv input → Inv (close_gamepad input id)
unfolding close_gamepad close_slot
close_gamepad-Inv input id v = elim (Option-cases (by_instance_id input.gamepads 0 id)) [
  | inl e ↦ rw (e, close_gamepad) v
  | inr (r, e) ↦
      rw (e, close_gamepad)
        (closed-Inv input id r.0 r.1 v (by_instance_id-Located input.gamepads 0 id e))
]

-- What happens to the gamepads of the program: a device is plugged in, or one is removed.
pub data PlugEvent : Type 0 where
  plugged : Bool → Candidate → PlugEvent
  unplugged : ℕ → PlugEvent

unfoldable pub run : Input → List PlugEvent → Input
run input [] = input
run input (plugged webos c ∷ es) = run (init_gamepad webos input c).0 es
run input (unplugged id ∷ es) = run (close_gamepad input id) es

-- Every plugged device reports a GUID.
abbrev pub HaveGuids : List PlugEvent → Type 0
HaveGuids [] = Unit {0}
HaveGuids (plugged webos c ∷ es) = (c.device.guid ≢ 0) × HaveGuids es
HaveGuids (unplugged id ∷ es) = HaveGuids es

run_from-Inv : (input : Input) (es : List PlugEvent) → HaveGuids es → Inv input → Inv (run input es)
unfolding run
run_from-Inv input [] h v = v
run_from-Inv input (plugged webos c ∷ es) h v =
    run_from-Inv (init_gamepad webos input c).0 es h.1 (init_gamepad-Inv webos input c h.0 v)
run_from-Inv input (unplugged id ∷ es) h v =
    run_from-Inv (close_gamepad input id) es h (close_gamepad-Inv input id v)

-- After any plugging and unplugging of devices that report a GUID, slots, numbers, mask and count
-- agree: a slot is open exactly if its bit of the mask is set, its number is its position, and
-- gamepads_count counts the open slots.
pub run-Inv : (es : List PlugEvent) → HaveGuids es → Inv (run init es)
run-Inv es h = run_from-Inv init es h init-Inv

-- If slots, numbers, mask and count agree, two open slots never share a number.
pub numbers_distinct :
    (input : Input) (i j : ℕ) {s t : Slot}
    → Inv input
    → get_elem? input.gamepads i ≡ some s
    → get_elem? input.gamepads j ≡ some t
    → is_open s ≡ true
    → is_open t ≡ true
    → s.gs_id ≡ t.gs_id
    → i ≡ j
numbers_distinct input i j v hi hj os ot e = omega (
  arith,
  some_eq (
      sym ((AllOk-get input.active_mask 0 i input.gamepads v.slots_ok hi).open_numbered os)
      ∙ (e ∙ (AllOk-get input.active_mask 0 j input.gamepads v.slots_ok hj).open_numbered ot)),
)
