-- ===== src/Pads/Announce.antt =====
-- The mask of announced gamepads is what the host has been told.
use moonlight_tv.Base.{
  ℕ, List, [], ◌∷◌, ◌++◌, Option, none, some, Bool, true, false, not, ◌==◌, if◌then◌else◌, ◌≡◌,
  refl, sym, subst, ap, ◌∙◌, arith, inl, inr, Bool-cases, if_both, ==_iff,
}
use moonlight_tv.Base.Bits.{
  test_bit, set_bit, clear_bit, test_bit-set_self, test_bit-set_ne, test_bit-clear_self,
  test_bit-clear_ne,
}
use moonlight_tv.Pads.{
  Pad, Session, PadCall, arrival, removal, sends_moonlight, is_moonlight_excluded, send_arrive,
  send_remove, announce_all, send_unannounced, session_started, JoyEvent, added_unknown, added,
  removed, handle_jdevice, handle_cdevice,
}

-- Whether the host knows gamepad `g` after some calls, if `known` was so before.
abbrev pub known_after : ℕ → Bool → List PadCall → Bool
known_after g known [] = known
known_after g known (arrival i m t c ∷ cs) = known_after g (if i == g then true else known) cs
known_after g known (removal i m ∷ cs) = known_after g (if i == g then false else known) cs

known_after-append :
    (g : ℕ) (cs ds : List PadCall) (known : Bool)
    → known_after g known (cs ++ ds) ≡ known_after g (known_after g known cs) ds
known_after-append g [] ds known = refl
known_after-append g (arrival i m t c ∷ cs) ds known =
    known_after-append g cs ds (if i == g then true else known)
known_after-append g (removal i m ∷ cs) ds known =
    known_after-append g cs ds (if i == g then false else known)

-- The host knows exactly the announced gamepads after a step that ends in `r`, if it did in `s`.
abbrev pub Told : ℕ → Session → Session × List PadCall → Type 0
Told g s r = test_bit r.0.announced g ≡ known_after g (test_bit s.announced g) r.1

set_told : (m i g : ℕ) → test_bit (set_bit m i) g ≡ (if i == g then true else test_bit m g)
set_told m i g = elim (Bool-cases (i == g)) [
  | inl e ↦
      subst (λ j. test_bit (set_bit m i) j ≡ (if i == j then true else test_bit m j))
        ((==_iff i g).0 e)
        (test_bit-set_self m i
          ∙ ap (λ b. if b then true else test_bit m i) (sym ((==_iff i i).1 refl)))
  | inr e ↦
      test_bit-set_ne m i g (ground arith) ∙ ap (λ b. if b then true else test_bit m g) (sym e)
]

clear_told : (m i g : ℕ) → test_bit (clear_bit m i) g ≡ (if i == g then false else test_bit m g)
clear_told m i g = elim (Bool-cases (i == g)) [
  | inl e ↦
      subst (λ j. test_bit (clear_bit m i) j ≡ (if i == j then false else test_bit m j))
        ((==_iff i g).0 e)
        (test_bit-clear_self m i
          ∙ ap (λ b. if b then false else test_bit m i) (sym ((==_iff i i).1 refl)))
  | inr e ↦
      test_bit-clear_ne m i g (ground arith) ∙ ap (λ b. if b then false else test_bit m g) (sym e)
]

pub send_arrive-Told : (g : ℕ) (s : Session) (p : Pad) → Told g s (send_arrive s p)
unfolding send_arrive
send_arrive-Told g s p =
    if_both (Told g s) (not (sends_moonlight s p.gs_id)) refl
      (if_both (Told g s) (test_bit s.announced p.gs_id) refl (set_told s.announced p.gs_id g))

pub send_remove-Told : (g : ℕ) (s : Session) (p : Pad) → Told g s (send_remove s p)
unfolding send_remove
send_remove-Told g s p = if_both (Told g s) s.view_only refl (
    if_both (Told g s) (not (test_bit s.announced p.gs_id)) refl (clear_told s.announced p.gs_id g))

Told-then :
    (g : ℕ) (s : Session) (r t : Session × List PadCall)
    → Told g s r
    → Told g r.0 t
    → Told g s (t.0, r.1 ++ t.1)
Told-then g s r t a b =
    b
    ∙ ap (λ k. known_after g k t.1) a
    ∙ sym (known_after-append g r.1 t.1 (test_bit s.announced g))

announce_all-Told : (g : ℕ) (ps : List (Option Pad)) (s : Session) → Told g s (announce_all s ps)
unfolding announce_all
announce_all-Told g [] s = refl
announce_all-Told g (none ∷ ps) s = announce_all-Told g ps s
announce_all-Told g (some p ∷ ps) s =
    if_both (Told g s) (is_moonlight_excluded s p.gs_id) (announce_all-Told g ps s) (
      Told-then g s (send_arrive s p) (announce_all (send_arrive s p).0 ps) (send_arrive-Told g s p)
        (announce_all-Told g ps (send_arrive s p).0))

joystick-Told : (g : ℕ) (s : Session) (e : JoyEvent) → Told g s (handle_jdevice s e)
unfolding handle_jdevice send_unannounced
joystick-Told g s (added_unknown ps) =
    if_both (Told g s) s.view_only refl (announce_all-Told g ps s)
joystick-Told g s (added none a) = refl
joystick-Told g s (added (some p) a) =
    if_both (Told g s) s.view_only refl (if_both (Told g s) a refl (send_arrive-Told g s p))
joystick-Told g s (removed none) = refl
joystick-Told g s (removed (some p)) =
    if_both (Told g s) s.view_only refl
      (if_both (Told g s) (not (sends_moonlight s p.gs_id)) refl (send_remove-Told g s p))

controller-Told :
    (g : ℕ) (s : Session) (r : Bool) (q : Option Pad) → Told g s (handle_cdevice s r q)
unfolding handle_cdevice
controller-Told g s r none = refl
controller-Told g s r (some p) =
    if_both (Told g s) (not r) refl
      (if_both (Told g s) (not (sends_moonlight s p.gs_id)) refl (send_remove-Told g s p))

-- At a joystick event, a controller event and the start of a session, the bit of a gamepad among
-- the announced ones is set afterwards exactly if the calls sent leave the host knowing it, where
-- it knew it before exactly if the bit was set.
pub handle_jdevice-Told :
    (g : ℕ) (s : Session) (e : JoyEvent) (ps : List (Option Pad)) (q : Option Pad) (r : Bool)
    → Told g s (handle_jdevice s e)
      × Told g s (handle_cdevice s r q)
      × Told g s (session_started s ps)
unfolding session_started
handle_jdevice-Told g s e ps q r = (
  joystick-Told g s e,
  controller-Told g s r q,
  announce_all-Told g ps (record s { started = true }),
)

-- A gamepad that is excluded, or any gamepad of a view-only session, is not announced.
pub send_arrive-excluded :
    (s : Session) (p : Pad) → sends_moonlight s p.gs_id ≡ false → send_arrive s p ≡ (s, [])
unfolding send_arrive
send_arrive-excluded s p h = rw h
