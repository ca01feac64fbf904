-- ===== src/Passthrough/Handover.antt =====
-- Handing a gamepad over to a HID device and back: `hid_pt_moonlight_exclude` and
-- `hid_pt_moonlight_restore` of src/app/hid_passthrough/hid_pt_gamepad_match.c, on the announcements
-- of src/app/stream/input/session_gamepad.c.
use moonlight_tv.Base.{
  ℕ, List, [], Option, none, some, Bool, true, false, not, if◌then◌else◌, ◌≡◌, ◌≢◌, refl, sym,
  subst, ap, ap₂, ◌∙◌, if_both,
}
use moonlight_tv.Base.Bits.{
  test_bit, set_bit, clear_bit, test_bit-set_self, test_bit-set_ne, test_bit-clear_self,
  test_bit-clear_ne, clear_bit-set_bit, set_bit-clear_bit,
}
use moonlight_tv.Pads.{
  Pad, Session, PadCall, send_arrive, send_remove, sends_moonlight, is_moonlight_excluded,
}
use moonlight_tv.Pads.Announce.{Told, send_remove-Told}
use moonlight_tv.Prefs.Ids.{Logical}
use moonlight_tv.Passthrough.{
  Player, Players, find_gamepad, exclude_gamepad, restore_gamepad, assigned, moonlight_exclude,
  moonlight_restore,
}
use moonlight_tv.Passthrough.Slots.{HasNumber}
use moonlight_tv.Passthrough.Match.{Remembers, find_gamepad-Remembers, find_again}

-- A running session whose host knows the gamepad of this number, which is not excluded.
pub record IsPlaying (s : Session) (k : ℕ) : Type 0 where
  pub running : s.started ≡ true
  pub sending : s.view_only ≡ false
  pub known : test_bit s.announced k ≡ true
  pub streamed : test_bit s.excluded k ≡ false

-- The session while the gamepad of this number is with a device: the host does not know it and gets
-- nothing of it, it knows what it was told, and no other gamepad is touched.
pub record IsHandedOver (s : Session) (k : ℕ) (r : Session × List PadCall) : Type 0 where
  pub gone : test_bit r.0.announced k ≡ false
  pub silent : sends_moonlight r.0 k ≡ false
  pub told : (h : ℕ) → Told h s r
  pub others :
      (h : ℕ)
      → k ≢ h
      → (test_bit r.0.announced h ≡ test_bit s.announced h)
        × (sends_moonlight r.0 h ≡ sends_moonlight s h)

if_true {ℓ} : {A : Type ℓ} {b : Bool} (x y : A) → b ≡ true → (if b then x else y) ≡ x
if_true x y e = ap (λ c. if c then x else y) e

if_false {ℓ} : {A : Type ℓ} {b : Bool} (x y : A) → b ≡ false → (if b then x else y) ≡ y
if_false x y e = ap (λ c. if c then x else y) e

removed_as :
    (s : Session) (p : Pad)
    → s.view_only ≡ false
    → test_bit s.announced p.gs_id ≡ true
    → (send_remove s p).0 ≡ record s { announced = clear_bit s.announced p.gs_id }
unfolding send_remove
removed_as s p v k = simp (v, k, send_remove)

arrived_as :
    (s : Session) (p : Pad)
    → sends_moonlight s p.gs_id ≡ true
    → test_bit s.announced p.gs_id ≡ false
    → (send_arrive s p).0 ≡ record s { announced = set_bit s.announced p.gs_id }
unfolding send_arrive
arrived_as s p v k = simp (v, k, send_arrive)

sends_as :
    (s : Session) (k : ℕ) (b : Bool)
    → s.view_only ≡ false
    → test_bit s.excluded k ≡ b
    → sends_moonlight s k ≡ not b
unfolding sends_moonlight is_moonlight_excluded
sends_as s k b v e = if_false false (not (test_bit s.excluded k)) v ∙ ap not e

abbrev excluding : ℕ → Session → Session
excluding k t = record t { excluded = set_bit t.excluded k }

remove_as :
    (s : Session) (g : Player)
    → IsPlaying s g.pad.gs_id
    → (exclude_gamepad s g).0 ≡ record s {
      announced = clear_bit s.announced g.pad.gs_id;
      excluded = set_bit s.excluded g.pad.gs_id;
    }
unfolding exclude_gamepad
remove_as s g p = ap (excluding g.pad.gs_id) (
    ap (λ t. t.0) (if_true (send_remove s g.pad) (s, []) p.running)
    ∙ removed_as s g.pad p.sending p.known)

exclude-Told : (h : ℕ) (s : Session) (g : Player) → Told h s (exclude_gamepad s g)
unfolding exclude_gamepad
exclude-Told h s g = if_both (Told h s) s.started (send_remove-Told h s g.pad) refl

restore_as :
    (s : Session) (g : Player)
    → s.started ≡ true
    → s.view_only ≡ false
    → test_bit s.announced g.pad.gs_id ≡ false
    → (restore_gamepad s g).0 ≡ record s {
      announced = set_bit s.announced g.pad.gs_id;
      excluded = clear_bit s.excluded g.pad.gs_id;
    }
unfolding restore_gamepad
restore_as s g a b c =
    let s1 : Session = record s { excluded = clear_bit s.excluded g.pad.gs_id } in
    ap (λ t. t.0) (if_true (send_arrive s1 g.pad) (s1, []) a)
    ∙ arrived_as s1 g.pad
        (sends_as s1 g.pad.gs_id false b (test_bit-clear_self s.excluded g.pad.gs_id)) c

back_as :
    (s : Session) (k : ℕ)
    → IsPlaying s k
    → record s {
      announced = set_bit (clear_bit s.announced k) k;
      excluded = clear_bit (set_bit s.excluded k) k;
    }
      ≡ s
back_as s k p =
    ap₂ (λ a x. record s { announced = a; excluded = x }) (set_bit-clear_bit s.announced k p.known)
      (clear_bit-set_bit s.excluded k p.streamed)

-- The session that an exclusion leaves.
abbrev away : Session → ℕ → Session
away s k = record s { announced = clear_bit s.announced k; excluded = set_bit s.excluded k }

restore-away :
    (s : Session) (k : ℕ) (g : Player)
    → IsPlaying s k
    → g.pad.gs_id ≡ k
    → (restore_gamepad (away s k) g).0 ≡ s
restore-away s k g p e =
    restore_as (away s k) g p.running p.sending (
      subst (λ i. test_bit (clear_bit s.announced k) i ≡ false) (sym e)
        (test_bit-clear_self s.announced k))
    ∙ ap
        (λ i. record s {
          announced = set_bit (clear_bit s.announced k) i;
          excluded = clear_bit (set_bit s.excluded k) i;
        })
        e
    ∙ back_as s k p

others_sends : (s : Session) (k h : ℕ) → k ≢ h → sends_moonlight (away s k) h ≡ sends_moonlight s h
unfolding sends_moonlight is_moonlight_excluded
others_sends s k h n =
    ap (λ b. if s.view_only then false else not b) (test_bit-set_ne s.excluded k h n)

exclude-IsHandedOver :
    (s : Session) (g : Player)
    → IsPlaying s g.pad.gs_id
    → IsHandedOver s g.pad.gs_id (exclude_gamepad s g)
exclude-IsHandedOver s g p =
    let k : ℕ = g.pad.gs_id in
    record {
      gone = ap (λ t. test_bit t.announced k) (remove_as s g p) ∙ test_bit-clear_self s.announced k;
      silent =
          ap (λ t. sends_moonlight t k) (remove_as s g p)
          ∙ sends_as (away s k) k true p.sending (test_bit-set_self s.excluded k);
      told = λ h. exclude-Told h s g;
      others = λ h n. (
        ap (λ t. test_bit t.announced h) (remove_as s g p) ∙ test_bit-clear_ne s.announced k h n,
        ap (λ t. sends_moonlight t h) (remove_as s g p) ∙ others_sends s k h n,
      );
    }

module _ (scan_hex : List ℕ → Option ℕ) where
  exclude_found :
      (ps : Players) (s : Session) (item : Logical) (g : Player)
      → (find_gamepad scan_hex ps item).1 ≡ some g
      → moonlight_exclude scan_hex ps s item
        ≡ (assigned (find_gamepad scan_hex ps item).0 g, exclude_gamepad s g)
  unfolding moonlight_exclude
  exclude_found ps s item g e =
      let item1 = (find_gamepad scan_hex ps item).0 in
      ap
        (λ o. elim o [ none ↦ (item1, (s, [])) | some x ↦ (assigned item1 x, exclude_gamepad s x) ])
        e

  restore_found :
      (ps : Players) (s : Session) (item : Logical) (g : Player)
      → find_gamepad scan_hex ps item ≡ (item, some g)
      → (moonlight_restore scan_hex ps s item).1 ≡ restore_gamepad s g
  unfolding moonlight_restore
  restore_found ps s item g e = ap (λ f. (after_find f).1) e
    where
      after_find : Logical × Option Player → Logical × (Session × List PadCall)
      after_find f = elim f.1 [
        | none ↦ (f.0, (s, []))
        | some x ↦ (assigned f.0 x, restore_gamepad s x)
      ]

  found-HasNumber :
      (ps : Players) (item : Logical) (g : Player)
      → (find_gamepad scan_hex ps item).1 ≡ some g
      → HasNumber g.pad.gs_id ps.slots
  found-HasNumber ps item g e =
      (subst (λ o. Remembers ps ((find_gamepad scan_hex ps item).0, o)) e
        (find_gamepad-Remembers scan_hex ps item)).1

  -- In a running session that is not view-only, where a HID device is found to belong to a
  -- gamepad that the host knows and that is not excluded: after the exclusion the host does not
  -- know that gamepad and gets nothing of it, the announced ones are those that the host was told
  -- of, and no other gamepad is touched; and a restoration from there gives the session back as
  -- it was.
  pub moonlight_exclude-IsHandedOver :
      (ps : Players) (s : Session) (item : Logical) (g : Player)
      → (find_gamepad scan_hex ps item).1 ≡ some g
      → IsPlaying s g.pad.gs_id
      → let (item1, r) = moonlight_exclude scan_hex ps s item in
        IsHandedOver s g.pad.gs_id r × ((moonlight_restore scan_hex ps r.0 item1).1.0 ≡ s)
  moonlight_exclude-IsHandedOver ps s item g e p =
      let item1 = assigned (find_gamepad scan_hex ps item).0 g in
      let again = find_again scan_hex ps item1 g.pad.gs_id refl (found-HasNumber ps item g e) in
      subst
        (λ t. IsHandedOver s g.pad.gs_id t.1 × ((moonlight_restore scan_hex ps t.1.0 t.0).1.0 ≡ s))
        (sym (exclude_found ps s item g e))
        (
          exclude-IsHandedOver s g p,
          ap (λ t. (moonlight_restore scan_hex ps t item1).1.0) (remove_as s g p)
              ∙ ap (λ t. t.0) (restore_found ps (away s g.pad.gs_id) item1 again.0 again.1)
              ∙ restore-away s g.pad.gs_id again.0 p again.2,
        )
