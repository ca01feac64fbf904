-- ===== src/Passthrough/Match.antt =====
-- The gamepad that is found for a device, and what the device remembers of it:
-- src/app/hid_passthrough/hid_pt_gamepad_match.c.
use moonlight_tv.Base.{
  ℕ, ◌%◌, List, Option, none, some, ◌==◌, if◌then◌else◌, ◌≡◌, ◌≢◌, refl, sym, subst, ap, ◌∙◌, ◌||◌,
  if_both,
}
use moonlight_tv.Prefs.{is_blank}
use moonlight_tv.Prefs.Ids.{Logical}
use moonlight_tv.Passthrough.{
  Player, Players, matches, first_slot, gamepad_by_gs_id, count_vid_pid, only_vid_pid, sole_gamepad,
  or_else, search_gamepad, remember, cached_gamepad, find_gamepad,
}
use moonlight_tv.Passthrough.Slots.{
  HasNumber, InSlots, first_slot-InSlots, count-InSlots, or_else-InSlots, sole-InSlots,
  by_gs_id-has, by_gs_id_number, number_both,
}

-- What a device remembers after a search.
abbrev pub Remembers : Players → Logical × Option Player → Type 0
Remembers ps (item, none) = item.moonlight_gs_id ≡ none
Remembers ps (item, some g) =
    (item.moonlight_gs_id ≡ some g.pad.gs_id) × HasNumber g.pad.gs_id ps.slots

cached_number :
    (gs : List (Option Player)) (o : Option ℕ) (g : Player)
    → elim o [ none ↦ none | some k ↦ gamepad_by_gs_id gs k ] ≡ some g
    → o ≡ some g.pad.gs_id
cached_number gs none g e = absurd (differ e)
  where
    differ : {x : Player} → none ≢ some x
    differ d = cc
cached_number gs (some k) g e = ap some (sym (by_gs_id_number gs k g e))

cached-InSlots : (ps : Players) (item : Logical) → InSlots ps.slots (cached_gamepad ps item)
unfolding cached_gamepad gamepad_by_gs_id
cached-InSlots ps item =
    number_both (InSlots ps.slots) item.moonlight_gs_id (gamepad_by_gs_id ps.slots) tt
      (λ k. first_slot-InSlots (λ g. g.pad.gs_id == k) ps.slots)

cached-Remembers :
    (ps : Players) (item : Logical) (g : Player)
    → cached_gamepad ps item ≡ some g
    → Remembers ps (item, some g)
unfolding cached_gamepad
cached-Remembers ps item g e = (
  cached_number ps.slots item.moonlight_gs_id g e,
  subst (InSlots ps.slots) e (cached-InSlots ps item),
)

module _ (scan_hex : List ℕ → Option ℕ) where
  only-InSlots :
      (gs : List (Option Player)) (item : Logical) → InSlots gs (only_vid_pid scan_hex gs item)
  unfolding only_vid_pid
  only-InSlots gs item = if_both (InSlots gs) (is_blank item.vid || is_blank item.pid) tt (
      number_both (InSlots gs) (scan_hex item.vid)
        (λ v. elim (scan_hex item.pid) [ none ↦ none | some p ↦ sole v p ]) tt
        (λ v. number_both (InSlots gs) (scan_hex item.pid) (sole v) tt (λ p.
          if_both (InSlots gs) ((counted v p).0 == 1) (count-InSlots (v % 65536) (p % 65536) gs)
            tt)))
    where
      counted : ℕ → ℕ → ℕ × Option Player
      counted v p = count_vid_pid (v % 65536) (p % 65536) gs (0, none)

      sole : ℕ → ℕ → Option Player
      sole v p = if (counted v p).0 == 1 then (counted v p).1 else none

  search-InSlots :
      (ps : Players) (item : Logical) → InSlots ps.slots (search_gamepad scan_hex ps item)
  unfolding search_gamepad
  search-InSlots ps item =
      or_else-InSlots ps.slots (first_slot (λ g. matches scan_hex g item) ps.slots)
        (or_else (only_vid_pid scan_hex ps.slots item) (sole_gamepad ps))
        (first_slot-InSlots (λ g. matches scan_hex g item) ps.slots)
        (or_else-InSlots ps.slots (only_vid_pid scan_hex ps.slots item) (sole_gamepad ps)
          (only-InSlots ps.slots item) (sole-InSlots ps))

  remember-Remembers :
      (ps : Players) (item : Logical) (o : Option Player)
      → InSlots ps.slots o
      → Remembers ps (remember item o)
  remember-Remembers ps item none i = refl
  remember-Remembers ps item (some g) i = (refl, i)

  pub find_gamepad-Remembers :
      (ps : Players) (item : Logical) → Remembers ps (find_gamepad scan_hex ps item)
  unfolding find_gamepad
  find_gamepad-Remembers ps item = go (cached_gamepad ps item) refl
    where
      go :
          (o : Option Player)
          → cached_gamepad ps item ≡ o
          → Remembers ps (elim o [
            | some g ↦ (item, some g)
            | none ↦ remember item (search_gamepad scan_hex ps item)
          ])
      go none e =
          remember-Remembers ps item (search_gamepad scan_hex ps item) (search-InSlots ps item)
      go (some g) e = cached-Remembers ps item g e

  -- A device that remembers a number in a slot is found by it.
  pub find_again :
      (ps : Players) (item : Logical) (k : ℕ)
      → item.moonlight_gs_id ≡ some k
      → HasNumber k ps.slots
      → (g : Player) × (find_gamepad scan_hex ps item ≡ (item, some g)) × (g.pad.gs_id ≡ k)
  unfolding find_gamepad cached_gamepad
  find_again ps item k e h =
      let r = by_gs_id-has ps.slots k h in
      (
        r.0,
        ap
            (λ o. elim o [
              | some g ↦ (item, some g)
              | none ↦ remember item (search_gamepad scan_hex ps item)
            ])
            (ap (λ o. elim o [ none ↦ none | some i ↦ gamepad_by_gs_id ps.slots i ]) e ∙ r.1),
        r.2,
      )
