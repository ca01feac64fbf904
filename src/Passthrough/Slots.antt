-- ===== src/Passthrough/Slots.antt =====
-- What the searches over the slots find: src/app/hid_passthrough/hid_pt_gamepad_match.c.
use moonlight_tv.Base.{
  ℕ, ◌+◌, List, [], ◌∷◌, Option, none, some, Bool, true, ◌==◌, if◌then◌else◌, ◌≡◌, refl, sym, subst,
  ap, arith, ◌⊎◌, inl, inr, Bool-cases, if_both, ==_iff,
}
use moonlight_tv.Passthrough.{
  Player, Players, first_slot, gamepad_by_gs_id, has_vid_pid, count_vid_pid, sole_gamepad, or_else,
}

-- A slot holds a gamepad of this number.
abbrev pub HasNumber : ℕ → List (Option Player) → Type 0
HasNumber k [] = ⊥
HasNumber k (none ∷ gs) = HasNumber k gs
HasNumber k (some g ∷ gs) = (g.pad.gs_id ≡ k) ⊎ HasNumber k gs

-- A gamepad that was found, if one was, stands in a slot.
abbrev pub InSlots : List (Option Player) → Option Player → Type 0
InSlots gs none = Unit {0}
InSlots gs (some g) = HasNumber g.pad.gs_id gs

pub there :
    (h : Player) (gs : List (Option Player)) (o : Option Player)
    → InSlots gs o
    → InSlots (some h ∷ gs) o
there h gs none i = tt
there h gs (some g) i = inr i

pub beside : (gs : List (Option Player)) (o : Option Player) → InSlots gs o → InSlots (none ∷ gs) o
beside gs none i = tt
beside gs (some g) i = i

pub first_slot-InSlots :
    (f : Player → Bool) (gs : List (Option Player)) → InSlots gs (first_slot f gs)
unfolding first_slot
first_slot-InSlots f [] = tt
first_slot-InSlots f (none ∷ gs) = beside gs (first_slot f gs) (first_slot-InSlots f gs)
first_slot-InSlots f (some g ∷ gs) =
    if_both (InSlots (some g ∷ gs)) (f g) (inl refl)
      (there g gs (first_slot f gs) (first_slot-InSlots f gs))

-- The last gamepad of a count is the one from before or in a slot.
abbrev pub Counted : List (Option Player) → Option Player → ℕ × Option Player → Type 0
Counted gs last r = (r.1 ≡ last) ⊎ InSlots gs r.1

pub count-Counted :
    (vid pid : ℕ) (gs : List (Option Player)) (n : ℕ) (last : Option Player)
    → Counted gs last (count_vid_pid vid pid gs (n, last))
unfolding count_vid_pid
count-Counted vid pid [] n last = inl refl
count-Counted vid pid (none ∷ gs) n last = elim (count-Counted vid pid gs n last) [
  | inl e ↦ inl e
  | inr i ↦ inr (beside gs (count_vid_pid vid pid gs (n, last)).1 i)
]
count-Counted vid pid (some g ∷ gs) n last =
    if_both (Counted (some g ∷ gs) last) (has_vid_pid vid pid g)
      (elim (count-Counted vid pid gs (n + 1) (some g)) [
        | inl e ↦ inr (subst (InSlots (some g ∷ gs)) (sym e) (inl refl))
        | inr i ↦ inr (there g gs (count_vid_pid vid pid gs (n + 1, some g)).1 i)
      ])
      (elim (count-Counted vid pid gs n last) [
        | inl e ↦ inl e
        | inr i ↦ inr (there g gs (count_vid_pid vid pid gs (n, last)).1 i)
      ])

pub count-InSlots :
    (vid pid : ℕ) (gs : List (Option Player)) → InSlots gs (count_vid_pid vid pid gs (0, none)).1
count-InSlots vid pid gs = elim (count-Counted vid pid gs 0 none) [
  | inl e ↦ subst (InSlots gs) (sym e) tt
  | inr i ↦ i
]

pub or_else-InSlots :
    (gs : List (Option Player)) (a b : Option Player)
    → InSlots gs a
    → InSlots gs b
    → InSlots gs (or_else a b)
or_else-InSlots gs none b i j = j
or_else-InSlots gs (some g) b i j = i

pub sole-InSlots : (ps : Players) → InSlots ps.slots (sole_gamepad ps)
unfolding sole_gamepad
sole-InSlots ps =
    if_both (InSlots ps.slots) (ps.gamepads_count == 1) (first_slot-InSlots (λ g. true) ps.slots) tt

-- A gamepad whose number is in a slot is found by it.
pub by_gs_id-has :
    (gs : List (Option Player)) (k : ℕ)
    → HasNumber k gs
    → (g : Player) × (gamepad_by_gs_id gs k ≡ some g) × (g.pad.gs_id ≡ k)
unfolding gamepad_by_gs_id first_slot
by_gs_id-has [] k h = elim h [ ]
by_gs_id-has (none ∷ gs) k h = by_gs_id-has gs k h
by_gs_id-has (some g ∷ gs) k h = elim (Bool-cases (g.pad.gs_id == k)) [
  | inl e ↦ (g, rw e refl, (==_iff g.pad.gs_id k).0 e)
  | inr e ↦ elim h [
    | inl same ↦ absurd (ground (arith, same))
    | inr rest ↦ let r = by_gs_id-has gs k rest in (r.0, rw e r.1, r.2)
  ]
]

-- A gamepad that was found passes the test.
abbrev pub Passes : (Player → Bool) → Option Player → Type 0
Passes f none = Unit {0}
Passes f (some g) = f g ≡ true

pub first_slot-Passes : (f : Player → Bool) (gs : List (Option Player)) → Passes f (first_slot f gs)
unfolding first_slot
first_slot-Passes f [] = tt
first_slot-Passes f (none ∷ gs) = first_slot-Passes f gs
first_slot-Passes f (some g ∷ gs) = elim (Bool-cases (f g)) [
  | inl e ↦ subst (Passes f) (sym (pick e)) e
  | inr e ↦ subst (Passes f) (sym (pick e)) (first_slot-Passes f gs)
]
  where
    pick :
        {b : Bool}
        → f g ≡ b
        → (if f g then some g else first_slot f gs) ≡ (if b then some g else first_slot f gs)
    pick e = ap (λ c. if c then some g else first_slot f gs) e

pub by_gs_id_number :
    (gs : List (Option Player)) (k : ℕ) (g : Player)
    → gamepad_by_gs_id gs k ≡ some g
    → g.pad.gs_id ≡ k
unfolding gamepad_by_gs_id
by_gs_id_number gs k g h =
    (==_iff g.pad.gs_id k).0
      (subst (Passes (λ x. x.pad.gs_id == k)) h (first_slot-Passes (λ x. x.pad.gs_id == k) gs))

-- What holds of a missing number and of every number holds of the case on it.
pub number_both :
    (P : Option Player → Type 0) (o : Option ℕ) (f : ℕ → Option Player)
    → P none
    → ((n : ℕ) → P (f n))
    → P (elim o [ none ↦ none | some n ↦ f n ])
number_both P none f a b = a
number_both P (some n) f a b = b n
