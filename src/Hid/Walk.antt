-- ===== src/Hid/Walk.antt =====
-- The two walks of a report descriptor, side by side: src/app/hid_passthrough/ctm_hid.c.
use moonlight_tv.Base.{
  ℕ, zero, suc, ◌+◌, ◌/◌, ◌%◌, ◌<◌, max, List, [], ◌∷◌, Option, some, true, false, ◌||◌, ltb, ◌==◌,
  if◌then◌else◌, ◌≡◌, refl, subst, ap, ◌∙◌, arith, inl, inr, Bool-cases, if_both, length, take,
  drop, length-drop,
}
use moonlight_tv.Hid.Descriptor.{
  Item, Next, stop, skipped, read, item_u32, item_len, long_item, short_item, next_item, walk,
  report_bytes, Lengths, no_lengths, is_report, length_global, length_report, length_step,
  scan_lengths, Usage, no_usage, usage_global, usage_local, usage_report, usage_step, top_usage,
}

-- What is left after a round is shorter.
abbrev Shrinks : List ℕ → Next → Type 0
Shrinks bs stop = Unit {0}
Shrinks bs (skipped rest) = length rest < length bs
Shrinks bs (read i rest) = length rest < length bs

next_item-Shrinks : (bs : List ℕ) → Shrinks bs (next_item bs)
unfolding next_item long_item short_item
next_item-Shrinks [] = tt
next_item-Shrinks (b ∷ bs) =
    if_both (Shrinks (b ∷ bs)) (b == 0xfe) (long bs) (short (item_len (b % 4)))
  where
    long : (bs : List ℕ) → Shrinks (b ∷ bs) (long_item bs)
    long [] = tt
    long (x ∷ []) = tt
    long (x ∷ y ∷ rest) =
        if_both (Shrinks (b ∷ x ∷ y ∷ rest)) (ltb (length rest) x) tt
          (omega (arith, length-drop x rest))

    short :
        (n : ℕ)
        → Shrinks (b ∷ bs) (
            if ltb (length bs) n
            then stop
            else read
                (record { kind = b / 4 % 4; tag = b / 16 % 16; value = item_u32 (take n bs) })
                (drop n bs))
    short n = if_both (Shrinks (b ∷ bs)) (ltb (length bs) n) tt (omega (arith, length-drop n bs))

-- A relation that every item keeps holds of the results of two walks, and both walks end.
abbrev pub Related : {S T : Type 0} → (S → T → Type 0) → Option S → Option T → Type 0
Related R (some s) (some t) = R s t
Related R _ _ = ⊥

module _ {S T : Type 0} (R : S → T → Type 0) (f : S → Item → S) (g : T → Item → T) where
  walk-Related :
      ((i : Item) (s : S) (t : T) → R s t → R (f s i) (g t i))
      → (fuel : ℕ) (bs : List ℕ) (s : S) (t : T) → length bs < fuel
      → R s t
      → Related R (walk fuel f s bs) (walk fuel g t bs)
  unfolding walk
  walk-Related keep zero bs s t h r = absurd (omega arith)
  walk-Related keep (suc fuel) bs s t h r =
      go (next_item bs) (next_item-Shrinks bs) (walk-Related keep fuel)
    where
      go :
          (n : Next)
          → Shrinks bs n
          → ((rest : List ℕ) (s : S) (t : T)
              → length rest < fuel
              → R s t
              → Related R (walk fuel f s rest) (walk fuel g t rest))
          → Related R
              (elim n [
                | stop ↦ some s
                | skipped rest ↦ walk fuel f s rest
                | read i rest ↦ walk fuel f (f s i) rest
              ])
              (elim n [
                | stop ↦ some t
                | skipped rest ↦ walk fuel g t rest
                | read i rest ↦ walk fuel g (g t i) rest
              ])
      go stop l ih = r
      go (skipped rest) l ih = ih rest s t (omega arith) r
      go (read i rest) l ih = ih rest (f s i) (g t i) (omega arith) (keep i s t r)

-- Both walks have read the same global items, and the one keeps the largest of the other's maxima.
pub record Agree (s : Lengths) (t : Usage) : Type 0 where
  pub same_size : s.report_size ≡ t.report_size
  pub same_count : s.report_count ≡ t.report_count
  pub same_id : s.report_id ≡ t.report_id
  pub largest : t.max_bytes ≡ max s.max_in (max s.max_out s.max_feature)

global-Agree :
    (tag value : ℕ) (s : Lengths) (t : Usage)
    → Agree s t
    → Agree (length_global s tag value) (usage_global t tag value)
unfolding length_global usage_global
global-Agree tag value s t a = ground arith

local-Agree :
    (tag value : ℕ) (s : Lengths) (t : Usage) → Agree s t → Agree s (usage_local t tag value)
unfolding usage_local
local-Agree tag value s t a = ground arith

report-Agree :
    (tag bytes : ℕ) (s : Lengths) (t : Usage)
    → (tag == 8 || tag == 9 || tag == 11) ≡ true
    → Agree s t
    → Agree (length_report s tag bytes) (usage_report t bytes)
unfolding length_report usage_report
report-Agree tag bytes s t h a = ground arith

not_report_lem : (i : Item) → (i.kind == 2) ≡ true → is_report i ≡ false
unfolding is_report
not_report_lem i e = ground arith

tag_of_report : (i : Item) → is_report i ≡ true → (i.tag == 8 || i.tag == 9 || i.tag == 11) ≡ true
unfolding is_report
tag_of_report i e = ground arith

step-Agree :
    (i : Item) (s : Lengths) (t : Usage) → Agree s t → Agree (length_step s i) (usage_step t i)
unfolding length_step usage_step
step-Agree i s t a = elim (Bool-cases (i.kind == 1)) [
  | inl e ↦ simp e (global-Agree i.tag i.value s t a)
  | inr e ↦ elim (Bool-cases (i.kind == 2)) [
    | inl e2 ↦ simp (e, e2, not_report e2) (local-Agree i.tag i.value s t a)
    | inr e2 ↦ elim (Bool-cases (is_report i)) [
      | inl r ↦
          simp (e, e2, r)
            (subst
              (λ n.
                Agree
                  (length_report s i.tag (report_bytes s.report_size s.report_count s.report_id))
                  (usage_report t n))
              same_bytes
              (report-Agree i.tag (report_bytes s.report_size s.report_count s.report_id) s t
                (tag_of_report i r) a))
      | inr r ↦ simp (e, e2, r) a
    ]
  ]
]
  where
    not_report : (i.kind == 2) ≡ true → is_report i ≡ false
    not_report e = not_report_lem i e

    same_bytes :
        report_bytes s.report_size s.report_count s.report_id
        ≡ report_bytes t.report_size t.report_count t.report_id
    same_bytes =
        ap (λ n. report_bytes n s.report_count s.report_id) a.same_size
        ∙ ap (λ n. report_bytes t.report_size n s.report_id) a.same_count
        ∙ ap (λ n. report_bytes t.report_size t.report_count n) a.same_id

-- On any descriptor both walks end, and the largest report that `ctm_hid_top_usage` finds is the
-- largest of the input, output and feature reports that `derive_report_lengths` finds.
pub scan_lengths-top_usage : (desc : List ℕ) → Related Agree (scan_lengths desc) (top_usage desc)
unfolding scan_lengths top_usage
scan_lengths-top_usage desc =
    walk-Related Agree length_step usage_step step-Agree (length desc + 1) desc no_lengths no_usage
      (omega arith)
      (record { same_size = refl; same_count = refl; same_id = refl; largest = omega arith })
