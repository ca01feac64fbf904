-- ===== src/Controller/Battery.antt =====
-- The battery of a controller: `ctm_controller_update_battery_raw` and its callers in
-- src/app/hid_passthrough/ctm/controllers/controller_common.c and controller_ds5.c.
use moonlight_tv.Base.{
  ℕ, suc, ◌+◌, ◌-◌, ◌/◌, ◌%◌, min, List, [], ◌∷◌, Option, none, some, Bool, true, false, not, ◌||◌,
  ◌^◌, ◌&&◌, ltb, leb, ◌==◌, if◌then◌else◌, ◌≡◌, refl, ◌∙◌, arith, length, get_or, if_both,
}

pub record Battery : Type 0 where
  pub battery_level : ℕ
  pub battery_status : ℕ
  pub updated_us : ℕ
  pub raw_last : ℕ
  pub raw_stable : ℕ

abbrev pub unknown : Battery
unknown = record {
  battery_level = 0;
  battery_status = 0;
  updated_us = 0;
  raw_last = 0;
  raw_stable = 0;
}

abbrev pub update_battery : Battery → ℕ → ℕ → ℕ → Battery
update_battery b level status now = record b {
  battery_level = level;
  battery_status = status;
  updated_us = now;
}

-- The count of equal samples, which stops at 255.
abbrev pub count_sample : Battery → ℕ → Battery
count_sample b raw =
    if raw == b.raw_last
    then (if ltb b.raw_stable 255 then record b { raw_stable = b.raw_stable + 1 } else b)
    else record b { raw_last = raw; raw_stable = 1 }

-- The level and the status that a sample stands for; none for the samples that are passed over.
unfoldable pub read_raw : ℕ → Option (ℕ × ℕ)
read_raw raw =
    let level : ℕ = raw % 16 in
    let charge : ℕ = raw / 16 % 16 in
    if ltb 10 level
    then none
    else if charge == 1
    then some (level, 1)
    else if charge == 2
    then some (if ltb level 10 then 10 else level, 2)
    else if charge == 0
    then some (level, 0)
    else none

abbrev pub apply_reading : Battery → ℕ → Option (ℕ × ℕ) → Battery
apply_reading b now none = b
apply_reading b now (some (level, status)) = update_battery b level status now

unfoldable pub update_battery_raw : Battery → ℕ → ℕ → Battery
update_battery_raw b raw now =
    let b' : Battery = count_sample b raw in
    if ltb b'.raw_stable 3 then b' else apply_reading b' now (read_raw raw)

-- `ds5_on_input_report`
unfoldable pub ds5_on_input_report : Battery → List ℕ → ℕ → Battery
unfolding update_battery_raw
ds5_on_input_report b report now =
    if ltb (length report) 55 || not (get_or report 0 0 == 0x31)
    then b
    else update_battery_raw b (get_or report 54 0) now

-- The part of `ctm_controller_get_status` about the battery: what is shown, none where it is not
-- valid. The difference of the clocks is unsigned.
unfoldable pub battery_shown : Battery → ℕ → Option (ℕ × ℕ)
battery_shown b now =
    let age : ℕ = (now + 2 ^ 64 - b.updated_us) % 2 ^ 64 in
    if not (b.updated_us == 0) && ltb age 5000000
    then some (b.battery_level, b.battery_status)
    else none

-- The samples, the newest first, with the time of each.
abbrev pub Samples : Type 0
Samples = List (ℕ × ℕ)

unfoldable pub after_samples : Samples → Battery
unfolding update_battery_raw
after_samples [] = unknown
after_samples ((raw, now) ∷ ss) = update_battery_raw (after_samples ss) raw now

-- The reference: the reading of the newest sample that stands for one and is equal to the two
-- before it.
abbrev pub settled : ℕ → Samples → Bool
settled raw ((a, t) ∷ ((b, u) ∷ ss)) = raw == a && raw == b
settled raw _ = false

abbrev pub newest_reading : Samples → ℕ × ℕ × ℕ
newest_reading [] = (0, 0, 0)
newest_reading ((raw, now) ∷ ss) =
    let older : ℕ × ℕ × ℕ = newest_reading ss in
    if settled raw ss
    then (elim (read_raw raw) [ none ↦ older | some (level, status) ↦ (level, status, now) ])
    else older

abbrev run_length : ℕ → Samples → ℕ
run_length raw [] = 0
run_length raw ((a, t) ∷ ss) = if raw == a then suc (run_length raw ss) else 0

settled_lem : (raw : ℕ) (ss : Samples) → settled raw ss ≡ leb 2 (run_length raw ss)
settled_lem raw [] = refl
settled_lem raw ((a, t) ∷ []) = ground arith
settled_lem raw ((a, t) ∷ ((b, u) ∷ ss)) = ground arith

-- What the counter says of the samples.
abbrev Counted : Samples → Battery → Type 0
Counted [] b = b.raw_stable ≡ 0
Counted ((a, t) ∷ ss) b = (b.raw_last ≡ a) × (b.raw_stable ≡ min 255 (suc (run_length a ss)))

count_sample-Counted :
    (raw now : ℕ) (ss : Samples) (b : Battery)
    → Counted ss b
    → Counted ((raw, now) ∷ ss) (count_sample b raw)
count_sample-Counted raw now [] b h = ground arith
count_sample-Counted raw now ((a, t) ∷ ss) b (h, k) = ground arith

apply_reading-Counted :
    (raw now at : ℕ) (ss : Samples) (b : Battery) (o : Option (ℕ × ℕ))
    → Counted ((raw, now) ∷ ss) b
    → Counted ((raw, now) ∷ ss) (apply_reading b at o)
apply_reading-Counted raw now at ss b none h = h
apply_reading-Counted raw now at ss b (some (l, s)) h = h

after_samples-Counted : (ss : Samples) → Counted ss (after_samples ss)
unfolding after_samples update_battery_raw
after_samples-Counted [] = refl
after_samples-Counted ((raw, now) ∷ ss) =
    let h = count_sample-Counted raw now ss (after_samples ss) (after_samples-Counted ss) in
    if_both (Counted ((raw, now) ∷ ss)) _ h
      (apply_reading-Counted raw now now ss _ (read_raw raw) h)

-- What a battery shows.
abbrev pub shows : Battery → ℕ × ℕ × ℕ
shows b = (b.battery_level, b.battery_status, b.updated_us)

shows-count_sample : (b : Battery) (raw : ℕ) → shows (count_sample b raw) ≡ shows b
shows-count_sample b raw = ground arith

shows-apply_reading :
    (b : Battery) (now : ℕ) (o : Option (ℕ × ℕ)) (s : ℕ × ℕ × ℕ)
    → shows b ≡ s
    → shows (apply_reading b now o)
      ≡ (elim o [ none ↦ s | some (level, status) ↦ (level, status, now) ])
shows-apply_reading b now none s e = e
shows-apply_reading b now (some (l, t)) s e = refl

choose :
    (c d : Bool) (x y : Battery) (s t : ℕ × ℕ × ℕ)
    → d ≡ not c
    → shows x ≡ t
    → shows y ≡ s
    → shows (if d then x else y) ≡ (if c then s else t)
choose true true x y s t e p q = absurd cc
choose true false x y s t e p q = q
choose false true x y s t e p q = p
choose false false x y s t e p q = absurd cc

-- After any samples the level, the status and their time are those of the newest sample that
-- stands for a reading and is equal to the two before it, and zeros where there is none.
pub after_samples-newest_reading : (ss : Samples) → shows (after_samples ss) ≡ newest_reading ss
unfolding after_samples update_battery_raw
after_samples-newest_reading [] = refl
after_samples-newest_reading ((raw, now) ∷ ss) =
    let b : Battery = after_samples ss in
    let c : Battery = count_sample b raw in
    let h = count_sample-Counted raw now ss b (after_samples-Counted ss) in
    let e : shows c ≡ newest_reading ss =
      shows-count_sample b raw ∙ after_samples-newest_reading ss in
    choose (settled raw ss) (ltb c.raw_stable 3) c _ _ _ (ground (arith, h.1, settled_lem raw ss)) e
      (shows-apply_reading c now (read_raw raw) _ e)
