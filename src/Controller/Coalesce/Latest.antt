-- ===== src/Controller/Coalesce/Latest.antt =====
-- What a burst of input reports leaves: `input_thread_main` of
-- src/app/hid_passthrough/ctm/controllers/controller_common.c.
use moonlight_tv.Base.{
  ℕ, ◌+◌, ◌-◌, ◌≤◌, List, [], ◌∷◌, ◌++◌, Option, none, some, Bool, true, false, ◌||◌, ltb, ◌==◌,
  if◌then◌else◌, ◌≡◌, refl, ap, ap₂, ◌∙◌, arith, length, length-append, if_split, if_both, inl, inr,
  Bool-cases, suc,
}
use moonlight_tv.Controller.Battery.{Battery}
use moonlight_tv.Controller.Coalesce.{
  max_ids, Slot, report_id, has_id, replace_slot, keep_report, drain_burst, InputSide, send_slot,
  forward_slots, input_burst,
}

-- The report of a slot.
abbrev pub lookup : ℕ → List Slot → Option (List ℕ)
lookup id [] = none
lookup id ((i, r) ∷ ss) = if i == id then some r else lookup id ss

-- The reference: the last report of a burst with an id, and how many reports bring an id that was
-- not seen before.
abbrev pub last_report : ℕ → Option (List ℕ) → List (List ℕ) → Option (List ℕ)
last_report id o [] = o
last_report id o (r ∷ rs) = last_report id (if report_id r == id then some r else o) rs

abbrev pub seen_id : ℕ → List ℕ → Bool
seen_id id [] = false
seen_id id (i ∷ is) = i == id || seen_id id is

abbrev pub count_ids : List ℕ → List (List ℕ) → ℕ
count_ids seen [] = 0
count_ids seen (r ∷ rs) =
    let rest_new : ℕ = count_ids (report_id r ∷ seen) rs in
    let rest_old : ℕ = count_ids seen rs in
    if seen_id (report_id r) seen then rest_old else suc rest_new

lookup-replace :
    (id id' : ℕ) (r : List ℕ) (ss : List Slot)
    → has_id id ss ≡ true
    → lookup id' (replace_slot id r ss) ≡ (if id == id' then some r else lookup id' ss)
lookup-replace id id' r [] h = absurd cc
lookup-replace id id' r ((i, old) ∷ ss) h = ground (arith, lookup-replace id id' r ss)

lookup-append :
    (id id' : ℕ) (r : List ℕ) (ss : List Slot)
    → has_id id ss ≡ false
    → lookup id' (ss ++ ((id, r) ∷ [])) ≡ (if id == id' then some r else lookup id' ss)
lookup-append id id' r [] h = refl
lookup-append id id' r ((i, old) ∷ ss) h = ground (arith, lookup-append id id' r ss)

has_id-replace :
    (id id' : ℕ) (r : List ℕ) (ss : List Slot) → has_id id' (replace_slot id r ss) ≡ has_id id' ss
has_id-replace id id' r [] = refl
has_id-replace id id' r ((i, old) ∷ ss) = ground (arith, has_id-replace id id' r ss)

has_id-append :
    (id id' : ℕ) (r : List ℕ) (ss : List Slot)
    → has_id id' (ss ++ ((id, r) ∷ [])) ≡ (id == id' || has_id id' ss)
has_id-append id id' r [] = refl
has_id-append id id' r ((i, old) ∷ ss) = ground (arith, has_id-append id id' r ss)

length-replace : (id : ℕ) (r : List ℕ) (ss : List Slot) → length (replace_slot id r ss) ≡ length ss
length-replace id r [] = refl
length-replace id r ((i, old) ∷ ss) = ground (arith, length-replace id r ss)

-- The slots hold an id exactly if it was seen, and there is room for the ids to come.
record Fits (seen : List ℕ) (ss : List Slot) (rs : List (List ℕ)) : Type 0 where
  same_ids : (id : ℕ) → has_id id ss ≡ seen_id id seen
  room : length ss + count_ids seen rs ≤ max_ids

-- What one report does to slots with room for it.
keep_report-Keeps :
    (seen : List ℕ) (ss : List Slot) (r : List ℕ) (rs : List (List ℕ))
    → Fits seen ss (r ∷ rs)
    → ((id : ℕ)
        → lookup id (keep_report ss r) ≡ (if report_id r == id then some r else lookup id ss))
      × Fits (if seen_id (report_id r) seen then seen else report_id r ∷ seen) (keep_report ss r) rs
      × (length (keep_report ss r)
            + count_ids (if seen_id (report_id r) seen then seen else report_id r ∷ seen) rs
          ≡ length ss + count_ids seen (r ∷ rs))
unfolding keep_report
keep_report-Keeps seen ss r rs f = elim (Bool-cases (seen_id (report_id r) seen)) [
  | inl e ↦
      let e' : has_id (report_id r) ss ≡ true = f.same_ids (report_id r) ∙ e in
      let l = length-replace (report_id r) r ss in
      simp (keep_report, e, e')
        (
          λ id. lookup-replace (report_id r) id r ss e',
          record {
            same_ids = λ id. has_id-replace (report_id r) id r ss ∙ f.same_ids id;
            room = ground (arith, f.room, e, l);
          },
          omega (arith, l),
        )
  | inr e ↦
      let e' : has_id (report_id r) ss ≡ false = f.same_ids (report_id r) ∙ e in
      let g : length ss + suc (count_ids (report_id r ∷ seen) rs) ≤ max_ids =
        ground (arith, f.room, e) in
      let t : ltb (length ss) max_ids ≡ true = ground arith in
      let l = length-append ss ((report_id r, r) ∷ []) in
      simp (keep_report, e, e', t)
        (
          λ id. lookup-append (report_id r) id r ss e',
          record {
            same_ids = λ id.
                has_id-append (report_id r) id r ss
                ∙ ap (λ b. report_id r == id || b) (f.same_ids id);
            room = omega (arith, l);
          },
          omega (arith, l),
        )
]

drain_burst-Latest :
    (rs : List (List ℕ)) (seen : List ℕ) (ss : List Slot)
    → Fits seen ss rs
    → ((id : ℕ) → lookup id (drain_burst ss rs) ≡ last_report id (lookup id ss) rs)
      × (length (drain_burst ss rs) ≡ length ss + count_ids seen rs)
unfolding drain_burst
drain_burst-Latest [] seen ss f = (λ id. refl, omega arith)
drain_burst-Latest (r ∷ rs) seen ss f =
    let (k, f', l) = keep_report-Keeps seen ss r rs f in
    let (p, q) = drain_burst-Latest rs _ (keep_report ss r) f' in
    (λ id. p id ∙ ap (λ o. last_report id o rs) (k id), q ∙ l)

abbrev pub slot_reports : List Slot → List (List ℕ)
slot_reports [] = []
slot_reports ((i, r) ∷ ss) = r ∷ slot_reports ss

abbrev pub fold_hook : (Battery → List ℕ → Battery) → Battery → List (List ℕ) → Battery
fold_hook hook b [] = b
fold_hook hook b (r ∷ rs) = fold_hook hook (hook b r) rs

-- All reports of a list are sent: what that makes of the state.
pub record IsSent (hook : Battery → List ℕ → Battery) (rs : List (List ℕ)) (s t : InputSide)
    : Type 0 where
  pub all_sent : t.sent ≡ s.sent ++ rs
  pub goes_on : t.stop ≡ false
  pub hooked : t.battery ≡ fold_hook hook s.battery rs
  pub counted : t.reports_in ≡ s.reports_in + length rs

append_nil : (xs : List (List ℕ)) → xs ≡ xs ++ []
append_nil [] = refl
append_nil (x ∷ xs) = ap (λ l. x ∷ l) (append_nil xs)

append_one :
    (xs : List (List ℕ)) (y : List ℕ) (ys : List (List ℕ)) → (xs ++ (y ∷ [])) ++ ys ≡ xs ++ (y ∷ ys)
append_one [] y ys = refl
append_one (x ∷ xs) y ys = ap (λ l. x ∷ l) (append_one xs y ys)

forward_slots-IsSent :
    (hook : Battery → List ℕ → Battery) (ss : List Slot) (s : InputSide)
    → s.stop ≡ false
    → IsSent hook (slot_reports ss) s (forward_slots (λ _. true) hook ss s)
unfolding forward_slots
forward_slots-IsSent hook [] s h = record {
  all_sent = append_nil s.sent;
  goes_on = h;
  hooked = refl;
  counted = omega arith;
}
forward_slots-IsSent hook ((i, r) ∷ ss) s h =
    let ih = forward_slots-IsSent hook ss (send_slot hook r s) h in
    if_split (IsSent hook (r ∷ slot_reports ss) s) s.stop (λ e. absurd cc)
      (λ _. record {
        all_sent = ih.all_sent ∙ append_one s.sent r (slot_reports ss);
        goes_on = ih.goes_on;
        hooked = ih.hooked;
        counted = omega (arith, ih.counted);
      })

forward_slots-coalesced :
    (hook : Battery → List ℕ → Battery) (ss : List Slot) (s : InputSide)
    → s.stop ≡ false
    → (forward_slots (λ _. true) hook ss s).coalesced ≡ s.coalesced
unfolding forward_slots
forward_slots-coalesced hook [] s h = refl
forward_slots-coalesced hook ((i, r) ∷ ss) s h =
    let rest : InputSide = forward_slots (λ _. true) hook ss (send_slot hook r s) in
    if_both (λ (t : InputSide). t.coalesced ≡ s.coalesced) s.stop {x = s} {y = rest} refl
      (forward_slots-coalesced hook ss (send_slot hook r s) h)

-- A burst and the slots that it fills: the last report of each id in one slot.
pub record IsLatest (burst : List (List ℕ)) (ss : List Slot) : Type 0 where
  pub latest : (id : ℕ) → lookup id ss ≡ last_report id none burst
  pub one_each : length ss ≡ count_ids [] burst

-- Of a burst with at most six report ids, read in a session that goes on, when every send
-- succeeds, a slot holds for every id the last report of the burst with it, and none for an id
-- that does not occur; there is one slot for each id; the reports of the slots are sent behind
-- those before, handed to the hook and counted, the session goes on, and the difference is
-- counted as coalesced.
pub input_burst-IsLatest :
    (hook : Battery → List ℕ → Battery) (burst : List (List ℕ)) (s : InputSide)
    → s.stop ≡ false
    → count_ids [] burst ≤ max_ids
    → let ss = drain_burst [] burst in
      let t = input_burst (λ _. true) hook burst s in
      IsLatest burst ss
      × IsSent hook (slot_reports ss) s t
      × (t.coalesced ≡ s.coalesced + (length burst - count_ids [] burst))
unfolding input_burst
input_burst-IsLatest hook burst s go h =
    let f : Fits [] [] burst = record { same_ids = λ id. refl; room = omega arith } in
    let (p, q) = drain_burst-Latest burst [] [] f in
    let q' : length (drain_burst [] burst) ≡ count_ids [] burst = omega (arith, q) in
    let v = forward_slots-IsSent hook (drain_burst [] burst) s go in
    (
      record { latest = p; one_each = q' },
      record { all_sent = v.all_sent; goes_on = v.goes_on; hooked = v.hooked; counted = v.counted },
      ap₂ (λ c n. c + (length burst - n)) (forward_slots-coalesced hook (drain_burst [] burst) s go)
          q',
    )
