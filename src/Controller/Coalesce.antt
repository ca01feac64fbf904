-- ===== src/Controller/Coalesce.antt =====
-- The input thread of a session, which forwards the latest report of each kind in a burst:
-- `input_thread_main` of src/app/hid_passthrough/ctm/controllers/controller_common.c.
use moonlight_tv.Base.{
  ℕ, suc, ◌+◌, ◌-◌, ◌≤◌, List, [], ◌∷◌, ◌++◌, Option, none, some, Bool, true, false, ◌||◌, ltb,
  ◌==◌, if◌then◌else◌, ◌≡◌, refl, ap, ◌∙◌, arith, length, get_or, set, length-append, inl, inr,
  Bool-cases,
}
use moonlight_tv.Controller.Battery.{Battery}
pub mod Latest

abbrev pub max_ids : ℕ
max_ids = 6

-- A slot of `coal_id` with its report.
abbrev pub Slot : Type 0
Slot = ℕ × List ℕ

abbrev pub report_id : List ℕ → ℕ
report_id r = get_or r 0 0

abbrev pub has_id : ℕ → List Slot → Bool
has_id id [] = false
has_id id ((i, r) ∷ ss) = i == id || has_id id ss

-- The report of the first slot with an id is replaced.
abbrev pub replace_slot : ℕ → List ℕ → List Slot → List Slot
replace_slot id r [] = []
replace_slot id r ((i, old) ∷ ss) = if i == id then (i, r) ∷ ss else (i, old) ∷ replace_slot id r ss

-- A report that was read: its slot, a new one, or the last one where none is left.
unfoldable pub keep_report : List Slot → List ℕ → List Slot
keep_report ss r =
    let id : ℕ = report_id r in
    if has_id id ss
    then replace_slot id r ss
    else if ltb (length ss) max_ids
    then ss ++ ((id, r) ∷ [])
    else set ss (max_ids - 1) (id, r)

unfoldable pub drain_burst : List Slot → List (List ℕ) → List Slot
unfolding keep_report
drain_burst ss [] = ss
drain_burst ss (r ∷ rs) = drain_burst (keep_report ss r) rs

-- What the thread leaves behind: the reports that were sent, in order, the flag `stop`, the battery
-- that the hook of the controller keeps, and two counters.
pub record InputSide : Type 0 where
  pub sent : List (List ℕ)
  pub stop : Bool
  pub battery : Battery
  pub reports_in : ℕ
  pub coalesced : ℕ

abbrev pub send_slot : (Battery → List ℕ → Battery) → List ℕ → InputSide → InputSide
send_slot hook r s = record s {
  sent = s.sent ++ (r ∷ []);
  battery = hook s.battery r;
  reports_in = s.reports_in + 1;
}

-- `accepts` says whether a send succeeds, and `hook` is `on_input_report`.
unfoldable pub forward_slots :
    (List ℕ → Bool) → (Battery → List ℕ → Battery) → List Slot → InputSide → InputSide
forward_slots accepts hook [] s = s
forward_slots accepts hook ((i, r) ∷ ss) s =
    let rest : InputSide = forward_slots accepts hook ss (send_slot hook r s) in
    if s.stop then s else if accepts r then rest else record s { stop = true }

-- One readable burst.
unfoldable pub input_burst :
    (List ℕ → Bool) → (Battery → List ℕ → Battery) → List (List ℕ) → InputSide → InputSide
input_burst accepts hook burst s =
    let ss : List Slot = drain_burst [] burst in
    let t : InputSide = forward_slots accepts hook ss s in
    record t { coalesced = t.coalesced + (length burst - length ss) }
