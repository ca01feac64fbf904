-- ===== src/Controller/Pace.antt =====
-- The reports that wait for their time: `should_pace`, `queue_paced` and `drain_paced` of
-- src/app/hid_passthrough/ctm/controllers/controller_common.c.
use moonlight_tv.Base.{
  ℕ, zero, suc, ◌+◌, ◌-◌, ◌*◌, ◌/◌, ◌%◌, ◌^◌, ◌≤◌, ◌<◌, List, [], ◌∷◌, ◌++◌, Bool, true, false, not,
  ◌&&◌, ltb, leb, ◌==◌, if◌then◌else◌, length, get_or, set, replicate, take, drop, ◌≡◌, ◌⊎◌, inl,
  inr, refl, sym, ap, ◌∙◌, arith, if_both, if_split,
}
use moonlight_tv.Base.Bits.{test_bit}
use moonlight_tv.Ctmb.{Header}
pub mod Queue

abbrev pub queue_cap : ℕ
queue_cap = 32

abbrev pub default_pace : ℕ
default_pace = 10667

-- `ctmb_host_config_t`
pub record HostConfig : Type 0 where
  pub bt_pace_us : ℕ
  pub paced_report_count : ℕ
  pub paced_report_ids : List ℕ

abbrev pub any_id : List ℕ → ℕ → Bool
any_id [] id = false
any_id (i ∷ is) id = if id == i then true else any_id is id

-- The flag `CTMB_FLAG_PACED` is bit 1.
unfoldable pub should_pace : HostConfig → Header → List ℕ → Bool
unfolding test_bit
should_pace cfg h [] = test_bit h.h_flags 1
should_pace cfg h (id ∷ payload) =
    if test_bit h.h_flags 1
    then true
    else any_id (take 16 (take cfg.paced_report_count cfg.paced_report_ids)) id

-- The ring `paced_q` with its head and count.
pub record Paced : Type 0 where
  pub queue : List (List ℕ)
  pub head : ℕ
  pub count : ℕ

abbrev pub no_reports : Paced
no_reports = record { queue = replicate queue_cap []; head = 0; count = 0 }

-- The oldest report is dropped if the ring is full.
unfoldable pub queue_paced : Paced → List ℕ → Paced
queue_paced p bs =
    let full : Bool = leb queue_cap p.count in
    let head' : ℕ = if full then (p.head + 1) % queue_cap else p.head in
    let count' : ℕ = if full then p.count - 1 else p.count in
    if ltb 4096 (length bs) then p else record {
      queue = set p.queue ((head' + count') % queue_cap) bs;
      head = head';
      count = count' + 1;
    }

-- What is left of the ring, the next time, the last reading of the clock, and the reports written.
pub record Drained : Type 0 where
  pub left : Paced
  pub next_us : ℕ
  pub last_now : ℕ
  pub written : List (List ℕ)

-- The time after that of a report that was due at `next` and is written at `now`, on 64 bits.
abbrev pub following : ℕ → ℕ → ℕ → ℕ
following next pace now =
    let next' : ℕ = (next + pace) % 2 ^ 64 in
    if ltb ((next' + pace) % 2 ^ 64) now then (now + pace) % 2 ^ 64 else next'

abbrev pub after_report : List ℕ → Drained → Drained
after_report bs d = record d { written = bs ∷ d.written }

-- The loop of `drain_paced`, by the count: the clock reads `now`, and then the numbers of `clock`, or
-- the same again behind their end.
unfoldable pub drain_loop : ℕ → List (List ℕ) → ℕ → ℕ → ℕ → ℕ → List ℕ → Drained
drain_loop zero q head next pace now clock = record {
  left = record { queue = q; head = head; count = 0 };
  next_us = 0;
  last_now = now;
  written = [];
}
drain_loop (suc n) q head next pace now clock =
    let pace' : ℕ = if pace == 0 then default_pace else pace in
    let rest : Drained =
      drain_loop n q ((head + 1) % queue_cap) (following next pace' now) pace' (get_or clock 0 now)
        (drop 1 clock) in
    if ltb now next
    then record {
      left = record { queue = q; head = head; count = suc n };
      next_us = next;
      last_now = now;
      written = [];
    }
    else after_report (get_or q head []) rest

unfoldable pub drain_paced : Paced → ℕ → ℕ → ℕ → List ℕ → Drained
unfolding drain_loop
drain_paced p next pace now clock =
    drain_loop p.count p.queue p.head (if next == 0 then now else next) pace now clock

-- The reports that wait, oldest first.
abbrev pub waiting_in : List (List ℕ) → ℕ → ℕ → List (List ℕ)
waiting_in q head zero = []
waiting_in q head (suc n) = get_or q head [] ∷ waiting_in q ((head + 1) % queue_cap) n

abbrev pub waiting : Paced → List (List ℕ)
waiting p = waiting_in p.queue p.head p.count

-- What is written and what still waits make up what waited, in order; the loop ends because nothing
-- waits, and then no time is set, or because the clock is before the next time.
pub record IsDrained (before : List (List ℕ)) (d : Drained) : Type 0 where
  pub in_order : d.written ++ waiting d.left ≡ before
  pub ends : ((d.left.count ≡ 0) × (d.next_us ≡ 0)) ⊎ (d.last_now < d.next_us)

drain_loop-IsDrained :
    (n : ℕ) (q : List (List ℕ)) (head next pace now : ℕ) (clock : List ℕ)
    → IsDrained (waiting_in q head n) (drain_loop n q head next pace now clock)
unfolding drain_loop
drain_loop-IsDrained zero q head next pace now clock = record {
  in_order = refl;
  ends = inl (refl, refl);
}
drain_loop-IsDrained (suc n) q head next pace now clock =
    let pace' : ℕ = if pace == 0 then default_pace else pace in
    let ih =
      drain_loop-IsDrained n q ((head + 1) % queue_cap) (following next pace' now) pace'
        (get_or clock 0 now) (drop 1 clock) in
    if_split (IsDrained (waiting_in q head (suc n))) (ltb now next)
      (λ e. record { in_order = refl; ends = inr (ground arith) })
      (λ _. record { in_order = ap (λ l. get_or q head [] ∷ l) ih.in_order; ends = ih.ends })

-- What a drain writes and what still waits make up what waited, in order, and it ends with
-- nothing waiting and no time set, or with the clock before the next time.
pub drain_paced-IsDrained :
    (p : Paced) (next pace now : ℕ) (clock : List ℕ)
    → IsDrained (waiting p) (drain_paced p next pace now clock)
unfolding drain_paced
drain_paced-IsDrained p next pace now clock =
    drain_loop-IsDrained p.count p.queue p.head (if next == 0 then now else next) pace now clock
