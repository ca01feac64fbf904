-- ===== src/Controller/Pace/Queue.antt =====
-- The ring of the waiting reports as a queue: `queue_paced` of
-- src/app/hid_passthrough/ctm/controllers/controller_common.c.
use moonlight_tv.Base.{
  ℕ, zero, suc, ◌+◌, ◌-◌, ◌%◌, ◌≤◌, ◌<◌, List, [], ◌∷◌, ◌++◌, false, ltb, leb, if◌then◌else◌,
  length, get_or, set, drop, ◌≡◌, refl, sym, ap, ap₂, ◌∙◌, arith, get_or-set_self, get_or-set_ne,
  length-set, Bool-cases, inl, inr,
}
use moonlight_tv.Controller.Pace.{Paced, queue_cap, queue_paced, waiting_in, waiting, no_reports}

-- The representation invariant.
pub record IsValid (p : Paced) : Type 0 where
  pub storage : length p.queue ≡ queue_cap
  pub head_in : p.head < queue_cap
  pub count_in : p.count ≤ queue_cap

waiting_in-set :
    (q : List (List ℕ)) (h n d i : ℕ) (bs : List ℕ)
    → h < queue_cap
    → n + d < queue_cap
    → i ≡ (h + n + d) % queue_cap
    → waiting_in (set q i bs) h n ≡ waiting_in q h n
waiting_in-set q h zero d i bs l k e = refl
waiting_in-set q h (suc n) d i bs l k e =
    ap₂ ◌∷◌ (get_or-set_ne q i h bs [] (omega arith))
      (waiting_in-set q ((h + 1) % queue_cap) n d i bs (omega arith) (omega arith) (omega arith))

waiting_in-snoc :
    (q : List (List ℕ)) (h n : ℕ)
    → h < queue_cap
    → waiting_in q h (suc n) ≡ waiting_in q h n ++ (get_or q ((h + n) % queue_cap) [] ∷ [])
waiting_in-snoc q h zero l = ap (λ i. get_or q i [] ∷ []) (omega arith)
waiting_in-snoc q h (suc n) l =
    ap (λ r. get_or q h [] ∷ r)
      (waiting_in-snoc q ((h + 1) % queue_cap) n (omega arith)
        ∙ ap (λ i. waiting_in q ((h + 1) % queue_cap) n ++ (get_or q i [] ∷ [])) (omega arith))

-- A report behind the last one, where there is room.
waiting_in-put :
    (q : List (List ℕ)) (h n : ℕ) (bs : List ℕ)
    → length q ≡ queue_cap
    → h < queue_cap
    → n < queue_cap
    → waiting_in (set q ((h + n) % queue_cap) bs) h (n + 1) ≡ waiting_in q h n ++ (bs ∷ [])
waiting_in-put q h n bs s l k =
    let i : ℕ = (h + n) % queue_cap in
    ap (waiting_in (set q i bs) h) {y = suc n} (omega arith)
    ∙ waiting_in-snoc (set q i bs) h n l
    ∙ ap₂ (λ r x. r ++ (x ∷ [])) (waiting_in-set q h n 0 i bs l (omega arith) (omega arith))
        (get_or-set_self q i bs [] (omega arith))

drop_first :
    (q : List (List ℕ)) (h n : ℕ)
    → 0 < n
    → drop 1 (waiting_in q h n) ≡ waiting_in q ((h + 1) % queue_cap) (n - 1)
drop_first q h zero k = absurd (omega arith)
drop_first q h (suc n) k = ap (waiting_in q ((h + 1) % queue_cap)) (omega arith)

-- The two cases of the test on the length of the ring.
abbrev pub enqueued : List (List ℕ) → List ℕ → List (List ℕ)
enqueued q bs = (if leb queue_cap (length q) then drop 1 q else q) ++ (bs ∷ [])

length-waiting_in : (q : List (List ℕ)) (h n : ℕ) → length (waiting_in q h n) ≡ n
length-waiting_in q h zero = refl
length-waiting_in q h (suc n) = ap suc (length-waiting_in q ((h + 1) % queue_cap) n)

-- Queueing a report of at most 4096 bytes in a sound ring puts it behind the waiting reports, of
-- which the oldest is dropped if there are 32, and leaves the ring sound.
pub waiting-queue_paced :
    (p : Paced) (bs : List ℕ)
    → IsValid p
    → length bs ≤ 4096
    → (waiting (queue_paced p bs) ≡ enqueued (waiting p) bs) × IsValid (queue_paced p bs)
unfolding queue_paced
waiting-queue_paced p bs v fits =
    let small : ltb 4096 (length bs) ≡ false = ground arith in
    elim (Bool-cases (leb queue_cap p.count)) [
      | inl full ↦
          rw (small, length-waiting_in p.queue p.head p.count, full)
            (
              waiting_in-put p.queue ((p.head + 1) % queue_cap) (p.count - 1) bs v.storage
                    (omega arith) (ground (arith, v.count_in))
                  ∙ ap (λ r. r ++ (bs ∷ []))
                      (sym (drop_first p.queue p.head p.count (ground arith))),
              record {
                storage = length-set p.queue _ bs ∙ v.storage;
                head_in = omega arith;
                count_in = ground (arith, v.count_in);
              },
            )
      | inr free ↦
          rw (small, length-waiting_in p.queue p.head p.count, free)
            (
              waiting_in-put p.queue p.head p.count bs v.storage v.head_in (ground arith),
              record {
                storage = length-set p.queue _ bs ∙ v.storage;
                head_in = v.head_in;
                count_in = ground arith;
              },
            )
    ]

-- A report that is too long is passed over.
pub queue_paced-IsValid : (p : Paced) (bs : List ℕ) → IsValid p → IsValid (queue_paced p bs)
unfolding queue_paced
queue_paced-IsValid p bs v = elim (Bool-cases (ltb 4096 (length bs))) [
  | inl e ↦ simp (queue_paced, e) v
  | inr e ↦ (waiting-queue_paced p bs v (ground arith)).1
]

pub no_reports-IsValid : IsValid no_reports
no_reports-IsValid = record { storage = refl; head_in = omega arith; count_in = omega arith }
