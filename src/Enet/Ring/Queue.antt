-- ===== src/Enet/Ring/Queue.antt =====
-- A ring holds a queue of at most 256 messages that drops its oldest one when it is full.
use moonlight_tv.Base.{
  ℕ, zero, suc, ◌+◌, ◌-◌, ◌%◌, ◌≤◌, ◌<◌, List, [], ◌∷◌, ◌++◌, Option, none, some, leb,
  if◌then◌else◌, get_or, set, length, ◌≡◌, refl, sym, ap, ap₂, ◌∙◌, arith, get_or-set_self,
  get_or-set_ne, length-set, Bool-cases, inl, inr,
}
use moonlight_tv.Enet.Ring.{
  Msg, Ring, ring_cap, empty_msg, drop_payload, advance, make_room, write_tail, put, pop,
  free_msg_ring, reset, fresh,
}

-- The queue that a ring stands for, oldest message first.
abbrev pub Queue : Type 0
Queue = List Msg

unfoldable pub drop_oldest : Queue → Queue
drop_oldest [] = []
drop_oldest (m ∷ q) = q

-- Specification of a send into a full or a free queue.
unfoldable pub enqueue : Queue → Msg → Queue
unfolding drop_oldest
enqueue q m = (if leb ring_cap (length q) then drop_oldest q else q) ++ (m ∷ [])

unfoldable pub dequeue : Queue → Option (Msg × Queue)
dequeue [] = none
dequeue (m ∷ q) = some (m, q)

-- The representation invariant.
pub record IsValid (r : Ring) : Type 0 where
  pub storage : length r.slots ≡ ring_cap
  pub head_in : r.head < ring_cap
  pub count_in : r.count ≤ ring_cap

-- The `n` messages from position `h` on, going round at the end of the array.
abbrev pub window : List Msg → ℕ → ℕ → Queue
window slots h zero = []
window slots h (suc n) = get_or slots (h % ring_cap) empty_msg ∷ window slots (h + 1) n

abbrev pub contents : Ring → Queue
contents r = window r.slots r.head r.count

pub length-window : (slots : List Msg) (h n : ℕ) → length (window slots h n) ≡ n
length-window slots h zero = refl
length-window slots h (suc n) = ap suc (length-window slots (h + 1) n)

-- A window depends on its start only up to whole turns.
window_of_mod_eq :
    (slots : List Msg) (h k n : ℕ)
    → h % ring_cap ≡ k % ring_cap
    → window slots h n ≡ window slots k n
window_of_mod_eq slots h k zero e = refl
window_of_mod_eq slots h k (suc n) e =
    ap₂ ◌∷◌ (ap (λ i. get_or slots i empty_msg) e)
      (window_of_mod_eq slots (h + 1) (k + 1) n (omega arith))

-- A write behind a window leaves it as it is.
window-set_outside :
    (slots : List Msg) (h n d i : ℕ) (m : Msg)
    → n + d < ring_cap
    → i ≡ (h + n + d) % ring_cap
    → window (set slots i m) h n ≡ window slots h n
window-set_outside slots h zero d i m lt e = refl
window-set_outside slots h (suc n) d i m lt e =
    ap₂ ◌∷◌ (get_or-set_ne slots i (h % ring_cap) m empty_msg (omega arith))
      (window-set_outside slots (h + 1) n d i m (omega arith) (omega arith))

-- A window that is one longer has one more message, at its end.
window-snoc :
    (slots : List Msg) (h n : ℕ)
    → window slots h (suc n)
      ≡ window slots h n ++ (get_or slots ((h + n) % ring_cap) empty_msg ∷ [])
window-snoc slots h zero = ap (λ i. get_or slots i empty_msg ∷ []) (omega arith)
window-snoc slots h (suc n) =
    ap (λ q. get_or slots (h % ring_cap) empty_msg ∷ q)
      (window-snoc slots (h + 1) n
        ∙ ap (λ i. window slots (h + 1) n ++ (get_or slots (i % ring_cap) empty_msg ∷ []))
            (omega arith))

pub count-advance : (r : Ring) → (advance r).count ≡ r.count - 1
unfolding advance
count-advance r = refl

pub advance-IsValid : {r : Ring} → IsValid r → IsValid (advance r)
unfolding advance
advance-IsValid {r} v =
    ground (
      arith,
      length-set r.slots r.head (record (get_or r.slots r.head empty_msg) { payload = none }),
    )

-- The window matches on the count, the code tests it.
window_of_pos :
    (slots : List Msg) (h n : ℕ)
    → 0 < n
    → window slots h n ≡ get_or slots (h % ring_cap) empty_msg ∷ window slots (h + 1) (n - 1)
window_of_pos slots h zero p = absurd (omega arith)
window_of_pos slots h (suc n) p =
    ap (λ k. get_or slots (h % ring_cap) empty_msg ∷ window slots (h + 1) k) (omega arith)

pub contents-advance :
    {r : Ring}
    → IsValid r
    → 0 < r.count
    → contents r ≡ get_or r.slots r.head empty_msg ∷ contents (advance r)
unfolding advance
contents-advance {r} v p =
    window_of_pos r.slots r.head r.count p
    ∙ ap₂ ◌∷◌ (ap (λ i. get_or r.slots i empty_msg) (omega arith)) (kept ∙ turned)
  where
    cleared : Msg
    cleared = record (get_or r.slots r.head empty_msg) { payload = none }

    kept :
        window r.slots (r.head + 1) (r.count - 1)
        ≡ window (set r.slots r.head cleared) (r.head + 1) (r.count - 1)
    kept = sym (
        window-set_outside r.slots (r.head + 1) (r.count - 1) (ring_cap - r.count) r.head cleared
          (omega arith) (omega arith))

    turned :
        window (set r.slots r.head cleared) (r.head + 1) (r.count - 1)
        ≡ window (set r.slots r.head cleared) ((r.head + 1) % ring_cap) (r.count - 1)
    turned =
        window_of_mod_eq (set r.slots r.head cleared) (r.head + 1) ((r.head + 1) % ring_cap)
          (r.count - 1) (omega arith)

make_room-IsValid :
    {r : Ring} → IsValid r → IsValid (make_room r) × ((make_room r).count < ring_cap)
unfolding make_room advance
make_room-IsValid {r} v =
    ground (
      arith,
      length-set r.slots r.head (record (get_or r.slots r.head empty_msg) { payload = none }),
    )

contents-make_room :
    {r : Ring}
    → IsValid r
    → contents (make_room r)
      ≡ (if leb ring_cap (length (contents r)) then drop_oldest (contents r) else contents r)
unfolding drop_oldest make_room
contents-make_room {r} v = elim (Bool-cases (leb ring_cap r.count)) [
  | inl full ↦
      rw (length-window r.slots r.head r.count, full, contents-advance v (ground arith)) refl
  | inr free ↦ rw (length-window r.slots r.head r.count, free)
]

write_tail-IsValid :
    (r : Ring) (m : Msg) → IsValid r → r.count < ring_cap → IsValid (write_tail r m)
unfolding write_tail
write_tail-IsValid r m v free = ground (arith, length-set r.slots ((r.head + r.count) % ring_cap) m)

contents-write_tail :
    (r : Ring) (m : Msg)
    → IsValid r
    → r.count < ring_cap
    → contents (write_tail r m) ≡ contents r ++ (m ∷ [])
unfolding write_tail
contents-write_tail r m v free =
    ap (window (set r.slots ((r.head + r.count) % ring_cap) m) r.head) {y = suc r.count}
      (omega arith)
    ∙ window-snoc (set r.slots ((r.head + r.count) % ring_cap) m) r.head r.count
    ∙ ap₂ (λ q x. q ++ (x ∷ []))
        (window-set_outside r.slots r.head r.count 0 ((r.head + r.count) % ring_cap) m (omega arith)
          (omega arith))
        (get_or-set_self r.slots ((r.head + r.count) % ring_cap) m empty_msg (omega arith))

-- Putting a message keeps the invariant.
pub put-IsValid : {r : Ring} (m : Msg) → IsValid r → IsValid (put r m)
unfolding put
put-IsValid {r} m v =
    let (ok, free) = make_room-IsValid v in write_tail-IsValid (make_room r) m ok free

-- Putting a message into a valid ring is `enqueue` on the queue that the ring holds.
pub contents-put : {r : Ring} (m : Msg) → IsValid r → contents (put r m) ≡ enqueue (contents r) m
unfolding put enqueue
contents-put {r} m v =
    let (ok, free) = make_room-IsValid v in
    contents-write_tail (make_room r) m ok free ∙ ap (λ q. q ++ (m ∷ [])) (contents-make_room v)

pub pop-empty : (r : Ring) → r.count ≡ 0 → pop r ≡ none
unfolding pop
pop-empty r e = ground arith

pub pop-some : (r : Ring) → 0 < r.count → pop r ≡ some (get_or r.slots r.head empty_msg, advance r)
unfolding pop
pop-some r e = ground arith

-- Taking a message keeps the invariant and is `dequeue` on the queue that the ring holds.
pub pop-IsValid : {r s : Ring} {m : Msg} → IsValid r → pop r ≡ some (m, s) → IsValid s
unfolding pop
pop-IsValid {r} v e = ground (arith, advance-IsValid v)

-- Taking a message from a valid ring is `dequeue` on the queue that the ring holds.
pub pop-contents :
    {r : Ring}
    → IsValid r
    → elim (pop r) [ none ↦ none | some (m, s) ↦ some (m, contents s) ] ≡ dequeue (contents r)
unfolding pop dequeue
pop-contents {r} v = ground (arith, contents-advance v)

pub fresh-IsValid : IsValid fresh
unfolding fresh
fresh-IsValid = omega arith

length-free_msg_ring :
    (slots : List Msg) (h n : ℕ) → length (free_msg_ring slots h n) ≡ length slots
unfolding free_msg_ring
length-free_msg_ring slots h zero = refl
length-free_msg_ring slots h (suc n) =
    length-free_msg_ring (drop_payload slots (h % ring_cap)) (h + 1) n
    ∙ length-set slots (h % ring_cap)
        (record (get_or slots (h % ring_cap) empty_msg) { payload = none })

-- After a reset the ring is valid and holds no message.
pub reset-IsValid : {r : Ring} → IsValid r → IsValid (reset r) × (contents (reset r) ≡ [])
unfolding reset
reset-IsValid {r} v = (ground (arith, length-free_msg_ring r.slots r.head r.count), refl)
