-- ===== src/Keyboard/Count.antt =====
-- The count of keys that are down against the list of pressed keys:
-- src/app/stream/input/session_keyboard.c.
use moonlight_tv.Base.{
  ℕ, suc, List, [], ◌∷◌, Bool, true, false, ◌==◌, ◌≡◌, refl, sym, ap, ◌∙◌, arith, inl, inr,
  Bool-cases, length, length-append,
}
use moonlight_tv.Base.Int.{pos, negsuc}
use moonlight_tv.Keyboard.{
  Mods, Keyboard, append_key, remove_key, increment, decrement, track, handle_text, send_key_event,
  flush_pressed_keys,
}

-- The count is the number of keys in the list.
abbrev pub IsCounted : Keyboard → Type 0
IsCounted k = k.keydown_count ≡ pos (length k.pressed)

length-remove :
    (keys : List ℕ) (c : ℕ)
    → (remove_key keys c).1 ≡ true
    → length keys ≡ suc (length (remove_key keys c).0)
unfolding remove_key
length-remove [] c h = absurd (cc h)
length-remove (x ∷ xs) c h = elim (Bool-cases (x == c)) [
  | inl e ↦ rw e refl
  | inr e ↦ rw e (ap suc (length-remove xs c (ground (arith, h, e))))
]

append_counted :
    (keys : List ℕ) (c : ℕ) → increment (pos (length keys)) ≡ pos (length (append_key keys c))
unfolding append_key increment
append_counted keys c = ap pos (sym (length-append keys (c ∷ [])))

remove_counted :
    (keys : List ℕ) (c : ℕ)
    → (remove_key keys c).1 ≡ true
    → decrement (pos (length keys)) ≡ pos (length (remove_key keys c).0)
unfolding decrement
remove_counted keys c h = ap (λ n. decrement (pos n)) (length-remove keys c h)

-- Outside a view-only session, a key of the screen and the flush keep the count equal to the
-- number of keys in the list.
pub send_key_event-IsCounted :
    (k : Keyboard) (c : ℕ) (d : Bool) (m : Mods)
    → k.view_only ≡ false
    → IsCounted k
    → IsCounted (send_key_event k c d m).0 × IsCounted (flush_pressed_keys k).0
unfolding send_key_event flush_pressed_keys
send_key_event-IsCounted k c d m v h = (screen d, rw v refl)
  where
    screen : (d : Bool) → IsCounted (send_key_event k c d m).0
    screen true = rw v (ap increment h ∙ append_counted k.pressed c)
    screen false = elim (Bool-cases (remove_key k.pressed c).1) [
      | inl f ↦ rw (v, f) (ap decrement h ∙ remove_counted k.pressed c f)
      | inr f ↦ rw (v, f) h
    ]

-- When the keys are flushed outside a view-only session and a key is released after, the count of
-- keys is -1 with no key in the list, and a text that comes then is dropped.
pub flush_then_release :
    (k : Keyboard) (c : ℕ) (m : Mods) (text : List ℕ)
    → k.view_only ≡ false
    → let k1 = (track (flush_pressed_keys k).0 false c m).0 in
      (k1.keydown_count ≡ negsuc 0) × (k1.pressed ≡ []) × (handle_text k1 text ≡ [])
unfolding track flush_pressed_keys remove_key decrement handle_text
flush_then_release k c m text v = (rw v refl, rw v refl, dropped text)
  where
    dropped : (t : List ℕ) → handle_text (track (flush_pressed_keys k).0 false c m).0 t ≡ []
    dropped [] = refl
    dropped (x ∷ xs) = rw v refl
