-- ===== src/Keyboard/Mirror.antt =====
-- The list of pressed keys against what the host holds: src/app/stream/input/session_keyboard.c.
use moonlight_tv.Base.{
  subst, ℕ, ◌+◌, List, [], ◌∷◌, ◌++◌, Option, none, some, Bool, true, false, not, ◌&&◌, ◌==◌, ◌||◌,
  if◌then◌else◌, ◌≡◌, refl, sym, ap, ◌∙◌, arith, inl, inr, Bool-cases, if_both, ==_iff,
}
use moonlight_tv.Keyboard.{
  Combo, quit, toggle_stats_overlay, Mods, Keyboard, KeyEvent, KeyCall, send_key, right_button,
  send_text, interrupt_session, open_overlay, is_pending, combo_calls, append_key, remove_key,
  track, is_empty, perform, handle_code, send_key_event, release_calls, flush_pressed_keys,
}

-- Whether the host holds a key after some calls, by the last event of the key among them.
abbrev pub holds : ℕ → Bool → List KeyCall → Bool
holds x down [] = down
holds x down (send_key c d m ∷ cs) = holds x (if c == 32768 + x then d else down) cs
holds x down (right_button d ∷ cs) = holds x down cs
holds x down (send_text t ∷ cs) = holds x down cs
holds x down (interrupt_session ∷ cs) = holds x down cs
holds x down (open_overlay ∷ cs) = holds x down cs

abbrev pub is_in : ℕ → List ℕ → Bool
is_in x [] = false
is_in x (y ∷ ys) = x == y || is_in x ys

-- No key is in the list twice.
abbrev pub AreDistinct : List ℕ → Type 0
AreDistinct [] = Unit {0}
AreDistinct (x ∷ xs) = (is_in x xs ≡ false) × AreDistinct xs

is_in-append : (x c : ℕ) (keys : List ℕ) → is_in x (append_key keys c) ≡ (is_in x keys || x == c)
unfolding append_key
is_in-append x c [] = ground arith
is_in-append x c (y ∷ keys) = ground (arith, is_in-append x c keys)

is_in-remove :
    (x c : ℕ) (keys : List ℕ)
    → AreDistinct keys
    → is_in x (remove_key keys c).0 ≡ (is_in x keys && not (x == c))
unfolding remove_key
is_in-remove x c [] h = refl
is_in-remove x c (y ∷ keys) (n, h) = elim (Bool-cases (y == c)) [
  | inl e ↦ elim (Bool-cases (x == c)) [
    | inl f ↦
        let g : is_in x keys ≡ false =
          ap (λ z. is_in z keys) (omega (arith, (==_iff x c).0 f, (==_iff y c).0 e)) ∙ n in
        rw (e, f, g) (ground arith)
    | inr f ↦ let g : (x == y) ≡ false = ground (arith, e, f) in rw (e, f, g) (ground arith)
  ]
  | inr e ↦ let ih = is_in-remove x c keys h in rw (e, ih) (ground (arith, e))
]

append-AreDistinct :
    (c : ℕ) (keys : List ℕ)
    → is_in c keys ≡ false
    → AreDistinct keys
    → AreDistinct (append_key keys c)
unfolding append_key
append-AreDistinct c [] n h = (refl, tt)
append-AreDistinct c (y ∷ keys) n (m, h) =
    (is_in-append y c keys ∙ ground (arith, m, n), append-AreDistinct c keys (ground (arith, n)) h)

remove-AreDistinct : (c : ℕ) (keys : List ℕ) → AreDistinct keys → AreDistinct (remove_key keys c).0
unfolding remove_key
remove-AreDistinct c [] h = tt
remove-AreDistinct c (y ∷ keys) (n, h) = elim (Bool-cases (y == c)) [
  | inl e ↦ rw e h
  | inr e ↦ rw e (is_in-remove y c keys h ∙ ground (arith, n, e), remove-AreDistinct c keys h)
]

-- The host holds the keys of the list after the calls, where it did before.
pub record Mirrors (k : Keyboard) (r : Keyboard × List KeyCall) : Type 0 where
  pub held : (x : ℕ) → holds x (is_in x k.pressed) r.1 ≡ is_in x r.0.pressed
  pub distinct : AreDistinct r.0.pressed

holds_key :
    (x c : ℕ) (b d : Bool) (m : Mods)
    → holds x b (send_key (32768 + c) d m ∷ []) ≡ (if x == c then d else b)
holds_key x c b d m = ground arith

holds_combo : (x : ℕ) (b : Bool) (o : Option Combo) → holds x b (combo_calls o) ≡ b
unfolding combo_calls
holds_combo x b none = refl
holds_combo x b (some quit) = refl
holds_combo x b (some toggle_stats_overlay) = refl
holds_combo x b (some _) = refl

holds-append :
    (x : ℕ) (b : Bool) (cs ds : List KeyCall) → holds x b (cs ++ ds) ≡ holds x (holds x b cs) ds
holds-append x b [] ds = refl
holds-append x b (send_key c d m ∷ cs) ds = holds-append x (if c == 32768 + x then d else b) cs ds
holds-append x b (right_button d ∷ cs) ds = holds-append x b cs ds
holds-append x b (send_text t ∷ cs) ds = holds-append x b cs ds
holds-append x b (interrupt_session ∷ cs) ds = holds-append x b cs ds
holds-append x b (open_overlay ∷ cs) ds = holds-append x b cs ds

-- A key goes down that is not in the list, or any key comes up.
abbrev pub IsFresh : Keyboard → Bool → ℕ → Type 0
IsFresh k true c = is_in c k.pressed ≡ false
IsFresh k false c = Unit {0}

press-Mirrors :
    (k k1 : Keyboard) (c : ℕ) (m : Mods)
    → AreDistinct k.pressed
    → is_in c k.pressed ≡ false
    → k1.pressed ≡ append_key k.pressed c
    → Mirrors k (k1, send_key (32768 + c) true m ∷ [])
press-Mirrors k k1 c m h n e = record {
  held = λ x.
      holds_key x c (is_in x k.pressed) true m
      ∙ ground (arith, is_in-append x c k.pressed)
      ∙ ap (is_in x) (sym e);
  distinct = subst AreDistinct (sym e) (append-AreDistinct c k.pressed n h);
}

release-Mirrors :
    (k k1 : Keyboard) (c : ℕ) (m : Mods)
    → AreDistinct k.pressed
    → k1.pressed ≡ (remove_key k.pressed c).0
    → Mirrors k (k1, send_key (32768 + c) false m ∷ [])
release-Mirrors k k1 c m h e = record {
  held = λ x.
      holds_key x c (is_in x k.pressed) false m
      ∙ ground (arith, is_in-remove x c k.pressed h)
      ∙ ap (is_in x) (sym e);
  distinct = subst AreDistinct (sym e) (remove-AreDistinct c k.pressed h);
}

remove_missing :
    (keys : List ℕ) (c : ℕ) → (remove_key keys c).1 ≡ false → (remove_key keys c).0 ≡ keys
unfolding remove_key
remove_missing [] c h = refl
remove_missing (x ∷ xs) c h = elim (Bool-cases (x == c)) [
  | inl e ↦ absurd (ground (arith, h, e))
  | inr e ↦ rw e (ap (λ t. x ∷ t) (remove_missing xs c (ground (arith, h, e))))
]

track-Mirrors :
    (k : Keyboard) (d : Bool) (c : ℕ) (m : Mods)
    → k.view_only ≡ false
    → AreDistinct k.pressed
    → IsFresh k d c
    → Mirrors k (track k d c m)
unfolding track
track-Mirrors k true c m v h n = simp v (press-Mirrors k _ c m h n refl)
track-Mirrors k false c m v h n = simp v (release-Mirrors k _ c m h refl)

screen-Mirrors :
    (k : Keyboard) (d : Bool) (c : ℕ) (m : Mods)
    → k.view_only ≡ false
    → AreDistinct k.pressed
    → IsFresh k d c
    → Mirrors k (send_key_event k c d m)
unfolding send_key_event
screen-Mirrors k true c m v h n = simp v (press-Mirrors k _ c m h n refl)
screen-Mirrors k false c m v h n = elim (Bool-cases (remove_key k.pressed c).1) [
  | inl f ↦ simp (v, f) (release-Mirrors k _ c m h refl)
  | inr f ↦ simp (v, f) (release-Mirrors k k c m h (sym (remove_missing k.pressed c f)))
]

-- A list that the calls of `perform` do not change.
same_list : (d : Bool) (k : Keyboard) → (perform d k).0.pressed ≡ k.pressed
unfolding perform
same_list d k =
    if_both (λ (r : Keyboard × List KeyCall). r.0.pressed ≡ k.pressed)
      (is_pending k.pending && is_empty k.pressed && not d) {y = (k, [])} refl refl

same_over_combo : (d : Bool) (k : Keyboard) (x : ℕ) (b : Bool) → holds x b (perform d k).1 ≡ b
unfolding perform
same_over_combo d k x b =
    if_both (λ (r : Keyboard × List KeyCall). holds x b r.1 ≡ b)
      (is_pending k.pending && is_empty k.pressed && not d) {y = (k, [])}
      (holds_combo x b k.pending) refl

handle_code-Mirrors :
    (k : Keyboard) (e : KeyEvent) (m : Mods) (c : ℕ)
    → k.view_only ≡ false
    → AreDistinct k.pressed
    → IsFresh k e.is_down c
    → Mirrors k (handle_code k e m c)
unfolding handle_code
handle_code-Mirrors k e m c v h n =
    let t = track-Mirrors k e.is_down c m v h n in
    let (k1, calls1) = track k e.is_down c m in
    record {
      held = λ x.
          holds-append x (is_in x k.pressed) calls1 (perform e.any_down k1).1
          ∙ same_over_combo e.any_down k1 x _
          ∙ t.held x
          ∙ ap (is_in x) (sym (same_list e.any_down k1));
      distinct = subst AreDistinct (sym (same_list e.any_down k1)) t.distinct;
    }

holds_released :
    (x : ℕ) (b : Bool) (keys : List ℕ) → holds x b (release_calls keys) ≡ (b && not (is_in x keys))
unfolding release_calls
holds_released x b [] = ground arith
holds_released x b (c ∷ keys) =
    holds_released x (if 32768 + c == 32768 + x then false else b) keys ∙ ground arith

-- Outside a view-only session, if the list of pressed keys has no key twice and the host, by the
-- last event of each key, holds exactly its keys, both are so after each operation that works on
-- it: a key of the keyboard with its code and a key of the screen, released or pressed while not
-- in the list, and the flush, after which the list is empty.
pub keys_mirrored :
    (k : Keyboard) (e : KeyEvent) (m : Mods) (c : ℕ) (d : Bool)
    → k.view_only ≡ false
    → AreDistinct k.pressed
    → IsFresh k e.is_down c
    → IsFresh k d c
    → Mirrors k (handle_code k e m c)
      × Mirrors k (send_key_event k c d m)
      × Mirrors k (flush_pressed_keys k)
      × ((flush_pressed_keys k).0.pressed ≡ [])
unfolding flush_pressed_keys
keys_mirrored k e m c d v h n1 n2 = (
  handle_code-Mirrors k e m c v h n1,
  screen-Mirrors k d c m v h n2,
  rw v (record {
    held = λ x. holds_released x (is_in x k.pressed) k.pressed ∙ ground arith;
    distinct = tt;
  }),
  rw v refl,
)
