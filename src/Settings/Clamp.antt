-- ===== src/Settings/Clamp.antt =====
-- The numbers that the settings keep in bounds, whatever the file says, and the agreement of the
-- refresh rate with the frame rate.
use moonlight_tv.Base.{
  ℕ, ◌≤◌, List, [], ◌∷◌, Option, none, some, Bool, false, ◌&&◌, ◌||◌, ltb, ◌==◌, ◌≡◌, refl, sym,
  subst, arith, ◌⊎◌, inl, inr, Bool-cases, Option-cases, if_both,
}
use moonlight_tv.Base.Int.{ℤ, pos, negsuc}
use moonlight_tv.Settings.{
  Key, k_idr, k_refresh, k_stick_deadzone, k_port, key_of, Settings, Line, less_than, more_than,
  equals, ntsc_refresh_rate_x100_for_fps, implies_other_fps, reconcile_refresh_rate, clamp_idr,
  clamp_to, clamp_port, set_int, assign, parse_line, parse_lines, read,
}

abbrev pub Between : ℕ → ℕ → ℤ → Type 0
Between low high z = (n : ℕ) × ((z ≡ pos n) × (low ≤ n) × (n ≤ high))

-- The interval between refresh frames is off or 2 to 60 seconds, the refresh rate at most 240 Hz,
-- the dead zone a percentage and the port a port.
pub record InBounds (c : Settings) : Type 0 where
  pub idr : (c.idr_refresh_interval_sec ≡ pos 0) ⊎ Between 2 60 c.idr_refresh_interval_sec
  pub refresh : Between 0 24000 c.client_refresh_rate_x100
  pub deadzone : Between 0 100 c.stick_deadzone
  pub port : Between 1 65535 c.hid_passthrough_port

clamp_idr-Between : (z : ℤ) → (clamp_idr z ≡ pos 0) ⊎ Between 2 60 (clamp_idr z)
unfolding clamp_idr less_than more_than equals
clamp_idr-Between (negsuc n) = inl refl
clamp_idr-Between (pos n) = elim (Bool-cases (ltb 60 n)) [
  | inl e ↦ inr (60, (ground arith, omega arith, omega arith))
  | inr e ↦ elim (Bool-cases (n == 1)) [
    | inl one ↦ inr (2, (ground arith, omega arith, omega arith))
    | inr other ↦ elim (Bool-cases (n == 0)) [
      | inl off ↦ inl (ground arith)
      | inr on ↦ inr (n, (ground arith, ground arith, ground arith))
    ]
  ]
]

clamp_to-Between : (top : ℕ) (z : ℤ) → Between 0 top (clamp_to top z)
unfolding clamp_to less_than more_than
clamp_to-Between top (negsuc n) = (0, (refl, omega arith, omega arith))
clamp_to-Between top (pos n) = elim (Bool-cases (ltb top n)) [
  | inl e ↦ (top, (ground arith, omega arith, omega arith))
  | inr e ↦ (n, (ground arith, omega arith, ground arith))
]

clamp_port-Between : (z : ℤ) → Between 1 65535 (clamp_port z)
unfolding clamp_port less_than more_than
clamp_port-Between (negsuc n) = (48054, (refl, omega arith, omega arith))
clamp_port-Between (pos n) = elim (Bool-cases (ltb n 1 || ltb 65535 n)) [
  | inl e ↦ (48054, (ground arith, omega arith, omega arith))
  | inr e ↦ (n, (ground arith, ground arith, ground arith))
]

module _ (to_int : List ℕ → Option ℤ) where
  assign-InBounds :
      (c : Settings) (k : Key) (v : List ℕ) → InBounds c → InBounds (assign to_int c k v)
  unfolding assign
  assign-InBounds c k v h = elim k as (λ k. InBounds (assign to_int c k v)) [
    | k_idr ↦ record {
      idr = clamp_idr-Between (set_int to_int v);
      refresh = h.refresh;
      deadzone = h.deadzone;
      port = h.port;
    }
    | k_refresh ↦ record {
      idr = h.idr;
      refresh = clamp_to-Between 24000 (set_int to_int v);
      deadzone = h.deadzone;
      port = h.port;
    }
    | k_stick_deadzone ↦ record {
      idr = h.idr;
      refresh = h.refresh;
      deadzone = clamp_to-Between 100 (set_int to_int v);
      port = h.port;
    }
    | k_port ↦ record {
      idr = h.idr;
      refresh = h.refresh;
      deadzone = h.deadzone;
      port = clamp_port-Between (set_int to_int v);
    }
    | _ ↦ record { idr = h.idr; refresh = h.refresh; deadzone = h.deadzone; port = h.port }
  ]

  parse_line-InBounds : (c : Settings) (l : Line) → InBounds c → InBounds (parse_line to_int c l)
  unfolding parse_line
  parse_line-InBounds c l h = elim (Option-cases (key_of l.0 l.1)) [
    | inl e ↦ subst (λ o. InBounds (elim o [ none ↦ c | some k ↦ assign to_int c k l.2 ])) (sym e) h
    | inr (k, e) ↦
        subst (λ o. InBounds (elim o [ none ↦ c | some k ↦ assign to_int c k l.2 ])) (sym e)
          (assign-InBounds c k l.2 h)
  ]

  parse_lines-InBounds :
      (ls : List Line) (c : Settings) → InBounds c → InBounds (parse_lines to_int c ls)
  unfolding parse_lines
  parse_lines-InBounds [] c h = h
  parse_lines-InBounds (l ∷ ls) c h =
      parse_lines-InBounds ls (parse_line to_int c l) (parse_line-InBounds c l h)

ntsc-le : (fps : ℤ) → ntsc_refresh_rate_x100_for_fps fps ≤ 24000
unfolding ntsc_refresh_rate_x100_for_fps equals
ntsc-le fps = ground arith

set_refresh :
    (c : Settings) (z : ℤ)
    → InBounds c
    → Between 0 24000 z
    → InBounds (record c { client_refresh_rate_x100 = z })
set_refresh c z h b = record { idr = h.idr; refresh = b; deadzone = h.deadzone; port = h.port }

reconcile-InBounds : (c : Settings) → InBounds c → InBounds (reconcile_refresh_rate c)
unfolding reconcile_refresh_rate
reconcile-InBounds c h =
    if_both InBounds (ltb 0 (ntsc_refresh_rate_x100_for_fps c.fps))
      (set_refresh c _ h (ntsc_refresh_rate_x100_for_fps c.fps, (refl, omega arith, ntsc-le c.fps)))
      (if_both InBounds _ (set_refresh c (pos 0) h (0, (refl, omega arith, omega arith))) h)

-- Reading any lines into settings that are in bounds leaves them in bounds, whatever numbers the
-- lines hold and whether or not the parser met an error.
pub read-InBounds :
    (to_int : List ℕ → Option ℤ) (c : Settings) (ls : List Line) (ok : Bool)
    → InBounds c
    → InBounds (read to_int c ls ok)
unfolding read
read-InBounds to_int c ls ok h =
    if_both InBounds ok
      (reconcile-InBounds (parse_lines to_int c ls) (parse_lines-InBounds to_int ls c h))
      (parse_lines-InBounds to_int ls c h)

-- The rate is 0 or rounds to the frame rate, or it is the broadcast rate of 30, 60, 120 or 240.
abbrev pub Agrees : Settings → Type 0
Agrees c =
    (c.client_refresh_rate_x100 ≡ pos (ntsc_refresh_rate_x100_for_fps c.fps))
    ⊎ ((more_than c.client_refresh_rate_x100 0
          && implies_other_fps c.client_refresh_rate_x100 c.fps)
        ≡ false)

-- After a reconciliation the rate agrees with the frame rate, and a second one changes nothing.
pub reconcile_refresh_rate-twice :
    (c : Settings)
    → (reconcile_refresh_rate (reconcile_refresh_rate c) ≡ reconcile_refresh_rate c)
      × Agrees (reconcile_refresh_rate c)
unfolding reconcile_refresh_rate
reconcile_refresh_rate-twice c = elim (Bool-cases (ltb 0 (ntsc_refresh_rate_x100_for_fps c.fps))) [
  | inl e ↦ (simp e, inl (simp e))
  | inr e ↦
      elim (Bool-cases (
        more_than c.client_refresh_rate_x100 0
        && implies_other_fps c.client_refresh_rate_x100 c.fps)) [
          | inl s ↦ (simp (e, s, more_than), inr (simp (e, s, more_than)))
          | inr s ↦ (simp (e, s), inr (simp (e, s)))
        ]
]
