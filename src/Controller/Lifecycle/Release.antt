-- ===== src/Controller/Lifecycle/Release.antt =====
-- What plugging a controller out leaves: `ctm_controller_plug_out` and its threads in
-- src/app/hid_passthrough/ctm/controllers/controller_common.c.
use moonlight_tv.Base.{
  ℕ, List, [], ◌∷◌, Bool, true, false, not, ◌&&◌, if◌then◌else◌, ◌≡◌, refl, arith, if_both,
  if_split, min, ◌-◌,
}
use moonlight_tv.Controller.Lifecycle.{
  Held, idle, Grants, plug_in, SessionRun, handshake_fails, feeder_fails, thread_fails, runs,
  run_session, start_threads, end_threads, session_round, session_rounds, Course, session_main,
  plug_out, plugged_once,
}

-- Nothing is held, but for the flag `stop`.
pub record IsReleased (c : Held) : Type 0 where
  pub no_session : c.session_started ≡ false
  pub no_transport : c.xport ≡ false
  pub no_link : c.connected ≡ false
  pub no_input_thread : c.input_thread ≡ false
  pub no_readers : c.comp_threads ≡ 0
  pub no_acl : c.acl_tx ≡ false
  pub no_hid : c.hid_fd ≡ false
  pub no_dummy : c.dummy_hid_pipe ≡ false
  pub no_wake : c.wake_pipe ≡ false
  pub no_enet : c.enet ≡ false
  pub no_log : c.log_file ≡ false
  pub no_gamepad : c.evdev_gamepad ≡ false
  pub no_grabs : c.evdev_grab_count ≡ 0
  pub no_siblings : c.comp_count ≡ 0

-- No feeder and no input thread fails.
abbrev pub goes_well : List (ℕ × SessionRun) → Bool
goes_well [] = true
goes_well ((g, handshake_fails) ∷ rs) = goes_well rs
goes_well ((g, runs n feeder evdev_only readers) ∷ rs) = goes_well rs
goes_well ((g, feeder_fails n) ∷ rs) = false
goes_well ((g, thread_fails n feeder) ∷ rs) = false

-- Between the rounds no sibling is open, and no feeder, input thread or reader runs.
record BetweenRounds (c : Held) : Type 0 where
  input_joined : c.input_thread ≡ false
  readers_joined : c.comp_threads ≡ 0
  feeder_off : c.evdev_gamepad ≡ false
  siblings_closed : c.comp_count ≡ 0

between :
    {c : Held}
    → c.input_thread ≡ false
    → c.comp_threads ≡ 0
    → c.evdev_gamepad ≡ false
    → c.comp_count ≡ 0
    → BetweenRounds c
between i r f s = record {
  input_joined = i;
  readers_joined = r;
  feeder_off = f;
  siblings_closed = s;
}

-- No more readers are started than siblings are open, so that all of them are joined.
all_joined : (evdev_only : Bool) (readers n : ℕ) → (if evdev_only then 0 else min readers n) - n ≡ 0
all_joined evdev_only readers n = ground arith

session_rounds-BetweenRounds :
    (rs : List (ℕ × SessionRun)) (c : Held)
    → goes_well rs ≡ true
    → BetweenRounds c
    → BetweenRounds (session_rounds rs c)
unfolding session_rounds session_round run_session start_threads end_threads
session_rounds-BetweenRounds [] c w b = b
session_rounds-BetweenRounds ((g, handshake_fails) ∷ rs) c w b =
    session_rounds-BetweenRounds rs _ w
      (between b.input_joined b.readers_joined b.feeder_off b.siblings_closed)
session_rounds-BetweenRounds ((g, runs n feeder evdev_only readers) ∷ rs) c w b =
    session_rounds-BetweenRounds rs _ w (between refl (all_joined evdev_only readers _) refl refl)
session_rounds-BetweenRounds ((g, feeder_fails n) ∷ rs) c w b = absurd cc
session_rounds-BetweenRounds ((g, thread_fails n feeder) ∷ rs) c w b = absurd cc

released : (c : Held) → c.acl_tx ≡ false → BetweenRounds c → IsReleased (plug_out c)
unfolding plug_out
released c a b = record {
  no_session = refl;
  no_transport = refl;
  no_link = refl;
  no_input_thread = b.input_joined;
  no_readers = b.readers_joined;
  no_acl = a;
  no_hid = refl;
  no_dummy = refl;
  no_wake = refl;
  no_enet = refl;
  no_log = refl;
  no_gamepad = b.feeder_off;
  no_grabs = refl;
  no_siblings = b.siblings_closed;
}

-- What the thread leaves, if the forwarder is not left running by a node that did not open.
session_main-Leaves :
    (s : Course) (c : Held)
    → goes_well s.rounds ≡ true
    → not s.hid_opens && s.acl_starts ≡ false
    → BetweenRounds c
    → IsReleased (plug_out (session_main s c))
unfolding session_main
session_main-Leaves s c w h b =
    let opened : Held = record c {
      acl_tx = s.acl_starts;
      hid_fd = true;
      dummy_hid_pipe = s.with_dummy;
    } in
    let looped : Held = session_rounds s.rounds (record opened { wake_pipe = true }) in
    let l =
      session_rounds-BetweenRounds s.rounds (record opened { wake_pipe = true }) w
        (between b.input_joined b.readers_joined b.feeder_off b.siblings_closed) in
    if_split (λ (d : Held). IsReleased (plug_out d)) (not s.hid_opens)
      {x = record c { acl_tx = s.acl_starts; stop = true }}
      {y = if not s.pipe_ok
        then record opened { acl_tx = false; stop = true }
        else record looped { connected = s.connects_late; acl_tx = false; stop = true }}
      (λ e.
        released _ (ground (arith, h, e))
          (between b.input_joined b.readers_joined b.feeder_off b.siblings_closed))
      (λ e.
        if_both (λ (d : Held). IsReleased (plug_out d)) (not s.pipe_ok)
          {x = record opened { acl_tx = false; stop = true }}
          {y = record looped { connected = s.connects_late; acl_tx = false; stop = true }}
          (released _ refl (between b.input_joined b.readers_joined b.feeder_off b.siblings_closed))
          (released _ refl
            (between l.input_joined l.readers_joined l.feeder_off l.siblings_closed)))

-- A controller that was plugged in and out has no thread left, of the session, of the input, of a
-- sibling's reader, of the feeder or of the forwarder, and holds neither transport nor link, nor
-- a hidraw node, a pipe, a client of ENet, a log file, a grabbed node or a sibling, whatever the
-- system grants, if its node opened or no forwarder was started and no feeder and no input thread
-- failed.
pub plugged_once-IsReleased :
    (g : Grants) (s : Course)
    → goes_well s.rounds ≡ true
    → not s.hid_opens && s.acl_starts ≡ false
    → IsReleased (plugged_once g s)
unfolding plugged_once plug_in
plugged_once-IsReleased g s w h =
    let started : Held = record idle {
      stop = false;
      session_started = true;
      xport = true;
      connected = false;
      enet = g.enet_ok;
      log_file = g.log_opens;
    } in
    let off : BetweenRounds started = between refl refl refl refl in
    if_both (λ (t : Held × Bool). IsReleased (if t.1 then plug_out (session_main s t.0) else t.0))
      g.thread_ok {x = (started, true)} {y = (idle, false)} (session_main-Leaves s started w h off)
      (record {
        no_session = refl;
        no_transport = refl;
        no_link = refl;
        no_input_thread = refl;
        no_readers = refl;
        no_acl = refl;
        no_hid = refl;
        no_dummy = refl;
        no_wake = refl;
        no_enet = refl;
        no_log = refl;
        no_gamepad = refl;
        no_grabs = refl;
        no_siblings = refl;
      })
