-- ===== src/Controller/Lifecycle.antt =====
-- What a controller holds from plugging it in to plugging it out: `ctm_controller_plug_in`,
-- `session_main`, `run_session` and `ctm_controller_plug_out` of
-- src/app/hid_passthrough/ctm/controllers/controller_common.c.
use moonlight_tv.Base.{
  ℕ, zero, suc, ◌+◌, ◌-◌, ◌≤◌, ◌<◌, min, List, [], ◌∷◌, Bool, true, false, not, ◌&&◌, ◌||◌,
  if◌then◌else◌, ◌≡◌, refl, sym, ap, ◌∙◌, arith, if_both, if_split,
}
pub mod Release

-- The descriptors, threads and objects of a controller: true while they are held. `xport` is a
-- transport that `ctm_transport_init` has set up, `connected` its link, by a socket or by ENet,
-- `input_thread` a thread that is not joined, and `comp_threads` the number of such readers of the
-- siblings, of which `comp_count` are open.
pub record Held : Type 0 where
  pub stop : Bool
  pub session_started : Bool
  pub xport : Bool
  pub connected : Bool
  pub input_thread : Bool
  pub comp_threads : ℕ
  pub acl_tx : Bool
  pub hid_fd : Bool
  pub dummy_hid_pipe : Bool
  pub wake_pipe : Bool
  pub enet : Bool
  pub log_file : Bool
  pub evdev_gamepad : Bool
  pub evdev_grab_count : ℕ
  pub comp_count : ℕ

-- `ctm_controller_create`
abbrev pub idle : Held
idle = record {
  stop = false;
  session_started = false;
  xport = false;
  connected = false;
  input_thread = false;
  comp_threads = 0;
  acl_tx = false;
  hid_fd = false;
  dummy_hid_pipe = false;
  wake_pipe = false;
  enet = false;
  log_file = false;
  evdev_gamepad = false;
  evdev_grab_count = 0;
  comp_count = 0;
}

-- What the system grants to `plug_in`: a log file, a client of ENet, and the thread.
pub record Grants : Type 0 where
  pub log_opens : Bool
  pub enet_ok : Bool
  pub thread_ok : Bool

-- The state, and whether 0 is returned. The test of the arguments is `has_host`.
unfoldable pub plug_in : Bool → Grants → Held → Held × Bool
plug_in has_host g c =
    let started : Held = record c {
      stop = false;
      session_started = true;
      xport = true;
      connected = false;
      enet = g.enet_ok;
      log_file = g.log_opens;
    } in
    if not has_host
    then (c, false)
    else if g.thread_ok
    then (started, true)
    else (record c { stop = false; xport = false; enet = false; log_file = false }, false)

-- How a connected session goes: the handshake fails; the feeder of an XInput gamepad fails after so
-- many siblings were opened; the input thread fails, with the feeder or without; or it runs to its end,
-- with an input thread or by the events of evdev alone, and with so many readers of siblings.
pub data SessionRun : Type 0 where
  handshake_fails : SessionRun
  feeder_fails : ℕ → SessionRun
  thread_fails : ℕ → Bool → SessionRun
  runs : ℕ → Bool → Bool → ℕ → SessionRun

-- `open_composite_siblings` opens while there are fewer than 15.
abbrev pub open_siblings : ℕ → Held → Held
open_siblings n c = record c { comp_count = min 15 (c.comp_count + n) }

-- The threads that are started: readers of siblings only for those that are open, and where the
-- events of evdev are all there is, no thread of either kind.
unfoldable pub start_threads : ℕ → Bool → Bool → ℕ → Held → Held
start_threads n feeder evdev_only readers c =
    let opened : Held = open_siblings n c in
    record opened {
      evdev_gamepad = feeder || c.evdev_gamepad;
      input_thread = not evdev_only;
      comp_threads = if evdev_only then 0 else min readers opened.comp_count;
    }

-- The end of a session: the feeder is stopped, the input thread is joined, and for each sibling
-- that is open its reader is joined and its descriptor is closed.
unfoldable pub end_threads : Held → Held
end_threads c = record c {
  evdev_gamepad = false;
  input_thread = false;
  comp_threads = c.comp_threads - c.comp_count;
  comp_count = 0;
}

unfoldable pub run_session : SessionRun → Held → Held
unfolding start_threads end_threads
run_session handshake_fails c = c
run_session (feeder_fails n) c = open_siblings n c
run_session (thread_fails n feeder) c = record c {
  comp_count = 0;
  evdev_gamepad = feeder || c.evdev_gamepad;
}
run_session (runs n feeder evdev_only readers) c =
    end_threads (start_threads n feeder evdev_only readers c)

-- A round of the loop: the connection, the nodes of evdev that were grabbed, the session, their
-- release, and the end of the connection.
unfoldable pub session_round : ℕ → SessionRun → Held → Held
unfolding run_session
session_round grabbed r c =
    let grabs : ℕ = min 16 (c.evdev_grab_count + grabbed) in
    let ran : Held = run_session r (record c { connected = true; evdev_grab_count = grabs }) in
    record ran { evdev_grab_count = 0; connected = false }

unfoldable pub session_rounds : List (ℕ × SessionRun) → Held → Held
session_rounds [] c = c
session_rounds ((grabbed, r) ∷ rs) c = session_rounds rs (session_round grabbed r c)

-- What the thread of a session finds: whether the forwarder starts, which hidraw node opens (by one
-- of three ways, of which one holds a second pipe), whether the pipe is made, its rounds, and whether
-- the controller is stopped after a connection was made, before its session.
pub record Course : Type 0 where
  pub acl_starts : Bool
  pub hid_opens : Bool
  pub with_dummy : Bool
  pub pipe_ok : Bool
  pub rounds : List (ℕ × SessionRun)
  pub connects_late : Bool

unfoldable pub session_main : Course → Held → Held
session_main s c =
    let opened : Held = record c {
      acl_tx = s.acl_starts;
      hid_fd = true;
      dummy_hid_pipe = s.with_dummy;
    } in
    let looped : Held = session_rounds s.rounds (record opened { wake_pipe = true }) in
    if not s.hid_opens
    then record c { acl_tx = s.acl_starts; stop = true }
    else if not s.pipe_ok
    then record opened { acl_tx = false; stop = true }
    else record looped { connected = s.connects_late; acl_tx = false; stop = true }

-- `plug_out` joins the thread of the session, disconnects the transport and gives it up, and closes
-- what it finds.
unfoldable pub plug_out : Held → Held
plug_out c = record c {
  stop = true;
  session_started = false;
  connected = false;
  xport = false;
  hid_fd = false;
  dummy_hid_pipe = false;
  wake_pipe = false;
  enet = false;
  log_file = false;
  evdev_grab_count = 0;
}

-- The whole course of a controller that is plugged in and out.
unfoldable pub plugged_once : Grants → Course → Held
plugged_once g s =
    let start = plug_in true g idle in
    if start.1 then plug_out (session_main s start.0) else start.0
