-- ===== src/Controller/Session/Running.antt =====
-- What every message leaves true of a session: `handle_message` and `handshake` of
-- src/app/hid_passthrough/ctm/controllers/controller_common.c.
use moonlight_tv.Base.{
  ℕ, ◌%◌, ◌≤◌, ◌<◌, List, [], ◌∷◌, ◌++◌, Option, none, some, Bool, true, false, not, ◌&&◌, ◌||◌,
  ltb, leb, ◌==◌, length, ◌≡◌, refl, sym, subst, arith, if_both, if_split,
}
use moonlight_tv.Base.Int.{ℤ}
use moonlight_tv.Ctmb.{
  Header, msg_enum, msg_hello, msg_host_config, msg_output_report, msg_feature_get, msg_feature_set,
}
use moonlight_tv.Controller.Pace.{HostConfig, should_pace, no_reports}
use moonlight_tv.Controller.Pace.Queue.{IsValid, queue_paced-IsValid, no_reports-IsValid}
use moonlight_tv.Controller.Output.{Acl, Output}
use moonlight_tv.Controller.Session.{
  Node, Ports, Session, Act, raw_write, output_fd_for, host_config_size, read_host_config, Answers,
  usable, count_out, write_fd_raw, handle_output, handle_message, eff_pace_us, Poll, stopped, lost,
  nothing, arrived, Handshake, refused, ready, waiting, await_host_config, handshake,
}

-- What a session keeps: the ring is sound, and the pace is not 0.
pub record IsRunning (s : Session) : Type 0 where
  pub ring : IsValid s.paced
  pub paced_on : 0 < s.host_cfg.bt_pace_us

-- A message with its payload and what the environment answers to it.
abbrev pub Round : Type 0
Round = Answers × Header × List ℕ

unfoldable pub run_messages : (ℕ → ℤ → ℤ) → Ports → Session → List Round → Session
run_messages scale p s [] = s
run_messages scale p s ((a, h, payload) ∷ rs) =
    run_messages scale p (handle_message scale p a s h payload).0 rs

record KeepsOn (out : Session × List Act) : Type 0 where
  keeps_on : IsRunning out.0

-- A state with the same ring and the same configuration.
kept_on :
    (s t : Session) (acts : List Act)
    → t.paced ≡ s.paced
    → t.host_cfg ≡ s.host_cfg
    → IsRunning s
    → KeepsOn (t, acts)
kept_on s t acts e f v = record {
  keeps_on = record {
    ring = subst IsValid (sym e) v.ring;
    paced_on = subst (λ (c : HostConfig). 0 < c.bt_pace_us) (sym f) v.paced_on;
  };
}

write_fd_raw-KeepsOn :
    (a : Answers) (node : Node) (s : Session) (payload : List ℕ)
    → IsRunning s
    → KeepsOn (write_fd_raw a node s payload)
unfolding write_fd_raw
write_fd_raw-KeepsOn a node s payload v =
    let counted : Session = record s { output = count_out s.output } in
    if_both KeepsOn (not (usable payload)) (kept_on s s [] refl refl v) (
      if_both (λ (t : Session). KeepsOn (t, raw_write node payload ∷ [])) (a.raw_ok node payload)
        {x = counted} {y = s} (kept_on s counted _ refl refl v) (kept_on s s _ refl refl v))

handle_output-KeepsOn :
    (scale : ℕ → ℤ → ℤ) (p : Ports) (a : Answers) (s : Session) (h : Header) (payload : List ℕ)
    → IsRunning s
    → KeepsOn (handle_output scale p a s h payload)
unfolding handle_output
handle_output-KeepsOn scale p a s h payload v =
    let ep : ℕ = h.h_request_id % 256 in
    if_both KeepsOn (p.evdev_gamepad && (ep == 0 || ep == p.xpad_out_ep || ep == p.primary_out_ep))
      (kept_on s _ _ refl refl v)
      (if_both KeepsOn p.composite
        (write_fd_raw-KeepsOn a (output_fd_for p h.h_request_id) s payload v)
        (if_both KeepsOn (should_pace s.host_cfg h payload)
          (record {
            keeps_on = record {
              ring = queue_paced-IsValid s.paced payload v.ring;
              paced_on = v.paced_on;
            };
          })
          (kept_on s _ _ refl refl v)))

read_host_config-paces : (bs : List ℕ) → 0 < (read_host_config bs).bt_pace_us
unfolding read_host_config
read_host_config-paces bs = ground arith

handle_message-KeepsOn :
    (scale : ℕ → ℤ → ℤ) (p : Ports) (a : Answers) (s : Session) (h : Header) (payload : List ℕ)
    → IsRunning s
    → KeepsOn (handle_message scale p a s h payload)
unfolding handle_message
handle_message-KeepsOn scale p a s h payload v =
    if_both KeepsOn (h.h_type == msg_output_report) (handle_output-KeepsOn scale p a s h payload v)
      (if_both KeepsOn (h.h_type == msg_feature_get) (kept_on s s _ refl refl v) (
        if_both KeepsOn (h.h_type == msg_feature_set) (kept_on s s _ refl refl v) (
          if_both KeepsOn (h.h_type == msg_host_config && leb host_config_size (length payload))
            (record {
              keeps_on = record { ring = v.ring; paced_on = read_host_config-paces payload };
            })
            (kept_on s s _ refl refl v))))

run_messages-Keeps :
    (scale : ℕ → ℤ → ℤ) (p : Ports) (rs : List Round) (s : Session)
    → IsRunning s
    → IsRunning (run_messages scale p s rs)
unfolding run_messages
run_messages-Keeps scale p [] s v = v
run_messages-Keeps scale p ((a, h, payload) ∷ rs) s v =
    run_messages-Keeps scale p rs (handle_message scale p a s h payload).0
      (handle_message-KeepsOn scale p a s h payload v).keeps_on

-- A configuration with which a handshake ends has a pace.
abbrev HasPace : Handshake → Type 0
HasPace (ready cfg) = 0 < cfg.bt_pace_us
HasPace refused = Unit {0}
HasPace waiting = Unit {0}

record Paces (o : Handshake) : Type 0 where
  paces : HasPace o

await-Paces : (ps : List Poll) → Paces (await_host_config ps)
unfolding await_host_config
await-Paces [] = record { paces = tt }
await-Paces (stopped ∷ ps) = record { paces = tt }
await-Paces (lost ∷ ps) = record { paces = tt }
await-Paces (nothing t ∷ ps) =
    if_both Paces (leb 5000000 t) (record { paces = tt }) (await-Paces ps)
await-Paces (arrived h payload ∷ ps) =
    if_both Paces (not (h.h_type == msg_host_config) || ltb (length payload) host_config_size)
      (record { paces = tt }) (record { paces = read_host_config-paces payload })

handshake-Paces :
    (sends : ℕ → Bool) (needs : Bool) (enum_payload : Option (List ℕ)) (cfg : HostConfig)
    (ps : List Poll)
    → Paces (handshake sends needs enum_payload cfg ps)
unfolding handshake
handshake-Paces sends needs enum_payload cfg ps =
    if_both Paces
      (elim enum_payload [ none ↦ false | some bs ↦ not (length bs == 0) && not (sends msg_enum) ])
      (record { paces = tt })
      (if_both Paces (not (sends msg_hello)) (record { paces = tt })
        (if_both Paces (not needs) (record { paces = omega arith }) (await-Paces ps)))

-- The session that starts with a configuration.
abbrev pub starts_with : Output → HostConfig → Session
starts_with o cfg = record { output = o; host_cfg = cfg; paced = no_reports }

eff_pace-positive : (o : Option Acl) (pace : ℕ) → 0 < pace → 0 < eff_pace_us o pace
unfolding eff_pace_us
eff_pace-positive none pace h = ground arith
eff_pace-positive (some t) pace h = ground arith

-- In a session that starts with the configuration of a handshake that succeeded, after any
-- messages with any answers of the environment, the ring of paced reports is sound (32 slots,
-- head and count within it) and the pace, configured and effective, is not 0.
pub run_messages-IsRunning :
    (scale : ℕ → ℤ → ℤ) (p : Ports) (sends : ℕ → Bool) (needs : Bool)
    (enum_payload : Option (List ℕ)) (cfg cfg' : HostConfig) (ps : List Poll) (o : Output)
    (rs : List Round)
    → handshake sends needs enum_payload cfg ps ≡ ready cfg'
    → let s = run_messages scale p (starts_with o cfg') rs in
      IsRunning s × (0 < eff_pace_us s.output.acl s.host_cfg.bt_pace_us)
run_messages-IsRunning scale p sends needs enum_payload cfg cfg' ps o rs e =
    let h : 0 < cfg'.bt_pace_us =
      subst HasPace e (handshake-Paces sends needs enum_payload cfg ps).paces in
    let v =
      run_messages-Keeps scale p rs (starts_with o cfg')
        (record { ring = no_reports-IsValid; paced_on = h }) in
    (v, eff_pace-positive _ _ v.paced_on)

abbrev pub has_ended : Handshake → Bool
has_ended waiting = false
has_ended refused = true
has_ended (ready cfg) = true

-- The wait for the configuration ends once a round sees five seconds gone.
pub await_host_config-ends :
    (ps qs : List Poll) (t : ℕ)
    → 5000000 ≤ t
    → has_ended (await_host_config (ps ++ (nothing t ∷ qs))) ≡ true
unfolding await_host_config
await_host_config-ends [] qs t h =
    if_split (λ (o : Handshake). has_ended o ≡ true) (leb 5000000 t) {x = refused}
      {y = await_host_config qs} (λ _. refl) (λ e. absurd (ground arith))
await_host_config-ends (stopped ∷ ps) qs t h = refl
await_host_config-ends (lost ∷ ps) qs t h = refl
await_host_config-ends (nothing u ∷ ps) qs t h =
    if_both (λ (o : Handshake). has_ended o ≡ true) (leb 5000000 u) {x = refused}
      {y = await_host_config (ps ++ (nothing t ∷ qs))} refl (await_host_config-ends ps qs t h)
await_host_config-ends (arrived g payload ∷ ps) qs t h =
    if_both (λ (o : Handshake). has_ended o ≡ true)
      (not (g.h_type == msg_host_config) || ltb (length payload) host_config_size) {x = refused}
      {y = ready (read_host_config payload)} refl refl
