-- ===== src/Controller/Session/Config.antt =====
-- The configuration of the host, the pace that follows from it, and the handshake that waits for it:
-- `handshake` and `run_session` of src/app/hid_passthrough/ctm/controllers/controller_common.c.
use moonlight_tv.Base.{
  ℕ, List, [], ◌∷◌, Option, none, some, Bool, false, not, ◌&&◌, ◌||◌, ltb, leb, ◌==◌, if◌then◌else◌,
  length, take, drop, get_or,
}
use moonlight_tv.Ctmb.{Header, msg_hello, msg_host_config, msg_enum, le_value}
use moonlight_tv.Controller.Pace.{HostConfig, default_pace}
use moonlight_tv.Controller.Output.{Acl}

-- `memcpy` of a `ctmb_host_config_t`, with the default pace for 0. It has 58 bytes.
abbrev pub host_config_size : ℕ
host_config_size = 58

unfoldable pub read_host_config : List ℕ → HostConfig
unfolding le_value
read_host_config bs = record {
  bt_pace_us = (let pace : ℕ = le_value 4 bs in if pace == 0 then default_pace else pace);
  paced_report_count = get_or bs 10 0;
  paced_report_ids = take 16 (drop 11 bs);
}

-- `eff_pace_us` of the loop: eight milliseconds at most, unless the forwarder is there and not ready.
unfoldable pub eff_pace_us : Option Acl → ℕ → ℕ
eff_pace_us none pace = if ltb 8000 pace then 8000 else pace
eff_pace_us (some t) pace = if t.acl_ready && ltb 8000 pace then 8000 else pace

-- What a round of the wait for the configuration finds: a stop, a lost link or a failed receive,
-- nothing for so many microseconds, or a message.
pub data Poll : Type 0 where
  stopped : Poll
  lost : Poll
  nothing : ℕ → Poll
  arrived : Header → List ℕ → Poll

-- -1, 0 with the configuration, or still waiting where the rounds end.
pub data Handshake : Type 0 where
  refused : Handshake
  ready : HostConfig → Handshake
  waiting : Handshake

unfoldable pub await_host_config : List Poll → Handshake
await_host_config [] = waiting
await_host_config (stopped ∷ ps) = refused
await_host_config (lost ∷ ps) = refused
await_host_config (nothing elapsed ∷ ps) =
    let later : Handshake = await_host_config ps in if leb 5000000 elapsed then refused else later
await_host_config (arrived h payload ∷ ps) =
    if not (h.h_type == msg_host_config) || ltb (length payload) host_config_size
    then refused
    else ready (read_host_config payload)

-- `handshake`: the enumeration, if there is one, and HELLO are sent, and a kind that needs the
-- configuration waits for it. `sends` says whether a message of a type is sent.
unfoldable pub handshake : (ℕ → Bool) → Bool → Option (List ℕ) → HostConfig → List Poll → Handshake
handshake sends needs_host_config enum_payload cfg polls =
    let enum_failed : Bool = elim enum_payload [
      | none ↦ false
      | some bs ↦ not (length bs == 0) && not (sends msg_enum)
    ] in
    if enum_failed
    then refused
    else if not (sends msg_hello)
    then refused
    else if not needs_host_config
    then ready (record cfg { bt_pace_us = default_pace })
    else await_host_config polls
