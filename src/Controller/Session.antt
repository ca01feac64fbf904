-- ===== src/Controller/Session.antt =====
-- One session of a controller: the handshake and the messages of the host, `handshake` and
-- `handle_message` of src/app/hid_passthrough/ctm/controllers/controller_common.c.
use moonlight_tv.Base.{
  ℕ, zero, suc, ◌+◌, ◌-◌, ◌*◌, ◌/◌, ◌%◌, ◌^◌, ◌≤◌, ◌<◌, List, [], ◌∷◌, ◌++◌, Option, none, some,
  Bool, true, false, not, ◌&&◌, ◌||◌, ltb, leb, ◌==◌, if◌then◌else◌, length, take, drop, get_or,
}
use moonlight_tv.Base.Int.{ℤ}
use moonlight_tv.Ctmb.{
  Header, flag_ok, msg_hello, msg_host_config, msg_output_report, msg_feature_get,
  msg_feature_report, msg_feature_set, msg_enum, le_bytes, le_value, skip,
}
use moonlight_tv.Controller.Pace.{HostConfig, Paced, should_pace, queue_paced, default_pace}
use moonlight_tv.Controller.Output.{Acl, OutputHook, Kernel, Output, Written, hid_write_report}
mod Config
unfoldable pub use Config.*
pub mod Requests
pub mod Running
mod Examples

-- A forwarded interface of a composite device.
pub record Sibling : Type 0 where
  pub out_ep : ℕ
  pub iface : ℕ

-- The hidraw node that a call goes to: that of the primary interface, or that of a sibling.
pub data Node : Type 0 where
  primary : Node
  sibling : ℕ → Node

-- What does not change while a session runs: the kind of the controller and its interfaces.
pub record Ports : Type 0 where
  pub composite : Bool
  pub evdev_gamepad : Bool
  pub xpad_out_ep : ℕ
  pub primary_out_ep : ℕ
  pub primary_iface : ℕ
  pub siblings : List Sibling
  pub hook : OutputHook

pub record Session : Type 0 where
  pub output : Output
  pub host_cfg : HostConfig
  pub paced : Paced

-- What a message makes the session do besides: the strengths of the two motors for evdev, a write to a node, a
-- report handed to the device by `hid_write_report`, the two calls on feature reports, and an answer
-- with its flags, its request and its payload.
pub data Act : Type 0 where
  rumble : ℕ → ℕ → Act
  raw_write : Node → List ℕ → Act
  device_report : List ℕ → Act
  read_feature : Node → List ℕ → Act
  write_feature : Node → List ℕ → Act
  reply : ℕ → ℕ → List ℕ → Act

abbrev pub node_by_ep : ℕ → ℕ → List Sibling → Node
node_by_ep i ep [] = primary
node_by_ep i ep (s ∷ ss) = if s.out_ep == ep then sibling i else node_by_ep (suc i) ep ss

abbrev pub node_by_iface : ℕ → ℕ → List Sibling → Node
node_by_iface i iface [] = primary
node_by_iface i iface (s ∷ ss) =
    if s.iface == iface then sibling i else node_by_iface (suc i) iface ss

-- `feature_fd_for`: the number of the interface is the high byte of the request.
unfoldable pub feature_fd_for : Ports → ℕ → Node
feature_fd_for p request_id =
    let iface : ℕ = request_id / 2 ^ 24 % 256 in
    if not p.composite
    then primary
    else if iface == p.primary_iface
    then primary
    else node_by_iface 0 iface p.siblings

-- The node of an output report: the number of the endpoint is the low byte of the request.
unfoldable pub output_fd_for : Ports → ℕ → Node
output_fd_for p request_id =
    let ep : ℕ = request_id % 256 in
    if ep == 0 || ep == p.primary_out_ep then primary else node_by_ep 0 ep p.siblings

-- What the environment answers while a message is handled: the kernel to a report, a node to a
-- write and to the two calls on feature reports, and the transport to an answer.
pub record Answers : Type 0 where
  pub kernel : Kernel
  pub raw_ok : Node → List ℕ → Bool
  pub feature_of : Node → List ℕ → Option (List ℕ)
  pub feature_set : Node → List ℕ → Bool
  pub send_ok : Bool

abbrev pub usable : List ℕ → Bool
usable payload = not (length payload == 0) && leb (length payload) 4096

-- A report that is read is sent, and where either fails an empty answer is.
abbrev pub answer_get : ℕ → Bool → Option (List ℕ) → List Act
answer_get request_id send_ok none = reply 0 request_id [] ∷ []
answer_get request_id send_ok (some report) =
    if send_ok
    then reply flag_ok request_id report ∷ []
    else reply flag_ok request_id report ∷ reply 0 request_id [] ∷ []

abbrev pub count_out : Output → Output
count_out o = record o { reports_out = o.reports_out + 1 }

abbrev pub device_acts : Option (List ℕ) → List Act
device_acts none = []
device_acts (some bs) = device_report bs ∷ []

-- `xpad_parse_rumble_motors`, and the magnitude of `xpad_apply_rumble`: the strong and the weak motor.
unfoldable pub parse_rumble_motors : List ℕ → Option (ℕ × ℕ)
parse_rumble_motors (a ∷ (b ∷ (strong ∷ (weak ∷ rest)))) =
    if a == 0x01
    then none
    else if not (a == 0x00) || not (b == 0x08)
    then none
    else some (strong, weak)
parse_rumble_motors _ = none

abbrev pub magnitude : ℕ → ℕ
magnitude v = v * 0xffff / 255

abbrev pub rumble_acts : Option (ℕ × ℕ) → List Act
rumble_acts none = []
rumble_acts (some (strong, weak)) = rumble (magnitude strong) (magnitude weak) ∷ []

-- `hid_write_fd_raw`
unfoldable pub write_fd_raw : Answers → Node → Session → List ℕ → Session × List Act
write_fd_raw a node s payload = if not (usable payload) then (s, []) else (
  (if a.raw_ok node payload then record s { output = count_out s.output } else s),
  raw_write node payload ∷ [],
)

-- An output report.
unfoldable pub handle_output :
    (ℕ → ℤ → ℤ) → Ports → Answers → Session → Header → List ℕ → Session × List Act
handle_output scale p a s h payload =
    let ep : ℕ = h.h_request_id % 256 in
    let w : Written = hid_write_report scale p.hook a.kernel s.output payload in
    if p.evdev_gamepad && (ep == 0 || ep == p.xpad_out_ep || ep == p.primary_out_ep)
    then (record s { output = count_out s.output }, rumble_acts (parse_rumble_motors payload))
    else if p.composite
    then write_fd_raw a (output_fd_for p h.h_request_id) s payload
    else if should_pace s.host_cfg h payload
    then (record s { paced = queue_paced s.paced payload }, [])
    else (record s { output = w.output }, device_acts w.to_device)

-- `handle_message`. The payload has the length that the header says, so that a test of
-- `payload_len` is one of its length.
unfoldable pub handle_message :
    (ℕ → ℤ → ℤ) → Ports → Answers → Session → Header → List ℕ → Session × List Act
handle_message scale p a s h payload =
    let node : Node = feature_fd_for p h.h_request_id in
    let set_ok : Bool = a.feature_set node payload in
    if h.h_type == msg_output_report
    then handle_output scale p a s h payload
    else if h.h_type == msg_feature_get
    then (
      s,
      (if usable payload
          then read_feature node payload
            ∷ answer_get h.h_request_id a.send_ok (a.feature_of node payload)
          else reply 0 h.h_request_id [] ∷ []),
    )
    else if h.h_type == msg_feature_set
    then (
      s,
      (if usable payload
          then write_feature node payload
            ∷ reply (if set_ok then flag_ok else 0) h.h_request_id []
            ∷ []
          else reply 0 h.h_request_id [] ∷ []),
    )
    else if h.h_type == msg_host_config && leb host_config_size (length payload)
    then (record s { host_cfg = read_host_config payload }, [])
    else (s, [])
