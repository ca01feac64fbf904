-- ===== src/Transport.antt =====
-- The transport of the bridge over ENet or TCP: src/app/hid_passthrough/ctm_transport.c. A socket is
-- the bytes on the wire with the answers of the system, one for each call of `send` or `recv`.
mod Socket
pub mod Stream
pub mod Messages
pub mod Link
mod Examples
unfoldable pub use Socket.*
use moonlight_tv.Base.{
  ℕ, ◌+◌, ◌%◌, ◌^◌, List, [], ◌∷◌, ◌++◌, Option, none, some, Bool, true, false, not, ◌||◌, ◌&&◌,
  ltb, ◌==◌, if◌then◌else◌, length,
}
use moonlight_tv.Ctmb.{Header, magic, version, max_payload, header_size, unframe, frame, rejects}
use moonlight_tv.Enet.Client
use moonlight_tv.Enet.Client.{Round, PeerCall, Poll, Event, Packet}

-- `CTM_TRANSPORT_*`
pub data Kind : Type 0 where
  idle_link tcp_link enet_link : Kind

-- `ctm_transport_t`. `fd` says whether the descriptor is not negative.
pub record Transport : Type 0 where
  pub kind : Kind
  pub fd : Bool
  pub enet : Option Client.Client
  pub send_sequence : ℕ

unfoldable pub init : Option Client.Client → Transport
init enet = record { kind = idle_link; fd = false; enet = enet; send_sequence = 0 }

unfoldable pub attach_tcp : Transport → Bool → Transport
attach_tcp t fd = record t { kind = tcp_link; fd = fd }

-- The loop of `connect_tcp` over the addresses of the host: whether `socket` and then `connect`
-- succeed for each, and whether the loop leaves with an open socket.
unfoldable pub connect_tcp : List (Bool × Bool) → Bool
connect_tcp [] = false
connect_tcp ((opens, connects) ∷ rest) = (opens && connects) || connect_tcp rest

unfoldable pub fall_back : Transport → List (Bool × Bool) → Transport × Bool
unfolding connect_tcp
fall_back t addresses =
    if connect_tcp addresses then (record t { kind = tcp_link; fd = true }, true) else (t, false)

-- `ctm_transport_connect_once`, none while the wait for ENet goes on. The calls on the peer are
-- those of the client.
unfoldable pub connect_once :
    (ℕ → Bool)
    → Bool
    → Option ℕ
    → ℕ
    → Transport
    → List Round
    → List (Bool × Bool)
    → Option (Transport × Bool × List PeerCall)
unfolding fall_back
connect_once alloc resolves peer timeout_ms t rs addresses = elim t.enet [
  | none ↦ let (t', ok) = fall_back t addresses in some (t', ok, [])
  | some c ↦ elim (Client.connect alloc resolves peer timeout_ms c rs) [
    | none ↦ none
    | some (c', true, calls) ↦
        some (record t { kind = enet_link; fd = false; enet = some c' }, true, calls)
    | some (c', false, calls) ↦
        let (t', ok) = fall_back (record t { enet = some c' }) addresses in some (t', ok, calls)
  ]
]

-- The header that the TCP branch of `ctm_transport_send_msg` stamps.
unfoldable pub tcp_header : ℕ → ℕ → ℕ → ℕ → ℕ → ℕ → Header
tcp_header now type flags sequence request_id len = record {
  h_magic = magic;
  h_version = version;
  h_type = type;
  h_flags = flags;
  h_sequence = sequence;
  h_timestamp_us = now;
  h_request_id = request_id;
  h_payload_len = len;
}

-- Header and payload, each by `send_all`.
unfoldable pub send_framed : List Reply → Header → List ℕ → Option Sent
unfolding send_all
send_framed rs h payload = elim (send_all rs (frame h [])) [
  | none ↦ none
  | some s ↦
      let more = also s.wire (send_all s.replies payload) in
      if not s.ok then some s else if length payload == 0 then some s else more
]

-- `ctm_transport_send_msg`: the transport, the result 0, and what went to the socket.
unfoldable pub send_msg :
    (ℕ → Bool)
    → ℕ
    → Transport
    → List Reply
    → ℕ
    → ℕ
    → ℕ
    → List ℕ
    → Option (Transport × Bool × List ℕ × List Reply)
unfolding tcp_header send_framed
send_msg alloc now t rs type flags request_id payload =
    let seq : ℕ = (t.send_sequence + 1) % 2 ^ 32 in
    let over_enet : Option (Transport × Bool × List ℕ × List Reply) = elim t.enet [
      | none ↦ some (t, false, [], rs)
      | some c ↦
          let (c', ok) = Client.send_msg alloc now c type flags request_id payload in
          some (record t { enet = some c' }, ok, [], rs)
    ] in
    let over_tcp : Option (Transport × Bool × List ℕ × List Reply) =
      elim (send_framed rs (tcp_header now type flags seq request_id (length payload)) payload) [
        | none ↦ none
        | some s ↦ some (record t { send_sequence = seq }, s.ok, s.wire, s.replies)
      ] in
    if ltb max_payload (length payload) then some (t, false, [], rs) else elim t.kind [
      | enet_link ↦ over_enet
      | _ ↦ if not t.fd then some (t, false, [], rs) else over_tcp
    ]

-- A received message: 1 with header and payload, 0 for none yet (ENet only), or -1.
pub data Received : Type 0 where
  got : Header → List ℕ → Received
  nothing_yet dropped : Received

unfoldable pub finish_payload : Header → Option Taken → Option (Received × List ℕ × List Reply)
finish_payload h none = none
finish_payload h (some r) =
    some (elim r.bytes [ none ↦ dropped | some p ↦ got h p ], r.wire, r.replies)

-- The part of `ctm_transport_recv_msg` behind a header that was received.
unfoldable pub recv_payload :
    (ℕ → Bool) → Header → List Reply → List ℕ → Option (Received × List ℕ × List Reply)
unfolding recv_all finish_payload
recv_payload alloc h rs wire =
    let rest = finish_payload h (recv_all rs h.h_payload_len wire) in
    if rejects h
    then some (dropped, wire, rs)
    else if h.h_payload_len == 0
    then some (got h [], wire, rs)
    else if not (alloc h.h_payload_len)
    then some (dropped, wire, rs)
    else rest

unfoldable pub recv_framed :
    (ℕ → Bool) → List Reply → List ℕ → Option (Received × List ℕ × List Reply)
unfolding recv_all recv_payload
recv_framed alloc rs wire = elim (recv_all rs header_size wire) [
  | none ↦ none
  | some r ↦ elim r.bytes [
    | none ↦ some (dropped, r.wire, r.replies)
    | some bs ↦ recv_payload alloc (unframe bs).0 r.replies r.wire
  ]
]

-- The payload that `enet_client_recv_msg` hands over; one that is not there is empty.
unfoldable pub payload_of : Option (List ℕ) → List ℕ
payload_of none = []
payload_of (some p) = p

unfoldable pub recv_msg :
    (ℕ → Bool)
    → Transport
    → List Reply
    → List ℕ
    → Option (Transport × Received × List ℕ × List Reply)
unfolding recv_framed payload_of
recv_msg alloc t rs wire =
    let over_enet : Option (Transport × Received × List ℕ × List Reply) = elim t.enet [
      | none ↦ some (t, nothing_yet, wire, rs)
      | some c ↦ elim (Client.recv_msg c) [
        | none ↦ some (t, nothing_yet, wire, rs)
        | some (m, c') ↦
            some (record t { enet = some c' }, got m.header (payload_of m.payload), wire, rs)
      ]
    ] in
    let over_tcp : Option (Transport × Received × List ℕ × List Reply) =
      elim (recv_framed alloc rs wire) [
        | none ↦ none
        | some (r, wire', rs') ↦ some (t, r, wire', rs')
      ] in
    elim t.kind [
      | enet_link ↦ over_enet
      | _ ↦ if not t.fd then some (t, dropped, wire, rs) else over_tcp
    ]

-- `ctm_transport_service`; the flag is the result 0.
unfoldable pub service :
    (ℕ → Bool) → (ℕ → Bool) → Transport → Poll → List Event → Transport × Bool × List Packet
service alloc creates t poll es = elim t.kind [
  | enet_link ↦ elim t.enet [
    | none ↦ (t, false, [])
    | some c ↦
        let (c', ok, packets) = Client.service alloc creates c poll es in
        (record t { enet = some c' }, ok, packets)
  ]
  | _ ↦ (t, true, [])
]

unfoldable pub connected : Transport → Bool
connected t = elim t.kind [
  | enet_link ↦ elim t.enet [ none ↦ false | some c ↦ c.connected ]
  | _ ↦ t.fd
]

unfoldable pub disconnect : Transport → List Round → Option (Transport × List PeerCall)
disconnect t rs =
    let closed = record t { fd = false; kind = idle_link } in
    elim t.kind [
      | enet_link ↦ elim t.enet [
        | none ↦ some (closed, [])
        | some c ↦ elim (Client.disconnect c rs) [
          | none ↦ none
          | some (c', calls) ↦ some (record closed { enet = some c' }, calls)
        ]
      ]
      | _ ↦ some (closed, [])
    ]
