-- ===== src/Enet/Client.antt =====
-- `ctm_enet_client_t` and its operations, from src/app/hid_passthrough/enet_transport.c. The ENet
-- library is not part of the repository: what its calls return is an argument, and what is handed
-- to it is returned as a list of packets or calls.
pub mod Queues
pub mod Delivery
pub mod Link
use moonlight_tv.Base.{
  ℕ, zero, suc, ◌+◌, ◌-◌, ◌%◌, ◌*◌, ◌^◌, List, [], ◌∷◌, ◌++◌, Option, none, some, Bool, true, false,
  not, ◌||◌, ◌&&◌, leb, ltb, ◌==◌, if◌then◌else◌, length, take,
}
use moonlight_tv.Ctmb.{
  Header, magic, version, max_payload, header_size, msg_input_report, unframe, frame, rejects,
}
use moonlight_tv.Enet.Ring
use moonlight_tv.Enet.Ring.{Msg, Ring, fresh}

-- `struct ctm_enet_client`. `host` says whether it is not NULL; a peer is known by a number.
pub record Client : Type 0 where
  pub host : Bool
  pub peer : Option ℕ
  pub connected : Bool
  pub send_sequence : ℕ
  pub outbox : Ring
  pub inbox : Ring

-- An `ENetPacket` handed to `enet_peer_send`. A body of `none` is uninitialised memory.
pub record Packet : Type 0 where
  pub dest : ℕ
  pub reliable : Bool
  pub head : Header
  pub body : Option (List ℕ)

-- `ENetEvent`
pub data Event : Type 0 where
  connect_event : ℕ → Event
  receive_event : List ℕ → Event
  disconnect_event : Event
  no_event : Event

-- What `enet_host_service` returns: below 0, 0, or an event.
pub data Poll : Type 0 where
  failed : Poll
  idle : Poll
  got : Event → Poll

-- Calls on the peer that end a connection.
pub data PeerCall : Type 0 where
  peer_disconnect : ℕ → PeerCall
  peer_reset : ℕ → PeerCall

unfoldable pub create : Bool → Bool → Option Client
create allocated host_created =
    if allocated && host_created
    then some (record {
      host = true;
      peer = none;
      connected = false;
      send_sequence = 0;
      outbox = fresh;
      inbox = fresh;
    })
    else none

unfoldable pub reset_queues : Client → Client
reset_queues c = record c { outbox = Ring.reset c.outbox; inbox = Ring.reset c.inbox }

-- The checks of `enet_client_ingest` on a packet of `size` bytes, a header and what is behind it.
-- `alloc n` says whether `malloc(n)` succeeds.
unfoldable pub accept : (ℕ → Bool) → ℕ → Header → List ℕ → Option Msg
accept alloc size h rest =
    let len : ℕ = h.h_payload_len in
    if ltb size header_size || rejects h
    then none
    else if ltb size (header_size + len)
    then none
    else if len == 0
    then some (record { header = h; payload = none })
    else if alloc len
    then some (record { header = h; payload = some (take len rest) })
    else none

-- The message that a packet's bytes hold, if `enet_client_ingest` accepts them.
unfoldable pub parse : (ℕ → Bool) → List ℕ → Option Msg
parse alloc bs = let (h, rest) = unframe bs in accept alloc (length bs) h rest

unfoldable pub ingest : (ℕ → Bool) → Client → List ℕ → Client
ingest alloc c bs = elim (parse alloc bs) [
  | none ↦ c
  | some m ↦ record c { inbox = Ring.put c.inbox m }
]

-- `creates n` says whether `enet_packet_create` succeeds for `n` bytes.
unfoldable pub dispatch : (ℕ → Bool) → Option ℕ → Msg → List Packet
dispatch creates none m = []
dispatch creates (some p) m =
    if creates (header_size + m.header.h_payload_len)
    then record {
      dest = p;
      reliable = not (m.header.h_type == msg_input_report);
      head = m.header;
      body = if m.header.h_payload_len == 0 then some [] else m.payload;
    }
      ∷ []
    else []

-- The loop of `enet_client_flush_outbox`, with as many rounds as there are messages at most.
unfoldable pub flush : (ℕ → Bool) → ℕ → Client → Client × List Packet
flush creates zero c = (c, [])
flush creates (suc n) c = elim (Ring.pop c.outbox) [
  | none ↦ (c, [])
  | some (m, r) ↦
      let (c', ps) = flush creates n (record c { outbox = r }) in
      (c', dispatch creates c.peer m ++ ps)
]

unfoldable pub flush_outbox : (ℕ → Bool) → Client → Client × List Packet
flush_outbox creates c = flush creates c.outbox.count c

-- The flag is the return value -1.
unfoldable pub handle_event : (ℕ → Bool) → Client → Event → Client × Bool
handle_event alloc c (connect_event p) = (record c { peer = some p; connected = true }, false)
handle_event alloc c (receive_event bs) = (ingest alloc c bs, false)
handle_event alloc c disconnect_event = (record c { connected = false; peer = none }, true)
handle_event alloc c no_event = (c, false)

-- `while (enet_host_check_events(…) > 0)`
unfoldable pub handle_events : (ℕ → Bool) → Client → Bool → List Event → Client × Bool
handle_events alloc c dropped [] = (c, dropped)
handle_events alloc c dropped (e ∷ es) =
    let (c', d) = handle_event alloc c e in handle_events alloc c' (dropped || d) es

-- The events of one call; none if nothing came or the call failed.
abbrev pub polled : Poll → List Event → List Event
polled failed es = []
polled idle es = []
polled (got e) es = e ∷ es

abbrev pub is_failed : Poll → Bool
is_failed failed = true
is_failed _ = false

-- `enet_client_service`: the new state, whether it returned 0, and the packets that it sent.
unfoldable pub service :
    (ℕ → Bool) → (ℕ → Bool) → Client → Poll → List Event → Client × Bool × List Packet
service alloc creates c poll es =
    if not c.host
    then (c, false, [])
    else let (c1, ps) = flush_outbox creates c in
      let (c2, dropped) = handle_events alloc c1 false (polled poll es) in
      let (c3, qs) = flush_outbox creates c2 in
      if is_failed poll then (c1, false, ps) else (c3, not dropped, ps ++ qs)

-- `enet_client_send_msg` at time `now`; the flag is the return value 0.
unfoldable pub send_msg : (ℕ → Bool) → ℕ → Client → ℕ → ℕ → ℕ → List ℕ → Client × Bool
send_msg alloc now c type flags request_id payload =
    let len : ℕ = length payload in
    let seq : ℕ = (c.send_sequence + 1) % 2 ^ 32 in
    if not c.connected
    then (c, false)
    else if ltb max_payload len
    then (c, false)
    else if ltb 0 len && not (alloc len)
    then (c, false)
    else (
      record c {
        send_sequence = seq;
        outbox = Ring.put c.outbox (record {
          header = record {
            h_magic = magic;
            h_version = version;
            h_type = type;
            h_flags = flags;
            h_sequence = seq;
            h_timestamp_us = now;
            h_request_id = request_id;
            h_payload_len = len;
          };
          payload = if len == 0 then none else some payload;
        });
      },
      true,
    )

-- `enet_client_recv_msg`; `none` is the return value 0.
unfoldable pub recv_msg : Client → Option (Msg × Client)
recv_msg c = elim (Ring.pop c.inbox) [
  | none ↦ none
  | some (m, r) ↦ some (m, record c { inbox = r })
]

-- The end of both `enet_client_connect` (on failure) and `enet_client_disconnect`.
unfoldable pub drop_peer : Client → Client × List PeerCall
unfolding reset_queues
drop_peer c = (
  reset_queues (record c { peer = none; connected = false }),
  elim c.peer [ none ↦ [] | some p ↦ peer_reset p ∷ [] ],
)

-- One round of a waiting loop: what the service call gave, and the microseconds since the start.
abbrev pub Round : Type 0
Round = Poll × ℕ

-- The loop of `enet_client_connect`. The flag is the return value 0; `none` means that the rounds
-- ended while the loop still waited.
unfoldable pub await_connect :
    (ℕ → Bool) → ℕ → Client → List Round → Option (Client × Bool × List PeerCall)
await_connect alloc limit c [] = none
await_connect alloc limit c ((failed, t) ∷ rs) =
    let (c', calls) = drop_peer c in some (c', false, calls)
await_connect alloc limit c ((idle, t) ∷ rs) =
    let (c', calls) = drop_peer c in
    let rest = await_connect alloc limit c rs in
    if leb limit t then some (c', false, calls) else rest
await_connect alloc limit c ((got (connect_event p), t) ∷ rs) =
    some (record c { peer = some p; connected = true }, true, [])
await_connect alloc limit c ((got e, t) ∷ rs) =
    let (c1, d) = handle_event alloc c e in
    let (c', calls) = drop_peer c1 in
    let rest = await_connect alloc limit c1 rs in
    if c1.connected
    then some (c1, true, [])
    else if leb limit t
    then some (c', false, calls)
    else rest

-- `enet_client_connect`. `resolves` says whether the address could be set; the peer is what
-- `enet_host_connect` returns.
unfoldable pub connect :
    (ℕ → Bool) → Bool → Option ℕ → ℕ → Client → List Round → Option (Client × Bool × List PeerCall)
connect alloc resolves none timeout_ms c rs =
    if not c.host || not resolves
    then some (c, false, [])
    else some (record c { peer = none }, false, [])
connect alloc resolves (some p) timeout_ms c rs =
    if not c.host || not resolves
    then some (c, false, [])
    else await_connect alloc (timeout_ms * 1000) (record c { peer = some p; connected = false }) rs

-- The loop of `enet_client_disconnect`: the peer that is left when it ends.
unfoldable pub await_disconnect : Option ℕ → List Round → Option (Option ℕ)
await_disconnect peer [] = none
await_disconnect peer ((failed, t) ∷ rs) = some peer
await_disconnect peer ((got disconnect_event, t) ∷ rs) = some none
await_disconnect peer ((_, t) ∷ rs) =
    let rest = await_disconnect peer rs in if leb 200000 t then some peer else rest

unfoldable pub finish_disconnect :
    Client → List PeerCall → Option (Option ℕ) → Option (Client × List PeerCall)
finish_disconnect c before none = none
finish_disconnect c before (some peer) =
    let (c', calls) = drop_peer (record c { peer = peer }) in some (c', before ++ calls)

unfoldable pub disconnect_from : Client → List Round → Option ℕ → Option (Client × List PeerCall)
disconnect_from c rs none = finish_disconnect c [] (some none)
disconnect_from c rs (some p) =
    if c.connected
    then finish_disconnect c (peer_disconnect p ∷ []) (await_disconnect (some p) rs)
    else finish_disconnect c [] (some (some p))

-- `enet_client_disconnect`; `none` means that the rounds ended while the loop still waited.
unfoldable pub disconnect : Client → List Round → Option (Client × List PeerCall)
disconnect c rs = disconnect_from c rs c.peer
