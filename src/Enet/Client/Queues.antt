-- ===== src/Enet/Client/Queues.antt =====
-- What the queues of a client promise: messages leave in the order in which they came, the oldest
-- is dropped when 256 wait, and what one side sends is what the other side receives.
use moonlight_tv.Base.{
  ℕ, zero, suc, ◌+◌, ◌%◌, ◌^◌, ◌≤◌, List, [], ◌∷◌, ◌++◌, Option, none, some, Bool, true, false, leb,
  ◌==◌, if◌then◌else◌, length, take, ◌≡◌, refl, ap, arith, Bool-cases, Option-cases, inl, inr, ◌&&◌,
  ◌||◌,
}
use moonlight_tv.Ctmb.{Header, magic, version, max_payload, frame, rejects}
use moonlight_tv.Ctmb.RoundTrip.{Fits, unframe-frame, length-frame}
use moonlight_tv.Enet.Ring
use moonlight_tv.Enet.Ring.{Msg, Ring}
use moonlight_tv.Enet.Ring.Queue.{
  Queue, IsValid, contents, enqueue, dequeue, put-IsValid, contents-put, pop-contents,
  contents-advance, advance-IsValid, pop-empty, pop-some, count-advance,
}
use moonlight_tv.Enet.Client.{
  Client, Packet, Event, connect_event, receive_event, disconnect_event, no_event, Poll, polled,
  parse, accept, ingest, dispatch, flush, flush_outbox, handle_event, handle_events, service,
  send_msg, recv_msg,
}

take-length : (xs : List ℕ) → take (length xs) xs ≡ xs
take-length [] = refl
take-length (x ∷ xs) = ap (λ t. x ∷ t) (take-length xs)

pub record IsSound (c : Client) : Type 0 where
  pub out_valid : IsValid c.outbox
  pub in_valid : IsValid c.inbox

-- The packets of a whole queue, oldest first.
abbrev pub dispatch_all : (ℕ → Bool) → Option ℕ → Queue → List Packet
dispatch_all creates peer [] = []
dispatch_all creates peer (m ∷ q) = dispatch creates peer m ++ dispatch_all creates peer q

-- What a flush leaves behind, beside the packets that it sent.
record Flushed (creates : ℕ → Bool) (c : Client) (out : Client × List Packet) : Type 0 where
  sent : out.1 ≡ dispatch_all creates c.peer (contents c.outbox)
  drained : out.0.outbox.count ≡ 0
  valid : IsValid out.0.outbox
  rest_kept : out.0 ≡ record c { outbox = out.0.outbox }

contents_of_empty : (r : Ring) → r.count ≡ 0 → contents r ≡ []
contents_of_empty r e = rw e

flush-Flushed :
    (creates : ℕ → Bool) (n : ℕ) (c : Client)
    → IsValid c.outbox
    → c.outbox.count ≤ n
    → Flushed creates c (flush creates n c)
unfolding flush
flush-Flushed creates zero c v h = record {
  sent = rw (contents_of_empty c.outbox (omega arith));
  drained = omega arith;
  valid = v;
  rest_kept = refl;
}
flush-Flushed creates (suc n) c v h = elim (Bool-cases (c.outbox.count == 0)) [
  | inl e ↦
      rw (pop-empty c.outbox (ground arith), flush)
        (record {
          sent = rw (contents_of_empty c.outbox (ground arith));
          drained = ground arith;
          valid = v;
          rest_kept = refl;
        })
  | inr e ↦
      let f =
        flush-Flushed creates n (record c { outbox = Ring.advance c.outbox }) (advance-IsValid v)
          (ground (arith, count-advance c.outbox)) in
      rw (pop-some c.outbox (ground arith), flush)
        (record {
          sent = rw (f.sent, contents-advance v (ground arith));
          drained = f.drained;
          valid = f.valid;
          rest_kept = f.rest_kept;
        })
]

-- A flush of a valid outbox dispatches the queued messages to the peer oldest first, each exactly
-- once, leaves the outbox empty, and changes nothing but the outbox.
pub flush_outbox-sent :
    (creates : ℕ → Bool) (c : Client)
    → IsValid c.outbox
    → let (c', ps) = flush_outbox creates c in
      (ps ≡ dispatch_all creates c.peer (contents c.outbox))
      × (contents c'.outbox ≡ [])
      × (c' ≡ record c { outbox = c'.outbox })
unfolding flush_outbox
flush_outbox-sent creates c v =
    let f = flush-Flushed creates c.outbox.count c v (omega arith) in
    (f.sent, contents_of_empty (flush creates c.outbox.count c).0.outbox f.drained, f.rest_kept)

pub flush_outbox-IsSound :
    (creates : ℕ → Bool) {c : Client} → IsSound c → IsSound (flush_outbox creates c).0
unfolding flush_outbox
flush_outbox-IsSound creates {c} s =
    let f = flush-Flushed creates c.outbox.count c s.out_valid (omega arith) in
    record { out_valid = f.valid; in_valid = rw f.rest_kept s.in_valid }

-- What is sent under a header that the format allows is what the other side takes out of the
-- packet: the same header and the same payload, if its `malloc` succeeds.
pub parse-frame :
    (alloc : ℕ → Bool) (h : Header) (payload : List ℕ)
    → Fits h
    → h.h_magic ≡ magic
    → h.h_version ≡ version
    → h.h_payload_len ≡ length payload
    → length payload ≤ max_payload
    → alloc (length payload) ≡ true
    → parse alloc (frame h payload)
      ≡ some (record { header = h; payload = if length payload == 0 then none else some payload })
unfolding parse accept rejects
parse-frame alloc h payload v m w l small a =
    rw (unframe-frame h payload v, length-frame h payload) (ground (arith, take-length payload))

abbrev pub stamped : Client → ℕ → ℕ → ℕ → ℕ → List ℕ → Msg
stamped c now type flags request_id payload = record {
  header = record {
    h_magic = magic;
    h_version = version;
    h_type = type;
    h_flags = flags;
    h_sequence = (c.send_sequence + 1) % 2 ^ 32;
    h_timestamp_us = now;
    h_request_id = request_id;
    h_payload_len = length payload;
  };
  payload = if length payload == 0 then none else some payload;
}

abbrev pub sendable : (ℕ → Bool) → Client → List ℕ → Bool
sendable alloc c payload =
    c.connected
    && (leb (length payload) max_payload && (length payload == 0 || alloc (length payload)))

-- With a valid outbox, a send succeeds exactly when the client is connected, the payload is
-- within the limit and can be copied. Then the message is queued under the next sequence number,
-- by the drop-oldest rule; otherwise the client is unchanged.
pub send_msg-queued :
    (alloc : ℕ → Bool) (now : ℕ) (c : Client) (type flags request_id : ℕ) (payload : List ℕ)
    → IsValid c.outbox
    → let (c', sent) = send_msg alloc now c type flags request_id payload in
      (sent ≡ sendable alloc c payload)
      × (contents c'.outbox ≡ (
          if sent
          then enqueue (contents c.outbox) (stamped c now type flags request_id payload)
          else contents c.outbox))
      × (c'.send_sequence ≡ (if sent then (c.send_sequence + 1) % 2 ^ 32 else c.send_sequence))
      × (sent ≡ false → c' ≡ c)
unfolding send_msg
send_msg-queued alloc now c type flags request_id payload v =
    ground (arith, contents-put (stamped c now type flags request_id payload) v)

pub send_msg-IsSound :
    (alloc : ℕ → Bool) (now : ℕ) {c : Client} (type flags request_id : ℕ) (payload : List ℕ)
    → IsSound c
    → IsSound (send_msg alloc now c type flags request_id payload).0
unfolding send_msg
send_msg-IsSound alloc now {c} type flags request_id payload s =
    ground (arith, put-IsValid (stamped c now type flags request_id payload) s.out_valid)

-- With a valid inbox, a message that arrives intact is queued behind those that wait, by the
-- drop-oldest rule, and any other packet leaves the inbox as it is.
pub ingest-queued :
    (alloc : ℕ → Bool) (c : Client) (bs : List ℕ)
    → IsValid c.inbox
    → contents (ingest alloc c bs).inbox
      ≡ elim (parse alloc bs) [ none ↦ contents c.inbox | some m ↦ enqueue (contents c.inbox) m ]
unfolding ingest
ingest-queued alloc c bs v = elim (Option-cases (parse alloc bs)) [
  | inl e ↦ rw (e, ingest)
  | inr (m, e) ↦ rw (e, ingest) (contents-put m v)
]

pub ingest-IsSound :
    (alloc : ℕ → Bool) (c : Client) (bs : List ℕ) → IsSound c → IsSound (ingest alloc c bs)
unfolding ingest
ingest-IsSound alloc c bs s = elim (Option-cases (parse alloc bs)) [
  | inl e ↦ rw (e, ingest) s
  | inr (m, e) ↦
      rw (e, ingest) (record { out_valid = s.out_valid; in_valid = put-IsValid m s.in_valid })
]

-- With a valid inbox, receiving takes its oldest message, and none exactly when the inbox is
-- empty.
pub recv_msg-dequeue :
    (c : Client)
    → IsValid c.inbox
    → elim (recv_msg c) [ none ↦ none | some (m, c') ↦ some (m, contents c'.inbox) ]
      ≡ dequeue (contents c.inbox)
unfolding recv_msg
recv_msg-dequeue c v = elim (Option-cases (Ring.pop c.inbox)) [
  | inl e ↦ rw (e, recv_msg) (rw e at (pop-contents v))
  | inr (mr, e) ↦ rw (e, recv_msg) (rw e at (pop-contents v))
]

pub handle_event-IsSound :
    (alloc : ℕ → Bool) (c : Client) (e : Event) → IsSound c → IsSound (handle_event alloc c e).0
unfolding handle_event
handle_event-IsSound alloc c (connect_event p) s = record {
  out_valid = s.out_valid;
  in_valid = s.in_valid;
}
handle_event-IsSound alloc c (receive_event bs) s = ingest-IsSound alloc c bs s
handle_event-IsSound alloc c disconnect_event s = record {
  out_valid = s.out_valid;
  in_valid = s.in_valid;
}
handle_event-IsSound alloc c no_event s = s

handle_events-IsSound :
    (alloc : ℕ → Bool) (c : Client) (dropped : Bool) (es : List Event)
    → IsSound c
    → IsSound (handle_events alloc c dropped es).0
unfolding handle_events
handle_events-IsSound alloc c dropped [] s = s
handle_events-IsSound alloc c dropped (e ∷ es) s =
    handle_events-IsSound alloc (handle_event alloc c e).0 (dropped || (handle_event alloc c e).1)
      es (handle_event-IsSound alloc c e s)

-- A pump of the connection keeps both rings valid, whatever events come.
pub service-IsSound :
    (alloc creates : ℕ → Bool) (c : Client) (poll : Poll) (es : List Event)
    → IsSound c
    → IsSound (service alloc creates c poll es).0
unfolding service
service-IsSound alloc creates c poll es s =
    let first = flush_outbox-IsSound creates s in
    let handled =
      handle_events-IsSound alloc (flush_outbox creates c).0 false (polled poll es) first in
    ground (arith, first, flush_outbox-IsSound creates handled)
