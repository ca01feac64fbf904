-- ===== src/Enet/Client/Delivery.antt =====
-- One message from a client of src/app/hid_passthrough/enet_transport.c to another: the send, the
-- flush, the bytes of the packet and the receiving side together.
use moonlight_tv.Base.{
  ℕ, ◌+◌, ◌%◌, ◌^◌, ◌≤◌, ◌<◌, List, [], ◌∷◌, none, some, Bool, true, not, ◌==◌, if◌then◌else◌,
  length, ◌≡◌, refl, ap, ap₂, ◌∙◌, arith,
}
use moonlight_tv.Ctmb.{max_payload, header_size, msg_input_report, frame}
use moonlight_tv.Enet.Ring
use moonlight_tv.Enet.Ring.{Msg, Ring}
use moonlight_tv.Enet.Ring.Queue.{Queue, IsValid, contents, enqueue, put-IsValid, contents-put}
use moonlight_tv.Enet.Client.Queues.{
  dispatch_all, stamped, sendable, parse-frame, flush_outbox-sent, ingest-queued,
}
use moonlight_tv.Enet.Client.{Client, ingest, dispatch, flush_outbox, send_msg}

body_of_payload :
    (payload : List ℕ)
    → (if length payload == 0
        then some []
        else (if length payload == 0 then none else some payload))
      ≡ some payload
body_of_payload [] = refl
body_of_payload (x ∷ xs) = ground arith

abbrev queued_in : Client → Msg → Client
queued_in c m = record c {
  send_sequence = (c.send_sequence + 1) % 2 ^ 32;
  outbox = Ring.put c.outbox m;
}

send_msg_of_sendable :
    (alloc : ℕ → Bool) (now : ℕ) (c : Client) (type flags request_id : ℕ) (payload : List ℕ)
    → sendable alloc c payload ≡ true
    → send_msg alloc now c type flags request_id payload
      ≡ (queued_in c (stamped c now type flags request_id payload), true)
unfolding send_msg
send_msg_of_sendable alloc now c type flags request_id payload h = ground arith

dispatch-stamped :
    (creates : ℕ → Bool) (now p : ℕ) (c : Client) (type flags request_id : ℕ) (payload : List ℕ)
    → creates (header_size + length payload) ≡ true
    → dispatch_all creates (some p) (stamped c now type flags request_id payload ∷ [])
      ≡ record {
        dest = p;
        reliable = not (type == msg_input_report);
        head = (stamped c now type flags request_id payload).header;
        body = some payload;
      }
        ∷ []
unfolding dispatch
dispatch-stamped creates now p c type flags request_id payload h = rw h (
    ap
      (λ b.
        record {
          dest = p;
          reliable = not (type == msg_input_report);
          head = (stamped c now type flags request_id payload).header;
          body = b;
        }
        ∷ [])
      (body_of_payload payload))

enqueue-nil : (q : Queue) (m : Msg) → q ≡ [] → enqueue q m ≡ m ∷ []
unfolding enqueue
enqueue-nil q m e = rw e

-- A message sent by a connected client with a peer, a valid and empty outbox and enough memory,
-- with a payload within the limit and fields within their widths, leaves at the next flush as one
-- packet, and its bytes, given to another client with a valid inbox, put the same header and
-- payload behind what waits there.
pub send_msg-delivered :
    (alloc creates : ℕ → Bool) (now p : ℕ) (a b : Client) (type flags request_id : ℕ)
    (payload : List ℕ)
    → IsValid a.outbox
    → IsValid b.inbox
    → contents a.outbox ≡ []
    → a.peer ≡ some p
    → a.connected ≡ true
    → length payload ≤ max_payload
    → alloc (length payload) ≡ true
    → creates (header_size + length payload) ≡ true
    → now < 2 ^ 64
    → type < 2 ^ 16
    → flags < 2 ^ 32
    → request_id < 2 ^ 32
    → let m = stamped a now type flags request_id payload in
      ((flush_outbox creates (send_msg alloc now a type flags request_id payload).0).1
        ≡ record {
          dest = p;
          reliable = not (type == msg_input_report);
          head = m.header;
          body = some payload;
        }
          ∷ [])
      × (contents (ingest alloc b (frame m.header payload)).inbox ≡ enqueue (contents b.inbox) m)
send_msg-delivered alloc creates now p a b type flags request_id payload va vb e hp hc small ha hcr
      t0 t1 t2 t3 =
    let m = stamped a now type flags request_id payload in
    let sends : sendable alloc a payload ≡ true = ground arith in
    (
      rw (send_msg_of_sendable alloc now a type flags request_id payload sends) (
          (flush_outbox-sent creates (queued_in a m) (put-IsValid m va)).0
          ∙ ap₂ (dispatch_all creates) hp (contents-put m va ∙ enqueue-nil (contents a.outbox) m e)
          ∙ dispatch-stamped creates now p a type flags request_id payload hcr),
      ingest-queued alloc b (frame m.header payload) vb
          ∙ rw (parse-frame alloc m.header payload (omega arith) refl refl refl small ha),
    )
