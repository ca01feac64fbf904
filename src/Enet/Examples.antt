-- ===== src/Enet/Examples.antt =====
-- The theorems about the ENet transport at concrete clients and messages.
use moonlight_tv.Base.{
  [], ◌∷◌, none, some, true, false, if◌then◌else◌, ◌≡◌, ◌≢◌, refl, arith, inl, inr,
}
use moonlight_tv.Ctmb.{Header, frame, magic, version}
use moonlight_tv.Enet.Ring
use moonlight_tv.Enet.Ring.{Msg, Ring, fresh}
use moonlight_tv.Enet.Ring.Queue.{
  contents, enqueue, dequeue, fresh-IsValid, put-IsValid, pop-contents,
}
use moonlight_tv.Enet.Client.{flush_outbox, send_msg, ingest, connect}
use moonlight_tv.Enet.Client.Queues.{dispatch_all, stamped, flush_outbox-sent, send_msg-queued}
use moonlight_tv.Enet.Client.Delivery.{send_msg-delivered}
use moonlight_tv.Enet.Samples.{
  always, idle_client, linked, quiet, idle-IsSound, idle-IsClosed, fresh_empty,
}
use moonlight_tv.Enet.Client.Link.{Settles, connect-Settles, connect_ends}

abbrev hello : Header
hello = record {
  h_magic = magic;
  h_version = version;
  h_type = 1;
  h_flags = 1;
  h_sequence = 7;
  h_timestamp_us = 1000000;
  h_request_id = 300;
  h_payload_len = 2;
}

abbrev hello_msg : Msg
hello_msg = record { header = hello; payload = some (5 ∷ 6 ∷ []) }

abbrev one_waiting : Ring
one_waiting = Ring.put fresh hello_msg

pop-contents_example :
    elim (Ring.pop one_waiting) [ none ↦ none | some (m, s) ↦ some (m, contents s) ]
    ≡ dequeue (contents one_waiting)
pop-contents_example = pop-contents {r = one_waiting} (put-IsValid hello_msg fresh-IsValid)

flush_outbox-sent_example :
    let (c', ps) = flush_outbox always linked in
    (ps ≡ dispatch_all always (some 4) (contents fresh))
    × (contents c'.outbox ≡ [])
    × (c' ≡ record linked { outbox = c'.outbox })
flush_outbox-sent_example = flush_outbox-sent always linked fresh-IsValid

send_msg-queued_example :
    let (c', sent) = send_msg always 9 linked 1 1 300 (5 ∷ 6 ∷ []) in
    (sent ≡ true)
    × (contents c'.outbox ≡ (
        if sent
        then enqueue (contents fresh) (stamped linked 9 1 1 300 (5 ∷ 6 ∷ []))
        else contents fresh))
    × (c'.send_sequence ≡ (if sent then 1 else 0))
    × (sent ≡ false → c' ≡ linked)
send_msg-queued_example = send_msg-queued always 9 linked 1 1 300 (5 ∷ 6 ∷ []) fresh-IsValid

send_msg-delivered_example :
    let m = stamped linked 9 1 1 300 (5 ∷ 6 ∷ []) in
    ((flush_outbox always (send_msg always 9 linked 1 1 300 (5 ∷ 6 ∷ [])).0).1
      ≡ record { dest = 4; reliable = true; head = m.header; body = some (5 ∷ 6 ∷ []) } ∷ [])
    × (contents (ingest always linked (frame m.header (5 ∷ 6 ∷ []))).inbox
        ≡ enqueue (contents fresh) m)
send_msg-delivered_example =
    send_msg-delivered always always 9 4 linked linked 1 1 300 (5 ∷ 6 ∷ []) fresh-IsValid
      fresh-IsValid fresh_empty refl refl (omega arith) refl refl (omega arith) (omega arith)
      (omega arith) (omega arith)

connect-Settles_example : Settles (connect always true (some 4) 400 idle_client quiet)
connect-Settles_example =
    connect-Settles always true (some 4) 400 idle_client quiet idle-IsSound idle-IsClosed

connect_ends_example : connect always true (some 4) 400 idle_client quiet ≢ none
connect_ends_example =
    connect_ends always true (some 4) 400 idle_client quiet (inr (inr (inl (omega arith))))
