-- ===== src/Enet/Ring.antt =====
-- The two message rings of src/app/hid_passthrough/enet_transport.c (`inbox`, `outbox`): arrays of
-- 256 slots with a head and a count, which drop the oldest message when they are full.
pub mod Queue
use moonlight_tv.Base.{
  ℕ, zero, suc, ◌+◌, ◌-◌, ◌%◌, List, [], ◌∷◌, Option, none, some, Bool, true, false, leb, ltb, ◌==◌,
  if◌then◌else◌, get_or, set, replicate,
}
use moonlight_tv.Ctmb.{Header}

-- `CTM_ENET_INBOX_CAP` and `CTM_ENET_OUTBOX_CAP`
abbrev pub ring_cap : ℕ
ring_cap = 256

-- `ctm_enet_msg_t`; a payload of `none` is NULL.
pub record Msg : Type 0 where
  pub header : Header
  pub payload : Option (List ℕ)

abbrev pub zero_header : Header
zero_header = record {
  h_magic = 0;
  h_version = 0;
  h_type = 0;
  h_flags = 0;
  h_sequence = 0;
  h_timestamp_us = 0;
  h_request_id = 0;
  h_payload_len = 0;
}

-- What `calloc` leaves in a slot.
abbrev pub empty_msg : Msg
empty_msg = record { header = zero_header; payload = none }

pub record Ring : Type 0 where
  pub slots : List Msg
  pub head : ℕ
  pub count : ℕ

unfoldable pub fresh : Ring
fresh = record { slots = replicate ring_cap empty_msg; head = 0; count = 0 }

-- `ring[idx].payload = NULL`
unfoldable pub drop_payload : List Msg → ℕ → List Msg
drop_payload slots i = set slots i (record (get_or slots i empty_msg) { payload = none })

-- The slot at the head leaves the ring.
unfoldable pub advance : Ring → Ring
unfolding drop_payload
advance r = record {
  slots = drop_payload r.slots r.head;
  head = (r.head + 1) % ring_cap;
  count = r.count - 1;
}

-- The oldest message is discarded if the ring is full.
unfoldable pub make_room : Ring → Ring
unfolding advance
make_room r = if leb ring_cap r.count then advance r else r

-- A message is written behind the last one.
unfoldable pub write_tail : Ring → Msg → Ring
write_tail r m = record {
  slots = set r.slots ((r.head + r.count) % ring_cap) m;
  head = r.head;
  count = r.count + 1;
}

-- The body that `enet_client_ingest` and `enet_client_send_msg` run under the lock.
unfoldable pub put : Ring → Msg → Ring
put r m = write_tail (make_room r) m

-- The body that `enet_client_recv_msg` and `enet_client_flush_outbox` run under the lock.
unfoldable pub pop : Ring → Option (Msg × Ring)
unfolding advance
pop r = if r.count == 0 then none else some (get_or r.slots r.head empty_msg, advance r)

-- `free_msg_ring`: the payloads in use are freed, from the head on.
unfoldable pub free_msg_ring : List Msg → ℕ → ℕ → List Msg
unfolding drop_payload
free_msg_ring slots head zero = slots
free_msg_ring slots head (suc n) = free_msg_ring (drop_payload slots (head % ring_cap)) (head + 1) n

-- One ring's half of `enet_client_reset_queues`.
unfoldable pub reset : Ring → Ring
unfolding free_msg_ring
reset r = record { slots = free_msg_ring r.slots r.head r.count; head = 0; count = 0 }
