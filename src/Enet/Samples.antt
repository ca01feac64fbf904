-- ===== src/Enet/Samples.antt =====
-- Clients and answers of ENet that the tests share.
use moonlight_tv.Base.{ℕ, List, [], ◌∷◌, none, some, Bool, true, false, ◌≡◌, refl}
use moonlight_tv.Enet.Ring.{fresh}
use moonlight_tv.Enet.Ring.Queue.{contents, fresh-IsValid}
use moonlight_tv.Enet.Client.{Client, no_event, idle, got, Round}
use moonlight_tv.Enet.Client.Queues.{IsSound}
use moonlight_tv.Enet.Client.Link.{IsClosed}

abbrev pub always : ℕ → Bool
always n = true

abbrev pub idle_client : Client
idle_client = record {
  host = true;
  peer = none;
  connected = false;
  send_sequence = 0;
  outbox = fresh;
  inbox = fresh;
}

abbrev pub linked : Client
linked = record {
  host = true;
  peer = some 4;
  connected = true;
  send_sequence = 0;
  outbox = fresh;
  inbox = fresh;
}

pub idle-IsSound : IsSound idle_client
idle-IsSound = record { out_valid = fresh-IsValid; in_valid = fresh-IsValid }

pub linked-IsSound : IsSound linked
linked-IsSound = record { out_valid = fresh-IsValid; in_valid = fresh-IsValid }

pub fresh_empty : contents fresh ≡ []
unfolding fresh
fresh_empty = refl

pub idle-IsClosed : IsClosed idle_client
idle-IsClosed = record {
  no_peer = refl;
  not_connected = refl;
  out_empty = fresh_empty;
  in_empty = fresh_empty;
}

abbrev pub quiet : List Round
quiet = (idle, 100000) ∷ (got no_event, 300000) ∷ (idle, 500000) ∷ []
