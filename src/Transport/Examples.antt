-- ===== src/Transport/Examples.antt =====
-- The theorems about the transport at concrete sockets.
use moonlight_tv.Base.{ℕ, List, [], ◌∷◌, ◌++◌, none, some, true, false, ◌≡◌, refl, arith}
use moonlight_tv.Enet.Samples.{always, idle_client, linked, idle-IsSound, idle-IsClosed}
use moonlight_tv.Transport.{
  Reply, moves, interrupted, Transport, idle_link, tcp_link, enet_link, got, send_msg, recv_msg,
}
use moonlight_tv.Transport.Messages.{next_header, recv_msg-send_msg}
use moonlight_tv.Transport.Link.{IsIdle}

abbrev over_tcp : Transport
over_tcp = record { kind = tcp_link; fd = true; enet = none; send_sequence = 6 }

abbrev ten : ℕ → List Reply → List Reply
ten n rs =
    moves n
    ∷ moves n
    ∷ moves n
    ∷ moves n
    ∷ moves n
    ∷ moves n
    ∷ moves n
    ∷ moves n
    ∷ moves n
    ∷ moves n
    ∷ rs

abbrev slow_socket : List Reply
slow_socket = ten 1 (interrupted ∷ ten 9 (ten 2 (ten 4 [])))

recv_msg-send_msg_example :
    (a' : Transport) × (wire : List ℕ) × (rs' : List Reply) × (qs' : List Reply) × (send_msg always
        5 over_tcp slow_socket 3 1 0
        (7 ∷ 8 ∷ [])
      ≡ some (a', true, wire, rs'))
    × (recv_msg always over_tcp slow_socket (wire ++ 9 ∷ [])
        ≡ some
            (over_tcp, got (next_header over_tcp 5 3 1 0 (7 ∷ 8 ∷ [])) (7 ∷ 8 ∷ []), 9 ∷ [], qs'))
recv_msg-send_msg_example =
    recv_msg-send_msg always 5 over_tcp over_tcp slow_socket slow_socket 3 1 0 (7 ∷ 8 ∷ []) (9 ∷ [])
      (refl, refl) (refl, refl) (omega arith) refl (omega arith) (omega arith) (omega arith)
      (omega arith) tt tt (omega arith) (omega arith)

abbrev idle_transport : Transport
idle_transport = record { kind = idle_link; fd = false; enet = some idle_client; send_sequence = 0 }

idle_transport-IsIdle : IsIdle idle_transport
idle_transport-IsIdle = record {
  kind_idle = refl;
  fd_closed = refl;
  enet_idle = (idle-IsSound, idle-IsClosed);
}

abbrev over_enet : Transport
over_enet = record { kind = enet_link; fd = false; enet = some linked; send_sequence = 0 }
