-- ===== src/Transport/Link.antt =====
-- Connecting and disconnecting over ENet or TCP: src/app/hid_passthrough/ctm_transport.c.
use moonlight_tv.Base.{
  ℕ, ◌*◌, List, [], Option, none, some, Bool, true, false, ◌≡◌, ◌≢◌, refl, sym, subst, ap, inl, inr,
  Bool-cases, some_eq,
}
use moonlight_tv.Enet.Client
use moonlight_tv.Enet.Client.{Round, PeerCall}
use moonlight_tv.Enet.Client.Queues.{IsSound}
use moonlight_tv.Enet.Client.Link.{
  IsClosed, Settles, connect-Settles, Reaches, connect_ends, disconnect-Closes,
}
use moonlight_tv.Transport.{
  Kind, Transport, idle_link, tcp_link, enet_link, connect_tcp, fall_back, connect_once, connected,
  disconnect,
}

-- The ENet client, if there is one, has valid and empty queues and no connection.
abbrev pub EnetIdle : Option Client.Client → Type 0
EnetIdle none = Unit {0}
EnetIdle (some c) = IsSound c × IsClosed c

-- A transport before it is connected.
pub record IsIdle (t : Transport) : Type 0 where
  pub kind_idle : t.kind ≡ idle_link
  pub fd_closed : t.fd ≡ false
  pub enet_idle : EnetIdle t.enet

abbrev Tells : Transport × Bool × List PeerCall → Type 0
Tells (t, ok, calls) = connected t ≡ ok

fall_back-Tells :
    (t : Transport) (addresses : List (Bool × Bool)) (calls : List PeerCall)
    → t.kind ≡ idle_link
    → t.fd ≡ false
    → let (t', ok) = fall_back t addresses in Tells (t', ok, calls)
unfolding fall_back connected
fall_back-Tells t addresses calls k f = elim (Bool-cases (connect_tcp addresses)) [
  | inl e ↦ simp e
  | inr e ↦ simp (e, k, f, connected)
]

-- An attempt that ends, with a result that says whether the transport is connected.
abbrev pub Ends : Option (Transport × Bool × List PeerCall) → Type 0
Ends o = (r : Transport × Bool × List PeerCall) × (o ≡ some r) × Tells r

from_client :
    (t : Transport) (addresses : List (Bool × Bool))
    (o : Option (Client.Client × Bool × List PeerCall))
    → t.kind ≡ idle_link
    → t.fd ≡ false
    → o ≢ none
    → Settles o
    → Ends (elim o [
      | none ↦ none
      | some (c', true, calls) ↦
          some (record t { kind = enet_link; fd = false; enet = some c' }, true, calls)
      | some (c', false, calls) ↦
          let (t', ok) = fall_back (record t { enet = some c' }) addresses in some (t', ok, calls)
    ])
unfolding connected
from_client t addresses none k f n s = absurd (n refl)
from_client t addresses (some (c, true, calls)) k f n s =
    ((record t { kind = enet_link; fd = false; enet = some c }, true, calls), refl, (s.0 refl).0)
from_client t addresses (some (c, false, calls)) k f n s =
    let (t', ok) = fall_back (record t { enet = some c }) addresses in
    ((t', ok, calls), refl, fall_back-Tells (record t { enet = some c }) addresses calls k f)

-- An attempt to connect an idle transport ends if the clock passes the timeout of ENet, and its
-- result says whether the transport is connected then, over ENet or TCP.
pub connect_once-Ends :
    (alloc : ℕ → Bool) (resolves : Bool) (peer : Option ℕ) (timeout_ms : ℕ) (t : Transport)
    (rs : List Round) (addresses : List (Bool × Bool))
    → IsIdle t
    → Reaches (timeout_ms * 1000) rs
    → Ends (connect_once alloc resolves peer timeout_ms t rs addresses)
unfolding connect_once
connect_once-Ends alloc resolves peer timeout_ms t rs addresses i h = go t.enet i.enet_idle
  where
    go :
        (e : Option Client.Client)
        → EnetIdle e
        → Ends (connect_once alloc resolves peer timeout_ms (record t { enet = e }) rs addresses)
    go none n =
        let (t', ok) = fall_back (record t { enet = none }) addresses in
        (
          (t', ok, []),
          refl,
          fall_back-Tells (record t { enet = none }) addresses [] i.kind_idle i.fd_closed,
        )
    go (some c) (sound, closed) =
        from_client t addresses (Client.connect alloc resolves peer timeout_ms c rs) i.kind_idle
          i.fd_closed (connect_ends alloc resolves peer timeout_ms c rs h)
          (connect-Settles alloc resolves peer timeout_ms c rs sound closed)

-- What a disconnection needs: over ENet a client with valid queues, and otherwise an idle one.
abbrev pub CanClose : Kind → Option Client.Client → Type 0
CanClose enet_link e = (c : Client.Client) × (e ≡ some c) × IsSound c
CanClose _ e = EnetIdle e

abbrev pub Idles : Option (Transport × List PeerCall) → Type 0
Idles o = (t : Transport) × (calls : List PeerCall) × (o ≡ some (t, calls)) × IsIdle t

-- A disconnection of a transport whose ENet client, if it is in use, has valid queues, and
-- otherwise is idle, ends once the clock has passed 200 milliseconds, and leaves the transport
-- idle, with no open socket, an ENet client without connection or queued messages, and not
-- connected.
pub disconnect-Idles :
    (t : Transport) (rs : List Round)
    → CanClose t.kind t.enet
    → Reaches 200000 rs
    → Idles (disconnect t rs)
unfolding disconnect
disconnect-Idles t rs u h = go t.kind t.enet u
  where
    closing : Option (Client.Client × List PeerCall) → Option (Transport × List PeerCall)
    closing o = elim o [
      | none ↦ none
      | some (c', calls) ↦ some (record t { kind = idle_link; fd = false; enet = some c' }, calls)
    ]

    go :
        (k : Kind) (e : Option Client.Client)
        → CanClose k e
        → Idles (disconnect (record t { kind = k; enet = e }) rs)
    go idle_link e u = (
      record t { kind = idle_link; fd = false; enet = e },
      [],
      refl,
      record { kind_idle = refl; fd_closed = refl; enet_idle = u },
    )
    go tcp_link e u = (
      record t { kind = idle_link; fd = false; enet = e },
      [],
      refl,
      record { kind_idle = refl; fd_closed = refl; enet_idle = u },
    )
    go enet_link none u = absurd (cc (u.1))
    go enet_link (some c) (c0, same, sound) =
        let (c', calls, e, closed, sound') =
          disconnect-Closes c rs (subst IsSound (some_eq (sym same)) sound) h in
        (
          record t { kind = idle_link; fd = false; enet = some c' },
          calls,
          ap closing e,
          record { kind_idle = refl; fd_closed = refl; enet_idle = (sound', closed) },
        )
