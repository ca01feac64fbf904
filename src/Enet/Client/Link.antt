-- ===== src/Enet/Client/Link.antt =====
-- Making and ending a connection: what state the client is left in, and that the loops end.
use moonlight_tv.Base.{
  ℕ, ◌*◌, ◌≤◌, List, [], ◌∷◌, ◌++◌, Option, none, some, Bool, true, false, not, ◌||◌, leb,
  if◌then◌else◌, ◌≡◌, ◌≢◌, refl, ◌∙◌, arith, if_both, Bool-cases, inl, inr, ◌⊎◌,
}
use moonlight_tv.Enet.Ring.Queue.{contents, reset-IsValid}
use moonlight_tv.Enet.Client.{
  Client, connect_event, receive_event, disconnect_event, no_event, failed, idle, got, PeerCall,
  Round, drop_peer, handle_event, ingest, await_connect, connect, await_disconnect,
  finish_disconnect, disconnect_from, disconnect, peer_disconnect,
}
use moonlight_tv.Enet.Client.Queues.{IsSound, handle_event-IsSound}

-- A client without a connection: nothing waits to be sent or read, and no peer is kept.
pub record IsClosed (c : Client) : Type 0 where
  pub no_peer : c.peer ≡ none
  pub not_connected : c.connected ≡ false
  pub out_empty : contents c.outbox ≡ []
  pub in_empty : contents c.inbox ≡ []

pub drop_peer-IsClosed :
    {c : Client} → IsSound c → IsClosed (drop_peer c).0 × IsSound (drop_peer c).0
unfolding drop_peer
drop_peer-IsClosed {c} s =
    let (ov, oe) = reset-IsValid s.out_valid in
    let (iv, ie) = reset-IsValid s.in_valid in
    (
      record { no_peer = refl; not_connected = refl; out_empty = oe; in_empty = ie },
      record { out_valid = ov; in_valid = iv },
    )

-- What `enet_client_connect` returns: 0 with a peer, or -1 with nothing left of the attempt.
abbrev pub Settled : Client × Bool × List PeerCall → Type 0
Settled (c, connected, calls) =
    (connected ≡ true → (c.connected ≡ true) × (c.peer ≢ none)) × (connected ≡ false → IsClosed c)

abbrev pub Settles : Option (Client × Bool × List PeerCall) → Type 0
Settles none = Unit {0}
Settles (some out) = Settled out

closed-Settles :
    {c : Client} (calls : List PeerCall) → IsClosed c → Settles (some (c, false, calls))
closed-Settles calls k = (λ e. cc, λ e. k)

ingest-connected :
    (alloc : ℕ → Bool) (c : Client) (bs : List ℕ) → (ingest alloc c bs).connected ≡ c.connected
unfolding ingest
ingest-connected alloc c bs = ground arith

-- Where an attempt to connect ends, it has either made the connection or left nothing of it.
await_connect-Settles :
    (alloc : ℕ → Bool) (limit : ℕ) (c : Client) (rs : List Round)
    → IsSound c
    → c.connected ≡ false
    → Settles (await_connect alloc limit c rs)
unfolding await_connect handle_event
await_connect-Settles alloc limit c [] s n = tt
await_connect-Settles alloc limit c ((failed, t) ∷ rs) s n =
    closed-Settles (drop_peer c).1 (drop_peer-IsClosed s).0
await_connect-Settles alloc limit c ((idle, t) ∷ rs) s n =
    if_both Settles (leb limit t) (closed-Settles (drop_peer c).1 (drop_peer-IsClosed s).0)
      (await_connect-Settles alloc limit c rs s n)
await_connect-Settles alloc limit c ((got (connect_event p), t) ∷ rs) s n =
    (λ e. (refl, λ q. cc), λ e. cc)
await_connect-Settles alloc limit c ((got (receive_event bs), t) ∷ rs) s n =
    let s' = handle_event-IsSound alloc c (receive_event bs) s in
    simp (ingest-connected alloc c bs, n)
      (if_both Settles (leb limit t)
        (closed-Settles (drop_peer (ingest alloc c bs)).1 (drop_peer-IsClosed s').0)
        (await_connect-Settles alloc limit (ingest alloc c bs) rs s'
          (ingest-connected alloc c bs ∙ n)))
await_connect-Settles alloc limit c ((got disconnect_event, t) ∷ rs) s n =
    let s' = handle_event-IsSound alloc c disconnect_event s in
    if_both Settles (leb limit t)
      (closed-Settles (drop_peer (record c { connected = false; peer = none })).1
        (drop_peer-IsClosed s').0)
      (await_connect-Settles alloc limit (record c { connected = false; peer = none }) rs s' refl)
await_connect-Settles alloc limit c ((got no_event, t) ∷ rs) s n = simp n (
    if_both Settles (leb limit t) (closed-Settles (drop_peer c).1 (drop_peer-IsClosed s).0)
      (await_connect-Settles alloc limit c rs s n))

-- A connection attempt by a client that is not connected, with valid and empty queues, gives,
-- when it returns, 0 with a peer and the connected flag set, or -1 with no peer, the flag clear
-- and both queues empty.
pub connect-Settles :
    (alloc : ℕ → Bool) (resolves : Bool) (peer : Option ℕ) (timeout_ms : ℕ) (c : Client)
    (rs : List Round)
    → IsSound c
    → IsClosed c
    → Settles (connect alloc resolves peer timeout_ms c rs)
unfolding connect
connect-Settles alloc resolves none timeout_ms c rs s k =
    if_both Settles (not c.host || not resolves) (closed-Settles [] k) (
      closed-Settles [] (record {
        no_peer = refl;
        not_connected = k.not_connected;
        out_empty = k.out_empty;
        in_empty = k.in_empty;
      }))
connect-Settles alloc resolves (some p) timeout_ms c rs s k =
    if_both Settles (not c.host || not resolves) (closed-Settles [] k) (
      await_connect-Settles alloc (timeout_ms * 1000)
        (record c { peer = some p; connected = false }) rs
        (record { out_valid = s.out_valid; in_valid = s.in_valid }) refl)

-- Some round comes at or after the deadline.
abbrev pub Reaches : ℕ → List Round → Type 0
Reaches limit [] = ⊥
Reaches limit ((p, t) ∷ rs) = (limit ≤ t) ⊎ Reaches limit rs

late_some :
    (peer : Option ℕ) (t : ℕ) (rest : Option (Option ℕ)) {R : Type 0}
    → (R → (p : Option ℕ) × (rest ≡ some p))
    → (200000 ≤ t) ⊎ R
    → (p : Option ℕ) × ((if leb 200000 t then some peer else rest) ≡ some p)
late_some peer t rest k o = elim (Bool-cases (leb 200000 t)) [
  | inl e ↦ (peer, rw e)
  | inr e ↦ elim o [ inl h ↦ absurd (ground arith) | inr r ↦ ((k r).0, rw e (k r).1) ]
]

late_or_later :
    {A : Type 0} (limit t : ℕ) (x y : Option A) {R : Type 0}
    → x ≢ none
    → (R → y ≢ none)
    → (limit ≤ t) ⊎ R
    → (if leb limit t then x else y) ≢ none
late_or_later limit t x y hx hy o = elim (Bool-cases (leb limit t)) [
  | inl e ↦ rw e hx
  | inr e ↦ rw e (elim o [ inl h ↦ absurd (ground arith) | inr r ↦ hy r ])
]

await_connect_ends :
    (alloc : ℕ → Bool) (limit : ℕ) (c : Client) (rs : List Round)
    → Reaches limit rs
    → await_connect alloc limit c rs ≢ none
unfolding await_connect
await_connect_ends alloc limit c [] h = absurd h
await_connect_ends alloc limit c ((failed, t) ∷ rs) h = λ e. cc
await_connect_ends alloc limit c ((idle, t) ∷ rs) h =
    late_or_later limit t _ _ (λ e. cc) (await_connect_ends alloc limit c rs) h
await_connect_ends alloc limit c ((got (connect_event p), t) ∷ rs) h = λ e. cc
await_connect_ends alloc limit c ((got (receive_event bs), t) ∷ rs) h =
    if_both (λ o. o ≢ none) (handle_event alloc c (receive_event bs)).0.connected (λ e. cc)
      (late_or_later limit t _ _ (λ e. cc)
        (await_connect_ends alloc limit (handle_event alloc c (receive_event bs)).0 rs) h)
await_connect_ends alloc limit c ((got disconnect_event, t) ∷ rs) h =
    if_both (λ o. o ≢ none) (handle_event alloc c disconnect_event).0.connected (λ e. cc)
      (late_or_later limit t _ _ (λ e. cc)
        (await_connect_ends alloc limit (handle_event alloc c disconnect_event).0 rs) h)
await_connect_ends alloc limit c ((got no_event, t) ∷ rs) h =
    if_both (λ o. o ≢ none) (handle_event alloc c no_event).0.connected (λ e. cc)
      (late_or_later limit t _ _ (λ e. cc)
        (await_connect_ends alloc limit (handle_event alloc c no_event).0 rs) h)

-- The connection attempt returns if the clock passes its timeout, whatever events come.
pub connect_ends :
    (alloc : ℕ → Bool) (resolves : Bool) (peer : Option ℕ) (timeout_ms : ℕ) (c : Client)
    (rs : List Round)
    → Reaches (timeout_ms * 1000) rs
    → connect alloc resolves peer timeout_ms c rs ≢ none
unfolding connect
connect_ends alloc resolves none timeout_ms c rs h =
    if_both (λ o. o ≢ none) (not c.host || not resolves) (λ e. cc) (λ e. cc)
connect_ends alloc resolves (some p) timeout_ms c rs h =
    if_both (λ o. o ≢ none) (not c.host || not resolves) (λ e. cc)
      (await_connect_ends alloc (timeout_ms * 1000) (record c { peer = some p; connected = false })
        rs h)

await_disconnect_ends :
    (peer : Option ℕ) (rs : List Round)
    → Reaches 200000 rs
    → (p : Option ℕ) × (await_disconnect peer rs ≡ some p)
unfolding await_disconnect
await_disconnect_ends peer [] h = absurd h
await_disconnect_ends peer ((failed, t) ∷ rs) h = (peer, refl)
await_disconnect_ends peer ((idle, t) ∷ rs) h =
    late_some peer t (await_disconnect peer rs) (await_disconnect_ends peer rs) h
await_disconnect_ends peer ((got (connect_event p), t) ∷ rs) h =
    late_some peer t (await_disconnect peer rs) (await_disconnect_ends peer rs) h
await_disconnect_ends peer ((got (receive_event bs), t) ∷ rs) h =
    late_some peer t (await_disconnect peer rs) (await_disconnect_ends peer rs) h
await_disconnect_ends peer ((got disconnect_event, t) ∷ rs) h = (none, refl)
await_disconnect_ends peer ((got no_event, t) ∷ rs) h =
    late_some peer t (await_disconnect peer rs) (await_disconnect_ends peer rs) h

-- A call that returned with the connection closed.
abbrev pub Closes : Option (Client × List PeerCall) → Type 0
Closes out =
    (c : Client) × (calls : List PeerCall) × (out ≡ some (c, calls)) × IsClosed c × IsSound c

finish-Closes :
    (c : Client) (before : List PeerCall) (peer : Option ℕ)
    → IsSound c
    → Closes (finish_disconnect c before (some peer))
unfolding finish_disconnect
finish-Closes c before peer s =
    let c1 : Client = record c { peer = peer } in
    let (closed, sound) =
      drop_peer-IsClosed {c = c1} (record { out_valid = s.out_valid; in_valid = s.in_valid }) in
    ((drop_peer c1).0, before ++ (drop_peer c1).1, refl, closed, sound)

disconnect_from-Closes :
    (c : Client) (rs : List Round) (peer : Option ℕ)
    → IsSound c
    → Reaches 200000 rs
    → Closes (disconnect_from c rs peer)
unfolding disconnect_from
disconnect_from-Closes c rs none s h = finish-Closes c [] none s
disconnect_from-Closes c rs (some p) s h =
    let (left, e) = await_disconnect_ends (some p) rs h in
    if_both Closes c.connected (rw e (finish-Closes c (peer_disconnect p ∷ []) left s))
      (finish-Closes c [] (some p) s)

-- A disconnection of a client with valid queues returns once the clock has passed 200
-- milliseconds, and leaves no peer, no connection and no queued message, whatever the peer
-- answers.
pub disconnect-Closes :
    (c : Client) (rs : List Round) → IsSound c → Reaches 200000 rs → Closes (disconnect c rs)
unfolding disconnect
disconnect-Closes c rs s h = disconnect_from-Closes c rs c.peer s h
