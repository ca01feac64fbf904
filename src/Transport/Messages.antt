-- ===== src/Transport/Messages.antt =====
-- Messages over TCP, from one end to the other: src/app/hid_passthrough/ctm_transport.c.
use mathlib.Core.List.{append-nil, append_assoc}
use moonlight_tv.Base.{
  ℕ, suc, ◌+◌, ◌%◌, ◌^◌, ◌≤◌, ◌<◌, List, [], ◌∷◌, ◌++◌, Option, none, some, Bool, true, false, not,
  ltb, ◌==◌, if◌then◌else◌, ◌≡◌, refl, sym, subst, ap, ◌∙◌, arith, ne→==-false, length,
}
use moonlight_tv.Ctmb.{Header, max_payload, header_size, frame, rejects}
use moonlight_tv.Ctmb.RoundTrip.{Fits, length-frame}
use moonlight_tv.Transport.{
  Reply, Sent, also, send_all, Transport, tcp_link, tcp_header, send_framed, Received, got,
  recv_framed, send_msg, recv_msg,
}
use moonlight_tv.Transport.Stream.{
  IsLive, calls, AllSent, Wrote, send_all-Wrote, send_all-AllSent, frame-append, length-header,
  recv_framed-frame,
}

also-Wrote_behind :
    (before bs : List ℕ) (o : Option Sent) → Wrote bs o → Wrote (before ++ bs) (also before o)
unfolding also
also-Wrote_behind before bs none w = tt
also-Wrote_behind before bs (some s) w =
    (w.0, ap (λ t. before ++ t) w.1 ∙ sym (append_assoc before s.wire w.0), w.2)

-- What follows the header, as `send_framed` does it.
abbrev after_header : List ℕ → Option Sent → Option Sent
after_header payload none = none
after_header payload (some s) =
    let more = also s.wire (send_all s.replies payload) in
    if not s.ok then some s else if length payload == 0 then some s else more

after_ok-Wrote :
    (hs payload : List ℕ) (s : Sent) (b : Bool)
    → s.ok ≡ b
    → Wrote hs (some s)
    → Wrote (hs ++ payload) (
        if not b
        then some s
        else if length payload == 0
        then some s
        else also s.wire (send_all s.replies payload))
after_ok-Wrote hs payload s false e w =
    (w.0 ++ payload, ap (λ t. t ++ payload) w.1 ∙ append_assoc s.wire w.0 payload, λ y. cc)
after_ok-Wrote hs [] s true e w =
    (w.0 ++ [], ap (λ t. t ++ []) w.1 ∙ append_assoc s.wire w.0 [], λ y. ap (λ t. t ++ []) (w.2 e))
after_ok-Wrote hs (p ∷ ps) s true e w =
    let whole : hs ≡ s.wire = w.1 ∙ ap (λ t. s.wire ++ t) (w.2 e) ∙ append-nil s.wire in
    rw (ne→==-false (suc (length ps)) 0 (λ z. omega arith)) (
      rw whole (
        also-Wrote_behind s.wire (p ∷ ps) (send_all s.replies (p ∷ ps))
          (send_all-Wrote s.replies (p ∷ ps))))

after_header-Wrote :
    (hs payload : List ℕ) (o : Option Sent)
    → Wrote hs o
    → Wrote (hs ++ payload) (after_header payload o)
after_header-Wrote hs payload none w = tt
after_header-Wrote hs payload (some s) w = after_ok-Wrote hs payload s s.ok refl w

send_framed-Wrote :
    (rs : List Reply) (h : Header) (payload : List ℕ)
    → Wrote (frame h payload) (send_framed rs h payload)
unfolding send_framed
send_framed-Wrote rs h payload =
    subst (λ bs. Wrote bs (send_framed rs h payload)) (sym (frame-append h payload))
      (after_header-Wrote (frame h []) payload (send_all rs (frame h []))
        (send_all-Wrote rs (frame h [])))

-- A transport with an open TCP socket.
abbrev pub IsTcp : Transport → Type 0
IsTcp t = (t.kind ≡ tcp_link) × (t.fd ≡ true)

-- The header that the next message over TCP gets.
abbrev pub next_header : Transport → ℕ → ℕ → ℕ → ℕ → List ℕ → Header
next_header t now type flags request_id payload =
    tcp_header now type flags ((t.send_sequence + 1) % 2 ^ 32) request_id (length payload)

-- What a send over TCP comes to, if it ends.
abbrev pub SentOver : Transport → List ℕ → Option (Transport × Bool × List ℕ × List Reply) → Type 0
SentOver t bs none = Unit {0}
SentOver t bs (some (t', ok, wire, rs)) =
    (t' ≡ record t { send_sequence = (t.send_sequence + 1) % 2 ^ 32 })
    × ((rest : List ℕ) × (bs ≡ wire ++ rest) × (ok ≡ true → rest ≡ []))

send_framed-live :
    (rs : List Reply) (h : Header) (payload : List ℕ)
    → IsLive rs
    → header_size + length payload ≤ calls rs
    → AllSent rs (frame h payload) (send_framed rs h payload)
unfolding send_framed also
send_framed-live rs h [] live k =
    let (rs', e, l) = send_all-AllSent rs (frame h []) live (omega (arith, length-header h)) in
    (rs', ap (after_header []) e, l)
send_framed-live rs h (p ∷ ps) live k =
    let (rs1, e1, l1) = send_all-AllSent rs (frame h []) live (omega (arith, length-header h)) in
    let (rs2, e2, l2) =
      send_all-AllSent rs1 (p ∷ ps) l1.live (omega (arith, l1.enough, length-header h)) in
    (
      rs2,
      ap (after_header (p ∷ ps)) e1
          ∙ rw (ne→==-false (suc (length ps)) 0 (λ z. omega arith)) (
              ap (also (frame h [])) e2
              ∙ ap (λ w. some (record { ok = true; wire = w; replies = rs2 }))
                  (sym (frame-append h (p ∷ ps)))),
      record {
        live = l2.live;
        enough = omega (arith, l1.enough, l2.enough, length-header h, length-frame h (p ∷ ps));
      },
    )

next_header-Fits :
    (t : Transport) (now type flags request_id : ℕ) (payload : List ℕ)
    → length payload ≤ max_payload
    → now < 2 ^ 64
    → type < 2 ^ 16
    → flags < 2 ^ 32
    → request_id < 2 ^ 32
    → Fits (next_header t now type flags request_id payload)
unfolding tcp_header
next_header-Fits t now type flags request_id payload l n y f r = omega arith

next_header-accepted :
    (t : Transport) (now type flags request_id : ℕ) (payload : List ℕ)
    → length payload ≤ max_payload
    → rejects (next_header t now type flags request_id payload) ≡ false
unfolding tcp_header rejects
next_header-accepted t now type flags request_id payload l = ground arith

abbrev after_send : Transport → Option Sent → Option (Transport × Bool × List ℕ × List Reply)
after_send t o = elim o [
  | none ↦ none
  | some s ↦
      some (record t { send_sequence = (t.send_sequence + 1) % 2 ^ 32 }, s.ok, s.wire, s.replies)
]

send_msg_tcp :
    (alloc : ℕ → Bool) (now : ℕ) (t : Transport) (rs : List Reply) (type flags request_id : ℕ)
    (payload : List ℕ)
    → IsTcp t
    → length payload ≤ max_payload
    → send_msg alloc now t rs type flags request_id payload
      ≡ after_send t (send_framed rs (next_header t now type flags request_id payload) payload)
unfolding send_msg
send_msg_tcp alloc now t rs type flags request_id payload (k, f) le = simp (k, f, within)
  where
    within : ltb max_payload (length payload) ≡ false
    within = ground arith

abbrev after_recv :
    Transport
    → Option (Received × List ℕ × List Reply)
    → Option (Transport × Received × List ℕ × List Reply)
after_recv t o = elim o [ none ↦ none | some (r, wire, rs) ↦ some (t, r, wire, rs) ]

recv_msg_tcp :
    (alloc : ℕ → Bool) (t : Transport) (rs : List Reply) (wire : List ℕ)
    → IsTcp t
    → recv_msg alloc t rs wire ≡ after_recv t (recv_framed alloc rs wire)
unfolding recv_msg
recv_msg_tcp alloc t rs wire (k, f) = simp (k, f, recv_msg)

-- Over TCP a send of a payload within the limit puts a prefix of the frame under the next
-- sequence number on the wire, the whole of it if it succeeds, however the socket answers.
pub send_msg-SentOver :
    (alloc : ℕ → Bool) (now : ℕ) (t : Transport) (rs : List Reply) (type flags request_id : ℕ)
    (payload : List ℕ)
    → IsTcp t
    → length payload ≤ max_payload
    → SentOver t
        (frame (next_header t now type flags request_id payload) payload)
        (send_msg alloc now t rs type flags request_id payload)
send_msg-SentOver alloc now t rs type flags request_id payload k le =
    let h = next_header t now type flags request_id payload in
    subst (SentOver t (frame h payload))
      (sym (send_msg_tcp alloc now t rs type flags request_id payload k le))
      (go h (send_framed rs h payload) (send_framed-Wrote rs h payload))
  where
    go :
        (h : Header) (o : Option Sent)
        → Wrote (frame h payload) o
        → SentOver t (frame h payload) (after_send t o)
    go h none w = tt
    go h (some s) w = (refl, w)

-- What one end sends over TCP the other receives, however both sockets cut and interrupt it: the
-- send succeeds and puts bytes on the wire, and when they arrive, with anything behind them, the
-- receiver gets the stamped header and the payload, and leaves what is behind. Both ends are on
-- TCP, both sockets answer often enough and do not fail, the payload is within the limit and can
-- be allocated, and the clock and the fields are within their widths.
pub recv_msg-send_msg :
    (alloc : ℕ → Bool) (now : ℕ) (a b : Transport) (rs qs : List Reply) (type flags request_id : ℕ)
    (payload rest : List ℕ)
    → IsTcp a
    → IsTcp b
    → length payload ≤ max_payload
    → alloc (length payload) ≡ true
    → now < 2 ^ 64
    → type < 2 ^ 16
    → flags < 2 ^ 32
    → request_id < 2 ^ 32
    → IsLive rs
    → IsLive qs
    → header_size + length payload ≤ calls rs
    → header_size + length payload ≤ calls qs
    → (a' : Transport) × (wire : List ℕ) × (rs' : List Reply) × (qs' : List Reply) × (send_msg alloc
          now a rs type flags request_id payload
        ≡ some (a', true, wire, rs'))
      × (recv_msg alloc b qs (wire ++ rest)
          ≡ some (b, got (next_header a now type flags request_id payload) payload, rest, qs'))
unfolding tcp_header
recv_msg-send_msg alloc now a b rs qs type flags request_id payload rest (ka, fa) (kb, fb) le al n y
      f r lr lq cr cq =
    let h = next_header a now type flags request_id payload in
    let (rs', e, l) = send_framed-live rs h payload lr cr in
    let (qs', q, l2) =
      recv_framed-frame alloc qs h payload rest
        (next_header-Fits a now type flags request_id payload le n y f r)
        (next_header-accepted a now type flags request_id payload le) refl al lq cq in
    (
      record a { send_sequence = (a.send_sequence + 1) % 2 ^ 32 },
      frame h payload,
      rs',
      qs',
      send_msg_tcp alloc now a rs type flags request_id payload (ka, fa) le ∙ ap (after_send a) e,
      recv_msg_tcp alloc b qs (frame h payload ++ rest) (kb, fb) ∙ ap (after_recv b) q,
    )
