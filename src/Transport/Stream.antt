-- ===== src/Transport/Stream.antt =====
-- TCP may cut a message anywhere: what is sent is the frame, and what is received is the message.
use mathlib.Core.List.{append-nil, append_assoc}
use moonlight_tv.Base.{
  ℕ, zero, suc, ◌+◌, ◌-◌, ◌≤◌, List, [], ◌∷◌, ◌++◌, Option, none, some, Bool, true, false, ◌≡◌,
  refl, sym, ap, ◌∙◌, arith, ne→==-false, min, length, take, drop, length-take, length-drop,
  take-append-drop, take-append_le, drop-append_le,
}
use moonlight_tv.Ctmb.{Header, header_size, unframe, frame, rejects}
use moonlight_tv.Ctmb.RoundTrip.{Fits, unframe-frame, length-frame}
use moonlight_tv.Transport.{
  Reply, moves, interrupted, fails, Sent, Taken, also, send_all, then_bytes, recv_all, Received,
  got, dropped, finish_payload, recv_payload, recv_framed,
}

-- No call fails, and each that is not interrupted moves a byte at least.
abbrev pub IsLive : List Reply → Type 0
IsLive [] = Unit {0}
IsLive (interrupted ∷ rs) = IsLive rs
IsLive (fails ∷ rs) = ⊥
IsLive (moves zero ∷ rs) = ⊥
IsLive (moves (suc n) ∷ rs) = IsLive rs

-- The number of calls that are not interrupted.
abbrev pub calls : List Reply → ℕ
calls [] = 0
calls (interrupted ∷ rs) = calls rs
calls (fails ∷ rs) = calls rs
calls (moves n ∷ rs) = calls rs + 1

-- The answers left after `n` bytes are moved: still live, and at most `n` calls are used up.
pub record Left (n : ℕ) (rs rs' : List Reply) : Type 0 where
  pub live : IsLive rs'
  pub enough : calls rs ≤ calls rs' + n

-- What `send_all` ended with, if it ended: all of the bytes, or a part of them and a failure.
abbrev pub Wrote : List ℕ → Option Sent → Type 0
Wrote bs none = Unit {0}
Wrote bs (some s) = (rest : List ℕ) × (bs ≡ s.wire ++ rest) × (s.ok ≡ true → rest ≡ [])

also-Wrote :
    (n : ℕ) (bs : List ℕ) (o : Option Sent) → Wrote (drop n bs) o → Wrote bs (also (take n bs) o)
unfolding also
also-Wrote n bs none w = tt
also-Wrote n bs (some s) w = (
  w.0,
  sym (take-append-drop n bs)
      ∙ ap (λ t. take n bs ++ t) w.1
      ∙ sym (append_assoc (take n bs) s.wire w.0),
  w.2,
)

pub send_all-Wrote : (rs : List Reply) (bs : List ℕ) → Wrote bs (send_all rs bs)
unfolding send_all
send_all-Wrote rs [] = ([], refl, λ e. refl)
send_all-Wrote [] (b ∷ bs) = tt
send_all-Wrote (interrupted ∷ rs) (b ∷ bs) = send_all-Wrote rs (b ∷ bs)
send_all-Wrote (fails ∷ rs) (b ∷ bs) = (b ∷ bs, refl, λ e. cc)
send_all-Wrote (moves zero ∷ rs) (b ∷ bs) = (b ∷ bs, refl, λ e. cc)
send_all-Wrote (moves (suc n) ∷ rs) (b ∷ bs) =
    also-Wrote (suc n) (b ∷ bs) (send_all rs (drop (suc n) (b ∷ bs)))
      (send_all-Wrote rs (drop (suc n) (b ∷ bs)))

-- The result of `send_all` when every byte went out.
abbrev pub AllSent : List Reply → List ℕ → Option Sent → Type 0
AllSent rs bs o =
    (rs' : List Reply) × (o ≡ some (record { ok = true; wire = bs; replies = rs' }))
    × Left (length bs) rs rs'

pub send_all-AllSent :
    (rs : List Reply) (bs : List ℕ)
    → IsLive rs
    → length bs ≤ calls rs
    → AllSent rs bs (send_all rs bs)
unfolding send_all also
send_all-AllSent rs [] h k = (rs, refl, record { live = h; enough = omega arith })
send_all-AllSent [] (b ∷ bs) h k = absurd (omega arith)
send_all-AllSent (interrupted ∷ rs) (b ∷ bs) h k =
    let (rs', e, l) = send_all-AllSent rs (b ∷ bs) h k in
    (rs', e, record { live = l.live; enough = l.enough })
send_all-AllSent (fails ∷ rs) (b ∷ bs) h k = absurd h
send_all-AllSent (moves zero ∷ rs) (b ∷ bs) h k = absurd h
send_all-AllSent (moves (suc n) ∷ rs) (b ∷ bs) h k =
    let (rs', e, l) = send_all-AllSent rs (drop n bs) h (omega (arith, length-drop n bs)) in
    (
      rs',
      rw e (
          ap (λ t. some (record { ok = true; wire = b ∷ t; replies = rs' }))
            (take-append-drop n bs)),
      record { live = l.live; enough = omega (arith, length-drop n bs, l.enough) },
    )

-- One call of `recv` that moves bytes, where all that is wanted is on the wire.
recv_step :
    (rs : List Reply) (n k : ℕ) (xs rest : List ℕ)
    → length xs ≡ suc k
    → let m = min (suc n) (suc k) in
      recv_all (moves (suc n) ∷ rs) (suc k) (xs ++ rest)
      ≡ then_bytes (take m xs) (recv_all rs (suc k - m) (drop m xs ++ rest))
unfolding recv_all
recv_step rs n k [] rest h = absurd (omega arith)
recv_step rs n k (x ∷ xs) rest h =
    let m : ℕ = min (suc n) (suc k) in
    let le : m ≤ length (x ∷ xs) = omega arith in
    let whole : List ℕ = x ∷ (xs ++ rest) in
    let part : List ℕ = take m (x ∷ xs) in
    ap (λ c. then_bytes c (recv_all rs (suc k - length c) (drop (length c) whole)))
      (take-append_le m (x ∷ xs) rest le)
    ∙ ap (λ l. then_bytes part (recv_all rs (suc k - l) (drop l whole)))
        (omega (arith, length-take m (x ∷ xs)))
    ∙ ap (λ w. then_bytes part (recv_all rs (suc k - m) w)) (drop-append_le m (x ∷ xs) rest le)

-- The result of `recv_all` when all that was wanted came.
abbrev AllTaken : List Reply → List ℕ → List ℕ → Option Taken → Type 0
AllTaken rs bs rest o =
    (rs' : List Reply) × (o ≡ some (record { bytes = some bs; wire = rest; replies = rs' }))
    × Left (length bs) rs rs'

recv_all-AllTaken :
    (rs : List Reply) (need : ℕ) (bs rest : List ℕ)
    → length bs ≡ need
    → IsLive rs
    → need ≤ calls rs
    → AllTaken rs bs rest (recv_all rs need (bs ++ rest))
unfolding recv_all then_bytes
recv_all-AllTaken rs zero [] rest e h k = (rs, refl, record { live = h; enough = omega arith })
recv_all-AllTaken rs zero (b ∷ bs) rest e h k = absurd (omega arith)
recv_all-AllTaken [] (suc need) bs rest e h k = absurd (omega arith)
recv_all-AllTaken (interrupted ∷ rs) (suc need) bs rest e h k =
    let (rs', q, l) = recv_all-AllTaken rs (suc need) bs rest e h k in
    (rs', q, record { live = l.live; enough = l.enough })
recv_all-AllTaken (fails ∷ rs) (suc need) bs rest e h k = absurd h
recv_all-AllTaken (moves zero ∷ rs) (suc need) bs rest e h k = absurd h
recv_all-AllTaken (moves (suc n) ∷ rs) (suc need) bs rest e h k =
    let m : ℕ = min (suc n) (suc need) in
    let (rs', q, l) =
      recv_all-AllTaken rs (suc need - m) (drop m bs) rest (omega (arith, length-drop m bs)) h
        (omega arith) in
    (
      rs',
      recv_step rs n need bs rest e
          ∙ ap (then_bytes (take m bs)) q
          ∙ ap (λ t. some (record { bytes = some t; wire = rest; replies = rs' }))
              (take-append-drop m bs),
      record { live = l.live; enough = omega (arith, length-drop m bs, l.enough) },
    )

pub frame-append : (h : Header) (payload : List ℕ) → frame h payload ≡ frame h [] ++ payload
unfolding frame
frame-append h payload = simp (append_assoc, append-nil)

pub length-header : (h : Header) → length (frame h []) ≡ header_size
length-header h = omega (arith, length-frame h [])

header_back : (h : Header) → Fits h → (unframe (frame h [])).0 ≡ h
header_back h f = ap (λ r. r.0) (unframe-frame h [] f)

-- The answers with which a received message ends.
abbrev pub Arrives : Header → List ℕ → List ℕ → Option (Received × List ℕ × List Reply) → Type 0
Arrives h payload rest o = (rs' : List Reply) × (o ≡ some (got h payload, rest, rs')) × IsLive rs'

recv_payload-Arrives :
    (alloc : ℕ → Bool) (rs : List Reply) (h : Header) (payload rest : List ℕ)
    → rejects h ≡ false
    → h.h_payload_len ≡ length payload
    → alloc (length payload) ≡ true
    → IsLive rs
    → length payload ≤ calls rs
    → Arrives h payload rest (recv_payload alloc h rs (payload ++ rest))
unfolding recv_payload finish_payload
recv_payload-Arrives alloc rs h [] rest r e a live k = (rs, simp (r, e), live)
recv_payload-Arrives alloc rs h (b ∷ bs) rest r e a live k =
    let (rs', q, l) = recv_all-AllTaken rs (length (b ∷ bs)) (b ∷ bs) rest refl live k in
    (rs', simp (r, e, ne→==-false (suc (length bs)) 0 (λ z. omega arith), a) (rw q), l.live)

-- A valid frame on the wire, cut in any way and with any interruptions, is received as its header
-- and payload, and what follows it stays, if no call fails and one may be made for each byte.
pub recv_framed-frame :
    (alloc : ℕ → Bool) (rs : List Reply) (h : Header) (payload rest : List ℕ)
    → Fits h
    → rejects h ≡ false
    → h.h_payload_len ≡ length payload
    → alloc (length payload) ≡ true
    → IsLive rs
    → header_size + length payload ≤ calls rs
    → Arrives h payload rest (recv_framed alloc rs (frame h payload ++ rest))
unfolding recv_framed
recv_framed-frame alloc rs h payload rest f r e a live k =
    let (rs', q, l) =
      recv_all-AllTaken rs header_size (frame h []) (payload ++ rest) (length-header h) live
        (omega arith) in
    let (rs2, p, live2) =
      recv_payload-Arrives alloc rs' h payload rest r e a l.live
        (omega (arith, l.enough, length-header h)) in
    (
      rs2,
      ap (λ w. recv_framed alloc rs w)
            (ap (λ t. t ++ rest) (frame-append h payload) ∙ append_assoc (frame h []) payload rest)
          ∙ ap after_header q
          ∙ ap (λ g. recv_payload alloc g rs' (payload ++ rest)) (header_back h f)
          ∙ p,
      live2,
    )
  where
    after_header : Option Taken → Option (Received × List ℕ × List Reply)
    after_header o = elim o [
      | none ↦ none
      | some r ↦ elim r.bytes [
        | none ↦ some (dropped, r.wire, r.replies)
        | some bs ↦ recv_payload alloc (unframe bs).0 r.replies r.wire
      ]
    ]
