-- ===== src/Transport/Socket.antt =====
-- `send_all` and `recv_all` of src/app/hid_passthrough/ctm_transport.c.
use moonlight_tv.Base.{
  ℕ, zero, suc, ◌-◌, List, [], ◌∷◌, ◌++◌, Option, none, some, Bool, true, false, min, length, take,
  drop,
}

-- What the system answers: a call moves at most so many bytes (0 where the peer has closed), is
-- interrupted, or fails.
pub data Reply : Type 0 where
  moves : ℕ → Reply
  interrupted fails : Reply

-- The result of `send_all`, the bytes that went out, and the answers not yet asked for.
pub record Sent : Type 0 where
  pub ok : Bool
  pub wire : List ℕ
  pub replies : List Reply

-- The result of `recv_all`, the bytes that are still to come, and the answers left.
pub record Taken : Type 0 where
  pub bytes : Option (List ℕ)
  pub wire : List ℕ
  pub replies : List Reply

unfoldable pub also : List ℕ → Option Sent → Option Sent
also before none = none
also before (some s) = some (record s { wire = before ++ s.wire })

-- None while the loop goes on when the answers end.
unfoldable pub send_all : List Reply → List ℕ → Option Sent
unfolding also
send_all rs [] = some (record { ok = true; wire = []; replies = rs })
send_all [] (b ∷ bs) = none
send_all (interrupted ∷ rs) (b ∷ bs) = send_all rs (b ∷ bs)
send_all (fails ∷ rs) (b ∷ bs) = some (record { ok = false; wire = []; replies = rs })
send_all (moves zero ∷ rs) (b ∷ bs) = some (record { ok = false; wire = []; replies = rs })
send_all (moves (suc n) ∷ rs) (b ∷ bs) =
    also (take (suc n) (b ∷ bs)) (send_all rs (drop (suc n) (b ∷ bs)))

unfoldable pub then_bytes : List ℕ → Option Taken → Option Taken
then_bytes before none = none
then_bytes before (some r) =
    some (record r { bytes = elim r.bytes [ none ↦ none | some bs ↦ some (before ++ bs) ] })

-- `need` bytes are wanted. A call gets no more than these, and none from an empty wire.
unfoldable pub recv_all : List Reply → ℕ → List ℕ → Option Taken
unfolding then_bytes
recv_all rs zero wire = some (record { bytes = some []; wire = wire; replies = rs })
recv_all [] (suc need) wire = none
recv_all (interrupted ∷ rs) (suc need) wire = recv_all rs (suc need) wire
recv_all (fails ∷ rs) (suc need) wire = some (record { bytes = none; wire = wire; replies = rs })
recv_all (moves zero ∷ rs) (suc need) wire =
    some (record { bytes = none; wire = wire; replies = rs })
recv_all (moves (suc n) ∷ rs) (suc need) [] =
    some (record { bytes = none; wire = []; replies = rs })
recv_all (moves (suc n) ∷ rs) (suc need) (b ∷ wire) =
    let chunk = take (min (suc n) (suc need)) (b ∷ wire) in
    then_bytes chunk (recv_all rs (suc need - length chunk) (drop (length chunk) (b ∷ wire)))
