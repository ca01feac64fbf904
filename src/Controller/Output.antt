-- ===== src/Controller/Output.antt =====
-- A report on its way to the device: `apply_output_settings` and `hid_write_report` of
-- src/app/hid_passthrough/ctm/controllers/controller_common.c, and `ds5_acl_tx_send` of
-- src/app/hid_passthrough/ctm/controllers/ds5_acl_tx.c.
use moonlight_tv.Base.{
  ℕ, zero, suc, ◌+◌, ◌-◌, ◌≤◌, ◌<◌, List, [], ◌∷◌, Option, none, some, Bool, true, false, not, ◌||◌,
  ◌&&◌, ltb, leb, ◌==◌, if◌then◌else◌, length, get_or, take, drop,
}
use moonlight_tv.Base.Int.{ℤ}
use moonlight_tv.Controller.Patch.{WorkerSettings}
use moonlight_tv.Controller.Ds4.{ds4_patch_output}
use moonlight_tv.Controller.Ds5.{ds5_patch_output}
use moonlight_tv.Controller.Plc.{Plc, ds5_audio_plc}
pub mod Accounts

-- The hook `patch_output` of the kinds of controllers.
pub data OutputHook : Type 0 where
  verbatim : OutputHook
  ds4_hook : WorkerSettings → OutputHook
  ds5_hook : WorkerSettings → OutputHook

-- The patched report; none where a hook drops it, which none of them does.
unfoldable pub apply_output_settings : (ℕ → ℤ → ℤ) → OutputHook → List ℕ → Option (List ℕ)
apply_output_settings scale verbatim bs = some bs
apply_output_settings scale (ds4_hook s) bs = some (ds4_patch_output s bs)
apply_output_settings scale (ds5_hook s) bs = some (ds5_patch_output scale s bs)

-- The forwarder of raw packets, and what `sendto` answers.
pub record Acl : Type 0 where
  pub acl_ready : Bool
  pub injected : ℕ
  pub acl_dropped : ℕ

pub data SendAnswer : Type 0 where
  accepted : SendAnswer
  congested : SendAnswer
  refused : SendAnswer

-- `DS5_ACL_TX_SENT`, `DS5_ACL_TX_DROP` and `DS5_ACL_TX_HIDRAW`.
pub data AclResult : Type 0 where
  acl_sent : AclResult
  acl_drop : AclResult
  acl_hidraw : AclResult

unfoldable pub acl_tx_send : SendAnswer → Acl → List ℕ → Acl × AclResult
acl_tx_send accepted t bs =
    if length bs == 0 || ltb 4096 (length bs) || not t.acl_ready
    then (t, acl_hidraw)
    else (record t { injected = t.injected + 1 }, acl_sent)
acl_tx_send congested t bs =
    if length bs == 0 || ltb 4096 (length bs) || not t.acl_ready
    then (t, acl_hidraw)
    else (record t { acl_dropped = t.acl_dropped + 1 }, acl_drop)
acl_tx_send refused t bs = (t, acl_hidraw)

abbrev pub is_injectable : ℕ → Bool
is_injectable id = id == 0x31 || id == 0x32 || id == 0x36

-- What the kernel answers: to the first `write` (it takes all bytes, fewer, would block or fails), to
-- `poll`, to the second `write` (whether it takes all bytes), and to `sendto`.
pub data WriteAnswer : Type 0 where
  wrote : WriteAnswer
  short : WriteAnswer
  again : WriteAnswer
  failed : WriteAnswer

pub record Kernel : Type 0 where
  pub first_write : WriteAnswer
  pub poll_ready : Bool
  pub second_wrote : Bool
  pub sendto : SendAnswer

-- The fields of a controller that a report reads and writes. `last31` has `last31_len` bytes.
pub record Output : Type 0 where
  pub hid_open : Bool
  pub plc : Plc
  pub dedup_enabled : Bool
  pub last31 : List ℕ
  pub acl : Option Acl
  pub hid_wait_ms : ℕ
  pub reports_out : ℕ
  pub hid_ok : ℕ
  pub hid_eagain : ℕ
  pub hid_recovered : ℕ
  pub hid_dropped : ℕ
  pub dedup_skipped : ℕ

-- The report that a call hands over whole, to the forwarder or to hidraw, if any, the state, and
-- whether it returns 0.
pub record Written : Type 0 where
  pub output : Output
  pub to_device : Option (List ℕ)
  pub is_ok : Bool

abbrev pub same_bytes : List ℕ → List ℕ → Bool
same_bytes [] [] = true
same_bytes (a ∷ xs) (b ∷ ys) = a == b && same_bytes xs ys
same_bytes _ _ = false

-- The bytes that are compared: neither the number of the report and its sequence nor the checksum.
abbrev pub compared : List ℕ → List ℕ
compared bs = drop 2 (take (length bs - 4) bs)

abbrev pub write_succeeds : Output → List ℕ → Written
write_succeeds o bs = record {
  output = record o { hid_ok = o.hid_ok + 1; reports_out = o.reports_out + 1 };
  to_device = some bs;
  is_ok = true;
}

abbrev pub write_fails : Output → Written
write_fails o = record {
  output = record o { hid_dropped = o.hid_dropped + 1 };
  to_device = none;
  is_ok = false;
}

-- The write to hidraw, with a second try where the first one would block.
unfoldable pub write_hidraw : WriteAnswer → Kernel → Output → List ℕ → Written
write_hidraw wrote k o bs = write_succeeds o bs
write_hidraw short k o bs = write_fails o
write_hidraw failed k o bs = write_fails o
write_hidraw again k o bs =
    let o' : Output = record o { hid_eagain = o.hid_eagain + 1 } in
    if ltb 0 o.hid_wait_ms && k.poll_ready && k.second_wrote
    then write_succeeds (record o' { hid_recovered = o.hid_recovered + 1 }) bs
    else write_fails o'

abbrev pub after_send : Kernel → Output → List ℕ → Acl × AclResult → Written
after_send k o bs (t, acl_sent) = record {
  output = record o { acl = some t; reports_out = o.reports_out + 1 };
  to_device = some bs;
  is_ok = true;
}
after_send k o bs (t, acl_drop) = write_hidraw k.first_write k (record o { acl = some t }) bs
after_send k o bs (t, acl_hidraw) = write_hidraw k.first_write k (record o { acl = some t }) bs

unfoldable pub deliver_by : Option Acl → Kernel → Output → List ℕ → Written
deliver_by none k o bs = write_hidraw k.first_write k o bs
deliver_by (some t) k o bs =
    if is_injectable (get_or bs 0 0)
    then after_send k o bs (acl_tx_send k.sendto t bs)
    else write_hidraw k.first_write k o bs

abbrev pub deliver : Kernel → Output → List ℕ → Written
deliver k o bs = deliver_by o.acl k o bs

-- The report is remembered, before it is delivered.
abbrev pub remember31 : Output → List ℕ → Output
remember31 o bs = if leb (length bs) 80 then record o { last31 = bs } else o

unfoldable pub dedup_or_deliver : Kernel → Output → List ℕ → Written
dedup_or_deliver k o bs =
    if o.dedup_enabled && leb 8 (length bs) && get_or bs 0 0 == 0x31
    then (if length bs == length o.last31 && same_bytes (compared bs) (compared o.last31)
        then record {
          output = record o { dedup_skipped = o.dedup_skipped + 1 };
          to_device = none;
          is_ok = true;
        }
        else deliver k (remember31 o bs) bs)
    else deliver k o bs

abbrev pub after_patch : Kernel → Output → Option (List ℕ) → Written
after_patch k o none = record { output = o; to_device = none; is_ok = true }
after_patch k o (some bs) =
    let concealed = ds5_audio_plc o.plc bs in
    dedup_or_deliver k (record o { plc = concealed.0 }) concealed.1

unfoldable pub hid_write_report : (ℕ → ℤ → ℤ) → OutputHook → Kernel → Output → List ℕ → Written
hid_write_report scale hook k o bs =
    if not o.hid_open || length bs == 0 || ltb 4096 (length bs)
    then record { output = o; to_device = none; is_ok = false }
    else after_patch k o (apply_output_settings scale hook bs)
