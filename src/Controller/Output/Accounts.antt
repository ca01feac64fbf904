-- ===== src/Controller/Output/Accounts.antt =====
-- What becomes of the reports that are to be written: `hid_write_report` of
-- src/app/hid_passthrough/ctm/controllers/controller_common.c.
use moonlight_tv.Base.{
  ℕ, ◌+◌, ◌≤◌, ◌<◌, List, Option, none, some, true, false, not, ◌||◌, ◌&&◌, ltb, leb, ◌==◌,
  if◌then◌else◌, length, get_or, ◌≡◌, refl, ◌∙◌, arith, if_both,
}
use moonlight_tv.Base.Int.{ℤ}
use moonlight_tv.Controller.Ds4.{ds4_patch_output}
use moonlight_tv.Controller.Ds5.{ds5_patch_output}
use moonlight_tv.Controller.Plc.{ds5_audio_plc}
use moonlight_tv.Controller.Output.{
  OutputHook, verbatim, ds4_hook, ds5_hook, apply_output_settings, Acl, AclResult, acl_sent,
  acl_drop, acl_hidraw, acl_tx_send, is_injectable, WriteAnswer, wrote, short, again, failed,
  Kernel, Output, Written, same_bytes, compared, write_succeeds, write_fails, write_hidraw,
  after_send, deliver_by, remember31, dedup_or_deliver, after_patch, hid_write_report,
}

-- The reports that the counters speak of: sent, passed over as repeated, lost.
abbrev pub counted : Output → ℕ
counted o = o.reports_out + o.dedup_skipped + o.hid_dropped

-- A report is counted once; 0 is returned unless it was lost, and what is handed over was counted
-- as sent.
pub record IsCounted (o : Output) (w : Written) : Type 0 where
  pub once : counted w.output ≡ counted o + 1
  pub lost : w.output.hid_dropped ≡ (if w.is_ok then o.hid_dropped else o.hid_dropped + 1)
  pub handed_over :
      w.output.reports_out
      ≡ (elim w.to_device [ none ↦ o.reports_out | some bs ↦ o.reports_out + 1 ])

-- A state with the same three counters.
record Agrees (o p : Output) : Type 0 where
  same_out : p.reports_out ≡ o.reports_out
  same_skipped : p.dedup_skipped ≡ o.dedup_skipped
  same_dropped : p.hid_dropped ≡ o.hid_dropped

succeeds-IsCounted : (o p : Output) (bs : List ℕ) → Agrees o p → IsCounted o (write_succeeds p bs)
succeeds-IsCounted o p bs a = record {
  once = omega (arith, a.same_out, a.same_skipped, a.same_dropped);
  lost = a.same_dropped;
  handed_over = omega (arith, a.same_out);
}

fails-IsCounted : (o p : Output) → Agrees o p → IsCounted o (write_fails p)
fails-IsCounted o p a = record {
  once = omega (arith, a.same_out, a.same_skipped, a.same_dropped);
  lost = omega (arith, a.same_dropped);
  handed_over = a.same_out;
}

write_hidraw-IsCounted :
    (w : WriteAnswer) (k : Kernel) (o p : Output) (bs : List ℕ)
    → Agrees o p
    → IsCounted o (write_hidraw w k p bs)
unfolding write_hidraw
write_hidraw-IsCounted wrote k o p bs a = succeeds-IsCounted o p bs a
write_hidraw-IsCounted short k o p bs a = fails-IsCounted o p a
write_hidraw-IsCounted failed k o p bs a = fails-IsCounted o p a
write_hidraw-IsCounted again k o p bs a =
    let same : (q : Output) → Agrees p q → Agrees o q = λ q b. record {
      same_out = b.same_out ∙ a.same_out;
      same_skipped = b.same_skipped ∙ a.same_skipped;
      same_dropped = b.same_dropped ∙ a.same_dropped;
    } in
    let kept : Agrees o (record p { hid_eagain = p.hid_eagain + 1 }) =
      same _ (record { same_out = refl; same_skipped = refl; same_dropped = refl }) in
    if_both (IsCounted o) (ltb 0 p.hid_wait_ms && k.poll_ready && k.second_wrote)
      (succeeds-IsCounted o _ bs
        (same _ (record { same_out = refl; same_skipped = refl; same_dropped = refl })))
      (fails-IsCounted o _ kept)

with_acl : (o p : Output) (t : Acl) → Agrees o p → Agrees o (record p { acl = some t })
with_acl o p t a = record {
  same_out = a.same_out;
  same_skipped = a.same_skipped;
  same_dropped = a.same_dropped;
}

after_send-IsCounted :
    (k : Kernel) (o p : Output) (bs : List ℕ) (t : Acl × AclResult)
    → Agrees o p
    → IsCounted o (after_send k p bs t)
after_send-IsCounted k o p bs (t, acl_sent) a = record {
  once = omega (arith, a.same_out, a.same_skipped, a.same_dropped);
  lost = a.same_dropped;
  handed_over = omega (arith, a.same_out);
}
after_send-IsCounted k o p bs (t, acl_drop) a =
    write_hidraw-IsCounted k.first_write k o _ bs (with_acl o p t a)
after_send-IsCounted k o p bs (t, acl_hidraw) a =
    write_hidraw-IsCounted k.first_write k o _ bs (with_acl o p t a)

deliver-IsCounted :
    (acl : Option Acl) (k : Kernel) (o p : Output) (bs : List ℕ)
    → Agrees o p
    → IsCounted o (deliver_by acl k p bs)
unfolding deliver_by
deliver-IsCounted none k o p bs a = write_hidraw-IsCounted k.first_write k o p bs a
deliver-IsCounted (some t) k o p bs a =
    if_both (IsCounted o) (is_injectable (get_or bs 0 0))
      (after_send-IsCounted k o p bs (acl_tx_send k.sendto t bs) a)
      (write_hidraw-IsCounted k.first_write k o p bs a)

remember31-Agrees : (o p : Output) (bs : List ℕ) → Agrees o p → Agrees o (remember31 p bs)
remember31-Agrees o p bs a =
    if_both (Agrees o) (leb (length bs) 80)
      (record {
        same_out = a.same_out;
        same_skipped = a.same_skipped;
        same_dropped = a.same_dropped;
      })
      a

dedup-IsCounted :
    (k : Kernel) (o p : Output) (bs : List ℕ) → Agrees o p → IsCounted o (dedup_or_deliver k p bs)
unfolding dedup_or_deliver
dedup-IsCounted k o p bs a =
    let q : Output = remember31 p bs in
    if_both (IsCounted o) (p.dedup_enabled && leb 8 (length bs) && get_or bs 0 0 == 0x31)
      (if_both (IsCounted o)
        (length bs == length p.last31 && same_bytes (compared bs) (compared p.last31))
        (record {
          once = omega (arith, a.same_out, a.same_skipped, a.same_dropped);
          lost = a.same_dropped;
          handed_over = a.same_out;
        })
        (deliver-IsCounted q.acl k o q bs (remember31-Agrees o p bs a)))
      (deliver-IsCounted p.acl k o p bs a)

after_patch-IsCounted :
    (k : Kernel) (o : Output) (bs : List ℕ) → IsCounted o (after_patch k o (some bs))
after_patch-IsCounted k o bs =
    dedup-IsCounted k o _ (ds5_audio_plc o.plc bs).1
      (record { same_out = refl; same_skipped = refl; same_dropped = refl })

patched-IsCounted :
    (scale : ℕ → ℤ → ℤ) (hook : OutputHook) (k : Kernel) (o : Output) (bs : List ℕ)
    → IsCounted o (after_patch k o (apply_output_settings scale hook bs))
unfolding apply_output_settings
patched-IsCounted scale verbatim k o bs = after_patch-IsCounted k o bs
patched-IsCounted scale (ds4_hook s) k o bs = after_patch-IsCounted k o (ds4_patch_output s bs)
patched-IsCounted scale (ds5_hook s) k o bs =
    after_patch-IsCounted k o (ds5_patch_output scale s bs)

valid_call :
    (scale : ℕ → ℤ → ℤ) (hook : OutputHook) (k : Kernel) (o : Output) (bs : List ℕ)
    → o.hid_open ≡ true
    → 0 < length bs
    → length bs ≤ 4096
    → hid_write_report scale hook k o bs ≡ after_patch k o (apply_output_settings scale hook bs)
unfolding hid_write_report
valid_call scale hook k o bs opened some_bytes fits =
    let e : (not o.hid_open || length bs == 0 || ltb 4096 (length bs)) ≡ false =
      ground (arith, opened) in
    rw e

-- A report of one to 4096 bytes for an open device is counted exactly once, as sent, as passed
-- over or as lost, whatever the patch, the concealment, the forwarder and the kernel do: 0 is
-- returned unless it is counted as lost, and the report was handed over whole exactly if it is
-- counted as sent.
pub hid_write_report-IsCounted :
    (scale : ℕ → ℤ → ℤ) (hook : OutputHook) (k : Kernel) (o : Output) (bs : List ℕ)
    → o.hid_open ≡ true
    → 0 < length bs
    → length bs ≤ 4096
    → IsCounted o (hid_write_report scale hook k o bs)
hid_write_report-IsCounted scale hook k o bs opened some_bytes fits =
    rw (valid_call scale hook k o bs opened some_bytes fits) (patched-IsCounted scale hook k o bs)
