-- ===== src/Controller/Ds5/Whole.antt =====
-- A whole DualSense report under the patch of
-- src/app/hid_passthrough/ctm/controllers/controller_ds5.c, against the reference.
use moonlight_tv.Base.{
  ℕ, ◌-◌, ◌≤◌, ◌<◌, List, [], ◌∷◌, ◌++◌, map, true, false, ◌||◌, ◌==◌, ◌≡◌, ◌⊎◌, inl, inr, refl,
  sym, subst, ap, ◌∙◌, arith, length, get_or, drop, if_split,
}
use moonlight_tv.Base.Int.{ℤ}
use moonlight_tv.Controller.Sign.{
  bt_sign_output, bt_sign_output-IsSigned, get-bt_sign_output, length-bt_sign_output, IsSigned,
}
use moonlight_tv.Controller.Patch.{
  WorkerSettings, Patched, signed_if_patched, length-signed_if_patched,
}
use moonlight_tv.Controller.Ds5.{
  Block, encode_block, encode_blocks, AreBlocks, is_end, patch_each, block_patch, ds5_patch_output,
  append_assoc,
}
use moonlight_tv.Controller.Ds5.Report.{
  report_of, ds5_patch_output-patch_each, length-ds5_patch_output,
}
use moonlight_tv.Controller.Ds5.Reference.{new_block}
use moonlight_tv.Controller.Ds5.Rewrites.{block_patch-Rewrites}
use moonlight_tv.Controller.Ds5.Stores.{Rewrites}

-- The blocks of a report, patched one by one.
record RewritesAll (bs : List Block) (tail : List ℕ) (p : Patched) (bs' : List Block) : Type 0 where
  bytes_of : p.bytes ≡ encode_blocks bs' ++ tail
  unset : p.patched ≡ false → bs' ≡ bs
  unchanged : bs' ≡ bs → p.patched ≡ false

cons_inj : {b c : Block} {bs cs : List Block} → b ∷ bs ≡ c ∷ cs → (b ≡ c) × (bs ≡ cs)
cons_inj {b} {c} {bs} {cs} h =
    (ap (λ (l : List Block). get_or l 0 b) h, ap (λ (l : List Block). drop 1 l) h)

patch_each-RewritesAll :
    (scale : ℕ → ℤ → ℤ) (s : WorkerSettings) (bs : List Block) (tail : List ℕ)
    → RewritesAll bs tail (patch_each (block_patch scale s) bs tail) (map (new_block scale s) bs)
patch_each-RewritesAll scale s [] tail = record {
  bytes_of = refl;
  unset = λ h. refl;
  unchanged = λ h. refl;
}
patch_each-RewritesAll scale s (b ∷ bs) tail =
    let p : Patched = block_patch scale s (encode_block b) in
    let q : Patched = patch_each (block_patch scale s) bs tail in
    let r : Rewrites b p (new_block scale s b) = block_patch-Rewrites scale s b in
    let rs : RewritesAll bs tail q (map (new_block scale s) bs) =
      patch_each-RewritesAll scale s bs tail in
    record {
      bytes_of =
          ap (λ l. l ++ q.bytes) r.bytes_of
          ∙ ap (λ l. encode_block (new_block scale s b) ++ l) rs.bytes_of
          ∙ sym (append_assoc (encode_block (new_block scale s b)) _ tail);
      unset = λ h.
          ap (λ x. x ∷ map (new_block scale s) bs) (r.unset (ground arith))
          ∙ ap (λ xs. b ∷ xs) (rs.unset (ground arith));
      unchanged = λ h.
          let h1 = r.unchanged (cons_inj h).0 in
          let h2 = rs.unchanged (cons_inj h).1 in rw (h1, h2) refl;
    }

-- What the patch makes of a report of the blocks `bs` that holds `old` and would hold `new`: it
-- stays if no block is another one after the patch, and otherwise it has the bytes of `new` before
-- the checksum, and a right checksum.
pub record IsPatched (same : Type 0) (old new out : List ℕ) : Type 0 where
  pub same_length : length out ≡ length new
  pub bytes_of : (i : ℕ) → i < length new - 4 → get_or out i 0 ≡ get_or new i 0
  pub signed : (same × (out ≡ old)) ⊎ ((same → ⊥) × IsSigned out)

signed_report :
    (same : Type 0) (old new : List ℕ)
    → 8 ≤ length new
    → (same → ⊥)
    → IsPatched same old new (bt_sign_output new)
signed_report same old new long h = record {
  same_length = length-bt_sign_output new;
  bytes_of = λ i l. get-bt_sign_output new i l;
  signed = inr (h, (bt_sign_output-IsSigned new long).2);
}

kept_report : (same : Type 0) (old new : List ℕ) → same → new ≡ old → IsPatched same old new new
kept_report same old new s h = record {
  same_length = refl;
  bytes_of = λ i l. refl;
  signed = inl (s, h);
}

signed-IsPatched :
    (same : Type 0) (old new : List ℕ) (p : Patched)
    → p.bytes ≡ new
    → 8 ≤ length new
    → (p.patched ≡ false → same × (new ≡ old))
    → (same → p.patched ≡ false)
    → IsPatched same old new (signed_if_patched p)
unfolding signed_if_patched
signed-IsPatched same old new p h long unset unchanged =
    if_split (IsPatched same old new) p.patched {x = bt_sign_output p.bytes} {y = p.bytes}
      (λ c.
        subst (λ b. IsPatched same old new (bt_sign_output b)) (sym h)
          (signed_report same old new long (λ e. absurd (ground (arith, c, unchanged e)))))
      (λ c.
        let (e, f) = unset c in
        subst (IsPatched same old new) (sym h) (kept_report same old new e f))

-- A report of at least 12 bytes with the number 0x36 or 0x32 that is two bytes, blocks none of
-- which is two zeros, an end of blocks and four bytes has after the patch the bytes of the report
-- with each block as the reference makes it by its payload; if all blocks are as they were it
-- stays as it was, checksum included, and otherwise it has a right checksum.
pub ds5_patch_output-IsPatched :
    (scale : ℕ → ℤ → ℤ) (s : WorkerSettings) (id tag : ℕ) (bs : List Block) (tail sum : List ℕ)
    → (id == 0x36 || id == 0x32) ≡ true
    → AreBlocks bs
    → is_end tail ≡ true
    → length sum ≡ 4
    → 12 ≤ length (report_of id tag bs tail sum)
    → let bs' = map (new_block scale s) bs in
      let old = report_of id tag bs tail sum in
      IsPatched (bs' ≡ bs) old (report_of id tag bs' tail sum) (ds5_patch_output scale s old)
ds5_patch_output-IsPatched scale s id tag bs tail sum k v e four long =
    let p : Patched = patch_each (block_patch scale s) bs tail in
    let bs' : List Block = map (new_block scale s) bs in
    let old : List ℕ = report_of id tag bs tail sum in
    let new : List ℕ = report_of id tag bs' tail sum in
    let r : RewritesAll bs tail p bs' = patch_each-RewritesAll scale s bs tail in
    let q : Patched = record { bytes = id ∷ (tag ∷ (p.bytes ++ sum)); patched = p.patched } in
    let out = ds5_patch_output-patch_each scale s id tag bs tail sum k v e four long in
    let whole : q.bytes ≡ new = ap (λ l. id ∷ (tag ∷ (l ++ sum))) r.bytes_of in
    let size =
      sym (ap length whole)
      ∙ sym (length-signed_if_patched q)
      ∙ ap length (sym out)
      ∙ length-ds5_patch_output scale s old in
    rw out (
      signed-IsPatched (bs' ≡ bs) old new q whole (omega (arith, long, size))
        (λ c. (r.unset c, ap (λ xs. report_of id tag xs tail sum) (r.unset c)))
        (λ c. r.unchanged c))
