-- ===== src/Controller/Ds5/Report.antt =====
-- Whole DualSense reports under the patch of
-- src/app/hid_passthrough/ctm/controllers/controller_ds5.c.
use moonlight_tv.Base.{
  ℕ, zero, suc, ◌-◌, ◌≤◌, List, [], ◌∷◌, ◌++◌, true, false, ◌||◌, ◌&&◌, ltb, ◌==◌, ◌≡◌, refl, ap,
  ◌∙◌, arith, length, take, drop, length-append, length-take, length-drop, if_both, if_split, not,
  get_or,
}
use moonlight_tv.Base.Int.{ℤ}
use moonlight_tv.Controller.Sign.{take-append_at, drop-append_at}
use moonlight_tv.Controller.Patch.{
  Patched, unpatched, WorkerSettings, stores, length-stores, signed_if_patched,
  length-signed_if_patched,
}
use moonlight_tv.Controller.Ds5.{
  Block, encode_blocks, AreBlocks, is_end, patch_each, walk_blocks, walk_blocks-patch_each,
  block_patch, patch_block, patch_auto_block, block_part, rejoin, ds5_patch_output, is_auto,
  latency_writes, latency_byte,
}

-- A report as it is written: two bytes, the blocks, what follows them, and the checksum.
abbrev pub report_of : ℕ → ℕ → List Block → List ℕ → List ℕ → List ℕ
report_of id tag bs tail sum = (id ∷ (tag ∷ (encode_blocks bs ++ tail))) ++ sum

length_of_blocks : (bs : List Block) (tail : List ℕ) → length bs ≤ length (encode_blocks bs ++ tail)
length_of_blocks [] tail = omega arith
length_of_blocks ((id, payload) ∷ bs) tail = omega (
  arith,
  length_of_blocks bs tail,
  length-append (encode_blocks bs) tail,
  length-append (payload ++ encode_blocks bs) tail,
  length-append payload (encode_blocks bs),
)

module _ (id tag : ℕ) (bs : List Block) (tail sum : List ℕ) (four : length sum ≡ 4) where
  front : List ℕ
  front = id ∷ (tag ∷ (encode_blocks bs ++ tail))

  cut : length (report_of id tag bs tail sum) - 4 ≡ length front
  unfolding front
  cut = omega (arith, length-append (encode_blocks bs ++ tail) sum)

  block_part_of : block_part (report_of id tag bs tail sum) ≡ encode_blocks bs ++ tail
  unfolding front
  block_part_of = ap (drop 2) (take-append_at _ front sum cut)

  rejoin_of :
      (p : Patched)
      → rejoin (report_of id tag bs tail sum) p
        ≡ record { bytes = id ∷ (tag ∷ (p.bytes ++ sum)); patched = p.patched }
  unfolding front
  rejoin_of p = rw (drop-append_at _ front sum cut)

-- A report of at least 12 bytes with the number 0x36 or 0x32 that is two bytes, blocks none of
-- which is two zeros, an end of blocks and four bytes is patched block by block, each by itself,
-- the bytes around the blocks stay, and it is signed anew if a block changed.
pub ds5_patch_output-patch_each :
    (scale : ℕ → ℤ → ℤ) (s : WorkerSettings) (id tag : ℕ) (bs : List Block) (tail sum : List ℕ)
    → (id == 0x36 || id == 0x32) ≡ true
    → AreBlocks bs
    → is_end tail ≡ true
    → length sum ≡ 4
    → 12 ≤ length (report_of id tag bs tail sum)
    → let p = patch_each (block_patch scale s) bs tail in
      ds5_patch_output scale s (report_of id tag bs tail sum)
      ≡ signed_if_patched (record { bytes = id ∷ (tag ∷ (p.bytes ++ sum)); patched = p.patched })
unfolding ds5_patch_output
ds5_patch_output-patch_each scale s id tag bs tail sum k v e four long =
    let l : ltb (length (report_of id tag bs tail sum)) 12 ≡ false = ground arith in
    rw
      (
        l,
        k,
        block_part_of id tag bs tail sum four,
        walk_blocks-patch_each (block_patch scale s) bs tail _ v e (length_of_blocks bs tail),
      )
      (ap signed_if_patched
        (rejoin_of id tag bs tail sum four (patch_each (block_patch scale s) bs tail)))

-- A patch of a block that keeps its length.
record Keeps (block : List ℕ) (p : Patched) : Type 0 where
  kept : length p.bytes ≡ length block

stores-Keeps : (ws : List (ℕ × ℕ)) (block : List ℕ) → Keeps block (stores ws (unpatched block))
stores-Keeps ws block = record { kept = length-stores ws (unpatched block) }

auto-Keeps :
    (s : WorkerSettings) (block : List ℕ) → length (patch_auto_block s block).bytes ≡ length block
unfolding patch_auto_block
auto-Keeps s block =
    ground (arith, length-stores (latency_writes (latency_byte s.latency_ms)) (unpatched block))

manual-Keeps :
    (scale : ℕ → ℤ → ℤ) (s : WorkerSettings) (block : List ℕ)
    → length (patch_block scale s block).bytes ≡ length block
unfolding patch_block
manual-Keeps scale s block = grind (arith, length-stores)

block_patch-Keeps :
    (scale : ℕ → ℤ → ℤ) (s : WorkerSettings) (block : List ℕ)
    → Keeps block (block_patch scale s block)
block_patch-Keeps scale s block =
    if_both (Keeps block) (is_auto s.audio_mode) (record { kept = auto-Keeps s block })
      (record { kept = manual-Keeps scale s block })

record KeepsAll (patch : List ℕ → Patched) : Type 0 where
  keeps : (block : List ℕ) → Keeps block (patch block)

walk_blocks-Keeps :
    (patch : List ℕ → Patched)
    → KeepsAll patch
    → (fuel : ℕ) (bs : List ℕ) → Keeps bs (walk_blocks patch fuel bs)
unfolding walk_blocks
walk_blocks-Keeps patch same zero bs = record { kept = refl }
walk_blocks-Keeps patch same (suc fuel) [] = record { kept = refl }
walk_blocks-Keeps patch same (suc fuel) (b ∷ []) = record { kept = refl }
walk_blocks-Keeps patch same (suc fuel) (id ∷ (n ∷ more)) =
    let whole : List ℕ = id ∷ (n ∷ more) in
    let first : Patched = patch (id ∷ (n ∷ take n more)) in
    let rest : Patched = walk_blocks patch fuel (drop n more) in
    let stays : Keeps whole (unpatched whole) = record { kept = refl } in
    if_both (Keeps whole) (id == 0 && n == 0) stays (
      if_split (Keeps whole) (ltb (length more) n) (λ _. stays)
        (λ e. record {
          kept = ground (
            arith,
            length-append first.bytes rest.bytes,
            (same.keeps (id ∷ (n ∷ take n more))).kept,
            (walk_blocks-Keeps patch same fuel (drop n more)).kept,
            length-take n more,
            length-drop n more,
          );
        }))

-- A patch keeps the length of a report, of any bytes.
pub length-ds5_patch_output :
    (scale : ℕ → ℤ → ℤ) (s : WorkerSettings) (bs : List ℕ)
    → length (ds5_patch_output scale s bs) ≡ length bs
unfolding ds5_patch_output
length-ds5_patch_output scale s bs =
    let p : Patched = walk_blocks (block_patch scale s) (length (block_part bs)) (block_part bs) in
    let k =
      (walk_blocks-Keeps (block_patch scale s) (record { keeps = block_patch-Keeps scale s })
        (length (block_part bs)) (block_part bs)).kept in
    if_split (λ (o : List ℕ). length o ≡ length bs)
      (ltb (length bs) 12 || not (get_or bs 0 0 == 0x36 || get_or bs 0 0 == 0x32)) {x = bs}
      {y = signed_if_patched (rejoin bs p)} (λ _. refl)
      (λ e.
        length-signed_if_patched (rejoin bs p)
        ∙ ground (
          arith,
          k,
          length-append (take 2 bs) (p.bytes ++ drop (length bs - 4) bs),
          length-append p.bytes (drop (length bs - 4) bs),
          length-take 2 bs,
          length-drop (length bs - 4) bs,
          length-drop 2 (take (length bs - 4) bs),
          length-take (length bs - 4) bs,
        ))
