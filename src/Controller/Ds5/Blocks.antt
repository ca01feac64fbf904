-- ===== src/Controller/Ds5/Blocks.antt =====
-- The loop over the blocks of a DualSense report: src/app/hid_passthrough/ctm/controllers/controller_ds5.c.
-- A block is its number, the length of its payload and the payload.
use moonlight_tv.Base.{
  ℕ, zero, suc, ◌≤◌, List, [], ◌∷◌, ◌++◌, Bool, true, false, ◌||◌, ◌&&◌, ltb, ◌==◌, if◌then◌else◌,
  ◌≡◌, refl, ap, arith, length, take, drop, length-append,
}
use moonlight_tv.Controller.Patch.{Patched, unpatched}

abbrev pub behind : Patched → Patched → Patched
behind p rest = record { bytes = p.bytes ++ rest.bytes; patched = p.patched || rest.patched }

-- `while (pos + 2 <= limit)` on the bytes from `pos` to `limit`, with what is done to a block. A block
-- has two bytes at least, so the length of the bytes is enough fuel.
unfoldable pub walk_blocks : (List ℕ → Patched) → ℕ → List ℕ → Patched
walk_blocks patch zero bs = unpatched bs
walk_blocks patch (suc fuel) [] = unpatched []
walk_blocks patch (suc fuel) (b ∷ []) = unpatched (b ∷ [])
walk_blocks patch (suc fuel) (id ∷ (payload_len ∷ more)) =
    let rest : Patched = walk_blocks patch fuel (drop payload_len more) in
    if id == 0 && payload_len == 0
    then unpatched (id ∷ (payload_len ∷ more))
    else if ltb (length more) payload_len
    then unpatched (id ∷ (payload_len ∷ more))
    else behind (patch (id ∷ (payload_len ∷ take payload_len more))) rest

-- Blocks as they are written, and what ends them: too few bytes for a block, or two zeros.
abbrev pub Block : Type 0
Block = ℕ × List ℕ

abbrev pub encode_block : Block → List ℕ
encode_block (id, payload) = id ∷ (length payload ∷ payload)

abbrev pub encode_blocks : List Block → List ℕ
encode_blocks [] = []
encode_blocks (b ∷ bs) = encode_block b ++ encode_blocks bs

abbrev pub is_end : List ℕ → Bool
is_end [] = true
is_end (b ∷ []) = true
is_end (id ∷ (payload_len ∷ more)) = (id == 0 && payload_len == 0) || ltb (length more) payload_len

-- No block is the one of two zeros.
abbrev pub AreBlocks : List Block → Type 0
AreBlocks [] = Unit {0}
AreBlocks ((id, payload) ∷ bs) = ((id == 0 && length payload == 0) ≡ false) × AreBlocks bs

-- The reference: every block by itself.
abbrev pub patch_each : (List ℕ → Patched) → List Block → List ℕ → Patched
patch_each patch [] tail = unpatched tail
patch_each patch (b ∷ bs) tail = behind (patch (encode_block b)) (patch_each patch bs tail)

cut_payload :
    (xs rest : List ℕ)
    → (take (length xs) (xs ++ rest) ≡ xs) × (drop (length xs) (xs ++ rest) ≡ rest)
cut_payload [] rest = (refl, refl)
cut_payload (x ∷ xs) rest = let (t, d) = cut_payload xs rest in (ap (λ l. x ∷ l) t, d)

walk_end :
    (patch : List ℕ → Patched) (fuel : ℕ) (tail : List ℕ)
    → is_end tail ≡ true
    → walk_blocks patch fuel tail ≡ unpatched tail
unfolding walk_blocks
walk_end patch zero tail h = refl
walk_end patch (suc fuel) [] h = refl
walk_end patch (suc fuel) (b ∷ []) h = refl
walk_end patch (suc fuel) (id ∷ (payload_len ∷ more)) h = ground arith

pub append_assoc : (xs ys zs : List ℕ) → (xs ++ ys) ++ zs ≡ xs ++ (ys ++ zs)
append_assoc [] ys zs = refl
append_assoc (x ∷ xs) ys zs = ap (λ l. x ∷ l) (append_assoc xs ys zs)

pub walk_blocks-patch_each :
    (patch : List ℕ → Patched) (bs : List Block) (tail : List ℕ) (fuel : ℕ)
    → AreBlocks bs
    → is_end tail ≡ true
    → length bs ≤ fuel
    → walk_blocks patch fuel (encode_blocks bs ++ tail) ≡ patch_each patch bs tail
unfolding walk_blocks
walk_blocks-patch_each patch [] tail fuel v h n = walk_end patch fuel tail h
walk_blocks-patch_each patch (b ∷ bs) tail zero v h n = absurd (omega arith)
walk_blocks-patch_each patch ((id, payload) ∷ bs) tail (suc fuel) (w, v) h n =
    let (t, d) = cut_payload payload (encode_blocks bs ++ tail) in
    let l : ltb (length (payload ++ (encode_blocks bs ++ tail))) (length payload) ≡ false =
      ground (arith, length-append payload (encode_blocks bs ++ tail)) in
    let ih = walk_blocks-patch_each patch bs tail fuel v h (omega arith) in
    rw (append_assoc payload (encode_blocks bs) tail, w, l, t, d, ih)
