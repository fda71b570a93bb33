-- ===== src/Algo/Blocks/Framing.antt =====
-- The blocks of algorithm/qboot_fastlz.c and algorithm/qboot_quicklz.c.
use rt_thread_qboot.Base.{
  ℕ, ◌+◌, ◌/◌, ◌%◌, ◌≡◌, ◌≤◌, ◌<◌, refl, ap, ◌∙◌, true, false, some, List, [], ◌∷◌, ◌++◌, take,
  drop, slice, length, length-append, length-take, take-append, take-take, ltb, ◌==◌, add32,
  u32_mod, arith, Bool-cases, inl, inr,
}
use rt_thread_qboot.Storage.{eok, err}
use rt_thread_qboot.Algo.{StreamCtx}
use rt_thread_qboot.Algo.Blocks.{
  shift_in, get_block_size, block_hdr_size, stopped, FastlzDecompress, fastlz_done, fastlz_handler,
  Quicklz, quicklz_done, quicklz_handler,
}

-- A size as the package tool writes it, the highest byte first.
abbrev pub to_be32 : ℕ → List ℕ
to_be32 n = n / 16777216 % 256 ∷ n / 65536 % 256 ∷ n / 256 % 256 ∷ n % 256 ∷ []

-- A block of the package.
abbrev pub block : List ℕ → List ℕ
block payload = to_be32 (length payload) ++ payload

get_block_size-to_be32 : (n : ℕ) (xs : List ℕ) → n < u32_mod → get_block_size (to_be32 n ++ xs) ≡ n
unfolding get_block_size shift_in
get_block_size-to_be32 n xs small = omega arith

-- The header is read from any part of a block that has it.
get_block_size-take : (k : ℕ) (xs : List ℕ) → 4 ≤ k → get_block_size (take k xs) ≡ get_block_size xs
unfolding get_block_size
get_block_size-take k xs enough = ap (λ ys. shift_in 0 ys) (take-take 4 k xs enough)

module _ {W : Type 0} (rt_enospc room : ℕ) (ctx : StreamCtx) (w : W) (buf : List ℕ) (n : ℕ)
    (size : get_block_size buf ≡ n) (some_bytes : 0 < n) (small : n + 4 < u32_mod) where
  need : add32 n block_hdr_size ≡ n + 4
  need = omega arith

  positive : (n == 0) ≡ false
  positive = ground arith

  -- Both handlers on a buffer that has a whole block, and on one with a part of a block behind the header.
  fastlz_handler-whole :
      (lz : FastlzDecompress)
      → n + 4 ≤ length buf
      → (fastlz_handler lz rt_enospc buf room ctx w).0
        ≡ fastlz_done room (n + 4) (lz (slice block_hdr_size n buf) room)
  unfolding fastlz_handler
  fastlz_handler-whole lz enough =
      let header : ltb (length buf) block_hdr_size ≡ false = ground arith in
      let whole : ltb (length buf) (add32 n block_hdr_size) ≡ false = ground (arith, need) in
      rw (size, header, positive, whole, fastlz_handler)
        (ap (λ k. fastlz_done room k (lz (slice block_hdr_size n buf) room)) need)

  fastlz_handler-part :
      (lz : FastlzDecompress)
      → length buf < n + 4
      → (fastlz_handler lz rt_enospc buf room ctx w).0 ≡ stopped (err rt_enospc)
  unfolding fastlz_handler
  fastlz_handler-part lz short =
      let part : ltb (length buf) (add32 n block_hdr_size) ≡ true = ground (arith, need) in
      elim (Bool-cases (ltb (length buf) block_hdr_size)) [
        | inl no_header ↦ rw (no_header, fastlz_handler) refl
        | inr header ↦ rw (size, header, positive, part, fastlz_handler) refl
      ]

  quicklz_handler-whole :
      (qlz : Quicklz W)
      → n + 4 ≤ length buf
      → (quicklz_handler qlz rt_enospc buf room ctx w).0
        ≡ quicklz_done room (n + 4) (qlz.decompress (drop block_hdr_size buf) w).0
  unfolding quicklz_handler
  quicklz_handler-whole qlz enough =
      let header : ltb (length buf) block_hdr_size ≡ false = ground arith in
      let whole : ltb (length buf) (add32 n block_hdr_size) ≡ false = ground (arith, need) in
      rw (size, header, positive, whole, quicklz_handler)
        (ap (λ k. quicklz_done room k (qlz.decompress (drop block_hdr_size buf) w).0) need)

  quicklz_handler-part :
      (qlz : Quicklz W)
      → length buf < n + 4
      → quicklz_handler qlz rt_enospc buf room ctx w ≡ (stopped (err rt_enospc), w)
  unfolding quicklz_handler
  quicklz_handler-part qlz short =
      let part : ltb (length buf) (add32 n block_hdr_size) ≡ true = ground (arith, need) in
      elim (Bool-cases (ltb (length buf) block_hdr_size)) [
        | inl no_header ↦ rw (no_header, quicklz_handler) refl
        | inr header ↦ rw (size, header, positive, part, quicklz_handler) refl
      ]

fastlz_handler-short :
    {W : Type 0} (lz : FastlzDecompress) (rt_enospc room : ℕ) (ctx : StreamCtx) (w : W)
    (buf : List ℕ)
    → length buf < 4
    → (fastlz_handler lz rt_enospc buf room ctx w).0 ≡ stopped (err rt_enospc)
unfolding fastlz_handler
fastlz_handler-short lz rt_enospc room ctx w buf short =
    let header : ltb (length buf) block_hdr_size ≡ true = ground arith in
    rw (header, fastlz_handler) refl

quicklz_handler-short :
    {W : Type 0} (qlz : Quicklz W) (rt_enospc room : ℕ) (ctx : StreamCtx) (w : W) (buf : List ℕ)
    → length buf < 4
    → quicklz_handler qlz rt_enospc buf room ctx w ≡ (stopped (err rt_enospc), w)
unfolding quicklz_handler
quicklz_handler-short qlz rt_enospc room ctx w buf short =
    let header : ltb (length buf) block_hdr_size ≡ true = ground arith in
    rw (header, quicklz_handler) refl

module _ (payload rest : List ℕ) (some_bytes : 0 < length payload)
    (small : length payload + 4 < u32_mod) where
  abbrev stream : List ℕ
  stream = block payload ++ rest

  length-stream : length stream ≡ 4 + length payload + length rest
  length-stream = omega (arith, length-append payload rest)

  stream_size : get_block_size stream ≡ length payload
  stream_size = get_block_size-to_be32 (length payload) (payload ++ rest) (omega arith)

  part_size : (k : ℕ) → 4 ≤ k → get_block_size (take k stream) ≡ length payload
  part_size k header = get_block_size-take k stream header ∙ stream_size

  length-part : (k : ℕ) → length (take k stream) ≤ k
  length-part k = omega (arith, length-take k stream)

  -- FastLZ takes a whole block off the input and gives its content, as much as there is room for. Of
  -- any part of a block it takes nothing and asks for more. The block is not empty and its size plus 4
  -- is below 2^32, and the package decompresses it.
  pub fastlz_handler-block :
      {W : Type 0} (lz : FastlzDecompress) (rt_enospc room : ℕ) (ctx : StreamCtx) (w : W)
      (content : List ℕ) (k : ℕ)
      → lz payload room ≡ some content
      → k < length payload + 4
      → ((fastlz_handler lz rt_enospc stream room ctx w).0
          ≡ record { rst = eok; consumed = length payload + 4; output = take room content })
        × ((fastlz_handler lz rt_enospc (take k stream) room ctx w).0 ≡ stopped (err rt_enospc))
  unfolding fastlz_done
  fastlz_handler-block lz rt_enospc room ctx w content k decodes short =
      let payload_at = take-append (length payload) payload rest refl in
      (
        fastlz_handler-whole rt_enospc room ctx w stream (length payload) stream_size some_bytes
              small lz (omega (arith, length-stream))
            ∙ ap (λ xs. fastlz_done room (length payload + 4) (lz xs room)) payload_at
            ∙ ap (λ got. fastlz_done room (length payload + 4) got) decodes,
        elim (Bool-cases (ltb k 4)) [
          | inl no_header ↦
              fastlz_handler-short lz rt_enospc room ctx w (take k stream)
                (ground (arith, no_header, length-part k))
          | inr header ↦
              fastlz_handler-part rt_enospc room ctx w (take k stream) (length payload)
                (part_size k (ground (arith, header))) some_bytes small lz
                (omega (arith, length-part k))
        ],
      )

  -- QuickLZ takes a whole block off the input and gives its content, if that is not empty and there is
  -- room for it. Of any part of a block it takes nothing and asks for more, without a call of the
  -- package. The block is not empty and its size plus 4 is below 2^32.
  pub quicklz_handler-block :
      {W : Type 0} (qlz : Quicklz W) (rt_enospc room : ℕ) (ctx : StreamCtx) (w : W) (k : ℕ)
      → 0 < length (qlz.decompress (payload ++ rest) w).0
      → length (qlz.decompress (payload ++ rest) w).0 ≤ room
      → k < length payload + 4
      → ((quicklz_handler qlz rt_enospc stream room ctx w).0 ≡ record {
        rst = eok;
        consumed = length payload + 4;
        output = (qlz.decompress (payload ++ rest) w).0;
      })
        × (quicklz_handler qlz rt_enospc (take k stream) room ctx w ≡ (stopped (err rt_enospc), w))
  unfolding quicklz_done
  quicklz_handler-block qlz rt_enospc room ctx w k some_content fits short =
      let content = (qlz.decompress (payload ++ rest) w).0 in
      let is_some : (length content == 0) ≡ false = ground arith in
      let has_room : ltb room (length content) ≡ false = ground arith in
      let done : quicklz_done room (length payload + 4) content
          ≡ record { rst = eok; consumed = length payload + 4; output = content } =
        rw (is_some, has_room, quicklz_done) refl in
      (
        quicklz_handler-whole rt_enospc room ctx w stream (length payload) stream_size some_bytes
              small qlz (omega (arith, length-stream))
            ∙ done,
        elim (Bool-cases (ltb k 4)) [
          | inl no_header ↦
              quicklz_handler-short qlz rt_enospc room ctx w (take k stream)
                (ground (arith, no_header, length-part k))
          | inr header ↦
              quicklz_handler-part rt_enospc room ctx w (take k stream) (length payload)
                (part_size k (ground (arith, header))) some_bytes small qlz
                (omega (arith, length-part k))
        ],
      )
