-- ===== src/Tests/Packages.antt =====
-- The theorems on the wrappers of packages (algorithm/qboot_fastlz.c, algorithm/qboot_quicklz.c and
-- algorithm/qboot_gzip.c) at concrete inputs.
use rt_thread_qboot.Base.{
  ℕ, suc, false, ◌-◌, ◌≡◌, ◌≤◌, ◌<◌, refl, some, [], ◌∷◌, ◌++◌, take, length, arith,
}
use rt_thread_qboot.Storage.{eok, err}
use rt_thread_qboot.Algo.{StreamCtx, to_crc}
use rt_thread_qboot.Algo.Blocks.{
  stopped, FastlzDecompress, fastlz_handler, Quicklz, quicklz_handler,
}
use rt_thread_qboot.Algo.Blocks.Framing.{block, fastlz_handler-block, quicklz_handler-block}
use rt_thread_qboot.Algo.Gzip.{Zlib, Gzip, z_other, gzip_decompress}
use rt_thread_qboot.Algo.Gzip.Conserves.{
  Conserved, gzip_decompress-Conserved, gzip_decompress-Bounded,
}

abbrev ctx : StreamCtx
ctx = record { total = 20; consumed = 0; raw_remaining = 20; purpose = to_crc }

-- A package whose blocks are as they are.
abbrev plain : FastlzDecompress
plain bytes room = some bytes

fastlz_handler-block_example :
    ((fastlz_handler {W = ℕ} plain 28 (block (7 ∷ 8 ∷ []) ++ 9 ∷ []) 10 ctx 5).0
      ≡ record { rst = eok; consumed = 6; output = 7 ∷ 8 ∷ [] })
    × ((fastlz_handler {W = ℕ} plain 28 (take 5 (block (7 ∷ 8 ∷ []) ++ 9 ∷ [])) 10 ctx 5).0
        ≡ stopped (err 28))
fastlz_handler-block_example =
    fastlz_handler-block (7 ∷ 8 ∷ []) (9 ∷ []) (omega arith) (omega arith) plain 28 10 ctx 5
      (7 ∷ 8 ∷ []) 5 refl (omega arith)

-- A package whose content is the next two bytes, and which counts its calls.
abbrev pairs : Quicklz ℕ
pairs = record { state_init = λ w. 0; decompress = λ bytes w. (take 2 bytes, suc w) }

quicklz_handler-block_example :
    ((quicklz_handler pairs 28 (block (7 ∷ 8 ∷ []) ++ 9 ∷ []) 10 ctx 5).0
      ≡ record { rst = eok; consumed = 6; output = 7 ∷ 8 ∷ [] })
    × (quicklz_handler pairs 28 (take 5 (block (7 ∷ 8 ∷ []) ++ 9 ∷ [])) 10 ctx 5
        ≡ (stopped (err 28), 5))
quicklz_handler-block_example =
    quicklz_handler-block (7 ∷ 8 ∷ []) (9 ∷ []) (omega arith) (omega arith) pairs 28 10 ctx 5 5
      (omega arith) (omega arith) (omega arith)

-- A stream that stores its bytes as they are.
abbrev stored : Zlib ℕ
stored = record {
  inflate_init = λ w. w;
  inflate = λ bytes room w.
      (record { ret = z_other; produced = take room bytes; avail_in = length bytes - room }, w);
  inflate_end = λ w. w;
}

abbrev waiting : Gzip ℕ
waiting = record { remain = 1 ∷ 2 ∷ 3 ∷ []; avail_in = 0; zlib = 0 }

gzip_decompress-Conserved_example :
    Conserved false
      (1 ∷ 2 ∷ 3 ∷ 4 ∷ 5 ∷ [])
      (gzip_decompress stored 28 (4 ∷ 5 ∷ []) 40 ctx waiting).0.output
      (gzip_decompress stored 28 (4 ∷ 5 ∷ []) 40 ctx waiting).1.remain
unfolding gzip_decompress
gzip_decompress-Conserved_example =
    gzip_decompress-Conserved stored 28 (4 ∷ 5 ∷ []) 40 ctx waiting (omega arith) (omega arith) refl

gzip_decompress-Bounded_example :
    let r = gzip_decompress stored 28 (4 ∷ 5 ∷ []) 40 ctx waiting in
    (length r.0.output ≤ 40) × (r.0.consumed ≤ 2) × (length r.1.remain < 32)
gzip_decompress-Bounded_example =
    gzip_decompress-Bounded stored 28 (4 ∷ 5 ∷ []) 40 ctx waiting (omega arith) (omega arith)
      (omega arith) (omega arith) (omega arith)
