-- ===== src/Tests/Codec.antt =====
-- The theorems on the algorithm tables and the stream (src/qboot_algo.c, src/qboot_stream.c) at
-- concrete inputs.
use Prim.Native.Nat.{bit_and}
use rt_thread_qboot.Base.{
  drop, length-take, while, ap, length, ◌≤◌, slice, false, ℕ, ◌+◌, ◌≡◌, ◌≢◌, ◌⊎◌, refl, true, none,
  some, [], ◌∷◌, arith, ◌++◌, List,
}
use rt_thread_qboot.Storage.{is_eok, eok}
use rt_thread_qboot.Algo.{
  to_crc, StreamCtx, AlgoContext, Tables, crypt_mask, cmprs_mask, empty_tables, cmprs_register,
  crypto_register, crypto_id_to_index, cmprs_id_to_index, find_crypto, find_cmprs, get_algo_context,
}
use rt_thread_qboot.Algo.Lookup.{IsSized, lookups_in_bounds, register-get_algo_context}
use rt_thread_qboot.Algo.NoneCodec.{none_cmprs_ops, none_crypt_ops, none_decompress, none_crypt}
use rt_thread_qboot.Stream.{
  Proc, proc_test, proc_start, Consumer, decompress_with_consumer, stream_process, is_failure,
  proc_body, fetch, convert, fw_pkg_read, dec_body, judge, dispatch,
}
use rt_thread_qboot.Stream.Identity
use rt_thread_qboot.Stream.Identity.{stream_process-identity}
use rt_thread_qboot.Stream.Joined.{collect}
use rt_thread_qboot.Stream.Progress.{Delivers}
use rt_thread_qboot.Stream.Capacity.{stream_buffer-bound}
use rt_thread_qboot.Stream.Exact.{SourceKeeps, stream_process-exact}
use rt_thread_qboot.Tests.Board.{Board, board, io, cfg, package_area}
use rt_thread_qboot.Tests.Loader.{zeros}

sized : IsSized (empty_tables {W = Board})
unfolding empty_tables
sized = record { cmprs_size = refl; crypt_size = refl }

lookups_in_bounds_example :
    (find_crypto (bit_and 0x0407 crypt_mask) (empty_tables {W = Board}) ≢ none)
    × (find_cmprs (bit_and 0x0407 cmprs_mask) (empty_tables {W = Board}) ≢ none)
lookups_in_bounds_example = lookups_in_bounds 0x0407 empty_tables sized

abbrev with_crypt : Tables Board
with_crypt = (crypto_register (some none_crypt_ops) empty_tables).1

abbrev with_both : Tables Board
with_both = (cmprs_register (some (none_cmprs_ops 28)) with_crypt).1

crypt_fits : crypto_register (some none_crypt_ops) (empty_tables {W = Board}) ≡ (eok, with_crypt)
unfolding crypto_register crypto_id_to_index empty_tables
crypt_fits = refl

cmprs_fits : cmprs_register (some (none_cmprs_ops 28)) with_crypt ≡ (eok, with_both)
unfolding cmprs_register cmprs_id_to_index crypto_register crypto_id_to_index empty_tables
cmprs_fits = refl

register-get_algo_context_example :
    (get_algo_context 0x10 with_both
      ≡ some (record { crypt_ops = some none_crypt_ops; cmprs_ops = none_cmprs_ops 28 }))
    × ((crypto_register (some none_crypt_ops) with_both).0 ≢ eok)
    × ((cmprs_register (some (none_cmprs_ops 28)) with_both).0 ≢ eok)
register-get_algo_context_example =
    register-get_algo_context none_crypt_ops (none_cmprs_ops 28) 0x10 empty_tables with_crypt
      with_both sized crypt_fits cmprs_fits refl refl

-- A consumer that counts bytes.
abbrev counting : Consumer Board ℕ
counting bytes n w = ((eok, n + length bytes), w)

abbrev Counted : ℕ → ℕ → Board → Type 0
Counted n c w = c ≡ n

counting_delivers : Delivers (none_cmprs_ops {W = Board} 28) 28 counting Counted
counting_delivers = record {
  decompress_keeps = λ buf cap ctx n c w r. r;
  consume_moves = λ bytes n c w r e. ap (λ k. k + length bytes) r;
  consume_fails = λ bytes c w e. absurd (ground arith);
}

abbrev ctx : StreamCtx
ctx = record { total = 5; consumed = 0; raw_remaining = 4; purpose = to_crc }

abbrev none_algo : AlgoContext Board
none_algo = record { crypt_ops = some none_crypt_ops; cmprs_ops = none_cmprs_ops 28 }

source_keeps : SourceKeeps io none_algo Counted
source_keeps = record {
  read_keeps = λ h off len n c w r. r;
  decrypt_keeps = λ crypt bytes n c w e r. r;
}

stream_process-exact_example :
    let (p, w1) =
      stream_process io cfg none_algo 1 4 4 to_crc
        (λ n c. c)
        counting
        0
        (board 0 0 true (1 ∷ 2 ∷ 3 ∷ [])) in
    (p.failed ≡ true) ⊎ ((p.raw_pos ≡ 4) × Counted 4 p.sink w1)
stream_process-exact_example =
    stream_process-exact cfg none_algo 1 4 4 to_crc (λ n c. c) Counted counting_delivers
      source_keeps (λ n c w r. r) (omega arith) 0 (board 0 0 true (1 ∷ 2 ∷ 3 ∷ [])) refl

-- A package of four bytes behind a header of 96.
abbrev packed : Board
packed = board 0 0 true (zeros 96 ++ (5 ∷ 6 ∷ 7 ∷ 8 ∷ []))

stream_process-identity_example :
    let p =
      (stream_process io cfg (Identity.none_algo 28) 1 4 4 to_crc (λ n c. c) collect [] packed).0 in
    (p.failed ≡ true) ⊎ (p.sink ≡ slice 96 4 packed.download)
stream_process-identity_example =
    stream_process-identity cfg 28 (package_area 100) 4 4 to_crc (omega arith) (omega arith)
      packed.download packed refl (omega arith)

-- It does not fail.
packed-delivered :
    (stream_process io cfg (Identity.none_algo 28) 1 4 4 to_crc (λ n c. c) collect [] packed).0.sink
    ≡ 5 ∷ 6 ∷ 7 ∷ 8 ∷ []
unfolding stream_process proc_body fetch convert fw_pkg_read decompress_with_consumer dec_body judge
    dispatch while none_decompress none_crypt collect
packed-delivered = refl

counting-fails :
    (bytes : List ℕ) (n : ℕ) (w : Board)
    → is_eok (counting bytes n w).0.0 ≡ false
    → is_failure cfg.enospc (counting bytes n w).0.0 ≡ true
counting-fails bytes n w e = absurd (ground arith)

read-fits :
    (off len : ℕ) (w : Board) (bytes : List ℕ)
    → (io.read 1 off len w).0 ≡ some bytes
    → length bytes ≤ len
read-fits off len w bytes e =
    let same : slice off len w.download ≡ bytes = ground (arith, e) in
    omega (arith, length-take len (drop off w.download), ap length same)

-- After one round three of the four bytes are through, and the second round reads the last one.
abbrev one_round : Proc ℕ × Board
one_round =
    while 1 (proc_test io cfg (Identity.none_algo 28) 1 4 4 to_crc (λ n c. c) counting)
      (proc_body io cfg (Identity.none_algo 28) 1 4 4 to_crc (λ n c. c) counting)
      (proc_start io cfg (Identity.none_algo 28) 1 4 4 to_crc (λ n c. c) counting 0, packed)

stream_buffer-bound_example :
    length (fetch io cfg (Identity.none_algo 28) 1 4 4 to_crc (λ n c. c) counting one_round).0.buf
    ≤ 3
unfolding proc_body fetch convert fw_pkg_read decompress_with_consumer dec_body judge dispatch while
    none_decompress none_crypt
stream_buffer-bound_example =
    stream_buffer-bound io cfg 28 1 4 4 to_crc (λ n c. c) counting counting-fails (omega arith)
      (omega arith) read-fits 1 0 packed refl
