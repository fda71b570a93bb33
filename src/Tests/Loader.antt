-- ===== src/Tests/Loader.antt =====
-- The theorems on the checks and the release of a package (src/qboot.c) on a small board.
use Prim.Native.Nat.{bit_xor}
use rt_thread_qboot.Base.{
  ℕ, zero, suc, ◌≡◌, refl, true, some, List, [], ◌∷◌, ◌++◌, arith, slice, ◌==◌, while,
}
use rt_thread_qboot.Storage.{FwInfo}
use rt_thread_qboot.Storage.Header.{
  encode_header, decode_header, strcmp_eq, fw_info_read, fw_info_write,
}
use rt_thread_qboot.Storage.Targets.{erase_with_feed}
use rt_thread_qboot.Algo.{
  empty_tables, cmprs_id_to_index, crypto_id_to_index, cmprs_register, crypto_register, find_crypto,
  find_cmprs, get_algo_context, algo_init, algo_deinit,
}
use rt_thread_qboot.Algo.NoneCodec.{none_register, none_decompress, none_crypt}
use rt_thread_qboot.Stream.{
  decompress_with_consumer, dispatch, judge, dec_body, fw_pkg_read, fetch, convert, proc_body,
  stream_process, write_consumer,
}
use rt_thread_qboot.Boot.{
  crc_start, fw_info_check, crc_round, fw_crc_check, verify_header, dest_part_verify, erase_for,
  release_run, fw_release, fw_update,
}
use rt_thread_qboot.Boot.Shell.{clone_round, fw_clone}
use rt_thread_qboot.Boot.Checksum.{fw_crc_check-whole}
use rt_thread_qboot.Boot.Verified.{IsVerified, fw_update-IsVerified}
use rt_thread_qboot.Boot.Copied.{fw_clone-copies}
use rt_thread_qboot.Tests.Board.{
  Board, board, io, feed, cfg, tables, crc, crc_laws, image_area, package_area, image-Writable,
}

abbrev pub zeros : ℕ → List ℕ
zeros zero = []
zeros (suc n) = 0 ∷ zeros n

abbrev body : List ℕ
body = 1 ∷ 2 ∷ 3 ∷ 4 ∷ []

-- The header of `body`, as it is and uncompressed.
abbrev pub fw : FwInfo
fw = record {
  type = b'R' ∷ b'B' ∷ b'L' ∷ 0 ∷ [];
  algo = 0;
  algo2 = 1;
  time_stamp = 0;
  part_name = b'a' ∷ b'p' ∷ b'p' ∷ zeros 13;
  fw_ver = zeros 24;
  prod_code = zeros 24;
  pkg_crc = 0;
  raw_crc = 4294967286;
  raw_size = 4;
  pkg_size = 4;
  hdr_crc = 1565;
}

abbrev loaded : Board
loaded = board 0 0 true (encode_header fw ++ body)

-- The image as a release leaves it.
abbrev released : Board
released = record loaded { image = body ++ encode_header fw }

verified : (dest_part_verify io cfg crc tables 0 100 released).0 ≡ some fw
unfolding dest_part_verify fw_info_read verify_header fw_info_check strcmp_eq decode_header
    encode_header fw_crc_check while crc_round
verified = refl

after_release : fw_release io cfg crc tables feed 0 100 1 fw loaded ≡ (true, released)
unfolding fw_release release_run erase_for erase_with_feed stream_process proc_body fetch convert
    fw_pkg_read decompress_with_consumer dec_body judge dispatch write_consumer fw_info_write
    encode_header while none_decompress none_crypt none_register empty_tables cmprs_register
    crypto_register cmprs_id_to_index crypto_id_to_index find_crypto find_cmprs get_algo_context
    algo_init algo_deinit
after_release = refl

updated : (fw_update io cfg crc tables feed 0 100 1 fw loaded).0 ≡ some fw
unfolding fw_update
updated = rw after_release verified

fw_update-IsVerified_example :
    IsVerified io cfg crc 100 (fw_update io cfg crc tables feed 0 100 1 fw loaded).1.image fw
fw_update-IsVerified_example =
    fw_update-IsVerified cfg crc_laws tables 100 (image_area 100) (omega arith) (omega arith)
      (omega arith) feed 1 fw fw loaded (omega arith) updated

fw_crc_check-whole_example :
    ((fw_crc_check io cfg crc 0 1 3 4294967287 released).0
      ≡ (bit_xor (crc.cyc_cal crc_start (slice 1 3 released.image)) crc_start == 4294967287))
    × ((fw_crc_check io cfg crc 0 1 3 4294967287 released).1.image ≡ released.image)
fw_crc_check-whole_example =
    fw_crc_check-whole cfg crc_laws (image_area 100) 1 3 (omega arith) (omega arith) (omega arith)
      released.image 4294967287 released refl

cloned : (fw_clone io cfg feed 0 1 5 (board 0 0 true (9 ∷ 8 ∷ 7 ∷ 6 ∷ 5 ∷ 4 ∷ []))).0 ≡ true
unfolding fw_clone erase_with_feed while clone_round
cloned = refl

fw_clone-copies_example :
    slice 0 5 (fw_clone io cfg feed 0 1 5 (board 0 0 true (9 ∷ 8 ∷ 7 ∷ 6 ∷ 5 ∷ 4 ∷ []))).1.image
    ≡ slice 0 5 (9 ∷ 8 ∷ 7 ∷ 6 ∷ 5 ∷ 4 ∷ [])
fw_clone-copies_example =
    fw_clone-copies cfg (package_area 6) (λ off len w. refl) image-Writable 5 (omega arith)
      (omega arith) (omega arith) (9 ∷ 8 ∷ 7 ∷ 6 ∷ 5 ∷ 4 ∷ []) refl
      (board 0 0 true (9 ∷ 8 ∷ 7 ∷ 6 ∷ 5 ∷ 4 ∷ [])) refl cloned
