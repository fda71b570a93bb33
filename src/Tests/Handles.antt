-- ===== src/Tests/Handles.antt =====
-- The theorems on the handles of the boot loader (src/qboot.c) on a small board.
use mathlib.Core.Path.{subst}
use rt_thread_qboot.Base.{ℕ, ◌≡◌, refl, true, false, none, some, List, [], ◌∷◌, arith}
use rt_thread_qboot.Storage.{open_read}
use rt_thread_qboot.Storage.Header.{fw_info_read, strcmp_eq, decode_header}
use rt_thread_qboot.Boot.{fw_check, check_header, fw_info_check}
use rt_thread_qboot.Storage.Targets.{opened, target_open, open_with, sized}
use rt_thread_qboot.Algo.{
  CryptoOps, StreamCtx, AlgoContext, get_algo_context, find_crypto, find_cmprs, empty_tables,
  cmprs_register, crypto_register, cmprs_id_to_index, crypto_id_to_index, algo_init, algo_deinit,
}
use rt_thread_qboot.Algo.NoneCodec.{
  none_cmprs_ops, none_crypt_ops, none_register, none_decompress, none_crypt,
}
use rt_thread_qboot.Stream.Keeps.{AlgoFrame}
use rt_thread_qboot.Boot.Keeps.{TablesFrame}
use rt_thread_qboot.Boot.Release
use rt_thread_qboot.Boot.Release.{app_resume_from, release_from_part, check_package}
use rt_thread_qboot.Boot.Balance.{app_resume_from-live, release_from_part-live}
use rt_thread_qboot.Boot.Guarded.{LooksOnly, release_from_part-rejected}
use rt_thread_qboot.Tests.Board.{
  Board, board, io, parser, feed, cfg, crc, descs, tables, live_count, live_parser, weigh, sizes,
}

abbrev none_algo : AlgoContext Board
none_algo = record { crypt_ops = some none_crypt_ops; cmprs_ops = none_cmprs_ops 28 }

abbrev loader : Release.Board Board ℕ
loader = record {
  io = io;
  parser = parser;
  cfg = cfg;
  crc = crc;
  tables = tables;
  descs = descs;
  wdt_feed = feed;
  product_code = [];
}

none_alone :
    (id : ℕ) (algo : AlgoContext Board) → get_algo_context id tables ≡ some algo → none_algo ≡ algo
unfolding get_algo_context find_crypto find_cmprs none_register empty_tables cmprs_register
    crypto_register cmprs_id_to_index crypto_id_to_index
none_alone id algo e = ground arith

none_crypt_alone :
    (crypt : CryptoOps Board) → none_algo.crypt_ops ≡ some crypt → none_crypt_ops ≡ crypt
none_crypt_alone crypt e = ground arith

none_decompress-keeps :
    {A : Type 0} (f : Board → A) (buf : List ℕ) (cap : ℕ) (ctx : StreamCtx) (w : Board)
    → f (none_decompress 28 buf cap ctx w).1 ≡ f w
unfolding none_decompress
none_decompress-keeps f [] cap ctx w = refl
none_decompress-keeps f (x ∷ buf) cap ctx w = refl

none_frame : {A : Type 0} (f : Board → A) → AlgoFrame none_algo f
unfolding none_crypt
none_frame f = record {
  decompress_keeps = none_decompress-keeps f;
  decrypt_keeps = λ crypt bytes w e.
      subst (λ (c : CryptoOps Board). f (c.decrypt bytes w).1 ≡ f w) (none_crypt_alone crypt e)
        refl;
}

codecs : {A : Type 0} (f : Board → A) → TablesFrame tables f
unfolding algo_init algo_deinit
codecs f = record {
  codec = λ id algo e. subst (λ a. AlgoFrame a f) (none_alone id algo e) (none_frame f);
  init_keeps = λ id algo w e. subst (λ a. f (algo_init a w).1 ≡ f w) (none_alone id algo e) refl;
  deinit_keeps = λ id algo w e. subst (λ a. f (algo_deinit a w) ≡ f w) (none_alone id algo e) refl;
}

app_resume_from-live_example : (app_resume_from loader 1 (board 3 0 true [])).1.live ≡ 3
app_resume_from-live_example =
    app_resume_from-live loader weigh (λ w. w.live) live_count (codecs (λ w. w.live)) live_parser
      (λ w. refl) 1 (board 3 0 true [])

release_from_part-live_example : (release_from_part loader 1 true (board 3 0 true [])).1.live ≡ 3
release_from_part-live_example =
    release_from_part-live loader weigh (λ w. w.live) live_count sizes (codecs (λ w. w.live))
      live_parser (λ w. refl) 1 true (board 3 0 true [])

-- Opening, reading and closing leave the image alone.
image_looks : LooksOnly loader (λ w. w.image)
image_looks = record {
  open_keeps = λ id flags w. refl;
  close_keeps = λ h w. refl;
  size_keeps = λ h w. refl;
  read_keeps = λ h off len w. refl;
  codecs = codecs (λ w. w.image);
}

-- A board whose DOWNLOAD target holds no package.
abbrev no_package : Board
no_package = board 0 0 true (1 ∷ 2 ∷ 3 ∷ [])

no_package-fails :
    (h size : ℕ)
    → (target_open io 1 open_read true no_package).0 ≡ opened h size
    → (check_package loader h size (target_open io 1 open_read true no_package).1).0 ≡ none
unfolding target_open open_with sized fw_check fw_info_read check_header fw_info_check strcmp_eq
    decode_header
no_package-fails h size e = let is_1 : h ≡ 1 = ground arith in rw is_1 refl

release_from_part-rejected_example :
    ((release_from_part loader 1 true no_package).0 ≡ false)
    × ((release_from_part loader 1 true no_package).1.image ≡ [])
release_from_part-rejected_example =
    release_from_part-rejected loader (λ w. w.image) image_looks 1 true no_package no_package-fails
