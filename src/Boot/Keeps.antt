-- ===== src/Boot/Keeps.antt =====
-- What the storage driver and the codecs leave alone, the checks and the update of src/qboot.c leave
-- alone.
use rt_thread_qboot.Base.{
  ℕ, ◌+◌, ◌≡◌, refl, ◌∙◌, Bool, true, false, Option, none, some, List, if◌then◌else◌, add32, sub32,
  while_keeps, arith, Option-cases, inl, inr,
}
use rt_thread_qboot.Storage.{IoOps, FwInfo}
use rt_thread_qboot.Storage.Header.{fw_info_read, fw_info_write}
use rt_thread_qboot.Storage.Targets.{erase_with_feed}
use rt_thread_qboot.Algo.{
  to_write, to_crc, AlgoContext, Tables, get_algo_context, algo_init, algo_deinit,
}
use rt_thread_qboot.Stream.{
  StreamCfg, stream_process, write_consumer, seek_write, crc_consumer, WriteState,
}
use rt_thread_qboot.Stream.Keeps.{AlgoFrame, stream_process-keeps}
use rt_thread_qboot.Boot.{
  Crc, Scan, crc_start, piece_len, crc_round, scan_test, scan_start, fw_crc_check, app_crc_run,
  app_crc_check, check_header, fw_check, verify_header, dest_part_verify, erase_for, release_run,
  fw_release, fw_update,
}

-- The registered algorithms leave alone what `f` observes.
pub record TablesFrame {W A : Type 0} (tables : Tables W) (f : W → A) : Type 0 where
  pub codec :
      (id : ℕ) (algo : AlgoContext W) → get_algo_context id tables ≡ some algo → AlgoFrame algo f
  pub init_keeps :
      (id : ℕ) (algo : AlgoContext W) (w : W)
      → get_algo_context id tables ≡ some algo
      → f (algo_init algo w).1 ≡ f w
  pub deinit_keeps :
      (id : ℕ) (algo : AlgoContext W) (w : W)
      → get_algo_context id tables ≡ some algo
      → f (algo_deinit algo w) ≡ f w

module _ {W H A : Type 0} (io : IoOps W H) (cfg : StreamCfg) (crc : Crc) (tables : Tables W)
    (f : W → A) (read_keeps : (h : H) (off len : ℕ) (w : W) → f (io.read h off len w).1 ≡ f w)
    (codecs : TablesFrame tables f) where
  crc_round-keeps :
      (h : H) (addr size : ℕ) (s : Scan × W) → f (crc_round io cfg crc h addr size s).1 ≡ f s.1
  unfolding crc_round
  crc_round-keeps h addr size (s, w) =
      let len : ℕ = piece_len cfg.buf_size (sub32 size s.pos) in
      ground (arith, read_keeps h (add32 addr s.pos) len w)

  fw_crc_check-keeps :
      (h : H) (addr size expected : ℕ) (w : W)
      → f (fw_crc_check io cfg crc h addr size expected w).1 ≡ f w
  unfolding fw_crc_check
  fw_crc_check-keeps h addr size expected w =
      while_keeps (λ s. f s.1 ≡ f w) (scan_test io cfg crc size) (crc_round io cfg crc h addr size)
        (λ s e t. crc_round-keeps h addr size s ∙ e) (size + 1) (scan_start io cfg crc, w) refl

  app_crc_run-keeps :
      (src : H) (fw : FwInfo) (algo : AlgoContext W) (w : W)
      → get_algo_context fw.algo tables ≡ some algo
      → f (app_crc_run io cfg crc tables src fw algo w).1 ≡ f w
  unfolding app_crc_run
  app_crc_run-keeps src fw algo w e =
      let (p, w1) =
        stream_process io cfg algo src fw.pkg_size fw.raw_size to_crc (λ pos c. c)
          (crc_consumer crc.cyc_cal) crc_start w in
      codecs.deinit_keeps fw.algo algo w1 e
      ∙ stream_process-keeps io cfg algo src fw.pkg_size fw.raw_size to_crc (λ pos c. c)
          (crc_consumer crc.cyc_cal) f read_keeps (codecs.codec fw.algo algo e)
          (λ bytes c w. unfold crc_consumer in refl) crc_start w

  app_crc_found-keeps :
      (src : H) (fw : FwInfo) (got : Option (AlgoContext W)) (w : W)
      → get_algo_context fw.algo tables ≡ got
      → f (app_crc_check io cfg crc tables src fw w).1 ≡ f w
  unfolding app_crc_check
  app_crc_found-keeps src fw none w e = rw (e, app_crc_check) refl
  app_crc_found-keeps src fw (some algo) w e =
      let (ready, w1) = algo_init algo w in
      ground (arith, e, app_crc_run-keeps src fw algo w1 e, codecs.init_keeps fw.algo algo w e)

  fw_info_read-keeps :
      (h : H) (len : ℕ) (tail : Bool) (w : W)
      → f (fw_info_read io cfg.src_read_pos h len tail w).1 ≡ f w
  unfolding fw_info_read
  fw_info_read-keeps h len tail w =
      let off : ℕ = (if tail then sub32 len cfg.src_read_pos else 0) in
      ground (arith, read_keeps h off cfg.src_read_pos w)

  check_header-keeps :
      (h : H) (fw : FwInfo) (w : W) → f (check_header io cfg crc tables h fw w).1 ≡ f w
  unfolding check_header
  check_header-keeps h fw w =
      let (ok, w1) = fw_crc_check io cfg crc h cfg.src_read_pos fw.pkg_size fw.pkg_crc w in
      ground (
        arith,
        fw_crc_check-keeps h cfg.src_read_pos fw.pkg_size fw.pkg_crc w,
        app_crc_found-keeps h fw (get_algo_context fw.algo tables) w1 refl,
      )

  verify_header-keeps :
      (h : H) (fw : FwInfo) (w : W) → f (verify_header io cfg crc tables h fw w).1 ≡ f w
  unfolding verify_header
  verify_header-keeps h fw w = ground (arith, fw_crc_check-keeps h 0 fw.raw_size fw.raw_crc w)

  pub fw_check-keeps : (h : H) (len : ℕ) (w : W) → f (fw_check io cfg crc tables h len w).1 ≡ f w
  unfolding fw_check
  fw_check-keeps h len w = elim (Option-cases (fw_info_read io cfg.src_read_pos h len false w).0) [
    | inl n ↦ rw (n, fw_check) (fw_info_read-keeps h len false w)
    | inr (fw, n) ↦
        rw (n, fw_check)
          (check_header-keeps h fw (fw_info_read io cfg.src_read_pos h len false w).1
            ∙ fw_info_read-keeps h len false w)
  ]

  pub dest_part_verify-keeps :
      (h : H) (len : ℕ) (w : W) → f (dest_part_verify io cfg crc tables h len w).1 ≡ f w
  unfolding dest_part_verify
  dest_part_verify-keeps h len w =
      elim (Option-cases (fw_info_read io cfg.src_read_pos h len true w).0) [
        | inl n ↦ rw (n, dest_part_verify) (fw_info_read-keeps h len true w)
        | inr (fw, n) ↦
            rw (n, dest_part_verify)
              (verify_header-keeps h fw (fw_info_read io cfg.src_read_pos h len true w).1
                ∙ fw_info_read-keeps h len true w)
      ]

  module _ (wdt_feed : W → W)
      (erase_keeps : (h : H) (off len : ℕ) (w : W) → f (io.erase h off len w).1 ≡ f w)
      (write_keeps : (h : H) (off : ℕ) (bytes : List ℕ) (w : W)
        → f (io.write h off bytes w).1 ≡ f w)
      (feed_keeps : (w : W) → f (wdt_feed w) ≡ f w) where
    feed_erase-keeps :
        (h : H) (off len : ℕ) (w : W) → f (erase_with_feed io wdt_feed h off len w).1 ≡ f w
    unfolding erase_with_feed
    feed_erase-keeps h off len w =
        feed_keeps (io.erase h off len (wdt_feed w)).1
        ∙ erase_keeps h off len (wdt_feed w)
        ∙ feed_keeps w

    erase_for-keeps :
        (dst : H) (size : ℕ) (fw : FwInfo) (w : W)
        → f (erase_for io cfg crc tables wdt_feed dst size fw w).1 ≡ f w
    unfolding erase_for
    erase_for-keeps dst size fw w =
        let w1 = (erase_with_feed io wdt_feed dst 0 fw.raw_size w).1 in
        ground (
          arith,
          feed_erase-keeps dst 0 fw.raw_size w,
          feed_erase-keeps dst (sub32 size cfg.src_read_pos) cfg.src_read_pos w1,
        )

    write_consumer-keeps :
        (bytes : List ℕ) (s : WriteState H) (w : W) → f (write_consumer io bytes s w).1 ≡ f w
    unfolding write_consumer
    write_consumer-keeps bytes s w = ground (arith, write_keeps s.dst_handle s.raw_pos bytes w)

    fw_info_write-keeps :
        (h : H) (len : ℕ) (fw : FwInfo) (w : W)
        → f (fw_info_write io cfg.src_read_pos h len fw true w).1 ≡ f w
    unfolding fw_info_write
    fw_info_write-keeps h len fw w = write_keeps h _ _ w

    release_run-keeps :
        (dst : H) (size : ℕ) (src : H) (fw : FwInfo) (algo : AlgoContext W) (w : W)
        → get_algo_context fw.algo tables ≡ some algo
        → f (release_run io cfg crc tables wdt_feed dst size src fw algo w).1 ≡ f w
    unfolding release_run
    release_run-keeps dst size src fw algo w e =
        let w1 = (erase_for io cfg crc tables wdt_feed dst size fw w).1 in
        let start : WriteState H = record { dst_handle = dst; raw_pos = 0 } in
        let (p, w2) =
          stream_process io cfg algo src fw.pkg_size fw.raw_size to_write seek_write
            (write_consumer io) start w1 in
        let streamed =
          stream_process-keeps io cfg algo src fw.pkg_size fw.raw_size to_write seek_write
            (write_consumer io) f read_keeps (codecs.codec fw.algo algo e) write_consumer-keeps
            start w1 in
        ground (
          arith,
          erase_for-keeps dst size fw w,
          streamed,
          codecs.deinit_keeps fw.algo algo w1 e,
          codecs.deinit_keeps fw.algo algo w2 e,
          fw_info_write-keeps dst size fw (algo_deinit algo w2),
        )

    fw_release-keeps :
        (dst : H) (size : ℕ) (src : H) (fw : FwInfo) (got : Option (AlgoContext W)) (w : W)
        → get_algo_context fw.algo tables ≡ got
        → f (fw_release io cfg crc tables wdt_feed dst size src fw w).1 ≡ f w
    unfolding fw_release
    fw_release-keeps dst size src fw none w e = rw (e, fw_release) refl
    fw_release-keeps dst size src fw (some algo) w e =
        let w1 = (algo_init algo w).1 in
        ground (
          arith,
          e,
          release_run-keeps dst size src fw algo w1 e,
          codecs.init_keeps fw.algo algo w e,
        )

    pub fw_update-keeps :
        (dst : H) (size : ℕ) (src : H) (fw : FwInfo) (w : W)
        → f (fw_update io cfg crc tables wdt_feed dst size src fw w).1 ≡ f w
    unfolding fw_update
    fw_update-keeps dst size src fw w =
        let w1 = (fw_release io cfg crc tables wdt_feed dst size src fw w).1 in
        ground (
          arith,
          fw_release-keeps dst size src fw (get_algo_context fw.algo tables) w refl,
          dest_part_verify-keeps dst size w1,
        )
