-- ===== src/Boot/Release.antt =====
-- qbt_app_resume_from and qbt_release_from_part of src/qboot.c.
use rt_thread_qboot.Base.{ℕ, Bool, true, false, Option, none, some, List, leb, if◌then◌else◌, not}
use rt_thread_qboot.Storage.{
  IoOps, ParserOps, FwInfo, StoreDesc, open_read, open_for_release, target_app, target_count,
}
use rt_thread_qboot.Storage.Header.{strcmp_eq, release_sign_check, release_sign_write}
use rt_thread_qboot.Storage.Targets.{
  Opened, refused, unsized, opened, name_to_id, target_desc, target_open, target_close,
}
use rt_thread_qboot.Algo.{Tables}
use rt_thread_qboot.Stream.{StreamCfg}
use rt_thread_qboot.Boot.{Crc, fw_check, fw_update}

-- What the boot loader is built with: the storage driver, the header parser, the checksum, the
-- registered algorithms, the descriptions of the targets, the watchdog and QBOOT_PRODUCT_CODE.
pub record Board (W H : Type 0) : Type 0 where
  pub io : IoOps W H
  pub parser : ParserOps W H
  pub cfg : StreamCfg
  pub crc : Crc
  pub tables : Tables W
  pub descs : List StoreDesc
  pub wdt_feed : W → W
  pub product_code : List ℕ

module _ {W H : Type 0} (b : Board W H) where
  abbrev pub check_package : H → ℕ → W → Option FwInfo × W
  check_package = fw_check b.io b.cfg b.crc b.tables

  abbrev pub update_target : H → ℕ → H → FwInfo → W → Option FwInfo × W
  update_target = fw_update b.io b.cfg b.crc b.tables b.wdt_feed

  -- What `qbt_app_resume_from` does with a package that was checked.
  unfoldable pub resume_checked : H → H → ℕ → StoreDesc → FwInfo → W → Bool × W
  resume_checked src dst dst_size app fw w =
      if not (strcmp_eq fw.prod_code b.product_code)
      then (false, w)
      else (if not (strcmp_eq fw.part_name app.role_name)
          then (false, w)
          else (let (got, w1) = update_target dst dst_size src fw w in
              (elim got [ none ↦ false | some fw' ↦ true ], w1)))

  -- What it does with both targets open, up to `exit`.
  unfoldable pub resume_opened : H → ℕ → H → ℕ → StoreDesc → W → Bool × W
  resume_opened src src_size dst dst_size app w =
      let (got, w1) = check_package src src_size w in
      elim got [ none ↦ (false, w1) | some fw ↦ resume_checked src dst dst_size app fw w1 ]

  -- What it does with the source open and the application's target asked for.
  unfoldable pub resume_into : H → ℕ → StoreDesc → Opened H × W → Bool × W
  resume_into src src_size app (refused, w) = (false, target_close b.io (some src) w)
  resume_into src src_size app (unsized dst, w) = (false, target_close b.io (some src) w)
  resume_into src src_size app (opened dst dst_size, w) =
      let (rst, w1) = resume_opened src src_size dst dst_size app w in
      (rst, target_close b.io (some dst) (target_close b.io (some src) w1))

  unfoldable pub resume_with : Opened H × W → Bool × W
  resume_with (refused, w) = (false, w)
  resume_with (unsized src, w) = (false, w)
  resume_with (opened src src_size, w) = elim (target_desc b.descs target_app) [
    | none ↦ (false, target_close b.io (some src) w)
    | some app ↦ resume_into src src_size app (target_open b.io target_app open_for_release true w)
  ]

  -- `qbt_app_resume_from`
  unfoldable pub app_resume_from : ℕ → W → Bool × W
  app_resume_from src_id w = elim (target_desc b.descs src_id) [
    | none ↦ (false, w)
    | some desc ↦ resume_with (target_open b.io src_id open_read true w)
  ]

  -- The end of `qbt_release_from_part`: the sign of a release, with the header that the verification
  -- left in the static `fw_info`.
  unfoldable pub sign_release : H → FwInfo → W → W
  sign_release src fw w =
      let (signed, w1) = release_sign_check b.parser src (some fw) w in
      if signed then w1 else (release_sign_write b.parser src (some fw) w1).1

  -- The handle that `exit` finds in `dst_handle` comes with the result.
  unfoldable pub release_to : H → FwInfo → Opened H × W → (Bool × Option H) × W
  release_to src fw (refused, w) = ((false, none), w)
  release_to src fw (unsized dst, w) = ((false, some dst), w)
  release_to src fw (opened dst dst_size, w) =
      let (got, w1) = update_target dst dst_size src fw w in
      elim got [
        | none ↦ ((false, some dst), w1)
        | some fw' ↦ ((true, some dst), sign_release src fw' w1)
      ]

  unfoldable pub release_new : H → FwInfo → W → (Bool × Option H) × W
  release_new src fw w =
      let id = name_to_id fw.part_name in
      if leb target_count id
      then ((false, none), w)
      else release_to src fw (target_open b.io id open_for_release true w)

  -- What `qbt_release_from_part` does with a package that was checked.
  unfoldable pub release_checked : H → Bool → FwInfo → W → (Bool × Option H) × W
  release_checked src check_sign fw w =
      let (signed, w1) = release_sign_check b.parser src (some fw) w in
      if not (strcmp_eq fw.prod_code b.product_code)
      then ((false, none), w)
      else (if check_sign
          then (if signed then ((true, none), w1) else release_new src fw w1)
          else release_new src fw w)

  -- What it does with the source open, up to `exit`.
  unfoldable pub release_opened : H → ℕ → Bool → W → (Bool × Option H) × W
  release_opened src src_size check_sign w =
      let (got, w1) = check_package src src_size w in
      elim got [ none ↦ ((false, none), w1) | some fw ↦ release_checked src check_sign fw w1 ]

  unfoldable pub release_with : Bool → Opened H × W → Bool × W
  release_with check_sign (refused, w) = (false, w)
  release_with check_sign (unsized src, w) = (false, w)
  release_with check_sign (opened src src_size, w) =
      let ((rst, dst), w1) = release_opened src src_size check_sign w in
      (rst, target_close b.io (some src) (target_close b.io dst w1))

  -- `qbt_release_from_part`
  unfoldable pub release_from_part : ℕ → Bool → W → Bool × W
  release_from_part src_id check_sign w = elim (target_desc b.descs src_id) [
    | none ↦ (false, w)
    | some desc ↦ release_with check_sign (target_open b.io src_id open_read true w)
  ]
