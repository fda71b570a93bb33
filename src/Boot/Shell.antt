-- ===== src/Boot/Shell.antt =====
-- The commands of the shell that touch storage (src/qboot.c): clone, delete and verify.
use rt_thread_qboot.Base.{
  ℕ, ◌+◌, Bool, true, false, Option, none, some, List, leb, ltb, ◌&&◌, if◌then◌else◌, not, add32,
  sub32, while,
}
use rt_thread_qboot.Storage.{
  IoOps, FwInfo, is_eok, open_read, open_write, open_for_release, target_count,
}
use rt_thread_qboot.Storage.Targets.{
  Opened, refused, unsized, opened, name_to_id, target_open, target_close, erase_with_feed,
}
use rt_thread_qboot.Stream.{StreamCfg}
use rt_thread_qboot.Boot.{piece_len, dest_part_verify}
use rt_thread_qboot.Boot.Release.{Board, app_resume_from, release_from_part, check_package}

module _ {W H : Type 0} (io : IoOps W H) (cfg : StreamCfg) where
  -- The position that the loop of `qbt_fw_clone` has reached.
  pub record Copy : Type 0 where
    pub failed : Bool
    pub pos : ℕ

  -- A round of the loop of `qbt_fw_clone`.
  unfoldable pub clone_round : H → H → ℕ → Copy × W → Copy × W
  clone_round dst src size (s, w) =
      let len = piece_len cfg.buf_size (sub32 size s.pos) in
      let (got, w1) = io.read src s.pos len w in
      elim got [
        | none ↦ (record s { failed = true }, w1)
        | some bytes ↦
            let (rst, w2) = io.write dst s.pos bytes w1 in
            if is_eok rst
            then (record s { pos = add32 s.pos len }, w2)
            else (record s { failed = true }, w2)
      ]

  abbrev pub clone_test : ℕ → Copy × W → Bool
  clone_test size (s, w) = ltb s.pos size && not s.failed

  abbrev pub clone_start : Copy
  clone_start = record { failed = false; pos = 0 }

  module _ (wdt_feed : W → W) where
    -- `qbt_fw_clone`
    unfoldable pub fw_clone : H → H → ℕ → W → Bool × W
    fw_clone dst src size w =
        let (r, w1) = erase_with_feed io wdt_feed dst 0 size w in
        if not (is_eok r)
        then (false, w1)
        else (let (s, w2) =
              while (size + 2) (clone_test size) (clone_round dst src size) (clone_start, w1) in
            (not s.failed, w2))

    -- `qbt_fw_delete`
    unfoldable pub fw_delete : H → ℕ → W → Bool × W
    fw_delete h part_size w =
        let (r, w1) = erase_with_feed io wdt_feed h 0 part_size w in (is_eok r, w1)

module _ {W H : Type 0} (b : Board W H) where
  -- `qboot resume` with its argument: the message that it prints.
  unfoldable pub resume_command : List ℕ → W → Bool × W
  resume_command name w =
      let id = name_to_id name in if leb target_count id then (false, w) else app_resume_from b id w

  -- `qboot release` with its argument.
  unfoldable pub release_command : List ℕ → W → Bool × W
  release_command name w =
      let id = name_to_id name in
      if leb target_count id then (false, w) else release_from_part b id false w

  -- What `qboot clone` does after the check of the source.
  unfoldable pub clone_checked : H → H → Option FwInfo × W → Bool × W
  clone_checked dst src (none, w) = (false, w)
  clone_checked dst src (some fw, w) =
      fw_clone b.io b.cfg b.wdt_feed dst src (add32 b.cfg.src_read_pos fw.pkg_size) w

  -- `qboot clone` with both targets open.
  unfoldable pub clone_opened : H → H → ℕ → W → Bool × W
  clone_opened dst src src_size w =
      let (ok, w1) = clone_checked dst src (check_package b src src_size w) in
      (ok, target_close b.io (some dst) (target_close b.io (some src) w1))

  unfoldable pub clone_from : H → Opened H × W → Bool × W
  clone_from dst (refused, w) = (false, target_close b.io (some dst) w)
  clone_from dst (unsized src, w) = (false, target_close b.io (some dst) w)
  clone_from dst (opened src src_size, w) = clone_opened dst src src_size w

  unfoldable pub clone_into : ℕ → Opened H × W → Bool × W
  clone_into src_id (refused, w) = (false, w)
  clone_into src_id (unsized dst, w) = (false, w)
  clone_into src_id (opened dst n, w) =
      if leb target_count src_id
      then (false, target_close b.io (some dst) w)
      else clone_from dst (target_open b.io src_id open_read true w)

  -- `qboot clone` with its two arguments. The size of the destination is not asked for.
  unfoldable pub clone_command : List ℕ → List ℕ → W → Bool × W
  clone_command src_name dst_name w =
      let dst_id = name_to_id dst_name in
      if leb target_count dst_id
      then (false, w)
      else clone_into (name_to_id src_name) (target_open b.io dst_id open_for_release false w)

  unfoldable pub verify_opened : Opened H × W → Bool × W
  verify_opened (refused, w) = (false, w)
  verify_opened (unsized h, w) = (false, w)
  verify_opened (opened h n, w) =
      let (got, w1) = dest_part_verify b.io b.cfg b.crc b.tables h n w in
      (elim got [ none ↦ false | some fw ↦ true ], target_close b.io (some h) w1)

  -- `qboot verify` with its argument.
  unfoldable pub verify_command : List ℕ → W → Bool × W
  verify_command name w =
      let id = name_to_id name in
      if leb target_count id
      then (false, w)
      else verify_opened (target_open b.io id open_read true w)

  unfoldable pub delete_opened : Opened H × W → Bool × W
  delete_opened (refused, w) = (false, w)
  delete_opened (unsized h, w) = (false, w)
  delete_opened (opened h n, w) =
      let (ok, w1) = fw_delete b.io b.cfg b.wdt_feed h n w in (ok, target_close b.io (some h) w1)

  -- `qboot del` with its argument.
  unfoldable pub delete_command : List ℕ → W → Bool × W
  delete_command name w =
      let id = name_to_id name in
      if leb target_count id
      then (false, w)
      else delete_opened (target_open b.io id open_write true w)
