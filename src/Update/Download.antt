-- ===== src/Update/Download.antt =====
-- The download helper of src/qboot_update.c: a session that writes an image to the DOWNLOAD target.
use rt_thread_qboot.Base.{
  ℕ, Bool, true, false, Option, none, some, List, if◌then◌else◌, length, not,
}
use rt_thread_qboot.Storage.{
  is_eok, IoOps, ParserOps, FwInfo, StoreDesc, open_read, open_for_download, target_download,
  target_factory,
}
use rt_thread_qboot.Storage.Header.{strcmp_eq, release_sign_clear}
use rt_thread_qboot.Storage.Targets.{
  Opened, refused, unsized, opened, target_open, target_close, target_desc, erase_with_feed,
  app_part_name, download_part_name, factory_part_name,
}
use rt_thread_qboot.Update.{Sys, UpdateOps}
use rt_thread_qboot.Update.Events.{
  download_cleanup, set_download_ok, set_total, on_start, on_finish, on_data, on_data_len,
}

-- `qbt_fw_check` of the helper. `some fw` is an `fw_info` that is no null pointer; the result holds
-- what it is set to.
unfoldable pub helper_fw_check : Bool → ℕ → Option (List ℕ) → Option FwInfo → Bool × Option FwInfo
helper_fw_check dl_ok part_len none fw_info = (false, fw_info)
helper_fw_check dl_ok part_len (some name) fw_info =
    let allow : Bool =
      (if strcmp_eq name download_part_name
        then dl_ok
        else (if strcmp_eq name factory_part_name then true else false)) in
    if not allow then (false, fw_info) else (
      true,
      elim fw_info [
        | none ↦ none
        | some fw ↦ some (record fw {
          algo = 0;
          part_name = app_part_name;
          raw_size = part_len;
          pkg_size = part_len;
        })
      ],
    )

module _ {W H : Type 0} (io : IoOps W H) where
  -- One of the two probes of `qbt_update_mgr_try_recover`.
  unfoldable pub probe_target : ℕ → List ℕ → Bool → W → Bool × W
  unfolding target_open target_close
  probe_target id name dl_ok w =
      let (got, w1) = target_open io id open_read true w in
      elim got [
        | refused ↦ (false, w1)
        | unsized h ↦ (false, w1)
        | opened h part_size ↦
            ((helper_fw_check dl_ok part_size (some name) none).0, target_close io (some h) w1)
      ]

  -- `qbt_update_mgr_try_recover`, the callback that the helper offers.
  unfoldable pub mgr_try_recover : Bool → W → Bool × W
  unfolding probe_target
  mgr_try_recover dl_ok w =
      let (ok, w1) = probe_target target_download download_part_name dl_ok w in
      if ok then (true, w1) else probe_target target_factory factory_part_name dl_ok w1

module _ {W H : Type 0} (io : IoOps W H) (parser : ParserOps W H) (wdt_feed : W → W)
    (descs : List StoreDesc) (ops : UpdateOps W) where
  -- What `download_begin` does once the target is open.
  unfoldable pub begin_opened : H → Sys W H → Bool × Sys W H
  begin_opened h s =
      let w1 = (release_sign_clear parser h none s.world).1 in
      let (rst, w2) = erase_with_feed io wdt_feed h 0 s.dl_size w1 in
      let s2 = record s { world = w2 } in
      if is_eok rst
      then (true, on_start ops (set_total s.dl_size s2))
      else (false, download_cleanup io s2)

  -- What `download_begin` does after the call of `qbt_target_open`. Where the size query failed,
  -- `s_dl.handle` is left set.
  unfoldable pub begin_with : Opened H → Sys W H → Bool × Sys W H
  begin_with refused s = (false, s)
  begin_with (unsized h) s = (false, record s { dl_handle = some h })
  begin_with (opened h n) s = begin_opened h (record s { dl_handle = some h; dl_size = n })

  -- `qbt_update_mgr_download_begin`
  unfoldable pub download_begin : Sys W H → Bool × Sys W H
  download_begin s = elim (target_desc descs target_download) [
    | none ↦ (false, s)
    | some desc ↦
        let s1 = set_download_ok io false (download_cleanup io s) in
        let (got, w) = target_open io target_download open_for_download true s1.world in
        begin_with got (record s1 { world = w })
  ]

  -- `qbt_update_mgr_download_write`, on the value of `s_dl.handle`.
  unfoldable pub write_to : Option H → ℕ → List ℕ → Sys W H → Bool × Sys W H
  write_to none off bytes s = (false, s)
  write_to (some h) off bytes s =
      let (rst, w) = io.write h off bytes s.world in
      let s1 = record s { world = w } in
      if is_eok rst
      then (true, on_data_len (length bytes) (on_data ops s1))
      else (false, download_cleanup io (on_finish io ops false s1))

  unfoldable pub download_write : ℕ → List ℕ → Sys W H → Bool × Sys W H
  unfolding write_to
  download_write off bytes s = write_to s.dl_handle off bytes s
