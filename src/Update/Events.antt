-- ===== src/Update/Events.antt =====
-- The event handlers of the update manager, src/qboot_update.c.
use rt_thread_qboot.Base.{
  ℕ, Bool, true, false, Option, none, some, ◌==◌, if◌then◌else◌, add32, ◌||◌,
}
use rt_thread_qboot.Storage.{rt_error, IoOps}
use rt_thread_qboot.Storage.Targets.{target_close}
use rt_thread_qboot.Update.{
  UpdState, wait, recv, error, ready, Sys, UpdateOps, reason_none, reason_req, reason_in_progress,
  reason_done,
}

module _ {W H : Type 0} (io : IoOps W H) where
  -- `qbt_update_mgr_download_cleanup`, on the value of `s_dl.handle`.
  unfoldable pub cleanup_handle : Option H → Sys W H → Sys W H
  unfolding target_close
  cleanup_handle none s = s
  cleanup_handle (some h) s = record s {
    dl_handle = none;
    world = target_close io (some h) s.world;
  }

  unfoldable pub download_cleanup : Sys W H → Sys W H
  unfolding cleanup_handle
  download_cleanup s = cleanup_handle s.dl_handle s

  -- `qbt_update_mgr_set_download_ok`
  unfoldable pub set_download_ok : Bool → Sys W H → Sys W H
  set_download_ok ok s = download_cleanup (record s { dl_ok = ok })

module _ {W H : Type 0} where
  -- `qbt_update_mgr_set_total`
  unfoldable pub set_total : ℕ → Sys W H → Sys W H
  set_total total s = record s { total_bytes = total }

  -- `qbt_update_mgr_on_data_len`
  unfoldable pub on_data_len : ℕ → Sys W H → Sys W H
  on_data_len bytes s = record s { done_bytes = add32 s.done_bytes bytes }

  -- `qbt_update_reset_progress`
  unfoldable pub reset_progress : Sys W H → Sys W H
  reset_progress s = record s { done_bytes = 0; last_print = 0; last_percent = 0 }

module _ {W H : Type 0} (ops : UpdateOps W) where
  -- The timestamps that `qbt_update_mgr_set_state` takes.
  unfoldable pub stamp : UpdState → Sys W H → Sys W H
  stamp wait s = let (now, w) = ops.tick_get s.world in record s { wait_start = now; world = w }
  stamp recv s = let (now, w) = ops.tick_get s.world in record s { download_last = now; world = w }
  stamp _ s = s

  unfoldable pub set_state : UpdState → Sys W H → Sys W H
  unfolding stamp
  set_state st s = stamp st (record s { state = st })

  -- `qbt_update_mgr_try_recover_once`
  unfoldable pub try_recover_once : Sys W H → Bool × Sys W H
  try_recover_once s =
      if s.recover_probe_used
      then (false, s)
      else (let (found, w) = ops.try_recover s.dl_ok s.world in
          (found, record s { recover_probe_used = true; world = w }))

  unfoldable pub on_request : Sys W H → Sys W H
  unfolding set_state
  on_request s = set_state wait (record s { world = ops.set_reason reason_req s.world })

  unfoldable pub on_start : Sys W H → Sys W H
  unfolding set_state reset_progress
  on_start s =
      reset_progress (
        set_state recv
          (record s { recover_probe_used = false; world = ops.enter_download s.world }))

  unfoldable pub on_data : Sys W H → Sys W H
  on_data s = elim s.state [
    | recv ↦ let (now, w) = ops.tick_get s.world in record s { download_last = now; world = w }
    | _ ↦ s
  ]

  unfoldable pub on_abort : Sys W H → Sys W H
  unfolding set_state
  on_abort s = set_state wait (record s { world = ops.leave_download s.world })

  -- `qboot_notify_update_result`
  unfoldable pub notify_update_result : Bool → Sys W H → Sys W H
  unfolding set_state
  notify_update_result true s = record s { world = ops.set_reason reason_done s.world }
  notify_update_result false s =
      set_state wait (record s { world = ops.set_reason reason_in_progress s.world })

module _ {W H : Type 0} (io : IoOps W H) (ops : UpdateOps W) where
  -- `qbt_update_mgr_ready`
  unfoldable pub mgr_ready : Sys W H → Sys W H
  mgr_ready s =
      let s1 = download_cleanup io (set_state ops ready (record s { ready_flag = true })) in
      record s1 { world = ops.on_ready_to_app s1.world }

  unfoldable pub on_finish : Bool → Sys W H → Sys W H
  on_finish ok s =
      let s1 = set_download_ok io ok (record s { world = ops.leave_download s.world }) in
      if ok
      then mgr_ready (record s1 { world = ops.set_reason reason_done s1.world })
      else set_state ops wait (record s1 { state = error; world = ops.on_error rt_error s1.world })

  -- The `switch` of `qbt_update_mgr_register`.
  unfoldable pub register_reason : ℕ → Sys W H → Sys W H
  register_reason reason s =
      if reason == reason_in_progress
      then set_state ops wait s
      else (if (reason == reason_none) || (reason == reason_done)
          then (let (valid, w) = ops.is_app_valid s.world in
              let s1 = record s { world = w } in
              if valid then mgr_ready s1 else set_state ops wait s1)
          else (if reason == reason_req then on_request ops s else set_state ops wait s))

  -- `qbt_update_mgr_register`
  unfoldable pub register : ℕ → ℕ → Sys W H → Sys W H
  register wait_ms idle_ms s =
      let (reason, w) = ops.get_reason s.world in
      register_reason reason (record s {
        ops_set = true;
        ready_flag = false;
        recover_probe_used = false;
        wait_ms = wait_ms;
        idle_ms = idle_ms;
        world = w;
      })
