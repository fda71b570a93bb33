-- ===== src/Update/Release.antt =====
-- When the update manager lets the boot loader go on: the flag that ends `qbt_update_mgr_poll`.
use rt_thread_qboot.Base.{ℕ, true, false, none, ◌≡◌, ◌⊎◌, arith, ◌<◌, ◌≤◌, sub32}
use rt_thread_qboot.Storage.{IoOps}
use rt_thread_qboot.Update.{Sys, UpdateOps, wait, recv, ready, reason_none, reason_done}
use rt_thread_qboot.Update.Events.{
  register, register_reason, mgr_ready, on_request, set_state, download_cleanup, try_recover_once,
}
use rt_thread_qboot.Update.Poll.{
  poll_round, wait_round, recv_round, leave_or, recover_or, go_on, print_progress,
}

module _ {W H : Type 0} (io : IoOps W H) (ops : UpdateOps W) where
  -- The window of the state that `s` is in has run out at tick `now`.
  abbrev pub TimedOut : ℕ → Sys W H → Type 0
  TimedOut now s =
      ((s.state ≡ wait) × (0 < s.wait_ms) × (s.wait_ms ≤ sub32 now s.wait_start))
      ⊎ ((s.state ≡ recv) × (0 < s.idle_ms) × (s.idle_ms ≤ sub32 now s.download_last))

  -- There is something to start: a valid application, or a backup that the one probe of the session
  -- finds.
  abbrev pub Startable : W → Sys W H → Type 0
  Startable w s =
      ((ops.is_app_valid w).0 ≡ true)
      ⊎ ((s.recover_probe_used ≡ false)
          × ((ops.try_recover s.dl_ok (ops.is_app_valid w).1).0 ≡ true))

  -- A round of the loop that sets the flag does so after a timeout, with an application or a backup
  -- to start; it ends in READY, with no download handle left.
  pub poll_round-releases :
      (s : Sys W H)
      → s.ready_flag ≡ false
      → (poll_round io ops s).ready_flag ≡ true
      → TimedOut (ops.tick_get s.world).0 s
        × Startable (ops.tick_get s.world).1 s
        × ((poll_round io ops s).state ≡ ready)
        × ((poll_round io ops s).dl_handle ≡ none)
  unfolding poll_round wait_round recv_round leave_or recover_or go_on print_progress
      try_recover_once mgr_ready set_state download_cleanup
  poll_round-releases s f h = ground arith

  -- A round in a state whose window has run out, with something to start, sets the flag.
  pub poll_round-Startable :
      (s : Sys W H)
      → TimedOut (ops.tick_get s.world).0 s
      → Startable (ops.tick_get s.world).1 s
      → (poll_round io ops s).ready_flag ≡ true
  unfolding poll_round wait_round recv_round leave_or recover_or go_on print_progress
      try_recover_once mgr_ready set_state download_cleanup
  poll_round-Startable s t h = ground arith

  -- Registration goes on to the application exactly if the stored reason asks for no update and the
  -- application is valid; otherwise it opens the waiting window.
  pub register_outcome :
      (wait_ms idle_ms : ℕ) (s : Sys W H)
      → let (reason, w) = ops.get_reason s.world in
        let go =
          ((reason ≡ reason_none) ⊎ (reason ≡ reason_done)) × ((ops.is_app_valid w).0 ≡ true) in
        let s' = register io ops wait_ms idle_ms s in
        (go × (s'.ready_flag ≡ true) × (s'.state ≡ ready) × (s'.dl_handle ≡ none))
        ⊎ (¬ go × (s'.ready_flag ≡ false) × (s'.state ≡ wait) × (s'.dl_handle ≡ s.dl_handle))
  unfolding register register_reason mgr_ready on_request set_state download_cleanup
  register_outcome wait_ms idle_ms s = grind arith
