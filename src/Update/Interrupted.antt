-- ===== src/Update/Interrupted.antt =====
-- A download that was interrupted is no backup: the validity flag of the download helper.
use rt_thread_qboot.Base.{
  ℕ, ◌≡◌, ◌≢◌, ◌⊎◌, inl, inr, ◌∙◌, refl, Bool, true, false, Option, none, some, List, [], ◌∷◌,
  arith, ◌||◌,
}
use rt_thread_qboot.Storage.{IoOps, ParserOps, StoreDesc, target_download, target_factory}
use rt_thread_qboot.Storage.Targets.{
  target_desc, download_part_name, factory_part_name, Opened, refused, unsized, opened,
}
use rt_thread_qboot.Storage.Header.{strcmp_eq}
use rt_thread_qboot.Update.{UpdState, ready, Sys, UpdateOps}
use rt_thread_qboot.Update.Events.{
  cleanup_handle, download_cleanup, set_download_ok, set_state, mgr_ready, try_recover_once,
  on_request, on_start, on_data, reset_progress, on_finish, on_abort, set_total, on_data_len,
}
use rt_thread_qboot.Update.Download.{
  begin_opened, begin_with, download_begin, write_to, download_write, probe_target, mgr_try_recover,
  helper_fw_check,
}
use rt_thread_qboot.Update.Poll.{
  Event, request, start, received, abort, begin, received_len, set_size, finish, write_block, go_on,
  recover_or, leave_or, print_progress, wait_round, recv_round, poll_round, handle_event,
  handle_events, poll_loop, poll,
}

-- Whether an event completes a download.
abbrev pub completes : Event → Bool
completes (finish ok) = ok
completes _ = false

abbrev pub completed : List Event → Bool
completed [] = false
completed (e ∷ es) = completes e || completed es

abbrev pub ever_completed : List (List Event) → Bool
ever_completed [] = false
ever_completed (es ∷ rest) = completed es || ever_completed rest

module _ {W H : Type 0} (io : IoOps W H) (parser : ParserOps W H) (wdt_feed : W → W)
    (descs : List StoreDesc) (ops : UpdateOps W) where
  cleanup_handle-dl_ok : (o : Option H) (s : Sys W H) → (cleanup_handle io o s).dl_ok ≡ s.dl_ok
  unfolding cleanup_handle
  cleanup_handle-dl_ok none s = refl
  cleanup_handle-dl_ok (some h) s = refl

  download_cleanup-dl_ok : (s : Sys W H) → (download_cleanup io s).dl_ok ≡ s.dl_ok
  download_cleanup-dl_ok s = unfold download_cleanup in cleanup_handle-dl_ok s.dl_handle s

  set_state-dl_ok : (st : UpdState) (s : Sys W H) → (set_state ops st s).dl_ok ≡ s.dl_ok
  unfolding set_state
  set_state-dl_ok st s = ground arith

  mgr_ready-dl_ok : (s : Sys W H) → (mgr_ready io ops s).dl_ok ≡ s.dl_ok
  unfolding mgr_ready
  mgr_ready-dl_ok s =
      let s1 = record s { ready_flag = true } in
      ground (arith, set_state-dl_ok ready s1, download_cleanup-dl_ok (set_state ops ready s1))

  poll_round-dl_ok : (s : Sys W H) → (poll_round io ops s).dl_ok ≡ s.dl_ok
  unfolding poll_round wait_round recv_round leave_or recover_or go_on print_progress
      try_recover_once
  poll_round-dl_ok s = grind (arith, mgr_ready-dl_ok, set_state-dl_ok)

  on_start-dl_ok : (s : Sys W H) → (on_start ops s).dl_ok ≡ s.dl_ok
  unfolding on_start reset_progress
  on_start-dl_ok s = grind (arith, set_state-dl_ok)

  on_finish-dl_ok : (ok : Bool) (s : Sys W H) → (on_finish io ops ok s).dl_ok ≡ ok
  unfolding on_finish set_download_ok
  on_finish-dl_ok ok s = grind (arith, download_cleanup-dl_ok, mgr_ready-dl_ok, set_state-dl_ok)

  begin_with-dl_ok :
      (got : Opened H) (s : Sys W H)
      → (begin_with io parser wdt_feed descs ops got s).1.dl_ok ≡ s.dl_ok
  unfolding begin_with begin_opened set_total
  begin_with-dl_ok refused s = refl
  begin_with-dl_ok (unsized h) s = refl
  begin_with-dl_ok (opened h n) s = grind (arith, download_cleanup-dl_ok, on_start-dl_ok)

  write_to-dl_ok :
      (o : Option H) (off : ℕ) (bs : List ℕ) (s : Sys W H)
      → s.dl_ok ≡ false
      → (write_to io parser wdt_feed descs ops o off bs s).1.dl_ok ≡ false
  unfolding write_to on_data on_data_len
  write_to-dl_ok none off bs s h = h
  write_to-dl_ok (some h) off bs s e = grind (arith, download_cleanup-dl_ok, on_finish-dl_ok)

  -- A new session starts with the flag down.
  download_begin-dl_ok :
      (s : Sys W H)
      → s.dl_ok ≡ false ⊎ (target_desc descs target_download ≢ none)
      → (download_begin io parser wdt_feed descs ops s).1.dl_ok ≡ false
  unfolding download_begin set_download_ok
  download_begin-dl_ok s h = grind (arith, download_cleanup-dl_ok, begin_with-dl_ok)

  handle_event-dl_ok :
      (e : Event) (s : Sys W H)
      → completes e ≡ false
      → s.dl_ok ≡ false
      → (handle_event io parser wdt_feed descs ops e s).dl_ok ≡ false
  unfolding handle_event on_request on_data on_abort on_data_len set_total download_write
  handle_event-dl_ok request s c h = grind (arith, set_state-dl_ok)
  handle_event-dl_ok start s c h = grind (arith, on_start-dl_ok)
  handle_event-dl_ok received s c h = ground arith
  handle_event-dl_ok abort s c h = grind (arith, set_state-dl_ok)
  handle_event-dl_ok begin s c h = download_begin-dl_ok s (inl h)
  handle_event-dl_ok (received_len n) s c h = h
  handle_event-dl_ok (set_size n) s c h = h
  handle_event-dl_ok (finish ok) s c h = on_finish-dl_ok ok s ∙ c
  handle_event-dl_ok (write_block off bytes) s c h = write_to-dl_ok s.dl_handle off bytes s h

  handle_events-dl_ok :
      (es : List Event) (s : Sys W H)
      → completed es ≡ false
      → s.dl_ok ≡ false
      → (handle_events io parser wdt_feed descs ops es s).dl_ok ≡ false
  unfolding handle_events
  handle_events-dl_ok [] s c h = h
  handle_events-dl_ok (e ∷ es) s c h = ground (
    arith,
    handle_event-dl_ok e s,
    handle_events-dl_ok es (handle_event io parser wdt_feed descs ops e s),
  )

  poll_loop-dl_ok :
      (delay : ℕ) (schedule : List (List Event)) (s : Sys W H)
      → ever_completed schedule ≡ false
      → s.dl_ok ≡ false
      → (poll_loop io parser wdt_feed descs ops delay schedule s).dl_ok ≡ false
  unfolding poll_loop
  poll_loop-dl_ok delay [] s c h = h
  poll_loop-dl_ok delay (es ∷ rest) s c h =
      let s1 = poll_round io ops s in
      let s2 = record s1 { world = ops.mdelay delay s1.world } in
      let s3 = handle_events io parser wdt_feed descs ops es s2 in
      ground (arith, poll_round-dl_ok s, handle_events-dl_ok es s2, poll_loop-dl_ok delay rest s3)

  -- The probe of the DOWNLOAD target follows the flag.
  probe_download :
      (dl_ok : Bool) (w : W)
      → dl_ok ≡ false
      → (probe_target io target_download download_part_name dl_ok w).0 ≡ false
  unfolding probe_target helper_fw_check strcmp_eq
  probe_download dl_ok w e = rw e (ground arith)

  -- After a session is begun, over any schedule in which no download completes, the DOWNLOAD target
  -- is not accepted as a backup, whatever it holds: recovery is left to the FACTORY target.
  pub interrupted_no_backup :
      (delay : ℕ) (schedule : List (List Event)) (s : Sys W H) (w : W)
      → target_desc descs target_download ≢ none
      → ever_completed schedule ≡ false
      → let s1 = (download_begin io parser wdt_feed descs ops s).1 in
        let s2 = poll io parser wdt_feed descs ops delay schedule s1 in
        let (found, w1) = probe_target io target_download download_part_name s2.dl_ok w in
        (found ≡ false)
        × (mgr_try_recover io s2.dl_ok w
            ≡ probe_target io target_factory factory_part_name s2.dl_ok w1)
  unfolding poll mgr_try_recover
  interrupted_no_backup delay schedule s w d c =
      let s1 = (download_begin io parser wdt_feed descs ops s).1 in
      let (now, w1) = ops.tick_get s1.world in
      let s2 = record s1 { wait_start = now; world = w1 } in
      let down = poll_loop-dl_ok delay schedule s2 c (download_begin-dl_ok s (inr d)) in
      ground (
        arith,
        probe_download (poll_loop io parser wdt_feed descs ops delay schedule s2).dl_ok w down,
      )
