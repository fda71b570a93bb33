-- ===== src/Update/Handles.antt =====
-- The download handle of the update manager is neither leaked nor closed twice.
use rt_thread_qboot.Base.{
  ℕ, ◌+◌, ◌≡◌, refl, ap, ◌∙◌, Bool, true, false, Option, none, some, List, [], ◌∷◌, arith,
}
use rt_thread_qboot.Storage.{
  IoOps, ParserOps, StoreDesc, rt_error, target_download, open_for_download,
}
use rt_thread_qboot.Storage.Frame.{HandleCount, ParserFrame, weight_of, SizesKnown}
use rt_thread_qboot.Storage.Header.{release_sign_clear}
use rt_thread_qboot.Storage.Counts.{Fits, NotUnsized, target_open-Fits, target_open-NotUnsized}
use rt_thread_qboot.Storage.Targets.{Opened, refused, unsized, opened, target_open, erase_with_feed}
use rt_thread_qboot.Update.{
  UpdState, wait, recv, ready, error, Sys, UpdateOps, reason_none, reason_req, reason_done,
}
use rt_thread_qboot.Update.Events.{
  cleanup_handle, download_cleanup, set_download_ok, set_state, mgr_ready, try_recover_once,
  on_request, on_start, on_data, reset_progress, on_finish, on_abort, set_total, on_data_len,
}
use rt_thread_qboot.Update.Download.{
  begin_opened, begin_with, download_begin, write_to, download_write,
}
use rt_thread_qboot.Update.Poll.{
  Event, request, start, received, abort, begin, received_len, set_size, finish, write_block, go_on,
  recover_or, leave_or, print_progress, wait_round, recv_round, poll_round, handle_event,
  handle_events, poll_loop, poll,
}
use rt_thread_qboot.Update.Session.{OpsFrame}

module _ {W H : Type 0} {io : IoOps W H} {parser : ParserOps W H} {wdt_feed : W → W}
    (descs : List StoreDesc) {ops : UpdateOps W} (weigh : H → ℕ) (live : W → ℕ)
    (count : HandleCount io weigh live) (known : SizesKnown io)
    (parser_frame : ParserFrame parser live) (wdt_keeps : (w : W) → live (wdt_feed w) ≡ live w)
    (ops_frame : OpsFrame ops live)
    (probe_keeps : (ok : Bool) (w : W) → live (ops.try_recover ok w).1 ≡ live w) (others : ℕ) where
  -- The open handles are the one that the manager holds and `others`.
  abbrev pub Balanced : Sys W H → Type 0
  Balanced s = live s.world ≡ others + weight_of weigh s.dl_handle

  -- No handle is held, and only the others are open.
  abbrev Settled : Sys W H → Type 0
  Settled s = (live s.world ≡ others) × (s.dl_handle ≡ none)

  cleanup_handle-Settled :
      (o : Option H) (s : Sys W H) → s.dl_handle ≡ o → Balanced s → Settled (cleanup_handle io o s)
  unfolding cleanup_handle
  cleanup_handle-Settled none s e b = ground arith
  cleanup_handle-Settled (some h) s e b =
      let held : live s.world ≡ others + weigh h = b ∙ ap (λ o. others + weight_of weigh o) e in
      (count.close_counts h s.world (omega (arith, held)) ∙ omega (arith, held), refl)

  download_cleanup-Settled : (s : Sys W H) → Balanced s → Settled (download_cleanup io s)
  download_cleanup-Settled s b =
      unfold download_cleanup in cleanup_handle-Settled s.dl_handle s refl b

  Settled→Balanced : (s : Sys W H) → Settled s → Balanced s
  Settled→Balanced s h = ground arith

  set_download_ok-Settled :
      (ok : Bool) (s : Sys W H) → Balanced s → Settled (set_download_ok io ok s)
  unfolding set_download_ok
  set_download_ok-Settled ok s b = download_cleanup-Settled (record s { dl_ok = ok }) b

  -- A change of state keeps the handle and the count.
  set_state-same :
      (st : UpdState) (s : Sys W H)
      → ((set_state ops st s).dl_handle ≡ s.dl_handle)
        × (live (set_state ops st s).world ≡ live s.world)
  unfolding set_state
  set_state-same st s = ground (arith, ops_frame.tick_keeps s.world)

  mgr_ready-Settled : (s : Sys W H) → Balanced s → Settled (mgr_ready io ops s)
  unfolding mgr_ready
  mgr_ready-Settled s b =
      let s1 = set_state ops ready (record s { ready_flag = true }) in
      let s2 = download_cleanup io s1 in
      let same = set_state-same ready (record s { ready_flag = true }) in
      let b1 : Balanced s1 = ground arith in
      ground (arith, download_cleanup-Settled s1 b1, ops_frame.ready_keeps s2.world)

  try_recover_once-Balanced : (s : Sys W H) → Balanced s → Balanced (try_recover_once ops s).1
  unfolding try_recover_once
  try_recover_once-Balanced s b = ground (arith, probe_keeps s.dl_ok s.world)

  go_on-Balanced : (s : Sys W H) → Balanced s → Balanced (go_on io ops s)
  unfolding go_on
  go_on-Balanced s b =
      let s1 = record s { world = ops.set_reason reason_none s.world } in
      let b1 : Balanced s1 = omega (arith, ops_frame.set_keeps reason_none s.world) in
      Settled→Balanced (mgr_ready io ops s1) (mgr_ready-Settled s1 b1)

  leave_or-Balanced :
      (stay : Sys W H → Sys W H) (s : Sys W H)
      → ((t : Sys W H) → Balanced t → Balanced (stay t))
      → Balanced s
      → Balanced (leave_or io ops stay s)
  unfolding leave_or recover_or
  leave_or-Balanced stay s keep b =
      let s1 = record s { world = (ops.is_app_valid s.world).1 } in
      let b1 : Balanced s1 = omega (arith, ops_frame.valid_keeps s.world) in
      let s2 = (try_recover_once ops s1).1 in
      let b2 = try_recover_once-Balanced s1 b1 in
      ground (arith, go_on-Balanced s1 b1, go_on-Balanced s2 b2, keep s2 b2)

  print_progress-Balanced :
      (now : ℕ) (s : Sys W H) → Balanced s → Balanced (print_progress io ops now s)
  unfolding print_progress
  print_progress-Balanced now s b = ground arith

  set_state-Balanced : (st : UpdState) (s : Sys W H) → Balanced s → Balanced (set_state ops st s)
  set_state-Balanced st s b = ground (arith, set_state-same st s)

  wait_round-Balanced : (now : ℕ) (s : Sys W H) → Balanced s → Balanced (wait_round io ops now s)
  unfolding wait_round
  wait_round-Balanced now s b =
      ground (arith, leave_or-Balanced (λ t. record t { wait_start = now }) s (λ t h. h) b)

  recv_round-Balanced : (now : ℕ) (s : Sys W H) → Balanced s → Balanced (recv_round io ops now s)
  unfolding recv_round
  recv_round-Balanced now s b =
      let s1 = leave_or io ops (set_state ops wait) s in
      let b1 = leave_or-Balanced (set_state ops wait) s (set_state-Balanced wait) b in
      ground (arith, print_progress-Balanced now s b, print_progress-Balanced now s1 b1)

  poll_round-Balanced : (s : Sys W H) → Balanced s → Balanced (poll_round io ops s)
  unfolding poll_round
  poll_round-Balanced s b =
      let (now, w) = ops.tick_get s.world in
      let s1 = record s { world = w } in
      let b1 : Balanced s1 = omega (arith, ops_frame.tick_keeps s.world) in
      ground (arith, wait_round-Balanced now s1 b1, recv_round-Balanced now s1 b1)

  on_start-Balanced : (s : Sys W H) → Balanced s → Balanced (on_start ops s)
  unfolding on_start reset_progress
  on_start-Balanced s b =
      let s1 = record s { recover_probe_used = false; world = ops.enter_download s.world } in
      ground (arith, ops_frame.enter_keeps s.world, set_state-same recv s1)

  on_finish-Balanced : (ok : Bool) (s : Sys W H) → Balanced s → Balanced (on_finish io ops ok s)
  unfolding on_finish
  on_finish-Balanced ok s b =
      let s0 = record s { world = ops.leave_download s.world } in
      let b0 : Balanced s0 = omega (arith, ops_frame.leave_keeps s.world) in
      let s1 = set_download_ok io ok s0 in
      let b1 = Settled→Balanced s1 (set_download_ok-Settled ok s0 b0) in
      let s2 = record s1 { world = ops.set_reason reason_done s1.world } in
      let b2 : Balanced s2 = omega (arith, ops_frame.set_keeps reason_done s1.world) in
      let s3 = record s1 { state = error; world = ops.on_error rt_error s1.world } in
      let b3 : Balanced s3 = omega (arith, ops_frame.error_keeps rt_error s1.world) in
      ground (arith, mgr_ready-Settled s2 b2, set_state-Balanced wait s3 b3)

  begin_opened-Balanced :
      (h : H) (s : Sys W H)
      → Balanced s
      → Balanced (begin_opened io parser wdt_feed descs ops h s).1
  unfolding begin_opened release_sign_clear erase_with_feed set_total
  begin_opened-Balanced h s b =
      let w1 = (parser.sign_clear h none s.world).1 in
      let w2 = (io.erase h 0 s.dl_size (wdt_feed w1)).1 in
      let s2 = record s { world = wdt_feed w2 } in
      let b2 : Balanced s2 = omega (
        arith,
        parser_frame.sign_clear_keeps h none s.world,
        wdt_keeps w1,
        count.erase_counts h 0 s.dl_size (wdt_feed w1),
        wdt_keeps w2,
      ) in
      ground (
        arith,
        on_start-Balanced (record s2 { total_bytes = s.dl_size }) b2,
        download_cleanup-Settled s2 b2,
      )

  begin_with-Balanced :
      (got : Opened H) (s : Sys W H)
      → NotUnsized got
      → Fits weigh others got (live s.world)
      → s.dl_handle ≡ none
      → Balanced (begin_with io parser wdt_feed descs ops got s).1
  unfolding begin_with
  begin_with-Balanced refused s sized b e = ground arith
  begin_with-Balanced (unsized h) s sized b e = absurd (sized h refl)
  begin_with-Balanced (opened h n) s sized b e =
      begin_opened-Balanced h (record s { dl_handle = some h; dl_size = n }) b

  download_begin-Balanced :
      (s : Sys W H) → Balanced s → Balanced (download_begin io parser wdt_feed descs ops s).1
  unfolding download_begin
  download_begin-Balanced s b =
      let s0 = download_cleanup io s in
      let b0 = Settled→Balanced s0 (download_cleanup-Settled s b) in
      let s1 = set_download_ok io false s0 in
      let settled = set_download_ok-Settled false s0 b0 in
      let (got, w) = target_open io target_download open_for_download true s1.world in
      let fits =
        target_open-Fits weigh live count others target_download open_for_download s1.world
          settled.0 in
      let sized = target_open-NotUnsized io known target_download open_for_download s1.world in
      ground (arith, begin_with-Balanced got (record s1 { world = w }) sized fits settled.1)

  write_to-Balanced :
      (o : Option H) (off : ℕ) (bs : List ℕ) (s : Sys W H)
      → Balanced s
      → Balanced (write_to io parser wdt_feed descs ops o off bs s).1
  unfolding write_to on_data on_data_len
  write_to-Balanced none off bs s b = b
  write_to-Balanced (some h) off bs s b =
      let w = (io.write h off bs s.world).1 in
      let s1 = record s { world = w } in
      let b1 : Balanced s1 = omega (arith, count.write_counts h off bs s.world) in
      let s2 = on_finish io ops false s1 in
      let b2 = on_finish-Balanced false s1 b1 in
      ground (arith, ops_frame.tick_keeps w, download_cleanup-Settled s2 b2)

  handle_event-Balanced :
      (e : Event) (s : Sys W H)
      → Balanced s
      → Balanced (handle_event io parser wdt_feed descs ops e s)
  unfolding handle_event on_request on_data on_abort on_data_len set_total download_write
  handle_event-Balanced request s b =
      set_state-Balanced wait (record s { world = ops.set_reason reason_req s.world })
        (ops_frame.set_keeps reason_req s.world ∙ b)
  handle_event-Balanced start s b = on_start-Balanced s b
  handle_event-Balanced received s b = ground (arith, ops_frame.tick_keeps s.world)
  handle_event-Balanced abort s b =
      set_state-Balanced wait (record s { world = ops.leave_download s.world })
        (ops_frame.leave_keeps s.world ∙ b)
  handle_event-Balanced begin s b = download_begin-Balanced s b
  handle_event-Balanced (received_len n) s b = b
  handle_event-Balanced (set_size n) s b = b
  handle_event-Balanced (finish ok) s b = on_finish-Balanced ok s b
  handle_event-Balanced (write_block off bytes) s b = write_to-Balanced s.dl_handle off bytes s b

  handle_events-Balanced :
      (es : List Event) (s : Sys W H)
      → Balanced s
      → Balanced (handle_events io parser wdt_feed descs ops es s)
  unfolding handle_events
  handle_events-Balanced [] s b = b
  handle_events-Balanced (e ∷ es) s b =
      handle_events-Balanced es (handle_event io parser wdt_feed descs ops e s)
        (handle_event-Balanced e s b)

  poll_loop-Balanced :
      (delay : ℕ) (schedule : List (List Event)) (s : Sys W H)
      → Balanced s
      → Balanced (poll_loop io parser wdt_feed descs ops delay schedule s)
  unfolding poll_loop
  poll_loop-Balanced delay [] s b = b
  poll_loop-Balanced delay (es ∷ rest) s b =
      let s1 = poll_round io ops s in
      let s2 = record s1 { world = ops.mdelay delay s1.world } in
      let b2 : Balanced s2 = ops_frame.delay_keeps delay s1.world ∙ poll_round-Balanced s b in
      let s3 = handle_events io parser wdt_feed descs ops es s2 in
      ground (arith, poll_loop-Balanced delay rest s3 (handle_events-Balanced es s2 b2))

  -- If the sizes of handles are always known, then over any schedule of events the manager
  -- leaks no handle and closes none twice: the handles that are open are the others and the one that
  -- the manager still holds.
  pub poll-Balanced :
      (delay : ℕ) (schedule : List (List Event)) (s : Sys W H)
      → Balanced s
      → Balanced (poll io parser wdt_feed descs ops delay schedule s)
  unfolding poll
  poll-Balanced delay schedule s b =
      let (now, w) = ops.tick_get s.world in
      poll_loop-Balanced delay schedule (record s { wait_start = now; world = w })
        (ops_frame.tick_keeps s.world ∙ b)
