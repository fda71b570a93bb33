-- ===== src/Update/Session.antt =====
-- What holds of whole download sessions, over every schedule of events.
use rt_thread_qboot.Base.{
  ℕ, ◌+◌, ◌≤◌, ◌≡◌, refl, ap, Bool, true, false, Option, none, some, List, [], ◌∷◌, arith,
}
use rt_thread_qboot.Storage.{RtErr, IoOps, ParserOps, StoreDesc, target_download, open_for_download}
use rt_thread_qboot.Storage.Frame.{IoFrame, ParserFrame}
use rt_thread_qboot.Storage.Header.{release_sign_clear}
use rt_thread_qboot.Storage.Targets.{Opened, refused, unsized, opened, target_open, erase_with_feed}
use rt_thread_qboot.Storage.Keeps.{target_open-keeps}
use rt_thread_qboot.Update.{UpdState, wait, Sys, UpdateOps, reason_none}
use rt_thread_qboot.Update.Events.{
  cleanup_handle, download_cleanup, set_download_ok, set_state, mgr_ready, try_recover_once,
  on_request, on_start, on_data, reset_progress, on_finish, on_abort, set_total, on_data_len,
}
use rt_thread_qboot.Update.Download.{
  begin_opened, begin_with, download_begin, write_to, download_write,
}
use rt_thread_qboot.Update.Poll.{
  Event, request, start, received, abort, begin, received_len, set_size, finish, write_block, go_on,
  recover_or, leave_or, print_progress, wait_round, recv_round, poll_round, handle_event,
  handle_events, poll_loop, poll,
}

-- The callbacks but `try_recover`, and the kernel, leave alone what `f` observes.
pub record OpsFrame {W A : Type 0} (ops : UpdateOps W) (f : W → A) : Type 0 where
  pub valid_keeps : (w : W) → f (ops.is_app_valid w).1 ≡ f w
  pub get_keeps : (w : W) → f (ops.get_reason w).1 ≡ f w
  pub set_keeps : (r : ℕ) (w : W) → f (ops.set_reason r w) ≡ f w
  pub enter_keeps : (w : W) → f (ops.enter_download w) ≡ f w
  pub leave_keeps : (w : W) → f (ops.leave_download w) ≡ f w
  pub error_keeps : (e : RtErr) (w : W) → f (ops.on_error e w) ≡ f w
  pub ready_keeps : (w : W) → f (ops.on_ready_to_app w) ≡ f w
  pub tick_keeps : (w : W) → f (ops.tick_get w).1 ≡ f w
  pub delay_keeps : (d : ℕ) (w : W) → f (ops.mdelay d w) ≡ f w

-- How many download sessions a list of events opens.
abbrev pub sessions_of : Event → ℕ
sessions_of start = 1
sessions_of begin = 1
sessions_of _ = 0

abbrev pub sessions : List Event → ℕ
sessions [] = 0
sessions (e ∷ es) = sessions_of e + sessions es

abbrev pub all_sessions : List (List Event) → ℕ
all_sessions [] = 0
all_sessions (es ∷ rest) = sessions es + all_sessions rest

-- The probes that the gate of the session still allows.
abbrev pub allowance : Bool → ℕ
allowance true = 0
allowance false = 1

module _ {W H : Type 0} {io : IoOps W H} {parser : ParserOps W H} {wdt_feed : W → W}
    (descs : List StoreDesc) {ops : UpdateOps W} (probes : W → ℕ) (io_frame : IoFrame io probes)
    (parser_frame : ParserFrame parser probes)
    (wdt_keeps : (w : W) → probes (wdt_feed w) ≡ probes w) (ops_frame : OpsFrame ops probes)
    (probe_counts : (ok : Bool) (w : W) → probes (ops.try_recover ok w).1 ≡ probes w + 1) where
  abbrev budget : Sys W H → ℕ
  budget s = probes s.world + allowance s.recover_probe_used

  cleanup_handle-budget : (o : Option H) (s : Sys W H) → budget (cleanup_handle io o s) ≡ budget s
  unfolding cleanup_handle
  cleanup_handle-budget none s = refl
  cleanup_handle-budget (some h) s =
      ap (λ (n : ℕ). n + allowance s.recover_probe_used) (io_frame.close_keeps h s.world)

  download_cleanup-budget : (s : Sys W H) → budget (download_cleanup io s) ≡ budget s
  download_cleanup-budget s = unfold download_cleanup in cleanup_handle-budget s.dl_handle s

  set_download_ok-budget : (ok : Bool) (s : Sys W H) → budget (set_download_ok io ok s) ≡ budget s
  unfolding set_download_ok
  set_download_ok-budget ok s = grind (arith, download_cleanup-budget)

  set_state-budget : (st : UpdState) (s : Sys W H) → budget (set_state ops st s) ≡ budget s
  unfolding set_state
  set_state-budget st s = grind (arith, ops_frame.tick_keeps)

  mgr_ready-budget : (s : Sys W H) → budget (mgr_ready io ops s) ≡ budget s
  unfolding mgr_ready
  mgr_ready-budget s =
      grind (arith, ops_frame.ready_keeps, set_state-budget, download_cleanup-budget)

  try_recover_once-budget : (s : Sys W H) → budget (try_recover_once ops s).1 ≡ budget s
  unfolding try_recover_once
  try_recover_once-budget s = grind (arith, probe_counts)

  go_on-budget : (s : Sys W H) → budget (go_on io ops s) ≡ budget s
  unfolding go_on
  go_on-budget s =
      let s1 = record s { world = ops.set_reason reason_none s.world } in
      omega (arith, mgr_ready-budget s1, ops_frame.set_keeps reason_none s.world)

  recover_or-budget :
      (stay : Sys W H → Sys W H) (s : Sys W H)
      → ((t : Sys W H) → budget (stay t) ≡ budget t)
      → budget (recover_or io ops stay s) ≡ budget s
  unfolding recover_or
  recover_or-budget stay s keep =
      let s1 = (try_recover_once ops s).1 in
      ground (arith, keep s1, try_recover_once-budget s, go_on-budget s1)

  leave_or-budget :
      (stay : Sys W H → Sys W H) (s : Sys W H)
      → ((t : Sys W H) → budget (stay t) ≡ budget t)
      → budget (leave_or io ops stay s) ≡ budget s
  unfolding leave_or
  leave_or-budget stay s keep =
      let s1 = record s { world = (ops.is_app_valid s.world).1 } in
      ground (arith, ops_frame.valid_keeps s.world, go_on-budget s1, recover_or-budget stay s1 keep)

  print_progress-budget : (now : ℕ) (s : Sys W H) → budget (print_progress io ops now s) ≡ budget s
  unfolding print_progress
  print_progress-budget now s = ground arith

  restart_wait-budget :
      (now : ℕ) (s : Sys W H)
      → budget (leave_or io ops (λ t. record t { wait_start = now }) s) ≡ budget s
  restart_wait-budget now s = leave_or-budget _ s (λ t. refl)

  back_to_wait-budget : (s : Sys W H) → budget (leave_or io ops (set_state ops wait) s) ≡ budget s
  back_to_wait-budget s = leave_or-budget _ s (set_state-budget wait)

  wait_round-budget : (now : ℕ) (s : Sys W H) → budget (wait_round io ops now s) ≡ budget s
  unfolding wait_round
  wait_round-budget now s = ground (arith, restart_wait-budget now s)

  recv_round-budget : (now : ℕ) (s : Sys W H) → budget (recv_round io ops now s) ≡ budget s
  unfolding recv_round
  recv_round-budget now s = ground (
    arith,
    back_to_wait-budget s,
    print_progress-budget now s,
    print_progress-budget now (leave_or io ops (set_state ops wait) s),
  )

  poll_round-budget : (s : Sys W H) → budget (poll_round io ops s) ≡ budget s
  unfolding poll_round
  poll_round-budget s =
      let (now, w) = ops.tick_get s.world in
      let s1 = record s { world = w } in
      ground
        (arith, ops_frame.tick_keeps s.world, wait_round-budget now s1, recv_round-budget now s1)

  on_start-budget : (s : Sys W H) → budget (on_start ops s) ≤ budget s + 1
  unfolding on_start reset_progress
  on_start-budget s = grind (arith, ops_frame.enter_keeps, set_state-budget)

  on_finish-budget : (ok : Bool) (s : Sys W H) → budget (on_finish io ops ok s) ≡ budget s
  unfolding on_finish
  on_finish-budget ok s = grind (
    arith, ops_frame.leave_keeps, ops_frame.set_keeps, ops_frame.error_keeps,
    set_download_ok-budget, mgr_ready-budget, set_state-budget,
  )

  begin_opened-budget :
      (h : H) (s : Sys W H)
      → budget (begin_opened io parser wdt_feed descs ops h s).1 ≤ budget s + 1
  unfolding begin_opened release_sign_clear erase_with_feed set_total
  begin_opened-budget h s =
      let w1 = (parser.sign_clear h none s.world).1 in
      let w2 = (io.erase h 0 s.dl_size (wdt_feed w1)).1 in
      let s2 = record s { world = wdt_feed w2 } in
      ground (
        arith,
        parser_frame.sign_clear_keeps h none s.world,
        wdt_keeps w1,
        io_frame.erase_keeps h 0 s.dl_size (wdt_feed w1),
        wdt_keeps w2,
        on_start-budget (record s2 { total_bytes = s.dl_size }),
        download_cleanup-budget s2,
      )

  begin_with-budget :
      (got : Opened H) (s : Sys W H)
      → budget (begin_with io parser wdt_feed descs ops got s).1 ≤ budget s + 1
  unfolding begin_with
  begin_with-budget refused s = omega arith
  begin_with-budget (unsized h) s = omega arith
  begin_with-budget (opened h n) s =
      begin_opened-budget h (record s { dl_handle = some h; dl_size = n })

  download_begin-budget :
      (s : Sys W H) → budget (download_begin io parser wdt_feed descs ops s).1 ≤ budget s + 1
  unfolding download_begin
  download_begin-budget s =
      let s1 = set_download_ok io false (download_cleanup io s) in
      let (got, w) = target_open io target_download open_for_download true s1.world in
      ground (
        arith,
        download_cleanup-budget s,
        set_download_ok-budget false (download_cleanup io s),
        target_open-keeps io_frame target_download open_for_download true s1.world,
        begin_with-budget got (record s1 { world = w }),
      )

  write_to-budget :
      (o : Option H) (off : ℕ) (bs : List ℕ) (s : Sys W H)
      → budget (write_to io parser wdt_feed descs ops o off bs s).1 ≡ budget s
  unfolding write_to on_data on_data_len
  write_to-budget none off bs s = refl
  write_to-budget (some h) off bs s =
      let w = (io.write h off bs s.world).1 in
      let s1 = record s { world = w } in
      ground (
        arith,
        io_frame.write_keeps h off bs s.world,
        ops_frame.tick_keeps w,
        on_finish-budget false s1,
        download_cleanup-budget (on_finish io ops false s1),
      )

  download_write-budget :
      (off : ℕ) (bs : List ℕ) (s : Sys W H)
      → budget (download_write io parser wdt_feed descs ops off bs s).1 ≡ budget s
  download_write-budget off bs s = unfold download_write in write_to-budget s.dl_handle off bs s

  handle_event-budget :
      (e : Event) (s : Sys W H)
      → budget (handle_event io parser wdt_feed descs ops e s) ≤ budget s + sessions_of e
  unfolding handle_event on_request on_data on_abort on_data_len set_total
  handle_event-budget request s = grind (arith, ops_frame.set_keeps, set_state-budget)
  handle_event-budget start s = omega (arith, on_start-budget s)
  handle_event-budget received s = grind (arith, ops_frame.tick_keeps)
  handle_event-budget abort s = grind (arith, ops_frame.leave_keeps, set_state-budget)
  handle_event-budget begin s = omega (arith, download_begin-budget s)
  handle_event-budget (received_len n) s = omega arith
  handle_event-budget (set_size n) s = omega arith
  handle_event-budget (finish ok) s = omega (arith, on_finish-budget ok s)
  handle_event-budget (write_block off bytes) s = omega (arith, download_write-budget off bytes s)

  handle_events-budget :
      (es : List Event) (s : Sys W H)
      → budget (handle_events io parser wdt_feed descs ops es s) ≤ budget s + sessions es
  unfolding handle_events
  handle_events-budget [] s = omega arith
  handle_events-budget (e ∷ es) s = omega (
    arith,
    handle_event-budget e s,
    handle_events-budget es (handle_event io parser wdt_feed descs ops e s),
  )

  poll_loop-budget :
      (delay : ℕ) (schedule : List (List Event)) (s : Sys W H)
      → budget (poll_loop io parser wdt_feed descs ops delay schedule s)
        ≤ budget s + all_sessions schedule
  unfolding poll_loop
  poll_loop-budget delay [] s = omega arith
  poll_loop-budget delay (es ∷ rest) s =
      let s1 = poll_round io ops s in
      let s2 = record s1 { world = ops.mdelay delay s1.world } in
      let s3 = handle_events io parser wdt_feed descs ops es s2 in
      ground (
        arith,
        poll_round-budget s,
        ops_frame.delay_keeps delay s1.world,
        handle_events-budget es s2,
        poll_loop-budget delay rest s3,
      )

  -- Over any schedule the recovery probe runs at most once, and once more for each download session
  -- that is opened.
  pub poll-probes_bounded :
      (delay : ℕ) (schedule : List (List Event)) (s : Sys W H)
      → probes (poll io parser wdt_feed descs ops delay schedule s).world
        ≤ probes s.world + 1 + all_sessions schedule
  unfolding poll
  poll-probes_bounded delay schedule s =
      let (now, w) = ops.tick_get s.world in
      let s1 = record s { wait_start = now; world = w } in
      ground (arith, ops_frame.tick_keeps s.world, poll_loop-budget delay schedule s1)
