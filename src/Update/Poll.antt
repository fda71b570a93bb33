-- ===== src/Update/Poll.antt =====
-- `qbt_update_mgr_poll` of src/qboot_update.c. The other threads run while the loop sleeps: a
-- schedule lists, for each sleep, the events that they deliver.
use rt_thread_qboot.Base.{ℕ, ◌/◌, Bool, List, [], ◌∷◌, ltb, leb, ◌&&◌, if◌then◌else◌, sub32, mul32}
use rt_thread_qboot.Storage.{IoOps, ParserOps, StoreDesc}
use rt_thread_qboot.Update.{Sys, UpdateOps, wait, recv, reason_none}
use rt_thread_qboot.Update.Events.{
  set_state, try_recover_once, mgr_ready, on_request, on_start, on_data, on_finish, on_abort,
  set_total, on_data_len,
}
use rt_thread_qboot.Update.Download.{download_begin, download_write}

-- `(limit > 0) && ((now - start) >= limit)`
abbrev pub expired : ℕ → ℕ → ℕ → Bool
expired limit now start = ltb 0 limit && leb limit (sub32 now start)

-- What another thread or an interrupt can call.
pub data Event : Type 0 where
  request start received abort begin : Event
  received_len set_size : ℕ → Event
  finish : Bool → Event
  write_block : ℕ → List ℕ → Event

module _ {W H : Type 0} (io : IoOps W H) (ops : UpdateOps W) where
  -- `set_reason(QBT_UPD_REASON_NONE); qbt_update_mgr_ready();`
  unfoldable pub go_on : Sys W H → Sys W H
  go_on s = mgr_ready io ops (record s { world = ops.set_reason reason_none s.world })

  -- A timeout with an invalid application; `stay` is the branch where no probe recovers it.
  unfoldable pub recover_or : (Sys W H → Sys W H) → Sys W H → Sys W H
  recover_or stay s =
      let (found, s1) = try_recover_once ops s in if found then go_on s1 else stay s1

  -- What both timeouts do.
  unfoldable pub leave_or : (Sys W H → Sys W H) → Sys W H → Sys W H
  leave_or stay s =
      let (valid, w) = ops.is_app_valid s.world in
      let s1 = record s { world = w } in if valid then go_on s1 else recover_or stay s1

  -- The throttled progress output keeps when and what it last printed.
  unfoldable pub print_progress : ℕ → Sys W H → Sys W H
  print_progress now s =
      if leb (ops.tick_from_millisecond 500) (sub32 now s.last_print)
      then (if ltb 0 s.total_bytes
          then record s { last_percent = mul32 s.done_bytes 100 / s.total_bytes; last_print = now }
          else record s { last_print = now })
      else s

  -- The branch of the WAIT state.
  unfoldable pub wait_round : ℕ → Sys W H → Sys W H
  wait_round now s =
      if expired s.wait_ms now s.wait_start
      then leave_or (λ t. record t { wait_start = now }) s
      else s

  -- The branch of the RECV state.
  unfoldable pub recv_round : ℕ → Sys W H → Sys W H
  recv_round now s =
      print_progress now
        (if expired s.idle_ms now s.download_last then leave_or (set_state ops wait) s else s)

  -- The body of the loop up to the sleep.
  unfoldable pub poll_round : Sys W H → Sys W H
  poll_round s =
      let (now, w) = ops.tick_get s.world in
      let s1 = record s { world = w } in
      elim s.state [ wait ↦ wait_round now s1 | recv ↦ recv_round now s1 | _ ↦ s1 ]

module _ {W H : Type 0} (io : IoOps W H) (parser : ParserOps W H) (wdt_feed : W → W)
    (descs : List StoreDesc) (ops : UpdateOps W) where
  unfoldable pub handle_event : Event → Sys W H → Sys W H
  handle_event request s = on_request ops s
  handle_event start s = on_start ops s
  handle_event received s = on_data ops s
  handle_event abort s = on_abort ops s
  handle_event begin s = (download_begin io parser wdt_feed descs ops s).1
  handle_event (received_len n) s = on_data_len n s
  handle_event (set_size n) s = set_total n s
  handle_event (finish ok) s = on_finish io ops ok s
  handle_event (write_block off bytes) s =
      (download_write io parser wdt_feed descs ops off bytes s).1

  unfoldable pub handle_events : List Event → Sys W H → Sys W H
  handle_events [] s = s
  handle_events (e ∷ es) s = handle_events es (handle_event e s)

  -- The loop. Where the schedule ends before the flag is set, the caller still waits.
  unfoldable pub poll_loop : ℕ → List (List Event) → Sys W H → Sys W H
  poll_loop delay [] s = s
  poll_loop delay (es ∷ rest) s =
      let s1 = poll_round io ops s in
      let later =
        poll_loop delay rest (handle_events es (record s1 { world = ops.mdelay delay s1.world })) in
      if s.ready_flag then s else later

  unfoldable pub poll : ℕ → List (List Event) → Sys W H → Sys W H
  poll delay schedule s =
      let (now, w) = ops.tick_get s.world in
      poll_loop delay schedule (record s { wait_start = now; world = w })
