-- ===== src/Tests/Manager.antt =====
-- The theorems on the update manager (src/qboot_update.c) on a small board.
use rt_thread_qboot.Base.{
  ℕ, ◌+◌, ◌≤◌, ◌≡◌, ◌⊎◌, inl, inr, refl, true, false, none, some, List, [], ◌∷◌, arith, ◌≢◌,
}
use rt_thread_qboot.Storage.{target_download, target_factory}
use rt_thread_qboot.Storage.Frame.{weight_of}
use rt_thread_qboot.Storage.Targets.{download_part_name, factory_part_name, target_desc}
use rt_thread_qboot.Update.{Sys, recv, wait, ready, initial, reason_none, reason_done}
use rt_thread_qboot.Update.Events.{register, mgr_ready, download_cleanup, set_state}
use rt_thread_qboot.Update.Download.{download_begin, probe_target, mgr_try_recover}
use rt_thread_qboot.Update.Poll.{
  finish, write_block, received, Event, poll_round, wait_round, leave_or, go_on, poll,
}
use rt_thread_qboot.Update.Reason.{
  digit_of, add_digit, change, show, request_of, reason_cmd, word_set, parse_digits,
}
use rt_thread_qboot.Update.Reason.Parse.{text_value, fits_u32, parse_digits-exact}
use rt_thread_qboot.Update.Reason.Command.{reason_cmd-recv, reason_cmd-change}
use rt_thread_qboot.Update.Release.{
  TimedOut, Startable, poll_round-releases, poll_round-Startable, register_outcome,
}
use rt_thread_qboot.Update.Session.{poll-probes_bounded}
use rt_thread_qboot.Update.Handles.{poll-Balanced}
use rt_thread_qboot.Update.Interrupted.{interrupted_no_backup}
use rt_thread_qboot.Tests.Board.{
  Board, board, io, parser, feed, callbacks, descs, live_count, live_parser, live_callbacks,
  probes_io, probes_parser, probes_callbacks, weigh, sizes,
}

-- A manager that waits, its window of 5 ticks long over.
abbrev waiting : Sys Board ℕ
waiting = record (initial 5 (board 2 0 true [])) {
  ops_set = true;
  state = wait;
  wait_ms = 5;
  dl_handle = some 1;
}

-- A manager that receives.
abbrev receiving : Sys Board ℕ
receiving = record waiting { state = recv; idle_ms = 5; download_last = 998 }

-- Blocks arrive, then the transfer breaks off.
abbrev broken_off : List (List Event)
broken_off = (write_block 0 (1 ∷ 2 ∷ []) ∷ received ∷ []) ∷ (finish false ∷ []) ∷ [] ∷ []

waiting-releases : (poll_round io callbacks waiting).ready_flag ≡ true
unfolding initial poll_round wait_round leave_or go_on mgr_ready download_cleanup set_state
waiting-releases = refl

poll_round-releases_example :
    TimedOut io callbacks 1000 waiting
    × Startable io callbacks waiting.world waiting
    × ((poll_round io callbacks waiting).state ≡ ready)
    × ((poll_round io callbacks waiting).dl_handle ≡ none)
unfolding initial
poll_round-releases_example = poll_round-releases io callbacks waiting refl waiting-releases

poll_round-Startable_example : (poll_round io callbacks waiting).ready_flag ≡ true
unfolding initial
poll_round-Startable_example =
    poll_round-Startable io callbacks waiting (inl (refl, omega arith, omega arith)) (inl refl)

register_outcome_example :
    let go = ((1 ≡ reason_none) ⊎ (1 ≡ reason_done)) × (true ≡ true) in
    let s' = register io callbacks 5 5 (record waiting { world = board 1 1 true [] }) in
    (go × (s'.ready_flag ≡ true) × (s'.state ≡ ready) × (s'.dl_handle ≡ none))
    ⊎ (¬ go × (s'.ready_flag ≡ false) × (s'.state ≡ wait) × (s'.dl_handle ≡ some 1))
unfolding initial
register_outcome_example =
    register_outcome io callbacks 5 5 (record waiting { world = board 1 1 true [] })

poll-probes_bounded_example :
    (poll io parser feed descs callbacks 10 broken_off receiving).world.probes ≤ 0 + 1 + 0
unfolding initial
poll-probes_bounded_example =
    poll-probes_bounded descs (λ b. b.probes) probes_io probes_parser (λ b. refl) probes_callbacks
      (λ ok b. refl) 10 broken_off receiving

poll-Balanced_example :
    let s = poll io parser feed descs callbacks 10 broken_off receiving in
    s.world.live ≡ 0 + weight_of weigh s.dl_handle
unfolding initial
poll-Balanced_example =
    poll-Balanced descs weigh (λ b. b.live) live_count sizes live_parser (λ b. refl) live_callbacks
      (λ ok b. refl) 0 10 broken_off receiving (refl)

has_download : target_desc descs target_download ≢ none
unfolding target_desc
has_download e = ground arith

interrupted_no_backup_example :
    let s1 = (download_begin io parser feed descs callbacks waiting).1 in
    let s2 = poll io parser feed descs callbacks 10 broken_off s1 in
    let (found, w1) = probe_target io target_download download_part_name s2.dl_ok s2.world in
    (found ≡ false)
    × (mgr_try_recover io s2.dl_ok s2.world
        ≡ probe_target io target_factory factory_part_name s2.dl_ok w1)
unfolding initial
interrupted_no_backup_example =
    interrupted_no_backup io parser feed descs callbacks 10 broken_off waiting
      (poll io parser feed descs callbacks 10 broken_off
        (download_begin io parser feed descs callbacks waiting).1).world
      has_download refl

-- 4294967296 is one too large.
parse_digits-exact_example :
    parse_digits 16 0xfffffff (b'f' ∷ b'0' ∷ [])
    ≡ fits_u32 (text_value 16 0xfffffff (b'f' ∷ b'0' ∷ []))
parse_digits-exact_example =
    parse_digits-exact 16 0xfffffff (b'f' ∷ b'0' ∷ []) (inr refl) (omega arith)

reason_cmd-recv_example :
    (reason_cmd callbacks (word_set ∷ (b'3' ∷ []) ∷ []) receiving ≡ (false, receiving))
    ⊎ ((request_of (word_set ∷ (b'3' ∷ []) ∷ []) ≡ show)
        × (reason_cmd callbacks (word_set ∷ (b'3' ∷ []) ∷ []) receiving ≡ (true, receiving)))
unfolding initial
reason_cmd-recv_example = reason_cmd-recv callbacks (word_set ∷ (b'3' ∷ []) ∷ []) receiving refl

asks-3 : request_of (word_set ∷ (b'3' ∷ []) ∷ []) ≡ change 3
unfolding request_of parse_digits digit_of add_digit
asks-3 = refl

changes-3 : (reason_cmd callbacks (word_set ∷ (b'3' ∷ []) ∷ []) waiting).0 ≡ true
unfolding initial reason_cmd request_of parse_digits digit_of add_digit
changes-3 = refl

reason_cmd-change_example :
    ((callbacks.get_reason (board 2 3 true [])).0 ≡ 3)
    × ((reason_cmd callbacks (word_set ∷ (b'3' ∷ []) ∷ []) waiting).1
        ≡ record waiting { world = board 2 3 true [] })
unfolding initial
reason_cmd-change_example =
    reason_cmd-change callbacks (word_set ∷ (b'3' ∷ []) ∷ []) 3 waiting asks-3 changes-3
