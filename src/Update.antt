-- ===== src/Update.antt =====
-- src/qboot_update.c: the update manager, its download helper and its shell command.
-- The build that is modelled has QBOOT_UPDATE_MGR_USE_DOWNLOAD_HELPER, QBT_UPDATE_MGR_PROGRESS_ENABLE
-- and QBT_UPDATE_MGR_PROGRESS_PRINT_ENABLE; console output is left out.
pub mod Download
pub mod Events
pub mod Poll
pub mod Reason
pub mod Release
pub mod Session
pub mod Handles
pub mod Interrupted
use rt_thread_qboot.Base.{ℕ, Bool, false, Option, none, ◌*◌}
use rt_thread_qboot.Storage.{RtErr}

-- `qbt_upd_state_t`
pub data UpdState : Type 0 where
  idle wait recv done error ready : UpdState

-- `qbt_update_reason_t`
abbrev pub reason_none : ℕ
reason_none = 0

abbrev pub reason_req : ℕ
reason_req = 1

abbrev pub reason_in_progress : ℕ
reason_in_progress = 2

abbrev pub reason_done : ℕ
reason_done = 3

-- `s_mgr`, `s_dl` and the progress counters, with the state of the board. `ops_set` tells whether
-- `s_mgr.ops` is set; the table itself is the parameter `UpdateOps`.
pub record Sys (W H : Type 0) : Type 0 where
  pub ops_set : Bool
  pub state : UpdState
  pub wait_start : ℕ
  pub download_last : ℕ
  pub wait_ms : ℕ
  pub idle_ms : ℕ
  pub ready_flag : Bool
  pub recover_probe_used : Bool
  pub dl_handle : Option H
  pub dl_size : ℕ
  pub dl_ok : Bool
  pub total_bytes : ℕ
  pub done_bytes : ℕ
  pub last_print : ℕ
  pub last_percent : ℕ
  pub world : W

-- The static initialisers; `key_tmo` is QBOOT_SHELL_KEY_CHK_TMO.
unfoldable pub initial : {W H : Type 0} → ℕ → W → Sys W H
initial key_tmo w = record {
  ops_set = false;
  state = idle;
  wait_start = 0;
  download_last = 0;
  wait_ms = key_tmo * 1000;
  idle_ms = 30000;
  ready_flag = false;
  recover_probe_used = false;
  dl_handle = none;
  dl_size = 0;
  dl_ok = false;
  total_bytes = 0;
  done_bytes = 0;
  last_print = 0;
  last_percent = 0;
  world = w;
}

-- `qbt_update_ops_t`, the callbacks of the boot loader, with rt_tick_get, rt_thread_mdelay and
-- rt_tick_from_millisecond of the kernel. `try_recover` is given `s_dl.ok`, which the helper's
-- implementation of it reads; the callbacks do not call the manager back.
pub record UpdateOps (W : Type 0) : Type 0 where
  pub is_app_valid : W → Bool × W
  pub get_reason : W → ℕ × W
  pub set_reason : ℕ → W → W
  pub enter_download : W → W
  pub leave_download : W → W
  pub on_error : RtErr → W → W
  pub on_ready_to_app : W → W
  pub try_recover : Bool → W → Bool × W
  pub tick_get : W → ℕ × W
  pub mdelay : ℕ → W → W
  pub tick_from_millisecond : ℕ → ℕ
