-- ===== src/Boot/Thread.antt =====
-- qbt_thread_entry of src/qboot.c: what the boot loader does after a reset.
use rt_thread_qboot.Base.{ℕ, Bool, true, false, if◌then◌else◌, not}
use rt_thread_qboot.Storage.{RtErr, is_eok, target_download, target_factory}
use rt_thread_qboot.Boot.Release.{Board, app_resume_from, release_from_part}

-- How the thread ends: it has jumped to the application, it has started the shell, or it has reset
-- the processor.
pub data Outcome : Type 0 where
  jumped in_shell reset : Outcome

-- What the thread calls besides: qboot_register_storage_ops, the key and the shell (true: the key is
-- pressed, the shell runs), the update manager, and qbt_jump_to_app, which returns `false` where the
-- C function returns.
pub record Hooks (W : Type 0) : Type 0 where
  pub register_storage_ops : W → RtErr × W
  pub factory_key_check : W → Bool × W
  pub startup_shell : Bool → W → Bool × W
  pub mgr_poll : W → W
  pub notify_update_result : Bool → W → W
  pub jump_to_app : W → Bool × W

module _ {W H : Type 0} (b : Board W H) (hooks : Hooks W) where
  -- `qbt_jump_to_app_with_feed`, before what follows it.
  unfoldable pub jump_or : (W → Outcome × W) → W → Outcome × W
  jump_or next w =
      let (left, w1) = hooks.jump_to_app (b.wdt_feed w) in if left then (jumped, w1) else next w1

  -- `if (qbt_app_resume_from(id)) qbt_jump_to_app_with_feed();`
  unfoldable pub resume_or : ℕ → (W → Outcome × W) → W → Outcome × W
  resume_or id next w =
      let (ok, w1) = app_resume_from b id w in if ok then jump_or next w1 else next w1

  unfoldable pub give_up : W → Outcome × W
  give_up w =
      let (shell, w1) = hooks.startup_shell false w in if shell then (in_shell, w1) else (reset, w1)

  -- From the release of the download on.
  unfoldable pub boot : W → Outcome × W
  boot w =
      let w1 = (release_from_part b target_download true w).1 in
      jump_or
        (resume_or target_download
          (resume_or target_factory (λ w2. give_up (hooks.notify_update_result false w2))))
        w1

  unfoldable pub after_key : W → Outcome × W
  after_key w =
      let (shell, w1) = hooks.startup_shell true w in
      if shell then (in_shell, w1) else boot (hooks.notify_update_result true (hooks.mgr_poll w1))

  -- `qbt_thread_entry`
  unfoldable pub thread_entry : W → Outcome × W
  thread_entry w =
      let (rst, w1) = hooks.register_storage_ops w in
      if not (is_eok rst)
      then give_up w1
      else (let (pressed, w2) = hooks.factory_key_check w1 in
          if pressed then resume_or target_factory after_key w2 else after_key w2)
