-- ===== src/Boot/Console.antt =====
-- The key and the shell of src/qboot.c, in a build with QBOOT_USING_FACTORY_KEY and
-- QBOOT_USING_SHELL: what the boot thread asks the person at the board. Devices, threads and
-- semaphores are numbers, the addresses of their objects.
pub mod Answers
use rt_thread_qboot.Base.{
  ℕ, zero, suc, ◌+◌, ◌*◌, Bool, true, false, not, ◌&&◌, Option, none, some, ltb, ◌==◌,
  if◌then◌else◌, sub32, while,
}
use rt_thread_qboot.Storage.{RtErr, is_eok}
use rt_thread_qboot.Boot.Release.{Board}
use rt_thread_qboot.Boot.Thread.{Outcome, Hooks, thread_entry}

-- The calls of the kernel: pins, threads, semaphores, devices and the clock. `device_read` gives the
-- character that it has read, if any; `finsh_start` sets the prompt and starts the system shell;
-- `set_rx_indicate` installs qbt_shell_rx_ind or takes it off.
pub record ConsoleKernel (W : Type 0) : Type 0 where
  pub pin_mode : W → W
  pub pin_read : W → ℕ × W
  pub mdelay : ℕ → W → W
  pub thread_find : W → Option ℕ × W
  pub is_systemobject : ℕ → W → Bool
  pub is_closed : ℕ → W → Bool
  pub thread_detach : ℕ → W → W
  pub thread_delete : ℕ → W → W
  pub sem_find : W → Option ℕ × W
  pub sem_detach : ℕ → W → W
  pub sem_delete : ℕ → W → W
  pub sem_create : W → Option ℕ × W
  pub sem_take : ℕ → ℕ → W → RtErr × W
  pub device_find : W → Option ℕ × W
  pub device_open : ℕ → W → RtErr × W
  pub device_close : ℕ → W → W
  pub set_rx_indicate : ℕ → Bool → W → W
  pub device_read : ℕ → W → Option ℕ × W
  pub tick_get : W → ℕ × W
  pub finsh_start : W → W

-- QBOOT_FACTORY_KEY_LEVEL, QBOOT_FACTORY_KEY_CHK_TMO, and the ticks of QBOOT_SHELL_KEY_CHK_TMO.
pub record ConsoleCfg : Type 0 where
  pub key_level : ℕ
  pub key_chk_tmo : ℕ
  pub shell_tmo : ℕ

-- `qbt_shell_sem` and `qbt_shell_dev`, and everything else.
pub record Shelled (W : Type 0) : Type 0 where
  pub shell_sem : Option ℕ
  pub shell_dev : Option ℕ
  pub world : W

-- The state of the loop of `qbt_shell_key_check`.
pub record KeyWait (W : Type 0) : Type 0 where
  pub found : Bool
  pub now : ℕ
  pub world : W

module _ {W : Type 0} (kernel : ConsoleKernel W) (cfg : ConsoleCfg) where
  -- The samples of the key, a tenth of a second apart, up to the first without the pressed level.
  unfoldable pub key_held : ℕ → W → Bool × W
  key_held zero w = (true, w)
  key_held (suc n) w =
      let (level, w1) = kernel.pin_read (kernel.mdelay 100 w) in
      elim (level == cfg.key_level) [ false ↦ (false, w1) | true ↦ key_held n w1 ]

  unfoldable pub factory_key_check : W → Bool × W
  factory_key_check w = key_held (cfg.key_chk_tmo * 10 + 1) (kernel.mdelay 500 (kernel.pin_mode w))

  unfoldable pub stop_thread : ℕ → W → W
  stop_thread t w =
      if kernel.is_systemobject t w then kernel.thread_detach t w else kernel.thread_delete t w

  unfoldable pub stop_sem : Option ℕ × W → W
  stop_sem (none, w) = w
  stop_sem (some s, w) =
      if kernel.is_systemobject s w then kernel.sem_detach s w else kernel.sem_delete s w

  unfoldable pub close_sys_shell : W → W
  close_sys_shell w =
      let (thread, w1) = kernel.thread_find w in
      elim thread [ none ↦ w1 | some t ↦ stop_sem (kernel.sem_find (stop_thread t w1)) ]

  unfoldable pub open_sys_shell : W → W
  open_sys_shell w =
      let (thread, w1) = kernel.thread_find w in
      elim thread [
        | none ↦ kernel.finsh_start w1
        | some t ↦ if kernel.is_closed t w1 then kernel.finsh_start w1 else w1
      ]

  unfoldable pub close_old : Option ℕ → W → W
  close_old none w = w
  close_old (some old) w = kernel.set_rx_indicate old false (kernel.device_close old w)

  -- From the open of the device on.
  unfoldable pub dev_opened : ℕ → RtErr × W → Shelled W → Bool × Shelled W
  dev_opened dev (rst, w) s =
      if is_eok rst
      then (
        true,
        record s {
          shell_dev = some dev;
          world = kernel.set_rx_indicate dev true (close_old s.shell_dev w);
        },
      )
      else (false, record s { world = w })

  abbrev pub is_open_dev : ℕ → Option ℕ → Bool
  is_open_dev dev none = false
  is_open_dev dev (some old) = dev == old

  -- With the semaphore there.
  unfoldable pub sem_there : ℕ → Shelled W → Bool × Shelled W
  unfolding dev_opened
  sem_there dev s =
      if is_open_dev dev s.shell_dev
      then (true, s)
      else dev_opened dev (kernel.device_open dev s.world) s

  unfoldable pub sem_made : ℕ → Option ℕ × W → Shelled W → Bool × Shelled W
  unfolding sem_there
  sem_made dev (none, w) s = (false, record s { shell_sem = none; world = w })
  sem_made dev (some sem, w) s = sem_there dev (record s { shell_sem = some sem; world = w })

  unfoldable pub dev_found : ℕ → Shelled W → Option ℕ → Bool × Shelled W
  dev_found dev s none = sem_made dev (kernel.sem_create s.world) s
  dev_found dev s (some sem) = sem_there dev s

  unfoldable pub shell_init : Shelled W → Bool × Shelled W
  shell_init s =
      let (dev, w) = kernel.device_find s.world in
      let s1 = record s { world = w } in
      elim dev [ none ↦ (false, s1) | some d ↦ dev_found d s1 s1.shell_sem ]

  abbrev pub is_enter : Option ℕ → Bool
  is_enter none = false
  is_enter (some ch) = ch == 13

  -- After the semaphore was taken, or not.
  unfoldable pub sem_taken : ℕ → RtErr × W → Bool × W
  sem_taken dev (rst, w) =
      if is_eok rst
      then (let (ch, w1) = kernel.device_read dev w in (is_enter ch, w1))
      else (false, w)

  unfoldable pub next_tick : Bool × W → ℕ → KeyWait W
  next_tick (found, w) now =
      let (tick, w1) = kernel.tick_get w in
      if found
      then record { found = true; now = now; world = w }
      else record { found = false; now = tick; world = w1 }

  unfoldable pub key_round : ℕ → ℕ → KeyWait W → KeyWait W
  key_round sem dev s = next_tick (sem_taken dev (kernel.sem_take sem 100 s.world)) s.now

  unfoldable pub key_test : ℕ → KeyWait W → Bool
  key_test tick_start s = not s.found && ltb (sub32 s.now tick_start) cfg.shell_tmo

  -- In at most `rounds` rounds.
  unfoldable pub shell_key_check : ℕ → ℕ → ℕ → W → Bool × W
  shell_key_check rounds sem dev w =
      let (tick_start, w1) = kernel.tick_get w in
      let (now, w2) = kernel.tick_get w1 in
      let end =
        while rounds (key_test tick_start) (key_round sem dev)
          (record { found = false; now = now; world = w2 }) in
      (end.found, end.world)

  -- The wait for the key on the objects of the statics, which qbt_shell_init has set.
  unfoldable pub key_checked : ℕ → Shelled W → Option ℕ → Option ℕ → Bool × Shelled W
  key_checked rounds s (some sem) (some dev) =
      let (found, w) = shell_key_check rounds sem dev s.world in
      if found
      then (true, record s { world = open_sys_shell w })
      else (false, record s { world = w })
  key_checked rounds s none dev = (false, s)
  key_checked rounds s (some sem) none = (false, s)

  unfoldable pub startup_shell : ℕ → Bool → Shelled W → Bool × Shelled W
  startup_shell rounds wait_press_key s =
      let (ok, s1) = shell_init s in
      if not ok
      then (false, s1)
      else (if wait_press_key
          then key_checked rounds s1 s1.shell_sem s1.shell_dev
          else (true, record s1 { world = open_sys_shell s1.world }))

  -- The key and the shell as the boot thread calls them.
  abbrev pub console_hooks : ℕ → Hooks (Shelled W) → Hooks (Shelled W)
  console_hooks rounds hooks = record hooks {
    factory_key_check =
        λ s. let (held, w) = factory_key_check s.world in (held, record s { world = w });
    startup_shell = startup_shell rounds;
  }

  -- The whole of `qbt_thread_entry`.
  unfoldable pub shell_thread_entry :
      {H : Type 0} → ℕ → Board (Shelled W) H → Hooks (Shelled W) → Shelled W → Outcome × Shelled W
  shell_thread_entry rounds b hooks s =
      thread_entry b (console_hooks rounds hooks)
        (record s { world = close_sys_shell (kernel.mdelay 2 s.world) })
