-- ===== src/Tests/Console.antt =====
-- The theorems on the shell of src/qboot.c on a console with a clock of 5 ticks.
use rt_thread_qboot.Base.{ℕ, ◌-◌, ◌≡◌, ◌≢◌, refl, false, none, some, Option, List, [], ◌∷◌, arith}
use rt_thread_qboot.Storage.{eok}
use rt_thread_qboot.Boot.Console.{
  ConsoleKernel, ConsoleCfg, Shelled, shell_init, shell_key_check, dev_found, sem_made, sem_there,
  dev_opened,
}
use rt_thread_qboot.Boot.Console.Answers.{Takes, shell_init-dev, shell_key_check-ends}

-- The ticks that are left, and the characters that come.
record Desk : Type 0 where
  left : ℕ
  typed : List ℕ

abbrev type_next : List ℕ → Option ℕ × List ℕ
type_next [] = (none, [])
type_next (ch ∷ rest) = (some ch, rest)

abbrev desk_kernel : ConsoleKernel Desk
desk_kernel = record {
  pin_mode = λ d. d;
  pin_read = λ d. (0, d);
  mdelay = λ n d. d;
  thread_find = λ d. (none, d);
  is_systemobject = λ t d. false;
  is_closed = λ t d. false;
  thread_detach = λ t d. d;
  thread_delete = λ t d. d;
  sem_find = λ d. (none, d);
  sem_detach = λ s d. d;
  sem_delete = λ s d. d;
  sem_create = λ d. (some 7, d);
  sem_take = λ s n d. (eok, record d { left = d.left - 1 });
  device_find = λ d. (some 3, d);
  device_open = λ h d. (eok, d);
  device_close = λ h d. d;
  set_rx_indicate = λ h on d. d;
  device_read = λ h d. ((type_next d.typed).0, record d { typed = (type_next d.typed).1 });
  tick_get = λ d. (5 - d.left, d);
  finsh_start = λ d. d;
}

abbrev console_cfg : ConsoleCfg
console_cfg = record { key_level = 0; key_chk_tmo = 1; shell_tmo = 5 }

desk-Takes : Takes desk_kernel 5 0 (λ d. d.left)
desk-Takes = record {
  take_lowers = λ sem n d some_left. omega arith;
  read_keeps = λ h d. refl;
  tick_keeps = λ d. refl;
  time_over = λ d e. ground (arith, e);
}

-- An `a` and then Enter.
abbrev desk : Desk
desk = record { left = 5; typed = 97 ∷ 13 ∷ [] }

shell_key_check-ends_example :
    shell_key_check desk_kernel console_cfg 10 7 3 desk
    ≡ shell_key_check desk_kernel console_cfg 6 7 3 desk
shell_key_check-ends_example =
    shell_key_check-ends console_cfg desk desk-Takes 7 3 6 4 (omega arith)

-- Another device is open before.
abbrev shelled : Shelled Desk
shelled = record { shell_sem = none; shell_dev = some 2; world = desk }

shell_init-dev_example :
    ((shell_init desk_kernel console_cfg shelled).1.shell_sem ≢ none)
    × ((shell_init desk_kernel console_cfg shelled).1.shell_dev ≡ some 3)
unfolding shell_init dev_found sem_made sem_there dev_opened
shell_init-dev_example = shell_init-dev desk_kernel console_cfg 3 shelled refl refl
