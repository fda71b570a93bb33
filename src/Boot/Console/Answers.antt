-- ===== src/Boot/Console/Answers.antt =====
-- What the key and the shell of src/qboot.c answer.
use rt_thread_qboot.Base.{
  ℕ, zero, suc, ◌+◌, ◌*◌, ◌≡◌, ◌≢◌, ◌≤◌, ◌<◌, refl, ap, sym, ◌∙◌, Bool, true, false, ◌&&◌, Option,
  none, some, List, [], ◌∷◌, ltb, ◌==◌, sub32, arith, Bool-cases, inl, inr, while, while_inv,
}
use rt_thread_qboot.Storage.{RtErr, is_eok}
use rt_thread_qboot.Boot.Console.{
  shell_key_check, ConsoleKernel, ConsoleCfg, Shelled, KeyWait, key_held, factory_key_check,
  dev_opened, sem_there, sem_made, dev_found, is_open_dev, shell_init, sem_taken, next_tick,
  key_round, key_test,
}

-- The levels of the key, had all n samples been taken.
abbrev samples : {W : Type 0} → ConsoleKernel W → ℕ → W → List ℕ
samples kernel zero w = []
samples kernel (suc n) w =
    let (level, w1) = kernel.pin_read (kernel.mdelay 100 w) in level ∷ samples kernel n w1

abbrev all_at : ℕ → List ℕ → Bool
all_at level [] = true
all_at level (x ∷ xs) = (x == level) && all_at level xs

module _ {W : Type 0} (kernel : ConsoleKernel W) (cfg : ConsoleCfg) where
  key_held-samples :
      (n : ℕ) (w : W) → (key_held kernel cfg n w).0 ≡ all_at cfg.key_level (samples kernel n w)
  unfolding key_held
  key_held-samples zero w = refl
  key_held-samples (suc n) w =
      let (level, w1) = kernel.pin_read (kernel.mdelay 100 w) in
      elim (Bool-cases (level == cfg.key_level)) [
        | inl pressed ↦ rw (pressed, key_held) (key_held-samples n w1)
        | inr released ↦ rw (released, key_held) refl
      ]

  -- The key counts as pressed if and only if it has the pressed level in every sample, ten a second.
  factory_key_check-samples :
      (w : W)
      → (factory_key_check kernel cfg w).0
        ≡ all_at cfg.key_level
            (samples kernel (cfg.key_chk_tmo * 10 + 1) (kernel.mdelay 500 (kernel.pin_mode w)))
  unfolding factory_key_check
  factory_key_check-samples w = key_held-samples (cfg.key_chk_tmo * 10 + 1) _

  -- The statics are set: a semaphore, and the device `dev`.
  abbrev Ready : ℕ → Bool × Shelled W → Type 0
  Ready dev r = r.0 ≡ true → (r.1.shell_sem ≢ none) × (r.1.shell_dev ≡ some dev)

  is_open_dev-same :
      (dev : ℕ) (old : Option ℕ) → is_open_dev kernel cfg dev old ≡ true → old ≡ some dev
  is_open_dev-same dev none same = absurd (ground arith)
  is_open_dev-same dev (some old) same =
      let one : dev ≡ old = ground (arith, same) in ap some (sym one)

  dev_opened-Ready :
      (dev : ℕ) (rst : RtErr) (w : W) (s : Shelled W)
      → s.shell_sem ≢ none
      → Ready dev (dev_opened kernel cfg dev (rst, w) s)
  unfolding dev_opened
  dev_opened-Ready dev rst w s has_sem = elim (Bool-cases (is_eok rst)) [
    | inl ok ↦ rw (ok, dev_opened) (λ e. (has_sem, refl))
    | inr bad ↦ rw (bad, dev_opened) (λ e. absurd (ground arith))
  ]

  sem_there-Ready :
      (dev : ℕ) (s : Shelled W) → s.shell_sem ≢ none → Ready dev (sem_there kernel cfg dev s)
  unfolding sem_there
  sem_there-Ready dev s has_sem = elim (Bool-cases (is_open_dev kernel cfg dev s.shell_dev)) [
    | inl same ↦ rw (same, sem_there) (λ e. (has_sem, is_open_dev-same dev s.shell_dev same))
    | inr other ↦
        let got = kernel.device_open dev s.world in
        rw (other, sem_there) (dev_opened-Ready dev got.0 got.1 s has_sem)
  ]

  sem_made-Ready :
      (dev : ℕ) (got : Option ℕ) (w : W) (s : Shelled W)
      → Ready dev (sem_made kernel cfg dev (got, w) s)
  unfolding sem_made
  sem_made-Ready dev none w s = λ e. absurd (ground arith)
  sem_made-Ready dev (some sem) w s =
      sem_there-Ready dev (record s { shell_sem = some sem; world = w }) (λ e. ground arith)

  dev_found-Ready :
      (dev : ℕ) (s : Shelled W) (sem : Option ℕ)
      → s.shell_sem ≡ sem
      → Ready dev (dev_found kernel cfg dev s sem)
  unfolding dev_found
  dev_found-Ready dev s none is_sem =
      let got = kernel.sem_create s.world in sem_made-Ready dev got.0 got.1 s
  dev_found-Ready dev s (some sem) is_sem = sem_there-Ready dev s (λ e. ground arith)

  shell_init-Ready :
      (dev : ℕ) (s : Shelled W)
      → (kernel.device_find s.world).0 ≡ some dev
      → Ready dev (shell_init kernel cfg s)
  unfolding shell_init
  shell_init-Ready dev s found =
      let s1 = record s { world = (kernel.device_find s.world).1 } in
      rw (found, shell_init) (dev_found-Ready dev s1 s1.shell_sem refl)

  -- If the console's device is found and qbt_shell_init succeeds, then the semaphore is there and that
  -- device is the one the shell reads from, whatever device was open before.
  pub shell_init-dev :
      (dev : ℕ) (s : Shelled W)
      → (kernel.device_find s.world).0 ≡ some dev
      → (shell_init kernel cfg s).0 ≡ true
      → ((shell_init kernel cfg s).1.shell_sem ≢ none)
        × ((shell_init kernel cfg s).1.shell_dev ≡ some dev)
  shell_init-dev dev s found ok = shell_init-Ready dev s found ok

-- `takes` bounds how often the semaphore can still be taken, or time out, before `tmo` ticks have gone by
-- since `tick_start`: each take lowers it, nothing else of the loop raises it, and the time is over when
-- it is 0.
pub record Takes {W : Type 0} (kernel : ConsoleKernel W) (tmo tick_start : ℕ) (takes : W → ℕ)
    : Type 0 where
  pub take_lowers : (sem n : ℕ) (w : W) → 0 < takes w → takes (kernel.sem_take sem n w).1 < takes w
  pub read_keeps : (dev : ℕ) (w : W) → takes (kernel.device_read dev w).1 ≡ takes w
  pub tick_keeps : (w : W) → takes (kernel.tick_get w).1 ≡ takes w
  pub time_over : (w : W) → takes w ≡ 0 → ltb (sub32 (kernel.tick_get w).0 tick_start) tmo ≡ false

module _ {W : Type 0} {kernel : ConsoleKernel W} (cfg : ConsoleCfg) {tick_start : ℕ} {takes : W → ℕ}
    (law : Takes kernel cfg.shell_tmo tick_start takes) (sem dev : ℕ) where
  -- Without a take left, the loop does not go on.
  abbrev Counted : KeyWait W → Type 0
  Counted s = takes s.world ≡ 0 → key_test kernel cfg tick_start s ≡ false

  sem_taken-takes : (rst : RtErr) (w : W) → takes (sem_taken kernel cfg dev (rst, w)).1 ≡ takes w
  unfolding sem_taken
  sem_taken-takes rst w = elim (Bool-cases (is_eok rst)) [
    | inl ok ↦ rw (ok, sem_taken) (law.read_keeps dev w)
    | inr bad ↦ rw (bad, sem_taken) refl
  ]

  next_tick-Counted :
      (found : Bool) (w : W) (now : ℕ)
      → Counted (next_tick kernel cfg (found, w) now)
        × (takes (next_tick kernel cfg (found, w) now).world ≡ takes w)
  unfolding next_tick key_test
  next_tick-Counted true w now = (λ e. refl, refl)
  next_tick-Counted false w now =
      (λ e. law.time_over w (sym (law.tick_keeps w) ∙ e), law.tick_keeps w)

  key_round-Counted :
      (s : KeyWait W)
      → Counted s
      → key_test kernel cfg tick_start s ≡ true
      → Counted (key_round kernel cfg sem dev s)
        × (takes (key_round kernel cfg sem dev s).world < takes s.world)
  unfolding key_round
  key_round-Counted s counted test =
      let some_left : 0 < takes s.world = ground (arith, counted, test) in
      let got = kernel.sem_take sem 100 s.world in
      let ch = sem_taken kernel cfg dev got in
      let (next, same) = next_tick-Counted ch.0 ch.1 s.now in
      (
        next,
        omega (arith, same, sem_taken-takes got.0 got.1, law.take_lowers sem 100 s.world some_left),
      )

  key_wait-ends :
      (rounds : ℕ) (s : KeyWait W)
      → takes s.world < rounds
      → Counted s
      → key_test kernel cfg tick_start
          (while rounds (key_test kernel cfg tick_start) (key_round kernel cfg sem dev) s)
        ≡ false
  key_wait-ends rounds s enough counted =
      (while_inv Counted (λ t. takes t.world) (key_test kernel cfg tick_start)
        (key_round kernel cfg sem dev) key_round-Counted rounds s enough counted).1

while-over :
    {S : Type 0} (rounds : ℕ) (cond : S → Bool) (step : S → S) (s : S)
    → cond s ≡ false
    → while rounds cond step s ≡ s
unfolding while
while-over zero cond step s over = refl
while-over (suc rounds) cond step s over = rw (over, while) refl

-- A loop that has ended makes no more rounds.
while-more :
    {S : Type 0} (total rounds : ℕ) (cond : S → Bool) (step : S → S) (s : S)
    → rounds ≤ total
    → cond (while rounds cond step s) ≡ false
    → while total cond step s ≡ while rounds cond step s
unfolding while
while-more total zero cond step s le over = while-over total cond step s over
while-more zero (suc rounds) cond step s le over = absurd (omega arith)
while-more (suc total) (suc rounds) cond step s le over = elim (Bool-cases (cond s)) [
  | inl goes ↦
      let over' : cond (while rounds cond step (step s)) ≡ false = ground (arith, over, goes) in
      rw (goes, while) (while-more total rounds cond step (step s) (omega arith) over')
  | inr ends ↦ rw (ends, while) refl
]

start_over :
    {W : Type 0} {kernel : ConsoleKernel W} (cfg : ConsoleCfg) {tick_start : ℕ} {takes : W → ℕ}
    (law : Takes kernel cfg.shell_tmo tick_start takes) (w : W)
    → takes (kernel.tick_get w).1 ≡ 0
    → key_test kernel cfg tick_start
        (record { found = false; now = (kernel.tick_get w).0; world = (kernel.tick_get w).1 })
      ≡ false
unfolding key_test
start_over cfg law w e = law.time_over w (sym (law.tick_keeps w) ∙ e)

-- The wait for the Enter key ends by itself: with more rounds than the semaphore can be taken before the
-- time is over, still more rounds change nothing in the answer or the state.
pub shell_key_check-ends :
    {W : Type 0} {kernel : ConsoleKernel W} (cfg : ConsoleCfg) {takes : W → ℕ} (w : W)
    (law : Takes kernel cfg.shell_tmo (kernel.tick_get w).0 takes) (sem dev rounds more : ℕ)
    → takes w < rounds
    → shell_key_check kernel cfg (rounds + more) sem dev w
      ≡ shell_key_check kernel cfg rounds sem dev w
unfolding shell_key_check
shell_key_check-ends {W = W} {kernel = kernel} cfg {takes = takes} w law sem dev rounds more
      enough =
    let w1 = (kernel.tick_get w).1 in
    let w2 = (kernel.tick_get w1).1 in
    let first : KeyWait W = record { found = false; now = (kernel.tick_get w1).0; world = w2 } in
    let kept : takes w2 ≡ takes w = law.tick_keeps w1 ∙ law.tick_keeps w in
    let over =
      key_wait-ends cfg law sem dev rounds first (omega (arith, kept))
        (λ e. start_over cfg law w1 e) in
    ap (λ (s : KeyWait _). (s.found, s.world))
      (while-more (rounds + more) rounds _ _ first (omega arith) over)
