-- ===== src/Patch/Balance/Writes.antt =====
-- The blocks of memory and the handles over a commit and a write of the listener of
-- algorithm/qboot_hpatchlite.c.
use rt_thread_qboot.Base.{
  ℕ, suc, ◌+◌, ◌*◌, ◌≡◌, refl, ap, ◌∙◌, Bool, true, false, List, length, take, drop, leb, ltb, ◌==◌,
  u32_mod, ◌%◌, Bool-cases, inl, inr, while, while_keeps,
}
use rt_thread_qboot.Storage.{IoOps, is_eok}
use rt_thread_qboot.Storage.Targets.{erase_with_feed}
use rt_thread_qboot.Patch.Balance.{block_of}
use rt_thread_qboot.Patch.{Swap, Instance, SwapOps, Kernel}
use rt_thread_qboot.Patch.Commit.{
  erased_range, erase_aligned_range, swap_commit, Writing, chunk_len, commit_if_full, write_round,
  write_test, do_write_new,
}
use rt_thread_qboot.Patch.Erase.{erase_aligned_range-cases}
use rt_thread_qboot.Patch.Balance.{LiveCount, Holding, SwapCount}

module _ {W H : Type 0} {io : IoOps W H} {wdt_feed : W → W} {kernel : Kernel W} {weigh : H → ℕ}
    {block : ℕ} {live : W → ℕ} (count : LiveCount io wdt_feed kernel weigh block live) where
  pub erase_with_feed-live :
      (h : H) (off len : ℕ) (w : W) → live (erase_with_feed io wdt_feed h off len w).1 ≡ live w
  unfolding erase_with_feed
  erase_with_feed-live h off len w =
      count.feed_counts (io.erase h off len (wdt_feed w)).1
      ∙ count.handles.erase_counts h off len (wdt_feed w)
      ∙ count.feed_counts w

  -- An erase changes no count, and nothing of the swap.
  pub erase-live :
      (start end : ℕ) (up : Bool) (s : Instance W H)
      → let r = (erase_aligned_range io wdt_feed kernel start end up s).1 in
        (live r.world ≡ live s.world) × (r.swap ≡ s.swap)
  unfolding erased_range
  erase-live start end up s =
      erase_aligned_range-cases io wdt_feed kernel
        (λ r. (live r.1.world ≡ live s.world) × (r.1.swap ≡ s.swap)) start end up s (refl, refl)
        (λ first len erase_end above grows.
          elim (Bool-cases (is_eok (erase_with_feed io wdt_feed s.old_part first len s.world).0)) [
            | inl ok ↦
                rw (ok, erased_range) (erase_with_feed-live s.old_part first len s.world, refl)
            | inr bad ↦
                rw (bad, erased_range) (erase_with_feed-live s.old_part first len s.world, refl)
          ])

module _ {W H : Type 0} {io : IoOps W H} {wdt_feed : W → W} {kernel : Kernel W} {ops : SwapOps W H}
    {weigh : H → ℕ} {block : ℕ} {live : W → ℕ} {held : Swap H → ℕ}
    (count : LiveCount io wdt_feed kernel weigh block live) (swap : SwapCount ops block live held)
    (total handles : ℕ) where
  abbrev Holds : Instance W H → Type 0
  Holds = Holding block live held total handles

  -- An instance that differs in nothing that is counted.
  pub Holds-moved :
      (s s' : Instance W H) → live s'.world ≡ live s.world → s'.swap ≡ s.swap → Holds s → Holds s'
  Holds-moved s s' same same_swap holds = record {
    is_live = same ∙ holds.is_live;
    has_buf = ap (λ sw. block_of block sw.ram_buf) same_swap ∙ holds.has_buf;
    is_held = ap held same_swap ∙ holds.is_held;
  }

  pub swap_commit-Holds :
      (s : Instance W H) → Holds s → Holds (swap_commit io wdt_feed kernel ops s).1
  unfolding swap_commit
  swap_commit-Holds s holds =
      let used = s.swap.write_pos in
      let e =
        erase_aligned_range io wdt_feed kernel (s.committed_len % u32_mod)
          ((s.committed_len + used) % u32_mod) false s in
      let (same, same_swap) =
        erase-live count (s.committed_len % u32_mod) ((s.committed_len + used) % u32_mod) false s in
      let holds1 = Holds-moved s e.1 same same_swap holds in
      let c = ops.copy_to_old used e.1 in
      let holds2 = swap.copy_holds total handles used e.1 holds1 in
      let s3 : Instance W H = record c.1 { committed_len = c.1.committed_len + used } in
      let holds4 = swap.reset_holds total handles s3 (Holds-moved c.1 s3 refl refl holds2) in
      elim (Bool-cases (used == 0)) [
        | inl nothing ↦ rw (nothing, swap_commit) holds
        | inr some_bytes ↦ elim (Bool-cases e.0) [
          | inr bad ↦ rw (some_bytes, bad, swap_commit) holds1
          | inl erased ↦ elim (Bool-cases c.0) [
            | inr bad ↦ rw (some_bytes, erased, bad, swap_commit) holds2
            | inl copied ↦ rw (some_bytes, erased, copied, swap_commit) holds4
          ]
        ]
      ]

  commit_if_full-Holds :
      (rest : List ℕ) (capacity : ℕ) (got : Bool × Instance W H)
      → Holds got.1
      → Holds (commit_if_full io wdt_feed kernel ops rest capacity got).inst
  unfolding commit_if_full
  commit_if_full-Holds rest capacity got holds = elim (Bool-cases got.0) [
    | inr bad ↦ rw (bad, commit_if_full) holds
    | inl ok ↦ elim (Bool-cases (leb capacity got.1.swap.write_pos)) [
      | inr has_room ↦ rw (ok, has_room, commit_if_full) holds
      | inl full ↦ rw (ok, full, commit_if_full) (swap_commit-Holds got.1 holds)
    ]
  ]

  write_round-Holds :
      (d : Writing io wdt_feed kernel ops)
      → Holds d.inst
      → Holds (write_round io wdt_feed kernel ops d).inst
  unfolding write_round
  write_round-Holds d holds =
      let chunk = chunk_len io wdt_feed kernel ops (length d.data_cur) d.inst in
      let rest = drop chunk d.data_cur in
      elim (Bool-cases (ltb 0 chunk)) [
        | inr nothing ↦
            rw (nothing, write_round)
              (commit_if_full-Holds rest d.inst.swap.capacity (true, d.inst) holds)
        | inl some_bytes ↦
            rw (some_bytes, write_round)
              (commit_if_full-Holds rest d.inst.swap.capacity
                (ops.append (take chunk d.data_cur) d.inst)
                (swap.append_holds total handles (take chunk d.data_cur) d.inst holds))
      ]

  pub do_write_new-Holds :
      (bytes : List ℕ) (s : Instance W H)
      → Holds s
      → Holds (do_write_new io wdt_feed kernel ops bytes s).1
  unfolding do_write_new
  do_write_new-Holds bytes s holds =
      let start : Writing io wdt_feed kernel ops = record {
        data_cur = bytes;
        failed = false;
        inst = s;
      } in
      let end =
        while (suc (2 * length bytes)) (write_test io wdt_feed kernel ops)
          (write_round io wdt_feed kernel ops) start in
      let after =
        while_keeps (λ d. Holds d.inst) (write_test io wdt_feed kernel ops)
          (write_round io wdt_feed kernel ops) (λ d inv test. write_round-Holds d inv)
          (suc (2 * length bytes)) start holds in
      elim (Bool-cases end.failed) [
        | inl failed ↦ rw (failed, do_write_new) after
        | inr done ↦ rw (done, do_write_new) (Holds-moved end.inst _ refl refl after)
      ]
