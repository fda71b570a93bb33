-- ===== src/Patch/Write.antt =====
-- _do_write_new of algorithm/qboot_hpatchlite.c takes all of its bytes, or fails.
use rt_thread_qboot.Base.{
  ℕ, suc, ◌+◌, ◌-◌, ◌*◌, ◌≡◌, ◌≤◌, ◌<◌, ◌⊎◌, refl, ap, sym, ◌∙◌, Bool, true, false, List, ◌++◌,
  append_assoc, append-nil, length, take, drop, leb, ltb, if◌then◌else◌, sub32, u32_mod, arith,
  Bool-cases, inl, inr, while, while_inv, take-append-drop, length-take, length-drop, nil_of_length,
  sub32_le, lt→ltb,
}
use rt_thread_qboot.Storage.{IoOps}
use rt_thread_qboot.Patch.{Swap, Instance, SwapOps, Kernel}
use rt_thread_qboot.Patch.Commit.{
  swap_commit, Writing, chunk_len, commit_if_full, write_round, write_test, do_write_new,
}
use rt_thread_qboot.Patch.Laws.{Aligns, OldPart, SwapLaws}
use rt_thread_qboot.Patch.Collect.{Good, collected, swap_commit-Good}

module _ {W H : Type 0} {io : IoOps W H} {wdt_feed : W → W} {kernel : Kernel W} {ops : SwapOps W H}
    {old : H} {content : W → List ℕ} {room sector : ℕ} {Ready : Swap H → W → Type 0}
    {buffered : Swap H → W → List ℕ} (part : OldPart io wdt_feed old content room)
    (aligns : Aligns kernel sector)
    (laws : SwapLaws io wdt_feed ops old content room Ready buffered)
    (fits : room + sector ≤ u32_mod) (newer : ℕ) where
  abbrev GoodHere : Instance W H → Type 0
  GoodHere = Good part aligns laws fits newer

  abbrev view : Instance W H → List ℕ
  view = collected part aligns laws fits newer

  append-Good :
      (bytes : List ℕ) (s : Instance W H)
      → GoodHere s
      → s.swap.write_pos + length bytes ≤ s.swap.capacity
      → (ops.append bytes s).0 ≡ true
      → GoodHere (ops.append bytes s).1
        × (view (ops.append bytes s).1 ≡ view s ++ bytes)
        × ((ops.append bytes s).1.swap.capacity ≡ s.swap.capacity)
  append-Good bytes s good room_left ok =
      let s' = (ops.append bytes s).1 in
      let (ready, puts, same, kept) = laws.append_puts bytes s good.ready room_left ok in
      let image : take s'.committed_len (content s'.world)
          ≡ take s.committed_len (content s.world) =
        rw (kept.committed_len_kept, same) refl in
      (
        record {
          ready = ready;
          is_old = kept.old_part_kept ∙ good.is_old;
          is_sector = kept.sector_kept ∙ good.is_sector;
          is_newer = kept.newer_len_kept ∙ good.is_newer;
          marked = omega (arith, kept.committed_len_kept, kept.erased_end_kept, good.marked);
          inside = omega (arith, kept.committed_len_kept, good.inside);
          committed_length = ap length image ∙ good.committed_length ∙ sym kept.committed_len_kept;
        },
        rw (image, puts) (sym (append_assoc _ _ bytes)),
        kept.capacity_kept,
      )

  -- What holds of the loop unless it has failed: `whole` is what was view and what is still to come.
  record Going (whole : List ℕ) (d : Writing io wdt_feed kernel ops) : Type 0 where
    good : GoodHere d.inst
    has_room : d.inst.swap.write_pos < d.inst.swap.capacity
    all_there : view d.inst ++ d.data_cur ≡ whole

  abbrev WriteInv : List ℕ → Writing io wdt_feed kernel ops → Type 0
  WriteInv whole d = (d.failed ≡ true) ⊎ Going whole d

  abbrev left : Writing io wdt_feed kernel ops → ℕ
  left d = if d.failed then 0 else length d.data_cur

  abbrev Round : List ℕ → List ℕ → Writing io wdt_feed kernel ops → Type 0
  Round whole before d = WriteInv whole d × (left d < length before)

  commit_if_full-Round :
      (whole before rest : List ℕ) (capacity : ℕ) (got : Bool × Instance W H)
      → got.0 ≡ true
      → GoodHere got.1
      → got.1.swap.capacity ≡ capacity
      → view got.1 ++ rest ≡ whole
      → length rest < length before
      → Round whole before (commit_if_full io wdt_feed kernel ops rest capacity got)
  unfolding commit_if_full
  commit_if_full-Round whole before rest capacity got ok good same_capacity all shorter =
      elim (Bool-cases (leb capacity got.1.swap.write_pos)) [
        | inr has_room ↦
            rw (ok, has_room, commit_if_full)
              (
                inr (record {
                  good = good;
                  has_room = ground (arith, has_room, same_capacity);
                  all_there = all;
                }),
                shorter,
              )
        | inl full ↦ elim (Bool-cases (swap_commit io wdt_feed kernel ops got.1).0) [
          | inr bad ↦ rw (ok, full, bad, commit_if_full) (inl refl, omega (arith, shorter))
          | inl committed ↦
              let (good', same, empty, kept) =
                swap_commit-Good part aligns laws fits newer got.1 good committed in
              let some_room = laws.capacity_some got.1.swap got.1.world good.ready in
              rw (ok, full, committed, commit_if_full)
                (
                  inr (record {
                    good = good';
                    has_room = omega (arith, empty, kept, some_room);
                    all_there = ap (λ xs. xs ++ rest) same ∙ all;
                  }),
                  shorter,
                )
        ]
      ]

  write_round-Round :
      (whole : List ℕ) (d : Writing io wdt_feed kernel ops)
      → WriteInv whole d
      → write_test io wdt_feed kernel ops d ≡ true
      → WriteInv whole (write_round io wdt_feed kernel ops d)
        × (left (write_round io wdt_feed kernel ops d) < left d)
  unfolding write_round chunk_len commit_if_full
  write_round-Round whole d (inl failed) test = absurd (ground (arith, failed, test))
  write_round-Round whole d (inr going) test =
      let s = d.inst in
      let good = going.good in
      let chunk = chunk_len io wdt_feed kernel ops (length d.data_cur) s in
      let bytes = take chunk d.data_cur in
      let rest = drop chunk d.data_cur in
      let live : d.failed ≡ false = ground (arith, test) in
      let some_left : 0 < length d.data_cur = ground (arith, test) in
      let free : sub32 s.swap.capacity s.swap.write_pos ≡ s.swap.capacity - s.swap.write_pos =
        sub32_le s.swap.capacity s.swap.write_pos (omega (arith, going.has_room))
          (laws.capacity_small s.swap s.world good.ready) in
      let some_bytes : 0 < chunk = ground (arith, free, going.has_room) in
      let takes : chunk ≤ length d.data_cur = ground (arith, free) in
      let room_left : chunk ≤ s.swap.capacity - s.swap.write_pos = ground (arith, free) in
      let len : length bytes ≡ chunk = omega (arith, length-take chunk d.data_cur, takes) in
      let shorter : length rest < length d.data_cur =
        omega (arith, length-drop chunk d.data_cur, takes, some_bytes) in
      let positive : ltb 0 chunk ≡ true = lt→ltb 0 chunk some_bytes in
      elim (Bool-cases (ops.append bytes s).0) [
        | inr bad ↦
            rw (positive, bad, live, write_round, commit_if_full)
              (inl refl, omega (arith, some_left))
        | inl ok ↦
            let (good', puts, capacity) =
              append-Good bytes s good (omega (arith, len, room_left, going.has_room)) ok in
            let all : view (ops.append bytes s).1 ++ rest ≡ whole =
              ap (λ xs. xs ++ rest) puts
              ∙ append_assoc (view s) bytes rest
              ∙ ap (λ xs. view s ++ xs) (take-append-drop chunk d.data_cur)
              ∙ going.all_there in
            let round =
              commit_if_full-Round whole d.data_cur rest s.swap.capacity (ops.append bytes s) ok
                good' capacity all shorter in
            rw (positive, live, write_round) round
      ]

  write_loop-Ended :
      (bytes : List ℕ) (s : Instance W H)
      → GoodHere s
      → s.swap.write_pos < s.swap.capacity
      → let end =
          while
            (suc (2 * length bytes))
            (write_test io wdt_feed kernel ops)
            (write_round io wdt_feed kernel ops)
            (record { data_cur = bytes; failed = false; inst = s }) in
        WriteInv (view s ++ bytes) end × (write_test io wdt_feed kernel ops end ≡ false)
  write_loop-Ended bytes s good has_room =
      while_inv (WriteInv (view s ++ bytes)) left (write_test io wdt_feed kernel ops)
        (write_round io wdt_feed kernel ops) (write_round-Round (view s ++ bytes))
        (suc (2 * length bytes)) (record { data_cur = bytes; failed = false; inst = s })
        (omega arith) (inr (record { good = good; has_room = has_room; all_there = refl }))

  -- Between two calls of `_do_write_new` the buffer is not full.
  pub record Between (s : Instance W H) : Type 0 where
    pub good : GoodHere s
    pub has_room : s.swap.write_pos < s.swap.capacity

  -- A call of `_do_write_new` that succeeds has taken all of its bytes, wherever they are kept now.
  pub do_write_new-Between :
      (bytes : List ℕ) (s : Instance W H)
      → Between s
      → (do_write_new io wdt_feed kernel ops bytes s).0 ≡ true
      → Between (do_write_new io wdt_feed kernel ops bytes s).1
        × (view (do_write_new io wdt_feed kernel ops bytes s).1 ≡ view s ++ bytes)
  unfolding do_write_new
  do_write_new-Between bytes s between ok =
      let end =
        while (suc (2 * length bytes)) (write_test io wdt_feed kernel ops)
          (write_round io wdt_feed kernel ops)
          (record { data_cur = bytes; failed = false; inst = s }) in
      let (inv, ended) = write_loop-Ended bytes s between.good between.has_room in
      let live : end.failed ≡ false = ground (arith, ok) in
      elim inv [
        | inl failed ↦ absurd (ground (arith, failed, live))
        | inr going ↦
            let none_left : length end.data_cur ≡ 0 = ground (arith, ended, live) in
            let all : view end.inst ≡ view s ++ bytes =
              sym (append-nil (view end.inst))
              ∙ ap (λ xs. view end.inst ++ xs) (sym (nil_of_length end.data_cur none_left))
              ∙ going.all_there in
            let g = going.good in
            rw (live, do_write_new)
              (
                record {
                  good = record {
                    ready = g.ready;
                    is_old = g.is_old;
                    is_sector = g.is_sector;
                    is_newer = g.is_newer;
                    marked = g.marked;
                    inside = g.inside;
                    committed_length = g.committed_length;
                  };
                  has_room = going.has_room;
                },
                all,
              )
      ]
