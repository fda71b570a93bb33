-- ===== src/Patch/Balance/Run.antt =====
-- The blocks of memory and the handles over a run of the patcher (algorithm/qboot_hpatchlite.c).
use rt_thread_qboot.Base.{
  ℕ, ◌+◌, refl, ◌&&◌, Option, none, some, List, leb, ltb, ◌==◌, if◌then◌else◌, sub32, Bool-cases,
  inl, inr,
}
use rt_thread_qboot.Storage.{IoOps}
use rt_thread_qboot.Patch.{Swap, Instance, SwapOps, Kernel}
use rt_thread_qboot.Patch.Commit.{patch_got, do_read_patch, do_read_old, do_write_new}
use rt_thread_qboot.Patch.Release.{
  Patcher, finish, read_patch, read_old, write_new, is_success, hpi_patch, patch_and_commit,
}
use rt_thread_qboot.Patch.Balance.{LiveCount, Holding, SwapCount}
use rt_thread_qboot.Patch.Balance.Writes.{Holds-moved, swap_commit-Holds, do_write_new-Holds}

module _ {W H : Type 0} {io : IoOps W H} {wdt_feed : W → W} {kernel : Kernel W} {ops : SwapOps W H}
    {weigh : H → ℕ} {block : ℕ} {live : W → ℕ} {held : Swap H → ℕ}
    (count : LiveCount io wdt_feed kernel weigh block live) (swap : SwapCount ops block live held)
    (total handles : ℕ) where
  abbrev Holds : Instance W H → Type 0
  Holds = Holding block live held total handles

  patch_got-Holds :
      (h : H) (off len n : ℕ) (s : Instance W H) (got : Option (List ℕ))
      → Holds s
      → Holds (patch_got n s (got, (io.read h off len s.world).1)).1
  unfolding patch_got
  patch_got-Holds h off len n s none holds =
      Holds-moved count swap total handles s _ (count.handles.read_counts h off len s.world) refl
        holds
  patch_got-Holds h off len n s (some bytes) holds =
      Holds-moved count swap total handles s _ (count.handles.read_counts h off len s.world) refl
        holds

  do_read_patch-Holds : (size : ℕ) (s : Instance W H) → Holds s → Holds (do_read_patch io size s).1
  unfolding do_read_patch
  do_read_patch-Holds size s holds = elim (Bool-cases (leb s.patch_file_len s.patch_read_pos)) [
    | inl past ↦ rw (past, do_read_patch) holds
    | inr here ↦
        let left = sub32 s.patch_file_len s.patch_read_pos in
        let n = if ltb left size then left else size in
        let off = s.patch_file_offset + s.patch_read_pos in
        elim (Bool-cases (n == 0)) [
          | inl nothing ↦ rw (here, nothing, do_read_patch) holds
          | inr something ↦
              rw (here, something, do_read_patch)
                (patch_got-Holds s.patch_part off n n s (io.read s.patch_part off n s.world).0
                  holds)
        ]
  ]

  -- Whatever the patcher does.
  hpi_patch-Holds :
      (p : Patcher) (s : Instance W H) → Holds s → Holds (hpi_patch io wdt_feed kernel ops p s).1
  unfolding hpi_patch do_read_old
  hpi_patch-Holds (finish r) s holds = holds
  hpi_patch-Holds (read_patch n k) s holds =
      let (got, s') = do_read_patch io n s in
      hpi_patch-Holds (k got) s' (do_read_patch-Holds n s holds)
  hpi_patch-Holds (read_old addr n k) s holds =
      let (got, s') = do_read_old io addr n s in
      hpi_patch-Holds (k got) s' (
        Holds-moved count swap total handles s s'
          (count.handles.read_counts s.old_part addr n s.world) refl holds)
  hpi_patch-Holds (write_new bytes k) s holds =
      let (ok, s') = do_write_new io wdt_feed kernel ops bytes s in
      hpi_patch-Holds (k ok) s' (do_write_new-Holds count swap total handles bytes s holds)

  pub patch_and_commit-Holds :
      (p : Patcher) (s : Instance W H)
      → Holds s
      → Holds (patch_and_commit io wdt_feed kernel ops p s).1
  unfolding patch_and_commit
  patch_and_commit-Holds p s holds =
      let r = hpi_patch io wdt_feed kernel ops p s in
      let after = hpi_patch-Holds p s holds in
      elim (Bool-cases (is_success r.0 && ltb 0 r.1.swap.write_pos)) [
        | inr done ↦ rw (done, patch_and_commit) after
        | inl commits ↦
            rw (commits, patch_and_commit) (swap_commit-Holds count swap total handles r.1 after)
      ]
