-- ===== src/Patch/Handed.antt =====
-- What the patcher hands over to the code of algorithm/qboot_hpatchlite.c.
use rt_thread_qboot.Base.{ℕ, ◌≡◌, ◌≤◌, Bool, true, false, Option, List, [], ◌++◌}
use rt_thread_qboot.Storage.{IoOps}
use rt_thread_qboot.Storage.Custom.{get_erase_align}
use rt_thread_qboot.Patch.{Instance, SwapOps, Kernel}
use rt_thread_qboot.Patch.Commit.{do_read_patch, do_read_old, do_write_new}
use rt_thread_qboot.Patch.Release.{
  Patcher, finish, read_patch, read_old, write_new, is_success, hpi_patch, swap_alloc_buf,
}

-- A patcher that ends without success, whatever the calls return.
unfoldable pub GivesUp : Patcher → Type 0
GivesUp (finish r) = is_success r ≡ false
GivesUp (read_patch n k) = (got : Option (List ℕ)) → GivesUp (k got)
GivesUp (read_old addr n k) = (got : Option (List ℕ)) → GivesUp (k got)
GivesUp (write_new bytes k) = (ok : Bool) → GivesUp (k ok)

-- A patcher that gives up once a write has failed.
unfoldable pub Heeds : Patcher → Type 0
unfolding GivesUp
Heeds (finish r) = 0 ≤ 0
Heeds (read_patch n k) = (got : Option (List ℕ)) → Heeds (k got)
Heeds (read_old addr n k) = (got : Option (List ℕ)) → Heeds (k got)
Heeds (write_new bytes k) = GivesUp (k false) × Heeds (k true)

module _ {W H : Type 0} (io : IoOps W H) (wdt_feed : W → W) (kernel : Kernel W)
    (ops : SwapOps W H) where
  -- The bytes that a run hands to `_do_write_new`, in their order.
  unfoldable pub handed_over : Patcher → Instance W H → List ℕ
  handed_over (finish r) s = []
  handed_over (read_patch n k) s = let (got, s') = do_read_patch io n s in handed_over (k got) s'
  handed_over (read_old addr n k) s =
      let (got, s') = do_read_old io addr n s in handed_over (k got) s'
  handed_over (write_new bytes k) s =
      let (ok, s') = do_write_new io wdt_feed kernel ops bytes s in bytes ++ handed_over (k ok) s'

  -- The instance that the patcher is started on, for an erase alignment.
  abbrev pub at_start : ℕ → Instance W H → Instance W H
  at_start sector s =
      let asked = record s {
        old_part_sector_size = sector;
        world = (io.ioctl s.old_part get_erase_align s.world).1;
      } in
      (ops.init (swap_alloc_buf io wdt_feed kernel ops asked).1).1

  pub GivesUp-fails :
      (p : Patcher) (s : Instance W H)
      → GivesUp p
      → is_success (hpi_patch io wdt_feed kernel ops p s).0 ≡ false
  unfolding hpi_patch GivesUp
  GivesUp-fails (finish r) s gives_up = gives_up
  GivesUp-fails (read_patch n k) s gives_up =
      let (got, s') = do_read_patch io n s in GivesUp-fails (k got) s' (gives_up got)
  GivesUp-fails (read_old addr n k) s gives_up =
      let (got, s') = do_read_old io addr n s in GivesUp-fails (k got) s' (gives_up got)
  GivesUp-fails (write_new bytes k) s gives_up =
      let (ok, s') = do_write_new io wdt_feed kernel ops bytes s in
      GivesUp-fails (k ok) s' (gives_up ok)
