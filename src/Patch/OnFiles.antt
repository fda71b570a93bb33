-- ===== src/Patch/OnFiles.antt =====
-- algorithm/qboot_hpatchlite.c on the files of src/qboot_fs_ops.c.
use rt_thread_qboot.Base.{ℕ, ◌≡◌, refl, false, Option, none, List}
use rt_thread_qboot.Storage.{StoreDesc}
use rt_thread_qboot.Storage.Fs.{Posix, Files, fs_io_ops}
use rt_thread_qboot.Patch.{Instance, SwapOps, Kernel}
use rt_thread_qboot.Patch.Release.{Patcher, sector_known, erase_tail, swap_free_buf, hpatch_release}

-- A differential update of a file fails, whatever the backend, the patcher and the state, since files
-- do not answer the query of the erase alignment. The patcher is not started, and the only effect is
-- the release of the swap's buffer.
pub hpatch_release-fs_io_ops :
    {W : Type 0} (posix : Posix W) (descs : List StoreDesc) (swap_size : ℕ → Option ℕ)
    (sign_path : List ℕ) (wdt_feed : Files W → Files W) (kernel : Kernel (Files W))
    (ops : SwapOps (Files W) ℕ) (swap_file : Option ℕ) (p : Patcher) (s : Instance (Files W) ℕ)
    → hpatch_release (fs_io_ops posix descs swap_size sign_path) wdt_feed kernel ops swap_file p s
      ≡ (
        false,
        record s {
          swap = record s.swap { ram_buf = none };
          world = kernel.rt_free s.swap.ram_buf s.world;
        },
      )
unfolding hpatch_release fs_io_ops sector_known erase_tail swap_free_buf
hpatch_release-fs_io_ops posix descs swap_size sign_path wdt_feed kernel ops swap_file p s = refl
