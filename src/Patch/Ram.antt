-- ===== src/Patch/Ram.antt =====
-- The swap backend of algorithm/qboot_hpatchlite.c that collects in RAM: qbt_ram_swap_* and
-- qbt_ram_copy_to_old.
use rt_thread_qboot.Base.{ℕ, ◌+◌, Bool, some, List, length, take}
use rt_thread_qboot.Storage.{IoOps, is_eok}
use rt_thread_qboot.Patch.{Instance, SwapOps, pointee, copy_in}

module _ {W H : Type 0} where
  unfoldable pub ram_swap_init : ℕ → Instance W H → Bool × Instance W H
  ram_swap_init ram_buf_size s =
      (Bool.true, record s { swap = record s.swap { write_pos = 0; capacity = ram_buf_size } })

  abbrev pub ram_swap_deinit : Instance W H → Instance W H
  ram_swap_deinit s = s

  unfoldable pub ram_copy_to_old : IoOps W H → ℕ → Instance W H → Bool × Instance W H
  ram_copy_to_old io size s =
      let (rst, w) =
        io.write s.old_part s.committed_len (take size (pointee s.swap.ram_buf)) s.world in
      (is_eok rst, record s { world = w })

  unfoldable pub ram_swap_append : List ℕ → Instance W H → Bool × Instance W H
  ram_swap_append bytes s = (
    Bool.true,
    record s {
      swap = record s.swap {
        ram_buf = some (copy_in s.swap.write_pos bytes (pointee s.swap.ram_buf));
        write_pos = s.swap.write_pos + length bytes;
      };
    },
  )

  unfoldable pub ram_swap_reset : Instance W H → Bool × Instance W H
  ram_swap_reset s = (Bool.true, record s { swap = record s.swap { write_pos = 0 } })

  -- `g_qbt_swap_ops_ram`, on QBOOT_HPATCH_RAM_BUFFER_SIZE.
  abbrev pub ram_swap_ops : IoOps W H → ℕ → SwapOps W H
  ram_swap_ops io ram_buf_size = record {
    ram_buf_size = ram_buf_size;
    init = ram_swap_init ram_buf_size;
    deinit = ram_swap_deinit;
    append = ram_swap_append;
    copy_to_old = ram_copy_to_old io;
    reset = ram_swap_reset;
  }
