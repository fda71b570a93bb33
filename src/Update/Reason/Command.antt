-- ===== src/Update/Reason/Command.antt =====
-- What `qboot reason` does to the stored reason.
use rt_thread_qboot.Base.{ℕ, ◌≡◌, true, false, List, arith, ◌⊎◌}
use rt_thread_qboot.Update.{Sys, UpdateOps, recv}
use rt_thread_qboot.Update.Reason.{show, change, request_of, reason_cmd}

module _ {W H : Type 0} (ops : UpdateOps W) where
  -- While data is received the command writes no reason: it refuses and changes nothing, or it only
  -- shows the reason.
  pub reason_cmd-recv :
      (args : List (List ℕ)) (s : Sys W H)
      → s.state ≡ recv
      → (reason_cmd ops args s ≡ (false, s))
        ⊎ ((request_of args ≡ show)
            × (reason_cmd ops args s ≡ (true, record s { world = (ops.get_reason s.world).1 })))
  unfolding reason_cmd
  reason_cmd-recv args s h = ground arith

  -- A change that succeeds was read back as asked, and the manager's own
  -- state is as it was.
  pub reason_cmd-change :
      (args : List (List ℕ)) (r : ℕ) (s : Sys W H)
      → request_of args ≡ change r
      → (reason_cmd ops args s).0 ≡ true
      → let w1 = (ops.get_reason s.world).1 in
        ((ops.get_reason (ops.set_reason r w1)).0 ≡ r)
        × ((reason_cmd ops args s).1
            ≡ record s { world = (ops.get_reason (ops.set_reason r w1)).1 })
  unfolding reason_cmd
  reason_cmd-change args r s e h = ground arith
