-- ===== src/Tests/Mux.antt =====
-- The theorems on the multiplexer of drivers (src/qboot_mux_ops.c) at concrete inputs.
use rt_thread_qboot.Base.{true, ℕ, ◌≡◌, refl, none, some, [], ◌∷◌}
use rt_thread_qboot.Storage.Targets.{target_desc, download_part_name}
use rt_thread_qboot.Storage.Mux.{Muxed, mux_open, mux_read, mux_read-mux_open}
use rt_thread_qboot.Tests.Board.{Board, board, io, desc, descs}

-- No target is open, and the package is three bytes long.
abbrev closed : Muxed Board ℕ
closed = record { slots = λ k. none; drivers = board 0 0 true (1 ∷ 2 ∷ 3 ∷ []) }

described : target_desc descs 1 ≡ some (desc 1 download_part_name)
unfolding target_desc
described = refl

mux_read-mux_open_example :
    let (got, m1) = mux_open (λ b. io) descs 1 1 closed in
    (got ≡ some 1)
    × ((mux_read (λ b. io) descs 1 1 2 m1).0 ≡ some (2 ∷ 3 ∷ []))
    × ((mux_read (λ b. io) descs 1 1 2 m1).1.drivers ≡ board 2 0 true (1 ∷ 2 ∷ 3 ∷ []))
mux_read-mux_open_example =
    mux_read-mux_open (λ b. io) descs 1 1 1 2 (desc 1 download_part_name) 1 closed described refl
