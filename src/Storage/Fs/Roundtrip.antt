-- ===== src/Storage/Fs/Roundtrip.antt =====
-- The files of src/qboot_fs_ops.c: what is written is read back, and an erase empties the whole file.
use rt_thread_qboot.Base.{
  ◌%◌, u32_mod, ℕ, ◌≡◌, refl, ap, sym, ◌∙◌, true, Option, none, some, List, [], length, slice,
  arith, Option-cases, inl, inr,
}
use rt_thread_qboot.Storage.{eok, StoreDesc}
use rt_thread_qboot.Storage.Fs.{Posix, Files, fd_of, fs_read, fs_write, fs_erase, fs_size, whole}

-- An open file with a content and a position, as POSIX describes it. A write that takes its bytes
-- puts them at the position, a read gets the bytes from the position on, as many as there are.
pub record OpenFile {W : Type 0} (posix : Posix W) (fd : Option ℕ) (content : W → List ℕ)
    (position : W → ℕ) : Type 0 where
  pub seek_succeeds : (off : ℕ) (w : W) → (posix.seek_set fd off w).0 ≡ true
  pub seek_moves : (off : ℕ) (w : W) → position (posix.seek_set fd off w).1 ≡ off
  pub seek_content : (off : ℕ) (w : W) → content (posix.seek_set fd off w).1 ≡ content w
  pub cur_content : (w : W) → content (posix.seek_cur fd w).1 ≡ content w
  pub end_is_length : (w : W) → (posix.seek_end fd w).0 ≡ some (length (content w))
  pub write_content :
      (bytes : List ℕ) (w : W)
      → (posix.write_file fd bytes w).0 ≡ some (length bytes)
      → slice (position w) (length bytes) (content (posix.write_file fd bytes w).1) ≡ bytes
  pub read_gets :
      (len : ℕ) (w : W) → (posix.read_file fd len w).0 ≡ some (slice (position w) len (content w))
  pub truncate_empties :
      (w : W) → (posix.truncate fd 0 w).0 ≡ true → content (posix.truncate fd 0 w).1 ≡ []

module _ {W : Type 0} {posix : Posix W} {content : W → List ℕ} {position : W → ℕ}
    (descs : List StoreDesc) (swap_size : ℕ → Option ℕ) (sign_path : List ℕ) (id : ℕ) (f : Files W)
    (file : OpenFile posix (fd_of (f.fds id)) content position) where
  -- A read of an open file succeeds exactly if there are as many bytes as were asked for, and gets them.
  fs_read-slice :
      (off len : ℕ) (w : W)
      → (fs_read posix descs swap_size sign_path id off len (record f { system = w })).0
        ≡ whole posix descs swap_size sign_path len (some (slice off len (content w)))
  unfolding fs_read
  fs_read-slice off len w =
      let w1 = (posix.seek_set (fd_of (f.fds id)) off w).1 in
      rw (file.seek_succeeds, file.read_gets len w1, file.seek_moves, file.seek_content, fs_read)
        refl

  -- What was written to an open file with success is what a read of the same place gets.
  pub fs_read-fs_write :
      (off : ℕ) (bytes : List ℕ)
      → (fs_write posix descs swap_size sign_path id off bytes f).0 ≡ eok
      → (fs_read posix descs swap_size sign_path id off
          (length bytes)
          (fs_write posix descs swap_size sign_path id off bytes f).1).0
        ≡ some bytes
  unfolding fs_write
  fs_read-fs_write off bytes ok =
      let w1 = (posix.seek_set (fd_of (f.fds id)) off f.system).1 in
      let w2 = (posix.write_file (fd_of (f.fds id)) bytes w1).1 in
      let sought = file.seek_succeeds off f.system in
      let taken : (posix.write_file (fd_of (f.fds id)) bytes w1).0 ≡ some (length bytes) =
        elim (Option-cases (posix.write_file (fd_of (f.fds id)) bytes w1).0) [
          | inl failed ↦ absurd (ground (arith, sought, failed, ok))
          | inr (n, took) ↦
              let all : n ≡ length bytes = ground (arith, sought, took, ok) in took ∙ ap some all
        ] in
      let there : slice off (length bytes) (content w2) ≡ bytes =
        ap (λ p. slice p (length bytes) (content w2)) (sym (file.seek_moves off f.system))
        ∙ file.write_content bytes w1 taken in
      rw (sought, fs_write, fs_read-slice off (length bytes) w2, there) (ground arith)

  fs_size-length :
      (w : W)
      → swap_size id ≡ none
      → (fs_size posix descs swap_size sign_path id (record f { system = w })).0
        ≡ some (length (content w) % u32_mod)
  unfolding fs_size
  fs_size-length w no_swap = rw (no_swap, fs_size, file.end_is_length, file.cur_content) refl

  -- An erase of any range of an open file, unless it is the swap, leaves a file of size 0.
  pub fs_size-fs_erase :
      (off len : ℕ)
      → swap_size id ≡ none
      → (fs_erase posix descs swap_size sign_path id off len f).0 ≡ eok
      → (fs_size posix descs swap_size sign_path id
          (fs_erase posix descs swap_size sign_path id off len f).1).0
        ≡ some 0
  unfolding fs_erase
  fs_size-fs_erase off len no_swap ok =
      let fd = fd_of (f.fds id) in
      let w1 = (posix.truncate fd 0 f.system).1 in
      let cut : (posix.truncate fd 0 f.system).0 ≡ true = ground (arith, no_swap, ok) in
      let erased : (fs_erase posix descs swap_size sign_path id off len f).1
          ≡ record f { system = w1 } =
        rw (no_swap, fs_erase) refl in
      ap (λ g. (fs_size posix descs swap_size sign_path id g).0) erased
      ∙ fs_size-length w1 no_swap
      ∙ ap (λ xs. some (length xs % u32_mod)) (file.truncate_empties f.system cut)
