-- ===== src/Tests/Files.antt =====
-- The theorems on the driver of files (src/qboot_fs_ops.c) at concrete inputs.
use rt_thread_qboot.Base.{
  ap, ◌∙◌, nil_of_length, length-drop, length-append, drop-append, take-append, ℕ, ◌+◌, ◌≡◌, refl,
  true, false, Option, none, some, List, [], ◌∷◌, ◌++◌, take, drop, slice, length, arith,
}
use rt_thread_qboot.Storage.Fs.{Posix, Files, fs_read, fs_write, fs_erase, fs_size, fs_io_ops}
use rt_thread_qboot.Storage.Fs.Roundtrip.{OpenFile, fs_read-fs_write, fs_size-fs_erase}
use rt_thread_qboot.Patch.{Instance, Kernel}
use rt_thread_qboot.Patch.Ram.{ram_swap_ops}
use rt_thread_qboot.Patch.Release.{finish, success, hpatch_release, hpatch_instance}
use rt_thread_qboot.Tests.Disk.{pad, length-pad}
use rt_thread_qboot.Patch.OnFiles.{hpatch_release-fs_io_ops}

-- One file.
pub record File : Type 0 where
  pub content : List ℕ
  pub position : ℕ

abbrev posix : Posix File
posix = record {
  open_file = λ name flags w. (some 0, w);
  close_file = λ fd w. w;
  seek_set = λ fd off w. (true, record w { position = off });
  seek_cur = λ fd w. (some w.position, w);
  seek_end = λ fd w. (some (length w.content), record w { position = length w.content });
  read_file = λ fd len w. (some (slice w.position len w.content), w);
  write_file = λ fd bytes w. (
    some (length bytes),
    record {
      content = pad w.position w.content ++ bytes ++ drop (w.position + length bytes) w.content;
      position = w.position + length bytes;
    },
  );
  truncate = λ fd n w. (true, record w { content = take n w.content });
  unlink = λ name w. w;
}

-- What is put behind the first n bytes stands at the place n.
slice-put :
    (n : ℕ) (xs bytes rest : List ℕ) → slice n (length bytes) (pad n xs ++ bytes ++ rest) ≡ bytes
slice-put n xs bytes rest =
    let head = pad n xs in
    let len : length head ≡ n = length-pad n xs in
    let nothing : drop n head ≡ [] =
      nil_of_length (drop n head) (omega (arith, length-drop n head, len)) in
    ap (λ ys. take (length bytes) ys)
      (drop-append n (head ++ bytes) rest (omega (arith, length-append head bytes, len))
        ∙ ap (λ ys. ys ++ rest)
            (drop-append n head bytes (omega (arith, len)) ∙ ap (λ ys. ys ++ bytes) nothing))
    ∙ take-append (length bytes) bytes rest refl

file : (fd : Option ℕ) → OpenFile posix fd (λ w. w.content) (λ w. w.position)
file fd = record {
  seek_succeeds = λ off w. refl;
  seek_moves = λ off w. refl;
  seek_content = λ off w. refl;
  cur_content = λ w. refl;
  end_is_length = λ w. refl;
  write_content = λ bytes w ok.
      slice-put w.position w.content bytes (drop (w.position + length bytes) w.content);
  read_gets = λ len w. refl;
  truncate_empties = λ w ok. refl;
}

-- Target 1 is open, with three bytes.
abbrev files : Files File
files = record { fds = λ id. 1; system = record { content = 1 ∷ 2 ∷ 3 ∷ []; position = 0 } }

fs_read-fs_write_example :
    (fs_read posix []
      (λ id. none)
      []
      1
      2
      2
      (fs_write posix [] (λ id. none) [] 1 2 (8 ∷ 9 ∷ []) files).1).0
    ≡ some (8 ∷ 9 ∷ [])
unfolding fs_write
fs_read-fs_write_example =
    fs_read-fs_write [] (λ id. none) [] 1 files (file (some 0)) 2 (8 ∷ 9 ∷ []) refl

fs_size-fs_erase_example :
    (fs_size posix [] (λ id. none) [] 1 (fs_erase posix [] (λ id. none) [] 1 2 1 files).1).0
    ≡ some 0
unfolding fs_erase
fs_size-fs_erase_example = fs_size-fs_erase [] (λ id. none) [] 1 files (file (some 0)) 2 1 refl refl

abbrev kernel : Kernel (Files File)
kernel = record {
  rt_malloc = λ n f. (some (pad n []), f);
  rt_free = λ p f. f;
  rt_align = λ x n. x;
  rt_align_down = λ x n. x;
}

abbrev start : Instance (Files File) ℕ
start =
    hpatch_instance 1 0 2 5 0
      (record { ram_buf = none; write_pos = 0; capacity = 0; part = none; part_size = 0 }) files

hpatch_release-fs_io_ops_example :
    hpatch_release
      (fs_io_ops posix [] (λ id. none) [])
      (λ f. f)
      kernel
      (ram_swap_ops (fs_io_ops posix [] (λ id. none) []) 2)
      none
      (finish success)
      start
    ≡ (false, start)
unfolding hpatch_instance
hpatch_release-fs_io_ops_example =
    hpatch_release-fs_io_ops posix [] (λ id. none) [] (λ f. f) kernel
      (ram_swap_ops (fs_io_ops posix [] (λ id. none) []) 2) none (finish success) start
