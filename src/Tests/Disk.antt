-- ===== src/Tests/Disk.antt =====
-- A disk with an image and a swap area of 8 bytes, for the differential update.
use rt_thread_qboot.Base.{
  ℕ, zero, suc, ◌+◌, ◌-◌, ◌*◌, ◌/◌, ◌%◌, ◌≡◌, ◌≤◌, refl, ap, sym, ◌∙◌, Bool, true, false, some,
  List, [], ◌∷◌, ◌++◌, length, take, slice, leb, if◌then◌else◌, take-all, take-take, length-append,
  length-take, u32_mod, arith, Bool-cases, inl, inr,
}
use rt_thread_qboot.Storage.{eok, err, is_eok, IoOps}
use rt_thread_qboot.Patch.{Kernel, copy_in}
use rt_thread_qboot.Patch.Laws.{Aligns, OldPart, Around}
use rt_thread_qboot.Patch.Backends.TwoParts.{TwoParts}
use rt_thread_qboot.Patch.Backends.RamLaws.{length-copy_in, take-copy_in}

pub record Disk : Type 0 where
  pub image : List ℕ
  pub swap : List ℕ

-- The first n bytes, with zeros behind the end.
abbrev pub pad : ℕ → List ℕ → List ℕ
pad zero xs = []
pad (suc n) [] = 0 ∷ pad n []
pad (suc n) (x ∷ xs) = x ∷ pad n xs

pub length-pad : (n : ℕ) (xs : List ℕ) → length (pad n xs) ≡ n
length-pad zero xs = refl
length-pad (suc n) [] = ap suc (length-pad n [])
length-pad (suc n) (x ∷ xs) = ap suc (length-pad n xs)

pad-all : (n : ℕ) (xs : List ℕ) → length xs ≡ n → pad n xs ≡ xs
pad-all zero [] e = refl
pad-all zero (x ∷ xs) e = absurd (omega arith)
pad-all (suc n) [] e = absurd (omega arith)
pad-all (suc n) (x ∷ xs) e = ap (λ ys. x ∷ ys) (pad-all n xs (omega arith))

abbrev pub area : Disk → List ℕ
area d = pad 8 d.swap

-- Handle 0 is the image, which has room for 12 bytes; any other is the swap.
abbrev read_disk : ℕ → ℕ → ℕ → Disk → List ℕ
read_disk zero off len d = slice off len d.image
read_disk (suc h) off len d = slice off len (area d)

abbrev write_disk : ℕ → ℕ → List ℕ → Disk → Bool × Disk
write_disk zero off bytes d =
    if leb (off + length bytes) 12
    then (true, record d { image = take off d.image ++ bytes })
    else (false, d)
write_disk (suc h) off bytes d =
    if leb (off + length bytes) 8
    then (true, record d { swap = copy_in off bytes (area d) })
    else (false, d)

abbrev erase_disk : ℕ → ℕ → Disk → Disk
erase_disk zero off d = record d { image = take off d.image }
erase_disk (suc h) off d = d

abbrev pub disk_io : IoOps Disk ℕ
disk_io = record {
  open_target = λ id flags d. (some 1, d);
  close = λ h d. (eok, d);
  read = λ h off len d. (some (read_disk h off len d), d);
  erase = λ h off len d. (eok, erase_disk h off d);
  write = λ h off bytes d. let r = write_disk h off bytes d in ((if r.0 then eok else err 1), r.1);
  size = λ h d. (some 8, d);
  ioctl = λ h cmd d. (some 4, d);
}

abbrev pub disk_feed : Disk → Disk
disk_feed d = d

abbrev pub kernel : Kernel Disk
kernel = record {
  rt_malloc = λ n d. (some (pad n []), d);
  rt_free = λ p d. d;
  rt_align = λ x n. (x + n - 1) / n * n % u32_mod;
  rt_align_down = λ x n. x / n * n;
}

pub by_four : Aligns kernel 4
by_four = record {
  sector_some = omega arith;
  align_up = λ x fits. omega arith;
  align_small = λ x. omega arith;
  align_down = λ x small. omega arith;
}

write_image :
    (off : ℕ) (bytes : List ℕ) (d : Disk)
    → is_eok (disk_io.write 0 off bytes d).0 ≡ true
    → take (off + length bytes) (disk_io.write 0 off bytes d).1.image ≡ take off d.image ++ bytes
write_image off bytes d ok = elim (Bool-cases (leb (off + length bytes) 12)) [
  | inr full ↦ absurd (ground (arith, full, ok))
  | inl fits ↦ rw fits (
      take-all (off + length bytes) (take off d.image ++ bytes)
        (omega (arith, length-append (take off d.image) bytes, length-take off d.image)))
]

write_area :
    (off : ℕ) (bytes : List ℕ) (d : Disk)
    → is_eok (disk_io.write 1 off bytes d).0 ≡ true
    → take (off + length bytes) (area (disk_io.write 1 off bytes d).1) ≡ take off (area d) ++ bytes
write_area off bytes d ok = elim (Bool-cases (leb (off + length bytes) 8)) [
  | inr full ↦ absurd (ground (arith, full, ok))
  | inl fits ↦
      let len = length-pad 8 d.swap in
      let inside : off + length bytes ≤ length (area d) = ground (arith, fits, len) in
      rw fits (
        ap (λ xs. take (off + length bytes) xs)
          (pad-all 8 (copy_in off bytes (area d)) (length-copy_in off bytes (area d) inside ∙ len))
        ∙ take-copy_in off bytes (area d) inside)
]

apart :
    (off : ℕ) (bytes : List ℕ) (d : Disk)
    → (area (disk_io.write 0 off bytes d).1 ≡ area d)
      × ((disk_io.write 1 off bytes d).1.image ≡ d.image)
apart off bytes d = (
  elim (Bool-cases (leb (off + length bytes) 12)) [
    | inl fits ↦ rw fits refl
    | inr full ↦ rw full refl
  ],
  elim (Bool-cases (leb (off + length bytes) 8)) [
    | inl fits ↦ rw fits refl
    | inr full ↦ rw full refl
  ],
)

pub disk-Around : Around disk_io kernel (λ d. d.image)
disk-Around = record {
  malloc_size = λ n block d e. let e : pad n [] ≡ block = cc in ap length (sym e) ∙ length-pad n [];
  free_content = λ p d. refl;
  size_content = λ h d. refl;
}

pub disk_image : OldPart disk_io disk_feed 0 (λ d. d.image) 12
disk_image = record {
  write_puts = λ off bytes d ok. write_image off bytes d ok;
  write_fits = λ off bytes d ok. ground arith;
  erase_before = λ off len n d below. take-take n off d.image below;
  read_content = λ h off len d. refl;
  feed_content = λ d. refl;
}

pub disk_parts : TwoParts disk_io disk_feed 3 1 0 (λ d. d.image) area 8
disk_parts = record {
  opens_swap = λ flags h d e. cc;
  size_swap = λ n d e. cc;
  size_small = omega arith;
  area_size = λ d. length-pad 8 d.swap;
  reads_swap = λ off len bytes d e. cc;
  writes_swap = λ off bytes d ok. write_area off bytes d ok;
  read_area = λ h off len d. refl;
  old_write_area = λ off bytes d. (apart off bytes d).0;
  old_erase_area = λ off len d. refl;
  feed_area = λ d. refl;
  swap_write_content = λ off bytes d. (apart off bytes d).1;
  swap_erase_content = λ off len d. refl;
  close_content = λ h d. refl;
}
