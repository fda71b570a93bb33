-- ===== src/Tests/Flash.antt =====
-- The theorems on the custom driver (src/qboot_custom_ops.c) at concrete inputs.
use rt_thread_qboot.Base.{
  ℕ, ◌+◌, ◌≡◌, ◌≤◌, ◌<◌, ◌⊎◌, ◌↔◌, inr, refl, true, some, none, List, [], ◌∷◌, length, arith, leb,
  ltb, ◌&&◌, if◌then◌else◌,
}
use rt_thread_qboot.Storage.{eok, StoreDesc, custom, IoOps}
use rt_thread_qboot.Storage.Header.{fw_info_read, fw_info_write}
use rt_thread_qboot.Storage.Header.Layout.{IsLaidOut, KeepsWrites, fw_info-roundtrip}
use rt_thread_qboot.Storage.Custom.{
  FlashOps, custom_range_check, custom_write, custom_erase, custom_sign_pos, custom_sign_read,
  custom_sign_write,
}
use rt_thread_qboot.Storage.Custom.Range.{
  Flash, ReadsBack, custom_range_check-exact, custom-outside, custom_sign-roundtrip,
}
use rt_thread_qboot.Tests.Loader.{fw}

-- A target of 200 bytes at address 1000.
abbrev target : StoreDesc
target = record {
  id = 1;
  role_name = [];
  store_name = [];
  flash_addr = 1000;
  flash_len = 200;
  backend = custom;
}

custom_range_check-exact_example :
    (custom_range_check target 150 51 ≡ true) ↔ ((0 < 200) × (150 + 51 ≤ 200))
custom_range_check-exact_example =
    custom_range_check-exact target 150 51 (omega arith) (omega arith)

-- A memory in which a write puts the number of its bytes into each cell of its range.
abbrev fill : ℕ → ℕ → ℕ → (ℕ → ℕ) → ℕ → ℕ
fill addr len v m a = if leb addr a && ltb a (addr + len) then v else m a

abbrev cells : FlashOps (ℕ → ℕ)
cells = record {
  flash_read = λ addr len m. (none, m);
  flash_write = λ addr bytes m. (eok, fill addr (length bytes) (length bytes) m);
  flash_erase = λ addr len m. (eok, fill addr len 255 m);
}

fill-outside :
    (addr len v a : ℕ) (m : ℕ → ℕ) → (a < addr) ⊎ (addr + len ≤ a) → fill addr len v m a ≡ m a
fill-outside addr len v a m h = ground arith

cells-Flash : Flash cells (λ a m. m a)
cells-Flash = record {
  write_inside = λ addr bytes a m h. fill-outside addr (length bytes) (length bytes) a m h;
  erase_inside = λ addr len a m h. fill-outside addr len 255 a m h;
}

custom-outside_example :
    ((custom_write cells [] 1 target 198 (1 ∷ 2 ∷ []) (λ a. 7)).1 1200 ≡ 7)
    × ((custom_erase cells [] 1 target 198 2 (λ a. 7)).1 1200 ≡ 7)
custom-outside_example =
    custom-outside cells-Flash [] 1 target (omega arith) 1200 (inr (omega arith)) 198 2 (1 ∷ 2 ∷ [])
      (λ a. 7) (omega arith)

-- A flash that keeps what was written last.
abbrev last_write : FlashOps (List ℕ)
last_write = record {
  flash_read = λ addr len m. (some m, m);
  flash_write = λ addr bytes m. (eok, bytes);
  flash_erase = λ addr len m. (eok, []);
}

last_write-ReadsBack : ReadsBack last_write
last_write-ReadsBack = record { reads_back = λ addr bytes m h. refl }

signs : (custom_sign_write last_write [] 1 96 8 target (some fw) []).0 ≡ eok
unfolding custom_sign_write custom_write custom_range_check custom_sign_pos
signs = refl

custom_sign-roundtrip_example :
    (custom_sign_read last_write [] 1 96 8 target
      (some fw)
      (custom_sign_write last_write [] 1 96 8 target (some fw) []).1).0
    ≡ some true
custom_sign-roundtrip_example =
    custom_sign-roundtrip last_write last_write-ReadsBack [] 1 96 8 target fw [] signs

-- A driver on such a flash.
abbrev last_write_io : IoOps (List ℕ) ℕ
last_write_io = record {
  open_target = λ id flags m. (some id, m);
  close = λ h m. (eok, m);
  read = λ h off len m. (some m, m);
  erase = λ h off len m. (eok, []);
  write = λ h off bytes m. (eok, bytes);
  size = λ h m. (some 200, m);
  ioctl = λ h cmd m. (none, m);
}

last_write_io-KeepsWrites : KeepsWrites last_write_io
last_write_io-KeepsWrites = record { gives_back = λ h off bytes w e. refl }

fw-IsLaidOut : IsLaidOut fw
fw-IsLaidOut = record {
  type_len = refl;
  part_name_len = refl;
  fw_ver_len = refl;
  prod_code_len = refl;
  algo_fits = omega arith;
  algo2_fits = omega arith;
  time_stamp_fits = omega arith;
  pkg_crc_fits = omega arith;
  raw_crc_fits = omega arith;
  raw_size_fits = omega arith;
  pkg_size_fits = omega arith;
  hdr_crc_fits = omega arith;
}

fw_info-roundtrip_example :
    (fw_info_read last_write_io 96 1 200 true (fw_info_write last_write_io 96 1 200 fw true []).1).0
    ≡ some fw
unfolding fw_info_write
fw_info-roundtrip_example =
    fw_info-roundtrip last_write_io last_write_io-KeepsWrites 1 200 fw true [] fw-IsLaidOut
      (omega arith) refl
