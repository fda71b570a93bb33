-- ===== src/Storage/Custom/Range.antt =====
-- The accesses of the custom driver (src/qboot_custom_ops.c) stay inside of their target.
use rt_thread_qboot.Base.{
  ℕ, ◌+◌, ◌≡◌, ◌≤◌, ◌<◌, ◌⊎◌, ◌↔◌, refl, true, some, List, length, add32, u32_mod, arith,
  Bool-cases, inl, inr,
}
use rt_thread_qboot.Storage.{eok, is_eok, FwInfo, StoreDesc}
use rt_thread_qboot.Storage.Header.{to_le32}
use rt_thread_qboot.Storage.Custom.{
  FlashOps, sign_word, custom_range_check, custom_read, custom_write, custom_erase, custom_sign_pos,
  custom_sign_read, custom_sign_write,
}

-- For values of 32 bits the check, which cannot overflow, accepts exactly the ranges inside of a target
-- that is not empty.
pub custom_range_check-exact :
    (desc : StoreDesc) (off len : ℕ)
    → off < u32_mod
    → desc.flash_len < u32_mod
    → (custom_range_check desc off len ≡ true)
      ↔ ((0 < desc.flash_len) × (off + len ≤ desc.flash_len))
unfolding custom_range_check
custom_range_check-exact desc off len o l = ground arith

-- A flash whose byte at an address is `peek`: an operation that changes it stays inside of its range.
pub record Flash {W : Type 0} (flash : FlashOps W) (peek : ℕ → W → ℕ) : Type 0 where
  pub write_inside :
      (addr : ℕ) (bytes : List ℕ) (a : ℕ) (w : W)
      → (a < addr) ⊎ (addr + length bytes ≤ a)
      → peek a (flash.flash_write addr bytes w).1 ≡ peek a w
  pub erase_inside :
      (addr len a : ℕ) (w : W)
      → (a < addr) ⊎ (addr + len ≤ a)
      → peek a (flash.flash_erase addr len w).1 ≡ peek a w

module _ {W : Type 0} {flash : FlashOps W} {peek : ℕ → W → ℕ} (laws : Flash flash peek)
    (descs : List StoreDesc) (erase_align : ℕ) (desc : StoreDesc)
    (fits : desc.flash_addr + desc.flash_len < u32_mod) (a : ℕ)
    (outside : (a < desc.flash_addr) ⊎ (desc.flash_addr + desc.flash_len ≤ a)) where
  beyond :
      (off len : ℕ)
      → off < u32_mod
      → custom_range_check desc off len ≡ true
      → (a < add32 desc.flash_addr off) ⊎ (add32 desc.flash_addr off + len ≤ a)
  beyond off len small ok =
      let (some_len, inside) = (custom_range_check-exact desc off len small (omega arith)).0 ok in
      elim outside [ inl below ↦ inl (omega arith) | inr above ↦ inr (omega arith) ]

  custom_write-outside :
      (off : ℕ) (bytes : List ℕ) (w : W)
      → off < u32_mod
      → peek a (custom_write flash descs erase_align desc off bytes w).1 ≡ peek a w
  unfolding custom_write
  custom_write-outside off bytes w small =
      elim (Bool-cases (custom_range_check desc off (length bytes))) [
        | inl ok ↦
            rw (ok, custom_write)
              (laws.write_inside (add32 desc.flash_addr off) bytes a w
                (beyond off (length bytes) small ok))
        | inr bad ↦ rw (bad, custom_write) refl
      ]

  custom_erase-outside :
      (off len : ℕ) (w : W)
      → off < u32_mod
      → peek a (custom_erase flash descs erase_align desc off len w).1 ≡ peek a w
  unfolding custom_erase
  custom_erase-outside off len w small = elim (Bool-cases (custom_range_check desc off len)) [
    | inl ok ↦
        rw (ok, custom_erase)
          (laws.erase_inside (add32 desc.flash_addr off) len a w (beyond off len small ok))
    | inr bad ↦ rw (bad, custom_erase) refl
  ]

  -- Writing and erasing through a target that lies inside of the 32-bit address space change no byte of
  -- the flash outside of the target, for any offset of 32 bits.
  pub custom-outside :
      (off len : ℕ) (bytes : List ℕ) (w : W)
      → off < u32_mod
      → (peek a (custom_write flash descs erase_align desc off bytes w).1 ≡ peek a w)
        × (peek a (custom_erase flash descs erase_align desc off len w).1 ≡ peek a w)
  custom-outside off len bytes w small =
      (custom_write-outside off bytes w small, custom_erase-outside off len w small)

-- What was written successfully is what is read.
pub record ReadsBack {W : Type 0} (flash : FlashOps W) : Type 0 where
  pub reads_back :
      (addr : ℕ) (bytes : List ℕ) (w : W)
      → is_eok (flash.flash_write addr bytes w).0 ≡ true
      → (flash.flash_read addr (length bytes) (flash.flash_write addr bytes w).1).0 ≡ some bytes

-- A release sign that was written with success is found by a check with the same header.
pub custom_sign-roundtrip :
    {W : Type 0} (flash : FlashOps W) (laws : ReadsBack flash) (descs : List StoreDesc)
    (erase_align src_read_pos sign_align : ℕ) (desc : StoreDesc) (fw : FwInfo) (w : W)
    → (custom_sign_write flash descs erase_align src_read_pos sign_align desc (some fw) w).0 ≡ eok
    → (custom_sign_read flash descs erase_align src_read_pos sign_align desc
        (some fw)
        (custom_sign_write flash descs erase_align src_read_pos sign_align desc (some fw) w).1).0
      ≡ some true
unfolding custom_sign_write custom_sign_read custom_write custom_read
custom_sign-roundtrip flash laws descs erase_align src_read_pos sign_align desc fw w ok =
    let pos = custom_sign_pos flash descs erase_align src_read_pos sign_align fw in
    let word = to_le32 sign_word in
    elim (Bool-cases (custom_range_check desc pos 4)) [
      | inl inside ↦
          let written : is_eok (flash.flash_write (add32 desc.flash_addr pos) word w).0 ≡ true =
            ground (arith, inside, ok) in
          let back : (flash.flash_read (add32 desc.flash_addr pos) 4
                (flash.flash_write (add32 desc.flash_addr pos) word w).1).0
              ≡ some word =
            laws.reads_back (add32 desc.flash_addr pos) word w written in
          rw (inside, custom_sign_read, custom_read, back) refl
      | inr bad ↦ absurd (ground (arith, bad, ok))
    ]
