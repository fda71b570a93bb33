-- ===== src/Storage/Fal/Sign.antt =====
-- The release sign of src/qboot_fal_ops.c.
use rt_thread_qboot.Base.{ℕ, ◌≡◌, refl, true, some, List, length, arith}
use rt_thread_qboot.Storage.{eok, FwInfo, StoreDesc}
use rt_thread_qboot.Storage.Header.{to_le32}
use rt_thread_qboot.Storage.Custom.{sign_word}
use rt_thread_qboot.Storage.Fal.{FalOps, fal_sign_pos, fal_sign_read, fal_sign_write}

-- What was written to a partition with success is what is read from the same place.
pub record KeepsWritten {W P : Type 0} (fal : FalOps W P) (part : P) : Type 0 where
  pub write_read :
      (off : ℕ) (bytes : List ℕ) (w : W)
      → (fal.partition_write part off bytes w).0 ≡ true
      → (fal.partition_read part off (length bytes) (fal.partition_write part off bytes w).1).0
        ≡ some bytes

-- A release sign that was written with success is found by a check with the same header.
pub fal_sign-roundtrip :
    {W P : Type 0} (fal : FalOps W P) (descs : List StoreDesc) (src_read_pos sign_align : ℕ)
    (part : P) (fw : FwInfo) (w : W)
    → KeepsWritten fal part
    → (fal_sign_write fal descs src_read_pos sign_align part (some fw) w).0 ≡ eok
    → (fal_sign_read fal descs src_read_pos sign_align part
        (some fw)
        (fal_sign_write fal descs src_read_pos sign_align part (some fw) w).1).0
      ≡ some true
unfolding fal_sign_write fal_sign_read
fal_sign-roundtrip fal descs src_read_pos sign_align part fw w keeps ok =
    let pos = fal_sign_pos fal descs src_read_pos sign_align fw in
    let word = to_le32 sign_word in
    let written : (fal.partition_write part pos word w).0 ≡ true = ground (arith, ok) in
    rw (keeps.write_read pos word w written, fal_sign_read) refl
