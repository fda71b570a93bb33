-- ===== src/Storage/Header/Layout.antt =====
-- The header of a package in storage (`fw_info_t` of inc/qboot_ops.h) and in memory.
use rt_thread_qboot.Base.{
  ℕ, zero, suc, ◌+◌, ◌≡◌, ◌<◌, refl, sym, ap, ◌∙◌, List, [], ◌∷◌, ◌++◌, append-nil, length, take,
  drop, drop-drop, take-all, take-append, length-append, Bool, true, some, ltb, ◌≤◌, ◌&&◌, false,
  if◌then◌else◌, sub32, u32_mod, arith,
}
use rt_thread_qboot.Storage.{FwInfo, IoOps, is_eok}
use rt_thread_qboot.Storage.Header.{
  from_le, to_le16, to_le32, decode_header, encode_header, header_size, fw_info_read, fw_info_write,
}

-- The arrays have the lengths of the source, and the numbers fit their types.
pub record IsLaidOut (fw : FwInfo) : Type 0 where
  pub type_len : length fw.type ≡ 4
  pub part_name_len : length fw.part_name ≡ 16
  pub fw_ver_len : length fw.fw_ver ≡ 24
  pub prod_code_len : length fw.prod_code ≡ 24
  pub algo_fits : fw.algo < 65536
  pub algo2_fits : fw.algo2 < 65536
  pub time_stamp_fits : fw.time_stamp < u32_mod
  pub pkg_crc_fits : fw.pkg_crc < u32_mod
  pub raw_crc_fits : fw.raw_crc < u32_mod
  pub raw_size_fits : fw.raw_size < u32_mod
  pub pkg_size_fits : fw.pkg_size < u32_mod
  pub hdr_crc_fits : fw.hdr_crc < u32_mod

drop-append : (n : ℕ) (xs ys : List ℕ) → length xs ≡ n → drop n (xs ++ ys) ≡ ys
drop-append zero [] ys e = refl
drop-append zero (x ∷ xs) ys e = absurd (omega (arith, e))
drop-append (suc n) [] ys e = absurd (omega (arith, e))
drop-append (suc n) (x ∷ xs) ys e = drop-append n xs ys (omega (arith, e))

-- The next field of `bytes`, and what is behind it.
field :
    (bytes : List ℕ) (off n : ℕ) (xs ys : List ℕ)
    → drop off bytes ≡ xs ++ ys
    → length xs ≡ n
    → (take n (drop off bytes) ≡ xs) × (drop (off + n) bytes ≡ ys)
field bytes off n xs ys at len = (
  ap (take n) at ∙ take-append n xs ys len,
  sym (drop-drop off n bytes) ∙ ap (drop n) at ∙ drop-append n xs ys len,
)

from_le-to_le16 : (n : ℕ) → n < 65536 → from_le (to_le16 n) ≡ n
from_le-to_le16 n h = omega arith

from_le-to_le32 : (n : ℕ) → n < u32_mod → from_le (to_le32 n) ≡ n
from_le-to_le32 n h = omega arith

-- What a header in storage is read as.
decode_header-encode_header : (fw : FwInfo) → IsLaidOut fw → decode_header (encode_header fw) ≡ fw
unfolding decode_header encode_header
decode_header-encode_header fw h =
    let bytes = encode_header fw in
    let (is_type, at_algo) =
      field bytes 0 4 (fw.type)
        (to_le16 fw.algo
          ++ (to_le16 fw.algo2
              ++ (to_le32 fw.time_stamp
                  ++ (fw.part_name
                      ++ (fw.fw_ver
                          ++ (fw.prod_code
                              ++ (to_le32 fw.pkg_crc
                                  ++ (to_le32 fw.raw_crc
                                      ++ (to_le32 fw.raw_size
                                          ++ (to_le32 fw.pkg_size ++ (to_le32 fw.hdr_crc)))))))))))
        refl h.type_len in
    let (is_algo, at_algo2) =
      field bytes 4 2 (to_le16 fw.algo)
        (to_le16 fw.algo2
          ++ (to_le32 fw.time_stamp
              ++ (fw.part_name
                  ++ (fw.fw_ver
                      ++ (fw.prod_code
                          ++ (to_le32 fw.pkg_crc
                              ++ (to_le32 fw.raw_crc
                                  ++ (to_le32 fw.raw_size
                                      ++ (to_le32 fw.pkg_size ++ (to_le32 fw.hdr_crc))))))))))
        at_algo refl in
    let (is_algo2, at_time_stamp) =
      field bytes 6 2 (to_le16 fw.algo2)
        (to_le32 fw.time_stamp
          ++ (fw.part_name
              ++ (fw.fw_ver
                  ++ (fw.prod_code
                      ++ (to_le32 fw.pkg_crc
                          ++ (to_le32 fw.raw_crc
                              ++ (to_le32 fw.raw_size
                                  ++ (to_le32 fw.pkg_size ++ (to_le32 fw.hdr_crc)))))))))
        at_algo2 refl in
    let (is_time_stamp, at_part_name) =
      field bytes 8 4 (to_le32 fw.time_stamp)
        (fw.part_name
          ++ (fw.fw_ver
              ++ (fw.prod_code
                  ++ (to_le32 fw.pkg_crc
                      ++ (to_le32 fw.raw_crc
                          ++ (to_le32 fw.raw_size
                              ++ (to_le32 fw.pkg_size ++ (to_le32 fw.hdr_crc))))))))
        at_time_stamp refl in
    let (is_part_name, at_fw_ver) =
      field bytes 12 16 (fw.part_name)
        (fw.fw_ver
          ++ (fw.prod_code
              ++ (to_le32 fw.pkg_crc
                  ++ (to_le32 fw.raw_crc
                      ++ (to_le32 fw.raw_size ++ (to_le32 fw.pkg_size ++ (to_le32 fw.hdr_crc)))))))
        at_part_name h.part_name_len in
    let (is_fw_ver, at_prod_code) =
      field bytes 28 24 (fw.fw_ver)
        (fw.prod_code
          ++ (to_le32 fw.pkg_crc
              ++ (to_le32 fw.raw_crc
                  ++ (to_le32 fw.raw_size ++ (to_le32 fw.pkg_size ++ (to_le32 fw.hdr_crc))))))
        at_fw_ver h.fw_ver_len in
    let (is_prod_code, at_pkg_crc) =
      field bytes 52 24 (fw.prod_code)
        (to_le32 fw.pkg_crc
          ++ (to_le32 fw.raw_crc
              ++ (to_le32 fw.raw_size ++ (to_le32 fw.pkg_size ++ (to_le32 fw.hdr_crc)))))
        at_prod_code h.prod_code_len in
    let (is_pkg_crc, at_raw_crc) =
      field bytes 76 4 (to_le32 fw.pkg_crc)
        (to_le32 fw.raw_crc
          ++ (to_le32 fw.raw_size ++ (to_le32 fw.pkg_size ++ (to_le32 fw.hdr_crc))))
        at_pkg_crc refl in
    let (is_raw_crc, at_raw_size) =
      field bytes 80 4 (to_le32 fw.raw_crc)
        (to_le32 fw.raw_size ++ (to_le32 fw.pkg_size ++ (to_le32 fw.hdr_crc))) at_raw_crc refl in
    let (is_raw_size, at_pkg_size) =
      field bytes 84 4 (to_le32 fw.raw_size) (to_le32 fw.pkg_size ++ (to_le32 fw.hdr_crc))
        at_raw_size refl in
    let (is_pkg_size, at_hdr_crc) =
      field bytes 88 4 (to_le32 fw.pkg_size) (to_le32 fw.hdr_crc) at_pkg_size refl in
    let (is_hdr_crc, at_end) =
      field bytes 92 4 (to_le32 fw.hdr_crc) [] (at_hdr_crc ∙ sym (append-nil (to_le32 fw.hdr_crc)))
        refl in
    λ i. record {
      type = is_type i;
      algo = (ap from_le is_algo ∙ from_le-to_le16 fw.algo h.algo_fits) i;
      algo2 = (ap from_le is_algo2 ∙ from_le-to_le16 fw.algo2 h.algo2_fits) i;
      time_stamp = (ap from_le is_time_stamp ∙ from_le-to_le32 fw.time_stamp h.time_stamp_fits) i;
      part_name = is_part_name i;
      fw_ver = is_fw_ver i;
      prod_code = is_prod_code i;
      pkg_crc = (ap from_le is_pkg_crc ∙ from_le-to_le32 fw.pkg_crc h.pkg_crc_fits) i;
      raw_crc = (ap from_le is_raw_crc ∙ from_le-to_le32 fw.raw_crc h.raw_crc_fits) i;
      raw_size = (ap from_le is_raw_size ∙ from_le-to_le32 fw.raw_size h.raw_size_fits) i;
      pkg_size = (ap from_le is_pkg_size ∙ from_le-to_le32 fw.pkg_size h.pkg_size_fits) i;
      hdr_crc = (ap from_le is_hdr_crc ∙ from_le-to_le32 fw.hdr_crc h.hdr_crc_fits) i;
    }

length-encode_header : (fw : FwInfo) → IsLaidOut fw → length (encode_header fw) ≡ 96
unfolding encode_header
length-encode_header fw h =
    simp length-append (omega (arith, h.type_len, h.part_name_len, h.fw_ver_len, h.prod_code_len))

-- What was written successfully is what is read.
pub record KeepsWrites {W H : Type 0} (io : IoOps W H) : Type 0 where
  pub gives_back :
      (h : H) (off : ℕ) (bytes : List ℕ) (w : W)
      → is_eok (io.write h off bytes w).0 ≡ true
      → (io.read h off (length bytes) (io.write h off bytes w).1).0 ≡ some bytes

-- A header that was written with success, in front or at the end of a target that has room for it, is
-- read back as it was.
pub fw_info-roundtrip :
    {W H : Type 0} (io : IoOps W H) (laws : KeepsWrites io) (h : H) (part_len : ℕ) (fw : FwInfo)
    (to_tail : Bool) (w : W)
    → IsLaidOut fw
    → header_size ≤ part_len
    → (fw_info_write io header_size h part_len fw to_tail w).0 ≡ true
    → (fw_info_read io header_size h part_len to_tail
        (fw_info_write io header_size h part_len fw to_tail w).1).0
      ≡ some fw
unfolding fw_info_write fw_info_read
fw_info-roundtrip io laws h part_len fw to_tail w good room ok =
    let off : ℕ = (if to_tail then sub32 part_len header_size else 0) in
    let bytes = encode_header fw in
    let whole : take header_size bytes ≡ bytes =
      take-all 96 bytes (omega (arith, length-encode_header fw good)) in
    let ok1 : is_eok (io.write h off bytes w).0 ≡ true = rw whole at ok in
    let back : (io.read h off 96 (io.write h off bytes w).1).0 ≡ some bytes =
      rw (length-encode_header fw good) at (laws.gives_back h off bytes w ok1) in
    let enough : (to_tail && ltb part_len header_size) ≡ false = ground arith in
    rw (whole, fw_info_read, enough, back) (ap some (decode_header-encode_header fw good))
