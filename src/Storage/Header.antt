-- ===== src/Storage/Header.antt =====
-- qbt_fw_info_read, qbt_fw_info_write and the release sign of src/qboot_ops.c, with the layout of
-- `fw_info_t` (inc/qboot_ops.h) in the little-endian storage of the supported MCUs.
pub mod Layout
use rt_thread_qboot.Base.{
  ℕ, ◌+◌, ◌*◌, ◌/◌, ◌%◌, Bool, true, false, Option, none, some, List, [], ◌∷◌, ◌++◌, ltb, ◌==◌,
  if◌then◌else◌, slice, ◌&&◌, take, sub32,
}
use rt_thread_qboot.Storage.{is_eok, FwInfo, IoOps, ParserOps}

-- A little-endian number, as far as there are bytes.
abbrev pub from_le : List ℕ → ℕ
from_le [] = 0
from_le (b ∷ bs) = b + 256 * from_le bs

abbrev pub to_le16 : ℕ → List ℕ
to_le16 n = n % 256 ∷ n / 256 % 256 ∷ []

abbrev pub to_le32 : ℕ → List ℕ
to_le32 n = n % 256 ∷ n / 256 % 256 ∷ n / 65536 % 256 ∷ n / 16777216 % 256 ∷ []

-- sizeof(fw_info_t)
abbrev pub header_size : ℕ
header_size = 96

-- The cast of a buffer to `fw_info_t *`, field by field.
unfoldable pub decode_header : List ℕ → FwInfo
decode_header bs = record {
  type = slice 0 4 bs;
  algo = from_le (slice 4 2 bs);
  algo2 = from_le (slice 6 2 bs);
  time_stamp = from_le (slice 8 4 bs);
  part_name = slice 12 16 bs;
  fw_ver = slice 28 24 bs;
  prod_code = slice 52 24 bs;
  pkg_crc = from_le (slice 76 4 bs);
  raw_crc = from_le (slice 80 4 bs);
  raw_size = from_le (slice 84 4 bs);
  pkg_size = from_le (slice 88 4 bs);
  hdr_crc = from_le (slice 92 4 bs);
}

unfoldable pub encode_header : FwInfo → List ℕ
encode_header f =
    f.type
    ++ (to_le16 f.algo
        ++ (to_le16 f.algo2
            ++ (to_le32 f.time_stamp
                ++ (f.part_name
                    ++ (f.fw_ver
                        ++ (f.prod_code
                            ++ (to_le32 f.pkg_crc
                                ++ (to_le32 f.raw_crc
                                    ++ (to_le32 f.raw_size
                                        ++ (to_le32 f.pkg_size ++ to_le32 f.hdr_crc))))))))))

-- rt_strcmp(s, t) == 0, for a byte array and the text of a NUL-terminated string.
unfoldable pub strcmp_eq : List ℕ → List ℕ → Bool
strcmp_eq [] [] = true
strcmp_eq [] (t ∷ ts) = false
strcmp_eq (s ∷ ss) [] = s == 0
strcmp_eq (s ∷ ss) (t ∷ ts) = (s == t) && strcmp_eq ss ts

module _ {W H : Type 0} (io : IoOps W H) (src_read_pos : ℕ) where
  -- `some` is RT_TRUE with `*fw_info` filled.
  unfoldable pub fw_info_read : H → ℕ → Bool → W → Option FwInfo × W
  fw_info_read h part_len from_tail w =
      if from_tail && ltb part_len src_read_pos
      then (none, w)
      else (let (got, w') =
            io.read h (if from_tail then sub32 part_len src_read_pos else 0) src_read_pos w in
          (elim got [ none ↦ none | some bs ↦ some (decode_header bs) ], w'))

  unfoldable pub fw_info_write : H → ℕ → FwInfo → Bool → W → Bool × W
  fw_info_write h part_len fw to_tail w =
      let (rst, w') =
        io.write h (if to_tail then sub32 part_len src_read_pos else 0)
          (take src_read_pos (encode_header fw)) w in
      (is_eok rst, w')

module _ {W H : Type 0} (parser : ParserOps W H) where
  -- A read that fails counts as `not released`.
  unfoldable pub release_sign_check : H → Option FwInfo → W → Bool × W
  release_sign_check h fw w =
      let (got, w') = parser.sign_read h fw w in
      (elim got [ none ↦ false | some released ↦ released ], w')

  unfoldable pub release_sign_write : H → Option FwInfo → W → Bool × W
  release_sign_write h fw w = let (rst, w') = parser.sign_write h fw w in (is_eok rst, w')

  unfoldable pub release_sign_clear : H → Option FwInfo → W → Bool × W
  release_sign_clear h fw w = let (rst, w') = parser.sign_clear h fw w in (is_eok rst, w')
