-- ===== src/Algo.antt =====
-- inc/qboot_algo.h, inc/qboot_stream.h and src/qboot_algo.c: the tables of the decryption and the
-- decompression algorithms. The algorithms themselves are parameters, functions of the state `W`.
pub mod Lookup
pub mod NoneCodec
pub mod Blocks
pub mod Gzip
pub mod Aes
use Prim.Native.Nat.{bit_and}
use rt_thread_qboot.Base.{
  ℕ, ◌/◌, Bool, Option, none, some, List, [], ◌∷◌, leb, if◌then◌else◌, get_elem?, set, not, ◌||◌,
}
use rt_thread_qboot.Storage.{RtErr, eok, rt_error, is_eok}

-- `qbt_stream_purpose_t`
pub data Purpose : Type 0 where
  to_write to_crc : Purpose

-- `qbt_stream_ctx_t`
pub record StreamCtx : Type 0 where
  pub total : ℕ
  pub consumed : ℕ
  pub raw_remaining : ℕ
  pub purpose : Purpose

-- What a call of a decompressor returns: its result, the bytes consumed and the bytes produced.
pub record Step : Type 0 where
  pub rst : RtErr
  pub consumed : ℕ
  pub output : List ℕ

-- `qboot_crypto_ops_t`. The flags tell which of the required pointers are set.
pub record CryptoOps (W : Type 0) : Type 0 where
  pub has_name : Bool
  pub has_decrypt : Bool
  pub crypto_id : ℕ
  pub init : Option (W → RtErr × W)
  pub decrypt : List ℕ → W → Option (List ℕ) × W
  pub deinit : Option (W → RtErr × W)

-- `qboot_cmprs_ops_t`. `decompress` is given the input, the capacity of the output and the context.
pub record CmprsOps (W : Type 0) : Type 0 where
  pub has_name : Bool
  pub has_decompress : Bool
  pub cmprs_id : ℕ
  pub init : Option (W → RtErr × W)
  pub decompress : List ℕ → ℕ → StreamCtx → W → Step × W
  pub deinit : Option (W → RtErr × W)

-- `qbt_algo_context_t` as `qbt_fw_get_algo_context` fills it. The streaming code also allows for no
-- decryption stage.
pub record AlgoContext (W : Type 0) : Type 0 where
  pub crypt_ops : Option (CryptoOps W)
  pub cmprs_ops : CmprsOps W

-- `g_cmprs_table` and `g_crypt_table`.
pub record Tables (W : Type 0) : Type 0 where
  pub cmprs : List (Option (CmprsOps W))
  pub crypt : List (Option (CryptoOps W))

abbrev pub cmprs_count : ℕ
cmprs_count = 5

abbrev pub crypt_count : ℕ
crypt_count = 3

abbrev pub crypt_mask : ℕ
crypt_mask = 0x0f

abbrev pub cmprs_mask : ℕ
cmprs_mask = 0x1f00

unfoldable pub empty_tables : {W : Type 0} → Tables W
empty_tables = record {
  cmprs = none ∷ none ∷ none ∷ none ∷ none ∷ [];
  crypt = none ∷ none ∷ none ∷ [];
}

-- `qboot_cmprs_id_to_index`; the argument is an `rt_uint16_t`.
unfoldable pub cmprs_id_to_index : ℕ → ℕ
cmprs_id_to_index id = if leb cmprs_count (id / 256) then cmprs_count else id / 256

unfoldable pub crypto_id_to_index : ℕ → ℕ
crypto_id_to_index id =
    if leb crypt_count (bit_and id crypt_mask) then crypt_count else bit_and id crypt_mask

-- Whether a slot of a table is taken; so is one past its end.
abbrev is_taken : {A : Type 0} → Option (Option A) → Bool
is_taken (some none) = Bool.false
is_taken _ = Bool.true

module _ {W : Type 0} where
  -- `none` is a null pointer.
  unfoldable pub cmprs_register : Option (CmprsOps W) → Tables W → RtErr × Tables W
  cmprs_register none t = (rt_error, t)
  cmprs_register (some ops) t =
      if not ops.has_decompress || not ops.has_name
      then (rt_error, t)
      else (let idx = cmprs_id_to_index ops.cmprs_id in
          if leb cmprs_count idx || is_taken (get_elem? t.cmprs idx)
          then (rt_error, t)
          else (eok, record t { cmprs = set t.cmprs idx (some ops) }))

  unfoldable pub crypto_register : Option (CryptoOps W) → Tables W → RtErr × Tables W
  crypto_register none t = (rt_error, t)
  crypto_register (some ops) t =
      if not ops.has_decrypt || not ops.has_name
      then (rt_error, t)
      else (let idx = crypto_id_to_index ops.crypto_id in
          if leb crypt_count idx || is_taken (get_elem? t.crypt idx)
          then (rt_error, t)
          else (eok, record t { crypt = set t.crypt idx (some ops) }))

  -- The outer option is `none` for a read past the end of the table. The index of the crypto table
  -- is the identifier itself.
  unfoldable pub find_crypto : ℕ → Tables W → Option (Option (CryptoOps W))
  find_crypto id t =
      if leb crypt_count (crypto_id_to_index id) then some none else get_elem? t.crypt id

  unfoldable pub find_cmprs : ℕ → Tables W → Option (Option (CmprsOps W))
  find_cmprs id t =
      if leb cmprs_count (cmprs_id_to_index id)
      then some none
      else get_elem? t.cmprs (cmprs_id_to_index id)

  -- The context of two lookups, if both found something.
  abbrev join_context :
      Option (Option (CryptoOps W)) → Option (Option (CmprsOps W)) → Option (AlgoContext W)
  join_context (some (some crypt)) (some (some cmprs)) =
      some (record { crypt_ops = some crypt; cmprs_ops = cmprs })
  join_context _ _ = none

  -- `qbt_fw_get_algo_context`, on the `algo` field of the header.
  unfoldable pub get_algo_context : ℕ → Tables W → Option (AlgoContext W)
  get_algo_context algo t =
      join_context (find_crypto (bit_and algo crypt_mask) t)
        (find_cmprs (bit_and algo cmprs_mask) t)

  -- An optional callback: a null pointer is passed over.
  abbrev call_if_set : Option (W → RtErr × W) → W → RtErr × W
  call_if_set none w = (eok, w)
  call_if_set (some f) w = f w

  abbrev crypt_init : Option (CryptoOps W) → W → RtErr × W
  crypt_init none w = (eok, w)
  crypt_init (some c) w = call_if_set c.init w

  abbrev crypt_deinit : Option (CryptoOps W) → W → W
  crypt_deinit none w = w
  crypt_deinit (some c) w = (call_if_set c.deinit w).1

  -- `qbt_fw_algo_init`
  unfoldable pub algo_init : AlgoContext W → W → Bool × W
  algo_init ctx w =
      let (r1, w1) = crypt_init ctx.crypt_ops w in
      let (r2, w2) = call_if_set ctx.cmprs_ops.init w1 in
      if not (is_eok r1)
      then (Bool.false, w1)
      else (if is_eok r2 then (Bool.true, w2) else (Bool.false, crypt_deinit ctx.crypt_ops w2))

  -- `qbt_fw_algo_deinit`
  unfoldable pub algo_deinit : AlgoContext W → W → W
  algo_deinit ctx w = crypt_deinit ctx.crypt_ops (call_if_set ctx.cmprs_ops.deinit w).1
