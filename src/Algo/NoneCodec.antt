-- ===== src/Algo/NoneCodec.antt =====
-- algorithm/qboot_none.c, for a build with QBOOT_USING_COMPRESSION.
use rt_thread_qboot.Base.{ℕ, true, none, some, Option, List, [], ◌∷◌, take, length, if◌then◌else◌}
use rt_thread_qboot.Storage.{RtErr, eok, err, rt_error, is_eok}
use rt_thread_qboot.Algo.{
  StreamCtx, Step, CryptoOps, CmprsOps, Tables, cmprs_register, crypto_register,
}

-- `qbt_algo_none_decompress`; the first argument is the code of RT_ENOSPC.
unfoldable pub none_decompress : {W : Type 0} → ℕ → List ℕ → ℕ → StreamCtx → W → Step × W
none_decompress rt_enospc [] cap ctx w =
    (record { rst = err rt_enospc; consumed = 0; output = [] }, w)
none_decompress rt_enospc (b ∷ bs) cap ctx w =
    let copied = take cap (b ∷ bs) in
    (record { rst = eok; consumed = length copied; output = copied }, w)

-- `qbt_algo_none_crypt`
unfoldable pub none_crypt : {W : Type 0} → List ℕ → W → Option (List ℕ) × W
none_crypt bytes w = (some bytes, w)

-- `qbt_algo_none_cmprs_ops`
abbrev pub none_cmprs_ops : {W : Type 0} → ℕ → CmprsOps W
none_cmprs_ops rt_enospc = record {
  has_name = true;
  has_decompress = true;
  cmprs_id = 0;
  init = none;
  decompress = none_decompress rt_enospc;
  deinit = none;
}

-- `qbt_algo_none_crypt_ops`
abbrev pub none_crypt_ops : {W : Type 0} → CryptoOps W
none_crypt_ops = record {
  has_name = true;
  has_decrypt = true;
  crypto_id = 0;
  init = none;
  decrypt = none_crypt;
  deinit = none;
}

-- `qbt_algo_none_register`
unfoldable pub none_register : {W : Type 0} → ℕ → Tables W → RtErr × Tables W
none_register rt_enospc t =
    let (r1, t1) = cmprs_register (some (none_cmprs_ops rt_enospc)) t in
    let (r2, t2) = crypto_register (some none_crypt_ops) t1 in
    if is_eok r1 then (if is_eok r2 then (eok, t2) else (rt_error, t2)) else (rt_error, t1)
