-- ===== src/Algo/Aes.antt =====
-- algorithm/qboot_aes.c: the calls of the tinycrypt package, which are parameters.
use rt_thread_qboot.Base.{
  ℕ, zero, suc, ◌-◌, true, Option, none, some, List, [], ◌∷◌, ◌++◌, take, length,
}
use rt_thread_qboot.Storage.{RtErr, eok}
use rt_thread_qboot.Algo.{CryptoOps, Tables, crypto_register}

-- tiny_aes_setkey_dec on a key of 256 bits, and tiny_aes_crypt_cbc with AES_DECRYPT, which gives the
-- text and the next vector.
pub record TinyAes (A : Type 0) : Type 0 where
  pub setkey_dec : List ℕ → A → A
  pub crypt_cbc : A → List ℕ → List ℕ → List ℕ × List ℕ

-- `qbt_aes_iv` and `qbt_aes_ctx`.
pub record Aes (A : Type 0) : Type 0 where
  pub iv : List ℕ
  pub ctx : A

abbrev zero_bytes : ℕ → List ℕ
zero_bytes zero = []
zero_bytes (suc n) = 0 ∷ zero_bytes n

-- The vector of 16 bytes: QBOOT_AES_IV, cut or filled with zeros.
unfoldable pub iv_of : List ℕ → List ℕ
iv_of aes_iv = take 16 aes_iv ++ zero_bytes (16 - length (take 16 aes_iv))

module _ {A : Type 0} (tiny : TinyAes A) (aes_iv aes_key : List ℕ) where
  unfoldable pub aes_decrypt_init : Aes A → Aes A
  aes_decrypt_init s = record { iv = iv_of aes_iv; ctx = tiny.setkey_dec aes_key s.ctx }

  unfoldable pub aes_decrypt : List ℕ → Aes A → List ℕ × Aes A
  aes_decrypt bytes s =
      let (text, iv') = tiny.crypt_cbc s.ctx s.iv bytes in (text, record s { iv = iv' })

  unfoldable pub aes_crypt : List ℕ → Aes A → Option (List ℕ) × Aes A
  aes_crypt bytes s = let (text, s') = aes_decrypt bytes s in (some text, s')

  -- `qbt_algo_aes_crypt_ops`
  abbrev pub aes_crypt_ops : CryptoOps (Aes A)
  aes_crypt_ops = record {
    has_name = true;
    has_decrypt = true;
    crypto_id = 2;
    init = some (λ s. (eok, aes_decrypt_init s));
    decrypt = aes_crypt;
    deinit = none;
  }

  -- `qbt_algo_aes_register`
  unfoldable pub aes_register : Tables (Aes A) → RtErr × Tables (Aes A)
  aes_register t = crypto_register (some aes_crypt_ops) t
