-- ===== src/Algo/Lookup.antt =====
-- Registration and lookup of algorithms.
use Prim.Native.Nat.{bit_and}
use rt_thread_qboot.Base.{
  ℕ, ◌<◌, ◌≡◌, ◌≢◌, refl, none, some, List, [], ◌∷◌, arith, ◌/◌, get_elem?, set, length, zero, suc,
}
use rt_thread_qboot.Base.Bits.{bit_and_low4, bit_and_cmprs}
use rt_thread_qboot.Storage.{eok}
use rt_thread_qboot.Algo.{
  CryptoOps, CmprsOps, Tables, crypt_mask, cmprs_mask, cmprs_count, crypt_count, cmprs_id_to_index,
  crypto_id_to_index, cmprs_register, crypto_register, find_crypto, find_cmprs, get_algo_context,
}

-- The tables have the sizes of the source.
pub record IsSized {W : Type 0} (t : Tables W) : Type 0 where
  pub cmprs_size : length t.cmprs ≡ cmprs_count
  pub crypt_size : length t.crypt ≡ crypt_count

get_elem?_in : {A : Type 0} (xs : List A) (i : ℕ) → i < length xs → get_elem? xs i ≢ none
get_elem?_in [] i h e = absurd (omega arith)
get_elem?_in (x ∷ xs) zero h e = ground arith
get_elem?_in (x ∷ xs) (suc i) h e = get_elem?_in xs i (omega arith) e

get_elem?-set_here :
    {A : Type 0} (xs : List A) (i : ℕ) (v : A) → i < length xs → get_elem? (set xs i v) i ≡ some v
get_elem?-set_here [] i v h = absurd (omega arith)
get_elem?-set_here (x ∷ xs) zero v h = refl
get_elem?-set_here (x ∷ xs) (suc i) v h = get_elem?-set_here xs i v (omega arith)

module _ {W : Type 0} where
  -- Whatever the algorithm field of a header holds, neither lookup reads past its table, although
  -- the crypto table is indexed by the identifier and not by the index that was checked.
  pub lookups_in_bounds :
      (algo : ℕ) (t : Tables W)
      → IsSized t
      → (find_crypto (bit_and algo crypt_mask) t ≢ none)
        × (find_cmprs (bit_and algo cmprs_mask) t ≢ none)
  unfolding find_crypto find_cmprs crypto_id_to_index cmprs_id_to_index
  lookups_in_bounds algo t v = (
    ground (
      arith,
      bit_and_low4 algo,
      bit_and_low4 (bit_and algo crypt_mask),
      get_elem?_in t.crypt (bit_and algo crypt_mask),
    ),
    ground (arith, bit_and_cmprs algo, get_elem?_in t.cmprs (bit_and algo cmprs_mask / 256)),
  )

  -- Two algorithms that register one after the other are those that a header with their
  -- identifiers selects, and neither can be registered again.
  pub register-get_algo_context :
      (crypt : CryptoOps W) (cmprs : CmprsOps W) (algo : ℕ) (t t1 t2 : Tables W)
      → IsSized t
      → crypto_register (some crypt) t ≡ (eok, t1)
      → cmprs_register (some cmprs) t1 ≡ (eok, t2)
      → crypt.crypto_id ≡ bit_and algo crypt_mask
      → cmprs.cmprs_id ≡ bit_and algo cmprs_mask
      → (get_algo_context algo t2 ≡ some (record { crypt_ops = some crypt; cmprs_ops = cmprs }))
        × ((crypto_register (some crypt) t2).0 ≢ eok)
        × ((cmprs_register (some cmprs) t2).0 ≢ eok)
  unfolding cmprs_register crypto_register get_algo_context find_crypto find_cmprs
      crypto_id_to_index cmprs_id_to_index
  register-get_algo_context crypt cmprs algo t t1 t2 v h1 h2 e1 e2 = ground (
    arith,
    bit_and_low4 algo,
    bit_and_low4 crypt.crypto_id,
    get_elem?-set_here t.crypt (bit_and algo crypt_mask) (some crypt),
    get_elem?-set_here t.cmprs (cmprs.cmprs_id / 256) (some cmprs),
  )
