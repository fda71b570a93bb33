-- ===== src/Update/Reason/Parse.antt =====
-- The parser of `qboot reason set` against unbounded arithmetic.
use rt_thread_qboot.Base.{
  ℕ, ◌+◌, ◌*◌, ◌≤◌, ◌<◌, ◌≡◌, Option, none, some, List, [], ◌∷◌, ltb, if◌then◌else◌, arith, u32_mod,
  Option-cases, inl, inr, ◌⊎◌,
}
use rt_thread_qboot.Base.Bits.{bit_or_hex}
use rt_thread_qboot.Update.Reason.{digit_of, add_digit, parse_digits}

-- The number that the text stands for, without a bound; `none` for a character that is no digit.
unfoldable pub text_value : ℕ → ℕ → List ℕ → Option ℕ
text_value base acc [] = some acc
text_value base acc (c ∷ cs) = elim (digit_of base c) [
  | none ↦ none
  | some d ↦ text_value base (acc * base + d) cs
]

-- A value that does not fit 32 bits is refused.
abbrev pub fits_u32 : Option ℕ → Option ℕ
fits_u32 none = none
fits_u32 (some v) = if ltb v u32_mod then some v else none

abbrev pub IsBase : ℕ → Type 0
IsBase base = (base ≡ 10) ⊎ (base ≡ 16)

digit_of-lt : (base c d : ℕ) → IsBase base → digit_of base c ≡ some d → d < base
unfolding digit_of
digit_of-lt base c d b h = ground arith

add_digit-exact :
    (base r d : ℕ)
    → IsBase base
    → r < u32_mod
    → d < base
    → add_digit base r d ≡ (if ltb (r * base + d) u32_mod then some (r * base + d) else none)
unfolding add_digit
add_digit-exact base r d (inl e) h k = rw e (ground arith)
add_digit-exact base r d (inr e) h k = rw e (ground (arith, bit_or_hex r d (omega arith)))

stays_over : (base acc d : ℕ) → IsBase base → u32_mod ≤ acc → u32_mod ≤ acc * base + d
stays_over base acc d (inl e) h = rw e (omega arith)
stays_over base acc d (inr e) h = rw e (omega arith)

-- Once over 32 bits, the text's value stays over.
text_value-over :
    (base acc : ℕ) (cs : List ℕ)
    → IsBase base
    → u32_mod ≤ acc
    → fits_u32 (text_value base acc cs) ≡ none
unfolding text_value
text_value-over base acc [] b h = ground arith
text_value-over base acc (c ∷ cs) b h = elim (Option-cases (digit_of base c)) [
  | inl e ↦ ground arith
  | inr (d, e) ↦
      let big : u32_mod ≤ acc * base + d = stays_over base acc d b h in
      ground (arith, text_value-over base (acc * base + d) cs b big)
]

-- From any value of 32 bits on, the loop's two overflow tests are exact.
pub parse_digits-exact :
    (base r : ℕ) (cs : List ℕ)
    → IsBase base
    → r < u32_mod
    → parse_digits base r cs ≡ fits_u32 (text_value base r cs)
unfolding parse_digits text_value
parse_digits-exact base r [] b h = ground arith
parse_digits-exact base r (c ∷ cs) b h = elim (Option-cases (digit_of base c)) [
  | inl e ↦ ground arith
  | inr (d, e) ↦ ground (
    arith,
    add_digit-exact base r d b h (digit_of-lt base c d b e),
    text_value-over base (r * base + d) cs b,
    parse_digits-exact base (r * base + d) cs b,
  )
]
