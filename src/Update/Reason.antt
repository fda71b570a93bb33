-- ===== src/Update/Reason.antt =====
-- The `qboot reason` shell command of src/qboot_update.c. Text is a list of character codes without
-- the final NUL.
pub mod Parse
pub mod Command
use Prim.Native.Nat.{bit_or}
use rt_thread_qboot.Base.{
  ℕ, ◌+◌, ◌-◌, ◌*◌, Bool, true, false, Option, none, some, List, [], ◌∷◌, ltb, leb, ◌==◌, ◌&&◌,
  ◌||◌, not, if◌then◌else◌,
}
use rt_thread_qboot.Storage.Header.{strcmp_eq}
use rt_thread_qboot.Update.{UpdState, recv, Sys, UpdateOps, reason_none}

-- The digit that a character stands for in base 10 or 16; `none` where the code returns RT_FALSE.
unfoldable pub digit_of : ℕ → ℕ → Option ℕ
digit_of base c =
    if leb b'0' c && leb c b'9'
    then some (c - b'0')
    else (if (base == 16) && (leb b'a' c && leb c b'f')
        then some (c - b'a' + 10)
        else (if (base == 16) && (leb b'A' c && leb c b'F') then some (c - b'A' + 10) else none))

-- One round of the loop: the next value, or `none` for a digit out of the base and for an overflow.
unfoldable pub add_digit : ℕ → ℕ → ℕ → Option ℕ
add_digit base result digit =
    if leb base digit
    then none
    else (if base == 16
        then (if ltb 0x0FFFFFFF result then none else some (bit_or (result * 16) digit))
        else (if ltb 429496729 result || ((result == 429496729) && ltb 5 digit)
            then none
            else some (result * 10 + digit)))

unfoldable pub parse_digits : ℕ → ℕ → List ℕ → Option ℕ
parse_digits base result [] = some result
parse_digits base result (c ∷ cs) = elim (digit_of base c) [
  | none ↦ none
  | some d ↦ elim (add_digit base result d) [ none ↦ none | some r ↦ parse_digits base r cs ]
]

-- `qbt_reason_parse_u32` for pointers that are not null.
unfoldable pub parse_u32 : List ℕ → Option ℕ
parse_u32 [] = none
parse_u32 (c ∷ []) = parse_digits 10 0 (c ∷ [])
parse_u32 (c ∷ d ∷ []) =
    if (c == b'0') && ((d == b'x') || (d == b'X')) then none else parse_digits 10 0 (c ∷ d ∷ [])
parse_u32 (c ∷ d ∷ e ∷ cs) =
    if (c == b'0') && ((d == b'x') || (d == b'X'))
    then parse_digits 16 0 (e ∷ cs)
    else parse_digits 10 0 (c ∷ d ∷ e ∷ cs)

-- What the arguments behind `reason` ask for. (`argc` is one more than their number.)
pub data Request : Type 0 where
  show : Request
  change : ℕ → Request
  invalid : Request

abbrev word_get : List ℕ
word_get = b'g' ∷ b'e' ∷ b't' ∷ []

abbrev word_clear : List ℕ
word_clear = b'c' ∷ b'l' ∷ b'e' ∷ b'a' ∷ b'r' ∷ []

abbrev pub word_set : List ℕ
word_set = b's' ∷ b'e' ∷ b't' ∷ []

unfoldable pub request_of : List (List ℕ) → Request
unfolding parse_u32 strcmp_eq
request_of [] = show
request_of (a ∷ []) =
    if strcmp_eq a word_get
    then show
    else (if strcmp_eq a word_clear then change reason_none else invalid)
request_of (a ∷ v ∷ []) =
    if strcmp_eq a word_set
    then elim (parse_u32 v) [ none ↦ invalid | some r ↦ change r ]
    else invalid
request_of (a ∷ b ∷ c ∷ rest) = invalid

abbrev pub is_recv : UpdState → Bool
is_recv recv = true
is_recv _ = false

-- `qbt_update_reason_write_verified`: whether the reason reads back, and the board.
unfoldable pub reason_write_verified : {W : Type 0} → UpdateOps W → ℕ → W → Bool × W
reason_write_verified ops reason w =
    let (readback, w1) = ops.get_reason (ops.set_reason reason w) in (readback == reason, w1)

module _ {W H : Type 0} (ops : UpdateOps W) where
  -- The part of the command that changes the reason.
  unfoldable pub change_reason : ℕ → Sys W H → Bool × Sys W H
  unfolding reason_write_verified
  change_reason new_reason s =
      if is_recv s.state
      then (false, s)
      else (let (old, w1) = ops.get_reason s.world in
          let (ok, w2) = reason_write_verified ops new_reason w1 in (ok, record s { world = w2 }))

  -- `qboot_reason_cmd`; `true` is the return value 0. The two callbacks are never null pointers.
  unfoldable pub reason_cmd : List (List ℕ) → Sys W H → Bool × Sys W H
  unfolding change_reason
  reason_cmd args s = if not s.ops_set then (false, s) else elim (request_of args) [
    | show ↦ (true, record s { world = (ops.get_reason s.world).1 })
    | change r ↦ change_reason r s
    | invalid ↦ (false, s)
  ]
