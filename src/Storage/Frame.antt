-- ===== src/Storage/Frame.antt =====
-- Observations of the board that operations leave alone, and the count of handles that are open:
-- what the theorems assume of storage drivers.
use rt_thread_qboot.Base.{ℕ, ◌+◌, ◌-◌, List, Option, none, some, ◌≡◌, ◌≢◌, ◌≤◌}
use rt_thread_qboot.Storage.{FwInfo, IoOps, ParserOps}

-- No storage operation changes what `f` observes.
pub record IoFrame {W H A : Type 0} (io : IoOps W H) (f : W → A) : Type 0 where
  pub open_keeps : (id flags : ℕ) (w : W) → f (io.open_target id flags w).1 ≡ f w
  pub close_keeps : (h : H) (w : W) → f (io.close h w).1 ≡ f w
  pub read_keeps : (h : H) (off len : ℕ) (w : W) → f (io.read h off len w).1 ≡ f w
  pub erase_keeps : (h : H) (off len : ℕ) (w : W) → f (io.erase h off len w).1 ≡ f w
  pub write_keeps : (h : H) (off : ℕ) (bs : List ℕ) (w : W) → f (io.write h off bs w).1 ≡ f w
  pub size_keeps : (h : H) (w : W) → f (io.size h w).1 ≡ f w

pub record ParserFrame {W H A : Type 0} (parser : ParserOps W H) (f : W → A) : Type 0 where
  pub sign_read_keeps : (h : H) (fw : Option FwInfo) (w : W) → f (parser.sign_read h fw w).1 ≡ f w
  pub sign_write_keeps : (h : H) (fw : Option FwInfo) (w : W) → f (parser.sign_write h fw w).1 ≡ f w
  pub sign_clear_keeps : (h : H) (fw : Option FwInfo) (w : W) → f (parser.sign_clear h fw w).1 ≡ f w

-- The weight of what a pointer points to, and 0 for a null pointer.
abbrev pub weight_of : {H : Type 0} → (H → ℕ) → Option H → ℕ
weight_of weigh none = 0
weight_of weigh (some h) = weigh h

-- `live` counts the handles that are open, each with its weight: a successful `open` adds the weight of
-- the handle that it gives, `close` of an open handle takes its weight away, and nothing else changes the
-- count. Nothing is known of a `close` of more than is open. With weight 1 for one handle and 0 for all
-- others, `live` counts how often that handle is open.
pub record HandleCount {W H : Type 0} (io : IoOps W H) (weigh : H → ℕ) (live : W → ℕ) : Type 0 where
  pub open_counts :
      (id flags : ℕ) (w : W)
      → live (io.open_target id flags w).1 ≡ live w + weight_of weigh (io.open_target id flags w).0
  pub close_counts : (h : H) (w : W) → weigh h ≤ live w → live (io.close h w).1 ≡ live w - weigh h
  pub read_counts : (h : H) (off len : ℕ) (w : W) → live (io.read h off len w).1 ≡ live w
  pub erase_counts : (h : H) (off len : ℕ) (w : W) → live (io.erase h off len w).1 ≡ live w
  pub write_counts : (h : H) (off : ℕ) (bs : List ℕ) (w : W) → live (io.write h off bs w).1 ≡ live w
  pub size_counts : (h : H) (w : W) → live (io.size h w).1 ≡ live w

-- The size of a handle is always known.
abbrev pub SizesKnown : {W H : Type 0} → IoOps W H → Type 0
SizesKnown {W = W} {H = H} io = (h : H) (w : W) → (io.size h w).0 ≢ none
