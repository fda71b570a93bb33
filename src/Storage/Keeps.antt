-- ===== src/Storage/Keeps.antt =====
-- The helpers of src/qboot_ops.c leave alone what the operations that they call leave alone.
use rt_thread_qboot.Base.{ℕ, Bool, true, false, Option, none, some, ◌≡◌, refl, ◌∙◌}
use rt_thread_qboot.Storage.{IoOps}
use rt_thread_qboot.Storage.Targets.{sized, open_with, target_open, target_close, erase_with_feed}
use rt_thread_qboot.Storage.Frame.{IoFrame}

module _ {W H A : Type 0} {io : IoOps W H} {f : W → A} (frame : IoFrame io f) where
  sized-keeps : (h : H) (n : Option ℕ) (w : W) → f (sized io h (n, w)).1 ≡ f w
  unfolding sized
  sized-keeps h none w = frame.close_keeps h w
  sized-keeps h (some n) w = refl

  open_with-keeps : (want : Bool) (got : Option H) (w : W) → f (open_with io want (got, w)).1 ≡ f w
  unfolding open_with
  open_with-keeps want none w = refl
  open_with-keeps true (some h) w =
      sized-keeps h (io.size h w).0 (io.size h w).1 ∙ frame.size_keeps h w
  open_with-keeps false (some h) w = refl

  pub target_open-keeps :
      (id flags : ℕ) (want : Bool) (w : W) → f (target_open io id flags want w).1 ≡ f w
  target_open-keeps id flags want w =
      let got = io.open_target id flags w in
      unfold target_open in (open_with-keeps want got.0 got.1 ∙ frame.open_keeps id flags w)

  pub target_close-keeps : (o : Option H) (w : W) → f (target_close io o w) ≡ f w
  unfolding target_close
  target_close-keeps none w = refl
  target_close-keeps (some h) w = frame.close_keeps h w

  pub erase_with_feed-keeps :
      (wdt_feed : W → W)
      → ((w : W) → f (wdt_feed w) ≡ f w)
      → (h : H) (off len : ℕ) (w : W) → f (erase_with_feed io wdt_feed h off len w).1 ≡ f w
  unfolding erase_with_feed
  erase_with_feed-keeps wdt_feed feed h off len w =
      feed (io.erase h off len (wdt_feed w)).1 ∙ frame.erase_keeps h off len (wdt_feed w) ∙ feed w
