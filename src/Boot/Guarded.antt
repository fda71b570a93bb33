-- ===== src/Boot/Guarded.antt =====
-- A package that fails its check is not installed (src/qboot.c).
use rt_thread_qboot.Base.{
  ℕ, ◌≡◌, refl, ◌∙◌, Bool, true, false, Option, none, some, Option-cases, inl, inr,
}
use rt_thread_qboot.Storage.{open_read}
use rt_thread_qboot.Storage.Targets.{
  Opened, refused, unsized, opened, target_desc, target_open, target_close, sized, open_with,
}
use rt_thread_qboot.Boot.Keeps.{TablesFrame, fw_check-keeps}
use rt_thread_qboot.Boot.Release.{
  Board, check_package, release_opened, release_with, release_from_part,
}

-- `f` is an observation that opening, reading and closing a target leave alone.
pub record LooksOnly {W H A : Type 0} (b : Board W H) (f : W → A) : Type 0 where
  pub open_keeps : (id flags : ℕ) (w : W) → f (b.io.open_target id flags w).1 ≡ f w
  pub close_keeps : (h : H) (w : W) → f (b.io.close h w).1 ≡ f w
  pub size_keeps : (h : H) (w : W) → f (b.io.size h w).1 ≡ f w
  pub read_keeps : (h : H) (off len : ℕ) (w : W) → f (b.io.read h off len w).1 ≡ f w
  pub codecs : TablesFrame b.tables f

module _ {W H A : Type 0} (b : Board W H) (f : W → A) (looks : LooksOnly b f) where
  close-keeps : (o : Option H) (w : W) → f (target_close b.io o w) ≡ f w
  unfolding target_close
  close-keeps none w = refl
  close-keeps (some h) w = looks.close_keeps h w

  sized-keeps : (h : H) (n : Option ℕ) (w : W) → f (sized b.io h (n, w)).1 ≡ f w
  unfolding sized
  sized-keeps h none w = looks.close_keeps h w
  sized-keeps h (some n) w = refl

  open_with-keeps : (got : Option H) (w : W) → f (open_with b.io true (got, w)).1 ≡ f w
  unfolding open_with
  open_with-keeps none w = refl
  open_with-keeps (some h) w =
      sized-keeps h (b.io.size h w).0 (b.io.size h w).1 ∙ looks.size_keeps h w

  open-keeps : (id flags : ℕ) (w : W) → f (target_open b.io id flags true w).1 ≡ f w
  open-keeps id flags w =
      let got = b.io.open_target id flags w in
      unfold target_open in (open_with-keeps got.0 got.1 ∙ looks.open_keeps id flags w)

  check-keeps : (h : H) (len : ℕ) (w : W) → f (check_package b h len w).1 ≡ f w
  check-keeps h len w =
      fw_check-keeps b.io b.cfg b.crc b.tables f looks.read_keeps looks.codecs h len w

  release_with-rejected :
      (check_sign : Bool) (got : Opened H) (w : W)
      → ((h : H) (size : ℕ) → got ≡ opened h size → (check_package b h size w).0 ≡ none)
      → ((release_with b check_sign (got, w)).0 ≡ false)
        × (f (release_with b check_sign (got, w)).1 ≡ f w)
  unfolding release_with release_opened
  release_with-rejected check_sign refused w fails = (refl, refl)
  release_with-rejected check_sign (unsized src) w fails = (refl, refl)
  release_with-rejected check_sign (opened src size) w fails =
      let w1 = (check_package b src size w).1 in
      rw (fails src size refl, release_with, release_opened)
        (
          refl,
          close-keeps (some src) (target_close b.io none w1)
              ∙ close-keeps none w1
              ∙ check-keeps src size w,
        )

  -- If the check of the package in the opened source fails, a release reports failure, and every
  -- observation that opening, reading and closing targets and the codecs leave alone is as before.
  pub release_from_part-rejected :
      (id : ℕ) (check_sign : Bool) (w : W)
      → ((h : H) (size : ℕ)
          → (target_open b.io id open_read true w).0 ≡ opened h size
          → (check_package b h size (target_open b.io id open_read true w).1).0 ≡ none)
      → ((release_from_part b id check_sign w).0 ≡ false)
        × (f (release_from_part b id check_sign w).1 ≡ f w)
  unfolding release_from_part
  release_from_part-rejected id check_sign w fails = elim (Option-cases (target_desc b.descs id)) [
    | inl n ↦ rw (n, release_from_part) (refl, refl)
    | inr (desc, n) ↦
        let (got, w1) = target_open b.io id open_read true w in
        let (refuses, kept) = release_with-rejected check_sign got w1 fails in
        rw (n, release_from_part) (refuses, kept ∙ open-keeps id open_read w)
  ]
