-- ===== src/Boot/Balance.antt =====
-- The handles that qbt_app_resume_from and qbt_release_from_part (src/qboot.c) open.
use rt_thread_qboot.Base.{
  ℕ, ◌+◌, ◌≡◌, refl, ◌∙◌, Bool, true, Option, some, arith, Option-cases, inl, inr,
}
use rt_thread_qboot.Storage.{FwInfo, StoreDesc, open_read, open_for_release, target_app}
use rt_thread_qboot.Storage.Header.{release_sign_check, release_sign_write}
use rt_thread_qboot.Storage.Targets.{
  Opened, refused, unsized, opened, name_to_id, target_desc, target_open, target_close,
}
use rt_thread_qboot.Storage.Frame.{HandleCount, ParserFrame, weight_of, SizesKnown}
use rt_thread_qboot.Storage.Counts.{
  Fits, NotUnsized, target_open-NotUnsized, target_open-Fits, target_close-count,
}
use rt_thread_qboot.Boot.Keeps.{TablesFrame, fw_check-keeps, fw_update-keeps}
use rt_thread_qboot.Boot.Release.{
  Board, check_package, update_target, resume_checked, resume_opened, resume_into, resume_with,
  app_resume_from, sign_release, release_to, release_new, release_checked, release_opened,
  release_with, release_from_part,
}

module _ {W H : Type 0} (b : Board W H) (weigh : H → ℕ) (live : W → ℕ)
    (count : HandleCount b.io weigh live) (codecs : TablesFrame b.tables live)
    (parser_frame : ParserFrame b.parser live)
    (feed_keeps : (w : W) → live (b.wdt_feed w) ≡ live w) where
  check-live : (h : H) (len : ℕ) (w : W) → live (check_package b h len w).1 ≡ live w
  check-live h len w =
      fw_check-keeps b.io b.cfg b.crc b.tables live count.read_counts codecs h len w

  update-live :
      (dst : H) (size : ℕ) (src : H) (fw : FwInfo) (w : W)
      → live (update_target b dst size src fw w).1 ≡ live w
  update-live dst size src fw w =
      fw_update-keeps b.io b.cfg b.crc b.tables live count.read_counts codecs b.wdt_feed
        count.erase_counts count.write_counts feed_keeps dst size src fw w

  resume_checked-live :
      (src dst : H) (size : ℕ) (app : StoreDesc) (fw : FwInfo) (w : W)
      → live (resume_checked b src dst size app fw w).1 ≡ live w
  unfolding resume_checked
  resume_checked-live src dst size app fw w = ground (arith, update-live dst size src fw w)

  resume_opened-live :
      (src : H) (src_size : ℕ) (dst : H) (size : ℕ) (app : StoreDesc) (w : W)
      → live (resume_opened b src src_size dst size app w).1 ≡ live w
  unfolding resume_opened
  resume_opened-live src src_size dst size app w =
      let w1 = (check_package b src src_size w).1 in
      elim (Option-cases (check_package b src src_size w).0) [
        | inl n ↦ rw (n, resume_opened) (check-live src src_size w)
        | inr (fw, n) ↦
            rw (n, resume_opened)
              (resume_checked-live src dst size app fw w1 ∙ check-live src src_size w)
      ]

  resume_into-live :
      (others : ℕ) (src : H) (src_size : ℕ) (app : StoreDesc) (got : Opened H) (w : W)
      → Fits weigh (others + weigh src) got (live w)
      → live (resume_into b src src_size app (got, w)).1 ≡ others
  unfolding resume_into
  resume_into-live others src src_size app refused w e =
      omega (arith, e, target_close-count weigh live count (some src) w (omega (arith, e)))
  resume_into-live others src src_size app (unsized dst) w e =
      omega (arith, e, target_close-count weigh live count (some src) w (omega (arith, e)))
  resume_into-live others src src_size app (opened dst size) w e =
      let w1 = (resume_opened b src src_size dst size app w).1 in
      let same = resume_opened-live src src_size dst size app w in
      let first = target_close-count weigh live count (some src) w1 (omega (arith, same, e)) in
      omega (
        arith,
        same,
        first,
        target_close-count weigh live count (some dst) (target_close b.io (some src) w1)
            (omega (arith, same, first, e)),
      )

  resume_with-live :
      (others : ℕ) (got : Opened H) (w : W)
      → Fits weigh others got (live w)
      → live (resume_with b (got, w)).1 ≡ others
  unfolding resume_with
  resume_with-live others refused w e = e
  resume_with-live others (unsized src) w e = e
  resume_with-live others (opened src size) w e =
      elim (Option-cases (target_desc b.descs target_app)) [
        | inl n ↦
            rw (n, resume_with)
              (omega
                (arith, e, target_close-count weigh live count (some src) w (omega (arith, e))))
        | inr (app, n) ↦
            let (got, w1) = target_open b.io target_app open_for_release true w in
            rw (n, resume_with)
              (resume_into-live others src size app got w1 (
                target_open-Fits weigh live count (others + weigh src) target_app open_for_release w
                  e))
      ]

  -- Let an open add its handle to those that are open, let a close of an open handle take it away, and let
  -- nothing else do either. Then resuming the application closes the handles that it opens, each as often
  -- as it is opened, and no other one, whatever fails on the way, a size query included.
  pub app_resume_from-live : (id : ℕ) (w : W) → live (app_resume_from b id w).1 ≡ live w
  unfolding app_resume_from
  app_resume_from-live id w = elim (Option-cases (target_desc b.descs id)) [
    | inl n ↦ rw (n, app_resume_from) refl
    | inr (desc, n) ↦
        let (got, w1) = target_open b.io id open_read true w in
        rw (n, app_resume_from)
          (resume_with-live (live w) got w1
            (target_open-Fits weigh live count (live w) id open_read w refl))
  ]

module _ {W H : Type 0} (b : Board W H) (weigh : H → ℕ) (live : W → ℕ)
    (count : HandleCount b.io weigh live) (known : SizesKnown b.io)
    (codecs : TablesFrame b.tables live) (parser_frame : ParserFrame b.parser live)
    (feed_keeps : (w : W) → live (b.wdt_feed w) ≡ live w) where
  -- What `exit` of `qbt_release_from_part` will find open besides `others`.
  abbrev Held : ℕ → (Bool × Option H) × W → Type 0
  Held others r = live r.1 ≡ others + weight_of weigh r.0.1

  sign_check-live :
      (h : H) (fw : FwInfo) (w : W) → live (release_sign_check b.parser h (some fw) w).1 ≡ live w
  unfolding release_sign_check
  sign_check-live h fw w = parser_frame.sign_read_keeps h (some fw) w

  sign_release-live : (src : H) (fw : FwInfo) (w : W) → live (sign_release b src fw w) ≡ live w
  unfolding sign_release release_sign_write
  sign_release-live src fw w =
      let w1 = (release_sign_check b.parser src (some fw) w).1 in
      ground (arith, sign_check-live src fw w, parser_frame.sign_write_keeps src (some fw) w1)

  release_to-Held :
      (others : ℕ) (src : H) (fw : FwInfo) (got : Opened H) (w : W)
      → NotUnsized got
      → Fits weigh others got (live w)
      → Held others (release_to b src fw (got, w))
  unfolding release_to
  release_to-Held others src fw refused w sized e = omega (arith, e)
  release_to-Held others src fw (unsized dst) w sized e = absurd (sized dst refl)
  release_to-Held others src fw (opened dst size) w sized e =
      let w1 = (update_target b dst size src fw w).1 in
      elim (Option-cases (update_target b dst size src fw w).0) [
        | inl n ↦
            rw (n, release_to)
              (omega (
                arith,
                update-live b weigh live count codecs parser_frame feed_keeps dst size src fw w,
              ))
        | inr (fw2, n) ↦
            rw (n, release_to)
              (omega (
                arith,
                update-live b weigh live count codecs parser_frame feed_keeps dst size src fw w,
                sign_release-live src fw2 w1,
              ))
      ]

  release_new-Held :
      (others : ℕ) (src : H) (fw : FwInfo) (w : W)
      → live w ≡ others
      → Held others (release_new b src fw w)
  unfolding release_new
  release_new-Held others src fw w e =
      let id = name_to_id fw.part_name in
      let (got, w1) = target_open b.io id open_for_release true w in
      ground (
        arith,
        release_to-Held others src fw got w1
            (target_open-NotUnsized b.io known id open_for_release w)
            (target_open-Fits weigh live count others id open_for_release w e),
      )

  release_checked-Held :
      (others : ℕ) (src : H) (check_sign : Bool) (fw : FwInfo) (w : W)
      → live w ≡ others
      → Held others (release_checked b src check_sign fw w)
  unfolding release_checked
  release_checked-Held others src check_sign fw w e =
      let w1 = (release_sign_check b.parser src (some fw) w).1 in
      let kept = sign_check-live src fw w in
      ground (
        arith,
        kept,
        release_new-Held others src fw w e,
        release_new-Held others src fw w1 (kept ∙ e),
      )

  release_opened-Held :
      (others : ℕ) (src : H) (size : ℕ) (check_sign : Bool) (w : W)
      → live w ≡ others
      → Held others (release_opened b src size check_sign w)
  unfolding release_opened
  release_opened-Held others src size check_sign w e =
      let w1 = (check_package b src size w).1 in
      let e1 : live w1 ≡ others =
        check-live b weigh live count codecs parser_frame feed_keeps src size w ∙ e in
      elim (Option-cases (check_package b src size w).0) [
        | inl n ↦ rw (n, release_opened) (omega (arith, e1))
        | inr (fw, n) ↦ rw (n, release_opened) (release_checked-Held others src check_sign fw w1 e1)
      ]

  release_with-live :
      (others : ℕ) (check_sign : Bool) (got : Opened H) (w : W)
      → Fits weigh others got (live w)
      → live (release_with b check_sign (got, w)).1 ≡ others
  unfolding release_with
  release_with-live others check_sign refused w e = e
  release_with-live others check_sign (unsized src) w e = e
  release_with-live others check_sign (opened src size) w e =
      let ((rst, dst), w1) = release_opened b src size check_sign w in
      let held = release_opened-Held (others + weigh src) src size check_sign w e in
      let first = target_close-count weigh live count dst w1 (omega (arith, held)) in
      omega (
        arith,
        held,
        first,
        target_close-count weigh live count (some src) (target_close b.io dst w1)
            (omega (arith, held, first)),
      )

  -- Let an open add its handle to those that are open, let a close of an open handle take it away, and let
  -- nothing else do either; and let the sizes of handles be always known. Then a release closes the
  -- handles that it opens, each as often as it is opened, and no other one, whatever else fails on the
  -- way.
  pub release_from_part-live :
      (id : ℕ) (check_sign : Bool) (w : W) → live (release_from_part b id check_sign w).1 ≡ live w
  unfolding release_from_part
  release_from_part-live id check_sign w = elim (Option-cases (target_desc b.descs id)) [
    | inl n ↦ rw (n, release_from_part) refl
    | inr (desc, n) ↦
        let (got, w1) = target_open b.io id open_read true w in
        rw (n, release_from_part)
          (release_with-live (live w) check_sign got w1
            (target_open-Fits weigh live count (live w) id open_read w refl))
  ]
