-- ===== src/Storage/Mux.antt =====
-- src/qboot_mux_ops.c: each target belongs to one of several drivers. A handle is the identifier of its
-- target, whose slot in `g_mux_handles` has the driver and the driver's handle. The drivers are the
-- parameters, with handles of one type.
use rt_thread_qboot.Base.{
  ℕ, ◌≡◌, ◌≢◌, refl, true, false, Bool, Option, none, some, List, ◌==◌, if◌then◌else◌, arith,
  Option-cases, inl, inr,
}
use rt_thread_qboot.Storage.{RtErr, eok, rt_error, FwInfo, IoOps, ParserOps, StoreDesc, Backend}
use rt_thread_qboot.Storage.Targets.{target_desc}

-- `qbt_mux_handle_t`
pub record Slot (H : Type 0) : Type 0 where
  pub backend : Backend
  pub backend_handle : H

-- `g_mux_handles` with the state of the drivers; a slot that was never filled has no value.
pub record Muxed (W H : Type 0) : Type 0 where
  pub slots : ℕ → Option (Slot H)
  pub drivers : W

module _ {W H : Type 0} (backend_ops : Backend → IoOps W H) (descs : List StoreDesc) where
  -- `qbt_mux_open_backend`, on what the driver answers.
  unfoldable pub fill_slot :
      ℕ → StoreDesc → (ℕ → Option (Slot H)) → Option H × W → Option ℕ × Muxed W H
  fill_slot id desc slots (none, w) = (none, record { slots = slots; drivers = w })
  fill_slot id desc slots (some h, w) = (
    some id,
    record {
      slots = λ k.
          if k == id then some (record { backend = desc.backend; backend_handle = h }) else slots k;
      drivers = w;
    },
  )

  unfoldable pub mux_open : ℕ → ℕ → Muxed W H → Option ℕ × Muxed W H
  mux_open id flags m = elim (target_desc descs id) [
    | none ↦ (none, m)
    | some desc ↦
        fill_slot id desc m.slots ((backend_ops desc.backend).open_target id flags m.drivers)
  ]

  -- The result of the driver's `close` is not looked at.
  unfoldable pub mux_close : ℕ → Muxed W H → RtErr × Muxed W H
  mux_close id m = elim (m.slots id) [
    | none ↦ (eok, m)
    | some s ↦
        (eok, record m { drivers = ((backend_ops s.backend).close s.backend_handle m.drivers).1 })
  ]

  unfoldable pub mux_read : ℕ → ℕ → ℕ → Muxed W H → Option (List ℕ) × Muxed W H
  mux_read id off len m = elim (m.slots id) [
    | none ↦ (none, m)
    | some s ↦
        let (got, w) = (backend_ops s.backend).read s.backend_handle off len m.drivers in
        (got, record m { drivers = w })
  ]

  unfoldable pub mux_erase : ℕ → ℕ → ℕ → Muxed W H → RtErr × Muxed W H
  mux_erase id off len m = elim (m.slots id) [
    | none ↦ (rt_error, m)
    | some s ↦
        let (rst, w) = (backend_ops s.backend).erase s.backend_handle off len m.drivers in
        (rst, record m { drivers = w })
  ]

  unfoldable pub mux_write : ℕ → ℕ → List ℕ → Muxed W H → RtErr × Muxed W H
  mux_write id off bytes m = elim (m.slots id) [
    | none ↦ (rt_error, m)
    | some s ↦
        let (rst, w) = (backend_ops s.backend).write s.backend_handle off bytes m.drivers in
        (rst, record m { drivers = w })
  ]

  unfoldable pub mux_size : ℕ → Muxed W H → Option ℕ × Muxed W H
  mux_size id m = elim (m.slots id) [
    | none ↦ (none, m)
    | some s ↦
        let (got, w) = (backend_ops s.backend).size s.backend_handle m.drivers in
        (got, record m { drivers = w })
  ]

  unfoldable pub mux_ioctl : ℕ → ℕ → Muxed W H → Option ℕ × Muxed W H
  mux_ioctl id cmd m = elim (m.slots id) [
    | none ↦ (none, m)
    | some s ↦
        let (got, w) = (backend_ops s.backend).ioctl s.backend_handle cmd m.drivers in
        (got, record m { drivers = w })
  ]

  -- `g_qboot_io_mux`
  unfoldable pub mux_io_ops : IoOps (Muxed W H) ℕ
  mux_io_ops = record {
    open_target = mux_open;
    close = mux_close;
    read = mux_read;
    erase = mux_erase;
    write = mux_write;
    size = mux_size;
    ioctl = mux_ioctl;
  }

  module _ (backend_parser_ops : Backend → ParserOps W H) where
    unfoldable pub mux_sign_read : ℕ → Option FwInfo → Muxed W H → Option Bool × Muxed W H
    mux_sign_read id fw m = elim (m.slots id) [
      | none ↦ (none, m)
      | some s ↦
          let (got, w) = (backend_parser_ops s.backend).sign_read s.backend_handle fw m.drivers in
          (got, record m { drivers = w })
    ]

    unfoldable pub mux_sign_write : ℕ → Option FwInfo → Muxed W H → RtErr × Muxed W H
    mux_sign_write id fw m = elim (m.slots id) [
      | none ↦ (rt_error, m)
      | some s ↦
          let (rst, w) = (backend_parser_ops s.backend).sign_write s.backend_handle fw m.drivers in
          (rst, record m { drivers = w })
    ]

    unfoldable pub mux_sign_clear : ℕ → Option FwInfo → Muxed W H → RtErr × Muxed W H
    mux_sign_clear id fw m = elim (m.slots id) [
      | none ↦ (rt_error, m)
      | some s ↦
          let (rst, w) = (backend_parser_ops s.backend).sign_clear s.backend_handle fw m.drivers in
          (rst, record m { drivers = w })
    ]

    -- `g_qboot_header_parser_mux`
    unfoldable pub mux_parser_ops : ParserOps (Muxed W H) ℕ
    mux_parser_ops = record {
      sign_read = mux_sign_read;
      sign_write = mux_sign_write;
      sign_clear = mux_sign_clear;
    }

module _ {W H : Type 0} (backend_ops : Backend → IoOps W H) (descs : List StoreDesc) where
  -- The slot of a target that was just opened.
  fill_slot-slot :
      (id : ℕ) (desc : StoreDesc) (slots : ℕ → Option (Slot H)) (h : H) (w : W)
      → (fill_slot backend_ops descs id desc slots (some h, w)).1.slots id
        ≡ some (record { backend = desc.backend; backend_handle = h })
  unfolding fill_slot
  fill_slot-slot id desc slots h w = ground arith

  -- A target that was opened with success is read through the driver of its description, with the
  -- handle that this driver gave, on the drivers' state after the opening.
  pub mux_read-mux_open :
      (id flags off len : ℕ) (desc : StoreDesc) (h : H) (m : Muxed W H)
      → target_desc descs id ≡ some desc
      → ((backend_ops desc.backend).open_target id flags m.drivers).0 ≡ some h
      → let w = ((backend_ops desc.backend).open_target id flags m.drivers).1 in
        let (got, m1) = mux_open backend_ops descs id flags m in
        let driven = (backend_ops desc.backend).read h off len w in
        (got ≡ some id)
        × ((mux_read backend_ops descs id off len m1).0 ≡ driven.0)
        × ((mux_read backend_ops descs id off len m1).1.drivers ≡ driven.1)
  unfolding mux_open mux_read fill_slot
  mux_read-mux_open id flags off len desc h m e o =
      let same : (id == id) ≡ true = ground arith in ground (arith, e, o, same)

  -- Opening one target leaves the slot of any other alone, whether it succeeds or fails.
  mux_open-others :
      (id flags other : ℕ) (m : Muxed W H)
      → other ≢ id
      → (mux_open backend_ops descs id flags m).1.slots other ≡ m.slots other
  unfolding mux_open fill_slot
  mux_open-others id flags other m e =
      let differs : (other == id) ≡ false = ground (arith, e) in
      elim (Option-cases (target_desc descs id)) [
        | inl n ↦ rw (n, mux_open) refl
        | inr (desc, n) ↦
            elim (Option-cases ((backend_ops desc.backend).open_target id flags m.drivers).0) [
              | inl f ↦ rw (n, mux_open, f) refl
              | inr (h, f) ↦ rw (n, mux_open, f, differs) refl
            ]
      ]
