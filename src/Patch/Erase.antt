-- ===== src/Patch/Erase.antt =====
-- qbt_erase_aligned_range of algorithm/qboot_hpatchlite.c erases nothing that was committed.
use rt_thread_qboot.Base.{
  ℕ, ◌+◌, ◌-◌, ◌≡◌, ◌≤◌, ◌<◌, refl, Bool, true, false, List, take, leb, u32_mod, arith, Bool-cases,
  inl, inr,
}
use native.Mathlib.Nat.{lt-div-mul-add, div-mul-le_self}
use rt_thread_qboot.Storage.{IoOps, RtErr, is_eok}
use rt_thread_qboot.Storage.Targets.{erase_with_feed}
use rt_thread_qboot.Patch.{Instance, Kernel}
use rt_thread_qboot.Patch.Commit.{erased_range, first_sector, erase_aligned_range}
use rt_thread_qboot.Patch.Laws.{Aligns, OldPart}

module _ {W H : Type 0} (content : W → List ℕ) where
  -- What an erase does to an instance: the mark of what is erased only grows, and what stands before the
  -- mark is kept.
  pub record Erased (s s' : Instance W H) : Type 0 where
    pub mark_grows : s.old_part_erased_end ≤ s'.old_part_erased_end
    pub before_mark :
        (n : ℕ) → n ≤ s.old_part_erased_end → take n (content s'.world) ≡ take n (content s.world)
    pub swap_same : s'.swap ≡ s.swap
    pub committed_same : s'.committed_len ≡ s.committed_len
    pub sector_same : s'.old_part_sector_size ≡ s.old_part_sector_size
    pub old_same : s'.old_part ≡ s.old_part
    pub newer_same : s'.newer_file_len ≡ s.newer_file_len

  Erased-refl : (s : Instance W H) → Erased s s
  Erased-refl s = record {
    mark_grows = omega arith;
    before_mark = λ n below. refl;
    swap_same = refl;
    committed_same = refl;
    sector_same = refl;
    old_same = refl;
    newer_same = refl;
  }

module _ {W H : Type 0} (io : IoOps W H) (wdt_feed : W → W) (kernel : Kernel W) where
  -- The erase starts at the mark or above it.
  first_sector-above :
      (start : ℕ) (up : Bool) (s : Instance W H)
      → s.old_part_erased_end ≤ first_sector io wdt_feed kernel start up s
  unfolding first_sector
  first_sector-above start up s = ground arith

  -- What holds of an erase that has nothing to do and of one above the mark, holds of every erase.
  pub erase_aligned_range-cases :
      (Q : Bool × Instance W H → Type 0) (start end : ℕ) (up : Bool) (s : Instance W H)
      → Q (true, s)
      → ((erase_start len erase_end : ℕ)
          → s.old_part_erased_end ≤ erase_start
          → s.old_part_erased_end ≤ erase_end
          → Q (
              erased_range io wdt_feed kernel erase_end
                (erase_with_feed io wdt_feed s.old_part erase_start len s.world)
                s))
      → Q (erase_aligned_range io wdt_feed kernel start end up s)
  unfolding erase_aligned_range
  erase_aligned_range-cases Q start end up s nothing erases =
      let first = first_sector io wdt_feed kernel start up s in
      let above = first_sector-above start up s in
      elim (Bool-cases (leb end start)) [
        | inl empty ↦ rw (empty, erase_aligned_range) nothing
        | inr some_range ↦
            elim (Bool-cases
              (leb (kernel.rt_align end s.old_part_sector_size) s.old_part_erased_end)) [
                | inl done ↦ rw (some_range, done, erase_aligned_range) nothing
                | inr fresh ↦
                    elim (Bool-cases (leb (kernel.rt_align end s.old_part_sector_size) first)) [
                      | inl none_left ↦
                          rw (some_range, fresh, none_left, erase_aligned_range) nothing
                      | inr some_left ↦
                          rw (some_range, fresh, some_left, erase_aligned_range)
                            (erases first _ (kernel.rt_align end s.old_part_sector_size) above
                              (ground arith))
                    ]
              ]
      ]

module _ {W H : Type 0} {io : IoOps W H} {wdt_feed : W → W} {old : H} {content : W → List ℕ}
    {room : ℕ} (part : OldPart io wdt_feed old content room) (kernel : Kernel W) where
  erase_with_feed-before :
      (off len n : ℕ) (w : W)
      → n ≤ off
      → take n (content (erase_with_feed io wdt_feed old off len w).1) ≡ take n (content w)
  unfolding erase_with_feed
  erase_with_feed-before off len n w before =
      rw (part.feed_content, part.erase_before off len n (wdt_feed w) before, part.feed_content)
        refl

  erased_range-Erased :
      (erase_start len erase_end : ℕ) (s : Instance W H)
      → s.old_part ≡ old
      → s.old_part_erased_end ≤ erase_start
      → s.old_part_erased_end ≤ erase_end
      → Erased content s
          (erased_range io wdt_feed kernel erase_end
            (erase_with_feed io wdt_feed s.old_part erase_start len s.world)
            s).1
  unfolding erased_range
  erased_range-Erased erase_start len erase_end s is_old above grows =
      let kept : (n : ℕ)
          → n ≤ s.old_part_erased_end
          → take n (content (erase_with_feed io wdt_feed s.old_part erase_start len s.world).1)
            ≡ take n (content s.world) =
        λ n below. rw is_old (erase_with_feed-before erase_start len n s.world (omega arith)) in
      elim (Bool-cases
        (is_eok (erase_with_feed io wdt_feed s.old_part erase_start len s.world).0)) [
          | inl ok ↦
              rw (ok, erased_range)
                record {
                  mark_grows = grows;
                  before_mark = kept;
                  swap_same = refl;
                  committed_same = refl;
                  sector_same = refl;
                  old_same = refl;
                  newer_same = refl;
                }
          | inr bad ↦
              rw (bad, erased_range)
                record {
                  mark_grows = omega arith;
                  before_mark = kept;
                  swap_same = refl;
                  committed_same = refl;
                  sector_same = refl;
                  old_same = refl;
                  newer_same = refl;
                }
        ]

  -- Whatever range is asked for and whether the erase succeeds or not, the bytes below the mark of what
  -- is erased already stay as they are and the mark does not fall.
  pub erase_aligned_range-Erased :
      (start end : ℕ) (up : Bool) (s : Instance W H)
      → s.old_part ≡ old
      → Erased content s (erase_aligned_range io wdt_feed kernel start end up s).1
  erase_aligned_range-Erased start end up s is_old =
      erase_aligned_range-cases io wdt_feed kernel (λ r. Erased content s r.1) start end up s
        (Erased-refl content s)
        (λ erase_start len erase_end above grows.
          erased_range-Erased erase_start len erase_end s is_old above grows)

module _ {W H : Type 0} (io : IoOps W H) (wdt_feed : W → W) (kernel : Kernel W) where
  -- If the call succeeded, then everything up to `end` is below the mark.
  abbrev Covers : ℕ → Bool × Instance W H → Type 0
  Covers end r = r.0 ≡ true → end ≤ r.1.old_part_erased_end

  erased_range-Covers :
      (end erase_end : ℕ) (got : RtErr × W) (s : Instance W H)
      → end ≤ erase_end
      → Covers end (erased_range io wdt_feed kernel erase_end got s)
  unfolding erased_range
  erased_range-Covers end erase_end got s inside = elim (Bool-cases (is_eok got.0)) [
    | inl good ↦ rw (good, erased_range) (λ ok. inside)
    | inr bad ↦ rw (bad, erased_range) (λ ok. absurd (ground arith))
  ]

  range-Covers :
      (start end : ℕ) (s : Instance W H)
      → Aligns kernel s.old_part_sector_size
      → start < end
      → end + s.old_part_sector_size ≤ u32_mod
      → Covers end (erase_aligned_range io wdt_feed kernel start end false s)
  unfolding erase_aligned_range first_sector
  range-Covers start end s aligns some_range small =
      let sector = s.old_part_sector_size in
      let up = aligns.align_up end small in
      let down = aligns.align_down start (omega arith) in
      let above : end ≤ kernel.rt_align end sector =
        omega (arith, up, lt-div-mul-add {a = end + sector - 1} aligns.sector_some) in
      let below : kernel.rt_align_down start sector ≤ start =
        omega (arith, down, div-mul-le_self start sector) in
      let is_some : leb end start ≡ false = ground arith in
      elim (Bool-cases (leb (kernel.rt_align end sector) s.old_part_erased_end)) [
        | inl done ↦ rw (is_some, done, erase_aligned_range) (λ ok. ground (arith, done))
        | inr fresh ↦
            let some_sectors : leb (kernel.rt_align end sector)
                  (first_sector io wdt_feed kernel start false s)
                ≡ false =
              ground arith in
            rw (is_some, fresh, some_sectors, erase_aligned_range)
              (erased_range-Covers end (kernel.rt_align end sector) _ s above)
      ]

  -- An erase from the sector of its start on that succeeds, of a range that is not empty and ends a
  -- sector below 2^32, leaves the mark at the range's end or above it.
  pub erase_aligned_range-covers :
      (start end : ℕ) (s : Instance W H)
      → Aligns kernel s.old_part_sector_size
      → start < end
      → end + s.old_part_sector_size ≤ u32_mod
      → (erase_aligned_range io wdt_feed kernel start end false s).0 ≡ true
      → end ≤ (erase_aligned_range io wdt_feed kernel start end false s).1.old_part_erased_end
  erase_aligned_range-covers start end s aligns some_range small =
      range-Covers start end s aligns some_range small
