-- ===== src/Patch/Refine.antt =====
-- qbt_hpatchlite_release_from_part of algorithm/qboot_hpatchlite.c delivers the image that the patcher
-- handed over, on any swap backend that keeps its contract.
use rt_thread_qboot.Base.{
  ℕ, ◌+◌, ◌≡◌, ◌≤◌, ◌⊎◌, refl, ap, sym, ◌∙◌, true, false, Option, none, some, List, [], ◌++◌,
  append_assoc, append-nil, length, take, leb, ltb, ◌==◌, if◌then◌else◌, sub32, u32_mod, arith,
  Bool-cases, inl, inr, nil_of_length,
}
use mathlib.Core.Path.{subst}
use rt_thread_qboot.Storage.{IoOps}
use rt_thread_qboot.Patch.{Swap, Instance, SwapOps, Kernel}
use rt_thread_qboot.Patch.Commit.{do_read_patch, patch_got, do_read_old, do_write_new, swap_commit}
use rt_thread_qboot.Patch.Release.{
  Patcher, finish, read_patch, read_old, write_new, PatchResult, is_success, hpi_patch,
  patch_and_commit,
}
use rt_thread_qboot.Patch.Laws.{Aligns, OldPart, SwapLaws}
use rt_thread_qboot.Patch.Collect.{Good, collected, swap_commit-Good}
use rt_thread_qboot.Patch.Write.{Between, do_write_new-Between}
use rt_thread_qboot.Patch.Handed.{GivesUp, Heeds, handed_over, GivesUp-fails}

module _ {W H : Type 0} {io : IoOps W H} {wdt_feed : W → W} {kernel : Kernel W} {ops : SwapOps W H}
    {old : H} {content : W → List ℕ} {room sector : ℕ} {Ready : Swap H → W → Type 0}
    {buffered : Swap H → W → List ℕ} (part : OldPart io wdt_feed old content room)
    (aligns : Aligns kernel sector)
    (laws : SwapLaws io wdt_feed ops old content room Ready buffered)
    (fits : room + sector ≤ u32_mod) (newer : ℕ) where
  abbrev pub Waiting : Instance W H → Type 0
  Waiting = Between part aligns laws fits newer

  abbrev pub view : Instance W H → List ℕ
  view = collected part aligns laws fits newer

  -- A read changes nothing of what was collected.
  read-Between :
      (h : H) (off len pos : ℕ) (s : Instance W H)
      → Waiting s
      → let r = record s { patch_read_pos = pos; world = (io.read h off len s.world).1 } in
        Waiting r × (view r ≡ view s)
  read-Between h off len pos s between =
      let g = between.good in
      let (ready, same) = laws.read_apart h off len s.swap s.world g.ready in
      let same_content = part.read_content h off len s.world in
      (
        record {
          good = record {
            ready = ready;
            is_old = g.is_old;
            is_sector = g.is_sector;
            is_newer = g.is_newer;
            marked = g.marked;
            inside = g.inside;
            committed_length = rw same_content g.committed_length;
          };
          has_room = between.has_room;
        },
        rw (same_content, same) refl,
      )

  patch_got-Between :
      (h : H) (off len n : ℕ) (s : Instance W H) (got : Option (List ℕ))
      → Waiting s
      → let r = (patch_got n s (got, (io.read h off len s.world).1)).1 in
        Waiting r × (view r ≡ view s)
  unfolding patch_got
  patch_got-Between h off len n s none between = read-Between h off len s.patch_read_pos s between
  patch_got-Between h off len n s (some bytes) between =
      read-Between h off len (s.patch_read_pos + n) s between

  do_read_patch-Between :
      (size : ℕ) (s : Instance W H)
      → Waiting s
      → let r = (do_read_patch io size s).1 in Waiting r × (view r ≡ view s)
  unfolding do_read_patch
  do_read_patch-Between size s between = elim (Bool-cases (leb s.patch_file_len s.patch_read_pos)) [
    | inl past ↦ rw (past, do_read_patch) (between, refl)
    | inr here ↦
        let left = sub32 s.patch_file_len s.patch_read_pos in
        let n = if ltb left size then left else size in
        elim (Bool-cases (n == 0)) [
          | inl nothing ↦ rw (here, nothing, do_read_patch) (between, refl)
          | inr something ↦
              rw (here, something, do_read_patch)
                (patch_got-Between s.patch_part (s.patch_file_offset + s.patch_read_pos) n n s _
                  between)
        ]
  ]

  do_read_old-Between :
      (addr size : ℕ) (s : Instance W H)
      → Waiting s
      → let r = (do_read_old io addr size s).1 in Waiting r × (view r ≡ view s)
  unfolding do_read_old
  do_read_old-Between addr size s between =
      read-Between s.old_part addr size s.patch_read_pos s between

  -- A run that ends with success has collected what was handed over.
  hpi_patch-Between :
      (p : Patcher) (s : Instance W H)
      → Heeds p
      → Waiting s
      → is_success (hpi_patch io wdt_feed kernel ops p s).0 ≡ true
      → let r = (hpi_patch io wdt_feed kernel ops p s).1 in
        Waiting r × (view r ≡ view s ++ handed_over io wdt_feed kernel ops p s)
  unfolding hpi_patch handed_over Heeds
  hpi_patch-Between (finish r) s heeds between ok = (between, sym (append-nil (view s)))
  hpi_patch-Between (read_patch n k) s heeds between ok =
      let (got, s') = do_read_patch io n s in
      let (between', same) = do_read_patch-Between n s between in
      let (end, all) = hpi_patch-Between (k got) s' (heeds got) between' ok in
      (end, all ∙ ap (λ xs. xs ++ handed_over io wdt_feed kernel ops (k got) s') same)
  hpi_patch-Between (read_old addr n k) s heeds between ok =
      let (got, s') = do_read_old io addr n s in
      let (between', same) = do_read_old-Between addr n s between in
      let (end, all) = hpi_patch-Between (k got) s' (heeds got) between' ok in
      (end, all ∙ ap (λ xs. xs ++ handed_over io wdt_feed kernel ops (k got) s') same)
  hpi_patch-Between (write_new bytes k) s heeds between ok =
      let r = do_write_new io wdt_feed kernel ops bytes s in
      elim (Bool-cases r.0) [
        | inr bad ↦
            let fails =
              GivesUp-fails io wdt_feed kernel ops (k r.0) r.1
                (subst (λ b. GivesUp (k b)) (sym bad) heeds.0) in
            absurd (ground (arith, fails, ok))
        | inl good ↦
            let (between', took) =
              do_write_new-Between part aligns laws fits newer bytes s between good in
            let (end, all) =
              hpi_patch-Between (k r.0) r.1 (subst (λ b. Heeds (k b)) (sym good) heeds.1) between'
                ok in
            let rest = handed_over io wdt_feed kernel ops (k r.0) r.1 in
            (end, all ∙ ap (λ xs. xs ++ rest) took ∙ append_assoc (view s) bytes rest)
      ]

  -- The old partition holds the image `bytes`, below the mark of what is erased.
  pub record Holds (bytes : List ℕ) (s : Instance W H) : Type 0 where
    pub image : take s.committed_len (content s.world) ≡ bytes
    pub size : length bytes ≡ s.committed_len
    pub marked : s.committed_len ≤ s.old_part_erased_end
    pub is_old : s.old_part ≡ old
    pub is_newer : s.newer_file_len ≡ newer

  -- A result without success, or an instance with the image.
  abbrev pub Delivered : List ℕ → PatchResult × Instance W H → Type 0
  Delivered bytes r = (is_success r.0 ≡ false) ⊎ Holds bytes r.1

  emptied-Holds :
      (bytes : List ℕ) (s : Instance W H)
      → Good part aligns laws fits newer s
      → view s ≡ bytes
      → s.swap.write_pos ≡ 0
      → Holds bytes s
  emptied-Holds bytes s good all empty =
      let nothing =
        nil_of_length (buffered s.swap s.world)
          (laws.buffered_length s.swap s.world good.ready ∙ empty) in
      let image : take s.committed_len (content s.world) ≡ bytes =
        sym (append-nil (take s.committed_len (content s.world)))
        ∙ ap (λ xs. take s.committed_len (content s.world) ++ xs) (sym nothing)
        ∙ all in
      record {
        image = image;
        size = ap length (sym image) ∙ good.committed_length;
        marked = good.marked;
        is_old = good.is_old;
        is_newer = good.is_newer;
      }

  pub patch_and_commit-Delivered :
      (p : Patcher) (s : Instance W H)
      → Heeds p
      → Waiting s
      → view s ≡ []
      → Delivered
          (handed_over io wdt_feed kernel ops p s)
          (patch_and_commit io wdt_feed kernel ops p s)
  unfolding patch_and_commit
  patch_and_commit-Delivered p s heeds between empty =
      let bytes = handed_over io wdt_feed kernel ops p s in
      let r = hpi_patch io wdt_feed kernel ops p s in
      elim (Bool-cases (is_success r.0)) [
        | inr bad ↦ rw (bad, patch_and_commit) (inl bad)
        | inl ok ↦
            let (end, took) = hpi_patch-Between p s heeds between ok in
            let all : view r.1 ≡ bytes = took ∙ ap (λ xs. xs ++ bytes) empty in
            elim (Bool-cases (ltb 0 r.1.swap.write_pos)) [
              | inr none_left ↦
                  rw (ok, none_left, patch_and_commit)
                    (inr (emptied-Holds bytes r.1 end.good all (ground (arith, none_left))))
              | inl some_left ↦ elim (Bool-cases (swap_commit io wdt_feed kernel ops r.1).0) [
                | inr bad ↦ rw (ok, some_left, bad, patch_and_commit) (inl refl)
                | inl committed ↦
                    let (good, same, drained, kept) =
                      swap_commit-Good part aligns laws fits newer r.1 end.good committed in
                    rw (ok, some_left, committed, patch_and_commit)
                      (inr (emptied-Holds bytes _ good (same ∙ all) drained))
              ]
            ]
      ]
