-- ===== src/Sys/Tests/Passing.antt =====
-- About the tests of src/util.rs that call the kernel, in Sys.Tests.
use Prim.Native.Nat.{bit_and, bit_or}
use close_fds.Base.{
  ◌&&◌, ◌≡◌, refl, true, false, not, some, ◌==◌, arith, ℤ, pos, negsuc, pos_part, ◌≤ℤ◌, leb_ℤ,
  eqb_ℤ, eqb_ℤ-iff, int_max, Action, ◌>>=◌, ◌>>◌, Returns, Returns-bind, ◌∙◌, Bool-cases, inl, inr,
  ap, sym,
}
use close_fds.Kernel.{Kernel}
use close_fds.Kernel.Laws.{IsTable}
use close_fds.Kernel.Flags.{IsFlagTable, bit_and-one, bit_or-odd}
use close_fds.Kernel.Opening.{SameTable, IsOpened, IsOpening}
use close_fds.Process.{Process, sys_read, check_that, check_that-true}
use close_fds.Sys.{is_fd_valid, set_cloexec}
use close_fds.Sys.Tests.{with_fd, test_is_fd_valid, is_cloexec, test_set_cloexec}

module _ (K : Kernel) (T : IsTable K) (open_root : K.World → ℤ × K.World)
    (O : IsOpening K open_root) where
  -- A closure that touches no other descriptor than the one given to it.
  with_fd-SameTable :
      (f : ℤ → Action (Process K) (Unit {0})) (p : Process K)
      → O.Room 1 p.world
      → ((fd : ℤ) (q : Process K)
          → IsOpened K p.world (fd, q.world)
          → Returns
              (f fd q)
              (λ _ r. (j : ℤ) → eqb_ℤ fd j ≡ false → K.getfd j r.world ≡ K.getfd j q.world))
      → Returns (with_fd K open_root f p) (λ _ q. SameTable K p.world q.world)
  unfolding with_fd
  with_fd-SameTable f p room inner =
      let (opened, _) = O.open_lem 0 p.world room in
      let fd = (open_root p.world).0 in
      let q : Process K = record p { world = (open_root p.world).1 } in
      rw (check_that-true (leb_ℤ (pos 0) fd) q (ground (arith, opened.0))) (
        Returns-bind _ _ (f fd q) _ (inner fd q opened) (λ _ r same j int.
          elim (Bool-cases (eqb_ℤ fd j)) [
            | inl at ↦
                let closed : K.getfd j (K.close fd r.world) ≡ negsuc 0 =
                  ground (arith, T.getfd-close fd j r.world) in
                closed ∙ sym (ap (λ i. K.getfd i p.world) (sym ((eqb_ℤ-iff fd j).0 at)) ∙ opened.1)
            | inr other ↦
                let kept : K.getfd j (K.close fd r.world) ≡ K.getfd j r.world =
                  ground (arith, T.getfd-close fd j r.world) in
                kept ∙ same j other ∙ opened.4 j other
          ]))

  -- For an open standard input, and a largest `c_int` that is no descriptor, `test_is_fd_valid` ends and
  -- no assertion fails, and every descriptor is as before.
  pub test_is_fd_valid-SameTable :
      (p : Process K)
      → O.Room 1 p.world
      → pos 0 ≤ℤ K.getfd (pos 0) p.world
      → K.getfd int_max p.world ≡ negsuc 0
      → Returns (test_is_fd_valid K open_root p) (λ _ q. SameTable K p.world q.world)
  unfolding test_is_fd_valid is_fd_valid
  test_is_fd_valid-SameTable p room live largest =
      rw
        (
          check_that-true (not (leb_ℤ (pos 0) (K.getfd (negsuc 0) p.world))) p
              (ground (arith, T.getfd-neg (negsuc 0) p.world)),
          check_that-true (not (leb_ℤ (pos 0) (K.getfd int_max p.world))) p
              (ground (arith, largest)),
          check_that-true (leb_ℤ (pos 0) (K.getfd (pos 0) p.world)) p (ground arith),
        )
        (with_fd-SameTable (λ fd. sys_read (is_fd_valid K fd) >>= check_that) p room
          (λ fd q opened.
            rw (check_that-true (leb_ℤ (pos 0) (K.getfd fd q.world)) q (ground (arith, opened.2)))
              (λ j other. refl)))

  set_cloexec_closed :
      (fd : ℤ) (p : Process K) → K.getfd fd p.world ≡ negsuc 0 → set_cloexec K fd p ≡ some (tt, p)
  unfolding set_cloexec
  set_cloexec_closed fd p closed = rw closed refl

  -- What `test_set_cloexec` does with the file.
  abbrev mark_file : ℤ → Action (Process K) (Unit {0})
  mark_file fd = do
    before ← is_cloexec K fd
    check_that (not before)
    set_cloexec K fd
    after ← is_cloexec K fd
    check_that after

  set_cloexec_unmarked :
      (fd : ℤ) (p : Process K)
      → pos 0 ≤ℤ K.getfd fd p.world
      → bit_and (pos_part (K.getfd fd p.world)) 1 ≡ 0
      → set_cloexec K fd p
        ≡ some (
          tt,
          record p { world = K.setfd fd (pos (bit_or (pos_part (K.getfd fd p.world)) 1)) p.world },
        )
  unfolding set_cloexec
  set_cloexec_unmarked fd p live unmarked =
      let flags = K.getfd fd p.world in
      let marks : leb_ℤ (pos 0) flags && not (bit_and (pos_part flags) 1 == 1) ≡ true =
        ground (arith, live, unmarked) in
      rw marks refl

  is_cloexec_open :
      (fd : ℤ) (p : Process K)
      → pos 0 ≤ℤ K.getfd fd p.world
      → is_cloexec K fd p ≡ some (bit_and (pos_part (K.getfd fd p.world)) 1 == 1, p)
  unfolding is_cloexec
  is_cloexec_open fd p live =
      rw (check_that-true (leb_ℤ (pos 0) (K.getfd fd p.world)) p (ground (arith, live))) refl

  mark_file-marks :
      (F : IsFlagTable K) (fd : ℤ) (p : Process K)
      → pos 0 ≤ℤ K.getfd fd p.world
      → bit_and (pos_part (K.getfd fd p.world)) 1 ≡ 0
      → Returns
          (mark_file fd p)
          (λ _ r. (j : ℤ) → eqb_ℤ fd j ≡ false → K.getfd j r.world ≡ K.getfd j p.world)
  mark_file-marks F fd p live unmarked =
      let n = pos_part (K.getfd fd p.world) in
      let q : Process K = record p { world = K.setfd fd (pos (bit_or n 1)) p.world } in
      let flags : K.getfd fd q.world ≡ pos (bit_or n 1) =
        ground (arith, F.getfd-setfd fd fd p.world live) in
      rw
        (
          is_cloexec_open fd p live,
          check_that-true (not (bit_and n 1 == 1)) p (ground arith),
          set_cloexec_unmarked fd p live unmarked,
          is_cloexec_open fd q (ground (arith, flags)),
          check_that-true (bit_and (pos_part (K.getfd fd q.world)) 1 == 1) q
              (ground (arith, flags, bit_and-one (bit_or n 1), bit_or-odd n)),
        )
        (λ j other. ground (arith, other, F.getfd-setfd fd j p.world live))

  -- For an open standard input, and a largest `c_int` that is no descriptor, `test_set_cloexec` ends
  -- and no assertion fails, and every descriptor is as before.
  pub test_set_cloexec-SameTable :
      (F : IsFlagTable K) (p : Process K)
      → O.Room 1 p.world
      → K.getfd int_max p.world ≡ negsuc 0
      → Returns (test_set_cloexec K open_root p) (λ _ q. SameTable K p.world q.world)
  unfolding test_set_cloexec
  test_set_cloexec-SameTable F p room largest =
      rw
        (
          set_cloexec_closed (negsuc 0) p (T.getfd-neg (negsuc 0) p.world (omega arith)),
          set_cloexec_closed int_max p largest,
        )
        (with_fd-SameTable mark_file p room
          (λ fd q opened. mark_file-marks F fd q opened.2 opened.3))
