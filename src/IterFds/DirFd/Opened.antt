-- ===== src/IterFds/DirFd/Opened.antt =====
-- `DirFdIter::open` of src/iterfds/dirfd.rs, where the directory of descriptors keeps its promises.
use Prim.Native.String.{String}
use close_fds.Base.{
  true≢false, ◌≤ℤ◌, ◌>>◌, Bool, ◌⊎◌, negsuc, leb_ℤ, eqb_ℤ, eqb_ℤ-iff, not, ◌&&◌, some, ℕ, ◌≡◌, refl,
  sym, ◌∙◌, ap, inl, inr, true, false, if◌then◌else◌, ◌==◌, arith, ℤ, pos, ltb_ℤ, pure, ◌>>=◌,
  Returns, Returns-bind, Bool-cases,
}
use close_fds.Target.{
  Target, linux, macos, ios, freebsd, netbsd, openbsd, dragonfly, solaris, illumos, other_unix,
  is_freebsd,
}
use close_fds.Kernel.{Kernel}
use close_fds.Kernel.Laws.{IsTable}
use close_fds.Process.{Process, sys_result, sys_call}
use close_fds.Sys.{is_wsl_1}
use close_fds.IterFds.DirFd.{open_dirfd, is_fdescfs}
use close_fds.IterFds.DirFd.Laws.{IsDirectory, IsFdPath, Static, Opening, Opens}

module _ (K : Kernel) (T : IsTable K) (entries : ℕ) (D : IsDirectory K entries) where
  is_wsl_1-unchanged : (p : Process K) → Returns (is_wsl_1 K p) (λ _ q. q.world ≡ p.world)
  unfolding is_wsl_1
  is_wsl_1-unchanged p = elim (Bool-cases (p.is_wsl1 == 1)) [
    | inl cached ↦ rw cached refl
    | inr unset ↦ rw unset (elim (Bool-cases (p.is_wsl1 == 0)) [
      | inl known ↦ rw known refl
      | inr unknown ↦ rw unknown refl
    ])
  ]

  -- A second try, after a first one that failed.
  again :
      (w v : K.World) (d' : ℤ) (u : K.World)
      → ((j : ℤ) → K.getfd j v ≡ K.getfd j w)
      → Opening K entries D v d' u
      → Opening K entries D w d' u
  again w v d' u same (inl (failed, none_opened)) = inl (failed, λ j. none_opened j ∙ same j)
  again w v d' u same (inr (low, high, free, others, lists, cursor, left)) =
      inr (low, high, sym (same d') ∙ free, λ j ne. others j ne ∙ same j, lists, cursor, left)

  -- On the other systems than FreeBSD the path is that of such a directory.
  listing :
      (target : Target) (path : String) (directory : Bool) (w : K.World)
      → is_freebsd target ≡ false
      → IsFdPath K target path
      → Opens K target entries D
      → let (d, v) = K.open_path path directory w in Opening K entries D w d v
  unfolding is_freebsd
  listing target path directory w other is_path opens =
      from target (K.open_path path directory w) other (opens path directory w is_path)
    where
      from :
          (t : Target) (a : ℤ × K.World)
          → is_freebsd t ≡ false
          → Opening K entries D w a.0 a.1
            ⊎ (Static K t a.0 a.1
                × (pos 0 ≤ℤ a.0)
                × (K.getfd a.0 w ≡ negsuc 0)
                × ((j : ℤ) → eqb_ℤ a.0 j ≡ false → K.getfd j a.1 ≡ K.getfd j w))
          → Opening K entries D w a.0 a.1
      from t a o (inl opening) = opening
      from freebsd a o (inr h) = cc
      from linux a o (inr h) = absurd h.0
      from netbsd a o (inr h) = absurd h.0
      from macos a o (inr h) = absurd h.0
      from ios a o (inr h) = absurd h.0
      from openbsd a o (inr h) = absurd h.0
      from dragonfly a o (inr h) = absurd h.0
      from solaris a o (inr h) = absurd h.0
      from illumos a o (inr h) = absurd h.0
      from other_unix a o (inr h) = absurd h.0

  -- What Solaris and illumos do.
  either_path :
      (p : Process K)
      → (first : Opening K entries D p.world
          (K.open_path "/dev/fd" false p.world).0
          (K.open_path "/dev/fd" false p.world).1)
      → ((v : K.World)
          → let (d, u) = K.open_path "/proc/self/fd" false v in Opening K entries D v d u)
      → Returns
          ((sys_result (K.open_path "/dev/fd" false) >>= λ fd.
              if ltb_ℤ fd (pos 0) then sys_result (K.open_path "/proc/self/fd" false) else pure fd)
            p)
          (λ d q. Opening K entries D p.world d q.world)
  either_path p first second = elim (Bool-cases (ltb_ℤ tried.0 (pos 0))) [
    | inr opened ↦ rw opened first
    | inl failed ↦ rw failed (elim first [
      | inl (lt, same) ↦
          let (d, u) = K.open_path "/proc/self/fd" false tried.1 in
          again p.world tried.1 d u same (second tried.1)
      | inr (low, high, free, others, lists, cursor, left) ↦ absurd (ground arith)
    ])
  ]
    where
      tried : ℤ × K.World
      tried = K.open_path "/dev/fd" false p.world

  -- A descriptor that is closed again.
  closed_again :
      (d : ℤ) (w v : K.World)
      → K.getfd d w ≡ negsuc 0
      → ((j : ℤ) → eqb_ℤ d j ≡ false → K.getfd j v ≡ K.getfd j w)
      → (j : ℤ) → K.getfd j (K.close d v) ≡ K.getfd j w
  closed_again d w v free others j = elim (Bool-cases (eqb_ℤ d j)) [
    | inl same ↦
        let here : K.getfd j w ≡ negsuc 0 =
          sym (ap (λ k. K.getfd k w) ((eqb_ℤ-iff d j).0 same)) ∙ free in
        ground (arith, T.getfd-close d j v)
    | inr other ↦ ground (arith, T.getfd-close d j v, others j other)
  ]

  static_fdescfs :
      (dev : ℕ) (d : ℤ) (w : K.World)
      → K.stat_dev "/dev" w ≡ some dev
      → K.fstat_dev d w ≡ some dev
      → is_fdescfs freebsd K d w ≡ false
  unfolding is_fdescfs
  static_fdescfs dev d w device same_device = rw (is_fdescfs, device, same_device) (ground arith)

  -- What FreeBSD does: a directory that is not known to list the descriptors is closed.
  kept_if :
      (trusted : Bool) (d : ℤ) (w : K.World) (q : Process K)
      → pos 0 ≤ℤ d
      → K.getfd d w ≡ negsuc 0
      → ((j : ℤ) → eqb_ℤ d j ≡ false → K.getfd j q.world ≡ K.getfd j w)
      → (trusted ≡ true → Opening K entries D w d q.world)
      → Returns
          ((if leb_ℤ (pos 0) d && not trusted
              then sys_call (K.close d) >> pure (negsuc 0)
              else pure d)
            q)
          (λ d' u. Opening K entries D w d' u.world)
  kept_if trusted d w q low free others opening = elim (Bool-cases trusted) [
    | inl yes_listed ↦
        let stays : leb_ℤ (pos 0) d && not trusted ≡ false = ground arith in
        rw stays (opening yes_listed)
    | inr doubtful ↦
        let goes : leb_ℤ (pos 0) d && not trusted ≡ true = ground arith in
        rw goes (inl (omega arith, closed_again d w q.world free others))
  ]

  trusted_path :
      (p : Process K)
      → Opens K freebsd entries D
      → Returns (open_dirfd freebsd K freebsd p) (λ d q. Opening K entries D p.world d q.world)
  unfolding open_dirfd
  trusted_path p opens = elim (opens "/dev/fd" true p.world refl) [
    | inl (inl (failed, same)) ↦
        let negative : leb_ℤ (pos 0) tried.0 ≡ false = ground arith in
        rw negative (inl (failed, same))
    | inl (inr (low, high, free, others, lists, cursor, left)) ↦
        kept_if (is_fdescfs freebsd K tried.0 tried.1) tried.0 p.world
          (record p { world = tried.1 }) low free others
          (λ trusted. inr (low, high, free, others, lists, cursor, left))
    | inr ((dev, device, same_device), low, free, others) ↦
        kept_if (is_fdescfs freebsd K tried.0 tried.1) tried.0 p.world
          (record p { world = tried.1 }) low free others
          (λ trusted.
            absurd
              (true≢false (sym trusted ∙ static_fdescfs dev tried.0 tried.1 device same_device)))
  ]
    where
      tried : ℤ × K.World
      tried = K.open_path "/dev/fd" true p.world

  -- Where the directory keeps its promises it is opened, or nothing is.
  pub open_dirfd-Opening :
      (target : Target) (p : Process K)
      → Opens K target entries D
      → Returns (open_dirfd target K target p) (λ d q. Opening K entries D p.world d q.world)
  unfolding open_dirfd is_freebsd
  open_dirfd-Opening linux p opens =
      Returns-bind _ _ (is_wsl_1 K p) _ (is_wsl_1-unchanged p) (λ wsl_1 q same.
        elim (Bool-cases wsl_1) [
          | inl wsl ↦ rw wsl (inl (omega arith, λ j. ap (K.getfd j) same))
          | inr other ↦
              let (d, u) = K.open_path "/proc/self/fd" true q.world in
              rw other (
                again p.world q.world d u (λ j. ap (K.getfd j) same)
                  (listing linux "/proc/self/fd" true q.world refl refl opens))
        ])
  open_dirfd-Opening freebsd p opens = trusted_path p opens
  open_dirfd-Opening netbsd p opens = listing netbsd "/proc/self/fd" true p.world refl refl opens
  open_dirfd-Opening macos p opens = listing macos "/dev/fd" true p.world refl refl opens
  open_dirfd-Opening ios p opens = listing ios "/dev/fd" true p.world refl refl opens
  open_dirfd-Opening solaris p opens =
      either_path p (listing solaris "/dev/fd" false p.world refl (inl refl) opens)
        (λ v. listing solaris "/proc/self/fd" false v refl (inr refl) opens)
  open_dirfd-Opening illumos p opens =
      either_path p (listing illumos "/dev/fd" false p.world refl (inl refl) opens)
        (λ v. listing illumos "/proc/self/fd" false v refl (inr refl) opens)
  open_dirfd-Opening openbsd p opens = inl (omega arith, λ j. refl)
  open_dirfd-Opening dragonfly p opens = inl (omega arith, λ j. refl)
  open_dirfd-Opening other_unix p opens = inl (omega arith, λ j. refl)
