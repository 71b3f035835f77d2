-- ===== src/Sys/Cached.antt =====
-- The answer of `is_wsl_1` (src/util.rs) is kept in a static.
use close_fds.Base.{
  ◌≡◌, ◌≢◌, refl, Bool, true, false, some, if◌then◌else◌, ◌==◌, arith, Returns, Bool-cases, inl,
  inr,
}
use close_fds.Kernel.{Kernel}
use close_fds.Process.{Process}
use close_fds.Sys.{is_wsl_1, is_wsl_1_release}

module _ (K : Kernel) where
  remembered :
      (answer : Bool) (p : Process K)
      → p.is_wsl1 ≡ (if answer then 1 else 0)
      → is_wsl_1 K p ≡ some (answer, p)
  unfolding is_wsl_1
  remembered true p e = rw e refl
  remembered false p e = rw e refl

  -- `is_wsl_1` ends and leaves the kernel as it was. If it was not called before, it answers by the release
  -- name, and a second call gives the same answer whatever the kernel then says, and changes nothing.
  pub is_wsl_1-remembers :
      (p : Process K)
      → Returns (is_wsl_1 K p) (λ answer q.
        (q.world ≡ p.world)
        × (p.is_wsl1 ≢ 0 → p.is_wsl1 ≢ 1 → answer ≡ is_wsl_1_release (K.uname_release p.world))
        × ((w : K.World)
            → is_wsl_1 K (record q { world = w }) ≡ some (answer, record q { world = w })))
  unfolding is_wsl_1
  is_wsl_1-remembers p = elim (Bool-cases (p.is_wsl1 == 1)) [
    | inl cached ↦
        let one : p.is_wsl1 ≡ 1 = ground arith in
        rw cached
          (refl, λ zero one'. absurd (one' one), λ w. remembered true (record p { world = w }) one)
    | inr unset ↦ rw unset (elim (Bool-cases (p.is_wsl1 == 0)) [
      | inl cached ↦
          let zero_now : p.is_wsl1 ≡ 0 = ground arith in
          rw cached (
            refl,
            λ zero one. absurd (zero zero_now),
            λ w. remembered false (record p { world = w }) zero_now,
          )
      | inr unknown ↦ rw unknown (
        refl,
        λ zero one. refl,
        λ w.
            remembered (is_wsl_1_release (K.uname_release p.world))
              (record p {
                world = w;
                is_wsl1 = if is_wsl_1_release (K.uname_release p.world) then 1 else 0;
              })
              refl,
      )
    ])
  ]
