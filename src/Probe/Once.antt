-- ===== src/Probe/Once.antt =====
-- `probe_features` of src/lib.rs does its work once.
use close_fds.Base.{
  ◌≡◌, refl, true, false, arith, some, Returns, Returns-bind, Returns-mono, ◌>>◌, ◌∙◌, Bool-cases,
  inl, inr, ◌||◌,
}
use mathlib.Core.Path.{subst, sym}
use close_fds.Target.{Target, is_linux, is_freebsd}
use close_fds.Kernel.{Kernel}
use close_fds.Process.{Process}
use close_fds.IterFds.Builder as FdIters
use close_fds.CloseFds.Builder as Closing
use close_fds.CloseFds.Close
use close_fds.CloseFds.CloExec
use close_fds.Probe.{probe_features}

-- The three probes leave the flag `PROBED` as it is.
module _ (target : Target) (K : Kernel) (p : Process K) where
  close_probe-Keeps : Returns (Close.probe target K p) (λ _ q. q.probed ≡ p.probed)
  unfolding Close.probe
  close_probe-Keeps = ground arith

  cloexec_probe-Keeps : Returns (CloExec.probe target K p) (λ _ q. q.probed ≡ p.probed)
  unfolding CloExec.probe
  cloexec_probe-Keeps = ground arith

  iter_probe-Keeps : Returns (FdIters.probe target K p) (λ _ q. q.probed ≡ p.probed)
  unfolding FdIters.probe
  iter_probe-Keeps = ground arith

module _ (target : Target) (K : Kernel) where
  probes-Keeps :
      (p : Process K)
      → Returns ((Closing.probe target K >> FdIters.probe target K) p) (λ _ q. q.probed ≡ p.probed)
  unfolding Closing.probe
  probes-Keeps p =
      Returns-bind (λ _ q. q.probed ≡ p.probed) _ (Closing.probe target K p)
        (λ _. FdIters.probe target K)
        (Returns-bind _ _ (Close.probe target K p) _ (close_probe-Keeps target K p) (λ _ q e.
          Returns-mono _ _ (CloExec.probe target K q) (cloexec_probe-Keeps target K q)
            (λ _ r f. f ∙ e)))
        (λ _ q e.
          Returns-mono _ _ (FdIters.probe target K q) (iter_probe-Keeps target K q)
            (λ _ r f. f ∙ e))

  idle :
      (p : Process K)
      → is_linux target || is_freebsd target ≡ false
      → probe_features target K p ≡ some (tt, p)
  unfolding probe_features
  idle p e = rw e refl

  stopped : (p : Process K) → p.probed ≡ true → probe_features target K p ≡ some (tt, p)
  unfolding probe_features
  stopped p h = elim (Bool-cases (is_linux target || is_freebsd target)) [
    | inl e ↦ rw (e, h) refl
    | inr e ↦ rw e refl
  ]

  flagged :
      (p : Process K)
      → is_linux target || is_freebsd target ≡ true
      → Returns (probe_features target K p) (λ _ q. q.probed ≡ true)
  unfolding probe_features
  flagged p e = elim (Bool-cases p.probed) [
    | inl h ↦ rw (e, h) refl
    | inr h ↦ rw (e, h) (probes-Keeps (record p { probed = true }))
  ]

  -- A call of `probe_features` after the first changes nothing, whatever the system.
  pub probe_features-once :
      (p : Process K)
      → Returns (probe_features target K p) (λ _ q. probe_features target K q ≡ some (tt, q))
  probe_features-once p = elim (Bool-cases (is_linux target || is_freebsd target)) [
    | inr e ↦
        subst (λ o. Returns o (λ _ q. probe_features target K q ≡ some (tt, q))) (sym (idle p e))
          (idle p e)
    | inl e ↦ Returns-mono _ _ (probe_features target K p) (flagged p e) (λ _ q f. stopped q f)
  ]
