-- ===== src/Dispatch/Sigreturn.antt =====
-- SYS_SIGRETURN of `dispatch` in c/disp.c, with the signals that were ignored meanwhile.
use mathlib.Core.Path.{ap₂}
use xeros_kernel.Signals.Frame.{sigreturn-deliver}
use xeros_kernel.Dispatch.{serve_sigreturn}
use xeros_kernel.Interrupt.{signal}
use xeros_kernel.Dispatch.Request.{sys_sigreturn}
use xeros_kernel.Dispatch.Serve.{serve}
use xeros_kernel.Signals.Bits.{mask_from}
use xeros_kernel.Signals.{sigreturn, Machine, getsig, deliver, sig_table_size, sigframe_size}
use xeros_kernel.System.{with_kernel, System, Env}
use xeros_kernel.Process.{Kernel, Ptr, Pcb}
use xeros_kernel.Base.{
  ap, ◌∙◌, ==_self, refl, none, some, ◌==◌, if◌then◌else◌, ◌^◌, ◌<◌, ◌≤◌, Option, ◌≡◌, ℕ,
}

-- The fields of the process that a signal changes and SYS_SIGRETURN restores.
pub record IsRestored (c d : Pcb) : Type 0 where
  pub esp_of : d.esp ≡ c.esp
  pub mask_of : d.sig_mask ≡ c.sig_mask
  pub rc_of : d.rc ≡ c.rc

-- The same process goes on after a signal was sent.
abbrev pub sent : Ptr → System → Option (ℕ × Kernel) → Option (Ptr × System)
sent p s none = none
sent p s (some r) = some (p, with_kernel s r.1)

sent_lem :
    (p : Ptr) (s : System) (o : Option (ℕ × Kernel))
    → (elim o [ none ↦ none | some (_, k) ↦ some (p, with_kernel s k) ]) ≡ sent p s o
sent_lem p s none = refl
sent_lem p s (some r) = refl

module _ (m : Machine) (p : Ptr) (g a : ℕ) (k : Kernel) where
  -- The kernel back at the stack pointer a.
  abbrev back : Kernel
  back = sigreturn p a (deliver m p g k)

  same_ignored : (back.pcbs p).sig_ignored ≡ ((deliver m p g k).pcbs p).sig_ignored
  unfolding sigreturn
  same_ignored = rw (==_self p) refl

  same_pid : (back.pcbs p).pid ≡ (k.pcbs p).pid
  unfolding sigreturn deliver
  same_pid = rw (==_self p) refl

-- If the mask is one that `signal` makes and lets signal g through, and the stack has room for the
-- frame, then after the delivery of g the mask lets through the signals from g on, and
-- SYS_SIGRETURN from the stack pointer of the delivery first gives back the stack pointer, the
-- mask and the return value, in a kernel k. If no signal of the process is marked as ignored then,
-- the process goes on in k; if one is, `signal` sends it the highest of these in k, and the
-- process goes on in what that leaves.
pub serve-back :
    (e : Env) (f : ℕ) (key : Option ℕ) (p : Ptr) (g low : ℕ) (s : System)
    → sigframe_size ≤ (s.kernel.pcbs p).esp
    → (s.kernel.pcbs p).esp < 2 ^ 32
    → (s.kernel.pcbs p).sig_mask ≡ mask_from low
    → low ≤ g
    → g < sig_table_size
    → let c = s.kernel.pcbs p in
      let handling = with_kernel s (deliver e.machine p g s.kernel) in
      let ignored = (handling.kernel.pcbs p).sig_ignored in
      (k : Kernel) × ((handling.kernel.pcbs p).sig_mask ≡ mask_from g)
      × IsRestored c (k.pcbs p)
      × (serve e f key p handling (sys_sigreturn c.esp) ≡ (
          if ignored == 0
          then some (p, with_kernel s k)
          else sent p s (signal e.machine f c.pid (getsig ignored) k)))
unfolding serve serve_sigreturn
serve-back e f key p g low s room range mask le h =
    let m = e.machine in
    let c = s.kernel.pcbs p in
    let ignored = ((deliver m p g s.kernel).pcbs p).sig_ignored in
    let k = sigreturn p c.esp (deliver m p g s.kernel) in
    let (raised, esp, mask', rc) = sigreturn-deliver m p g low s.kernel room range mask le h in
    (
      k,
      raised,
      record { esp_of = esp; mask_of = mask'; rc_of = rc },
      ap₂
            (λ i q. if i == 0 then some (p, with_kernel s k) else elim (signal m f q (getsig i) k) [
              | none ↦ none
              | some (_, k') ↦ some (p, with_kernel s k')
            ])
            (same_ignored m p g c.esp s.kernel) (same_pid m p g c.esp s.kernel)
          ∙ ap (λ r. if ignored == 0 then some (p, with_kernel s k) else r)
              (sent_lem p s (signal m f c.pid (getsig ignored) k)),
    )
