-- ===== src/Dispatch/Decode.antt =====
-- The calls of c/syscall.c as the dispatcher reads them.
use mathlib.Core.Path.{ap₂}
use xeros_kernel.Dispatch.Request.{word, sys_stop, sys_getpid, sys_ioctl, no_request}
use xeros_kernel.Syscalls.{
  syscall, sysioctl, sysread, syswrite, sysclose, sysopen, syswait, syssigreturn, syssignal,
  sysgetcputimes, syssleep, sysv, sysp, syssetprio, syskill, sysputs, sysgetpid, sysstop, sysyield,
  syscreate, Call,
}
use xeros_kernel.Dispatch.Request.{
  sys_stop, sys_yield, kbd_int, timer_int, sys_ioctl, sys_read, sys_close, sys_open, sys_wait,
  sys_sigreturn, sys_signal, sys_cputimes, sys_sleep, sys_v, sys_p, sys_setprio, sys_puts,
  sys_write, sys_create, sys_kill, decode, Request,
}
use xeros_kernel.Base.{◌∙◌, refl, ap, arith, ◌≡◌, add32, List, ℕ, [], ◌∷◌}

-- The words from address a on are those of xs.
abbrev pub ArePassed : (ℕ → ℕ) → ℕ → List ℕ → Type 0
ArePassed w a [] = Unit {0}
ArePassed w a (x ∷ xs) = (word w a ≡ x) × ArePassed w (add32 a 4) xs

-- The call that asks for a request; an interrupt has a number and passes nothing.
abbrev pub call_for : Request → Call
call_for timer_int = syscall 0x20 []
call_for kbd_int = syscall 0x21 []
call_for (sys_create func stack) = syscreate func stack
call_for sys_yield = sysyield
call_for sys_stop = sysstop
call_for sys_getpid = sysgetpid
call_for (sys_puts str) = sysputs str
call_for (sys_kill pid signum) = syskill pid signum
call_for (sys_setprio priority) = syssetprio priority
call_for (sys_p n) = sysp n
call_for (sys_v n) = sysv n
call_for (sys_sleep ms) = syssleep ms
call_for (sys_cputimes ps) = sysgetcputimes ps
call_for (sys_signal signum handler) = syssignal signum handler
call_for (sys_sigreturn a) = syssigreturn a
call_for (sys_wait pid) = syswait pid
call_for (sys_open n) = sysopen n
call_for (sys_close fd) = sysclose fd
call_for (sys_write fd a n) = syswrite fd a n
call_for (sys_read fd a n) = sysread fd a n
call_for (sys_ioctl fd command ap) = sysioctl fd command ap
call_for no_request = syscall 0 []

third : (w : ℕ → ℕ) (a x : ℕ) → word w (add32 (add32 a 4) 4) ≡ x → word w (add32 a 8) ≡ x
third w a x e = ap (word w) (omega arith) ∙ e

-- If the words at `args` are those that the stub of a call pushes, the number of the call and
-- these words decode to the request that the call asks for, for every request.
pub decode-call :
    (r : Request) (w : ℕ → ℕ) (a : ℕ)
    → ArePassed w a (call_for r).args
    → decode (call_for r).number w a ≡ r
unfolding decode
decode-call timer_int w a p = refl
decode-call kbd_int w a p = refl
decode-call (sys_create x y) w a p = ap₂ sys_create p.0 p.1.0
decode-call sys_yield w a p = refl
decode-call sys_stop w a p = refl
decode-call sys_getpid w a p = refl
decode-call (sys_puts x) w a p = ap sys_puts p.0
decode-call (sys_kill x y) w a p = ap₂ sys_kill p.0 p.1.0
decode-call (sys_setprio x) w a p = ap sys_setprio p.0
decode-call (sys_p x) w a p = ap sys_p p.0
decode-call (sys_v x) w a p = ap sys_v p.0
decode-call (sys_sleep x) w a p = ap sys_sleep p.0
decode-call (sys_cputimes x) w a p = ap sys_cputimes p.0
decode-call (sys_signal x y) w a p = ap₂ sys_signal p.0 p.1.0
decode-call (sys_sigreturn x) w a p = ap sys_sigreturn p.0
decode-call (sys_wait x) w a p = ap sys_wait p.0
decode-call (sys_open x) w a p = ap sys_open p.0
decode-call (sys_close x) w a p = ap sys_close p.0
decode-call (sys_write x y z) w a p = rw (p.0, p.1.0, third w a z p.1.1.0) refl
decode-call (sys_read x y z) w a p = rw (p.0, p.1.0, third w a z p.1.1.0) refl
decode-call (sys_ioctl x y z) w a p = rw (p.0, p.1.0, third w a z p.1.1.0) refl
decode-call no_request w a p = refl
