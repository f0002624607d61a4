-- ===== src/Syscalls.antt =====
-- c/syscall.c: the calls that a process makes. `syscall` leaves the number of the call in eax, and
-- in edx the address of the words that follow it on the stack, one for each argument.
use xeros_kernel.Base.{List, ℕ, [], ◌∷◌}

pub record Call : Type 0 where
  pub number : ℕ
  pub args : List ℕ

abbrev pub syscall : ℕ → List ℕ → Call
syscall number args = record { number = number; args = args }

abbrev pub syscreate : ℕ → ℕ → Call
syscreate func stack = syscall 0x60 (func ∷ stack ∷ [])

abbrev pub sysyield : Call
sysyield = syscall 0x61 []

abbrev pub sysstop : Call
sysstop = syscall 0x62 []

abbrev pub sysgetpid : Call
sysgetpid = syscall 0x63 []

abbrev pub sysputs : ℕ → Call
sysputs str = syscall 0x64 (str ∷ [])

abbrev pub syskill : ℕ → ℕ → Call
syskill pid signal_number = syscall 0x65 (pid ∷ signal_number ∷ [])

abbrev pub syssetprio : ℕ → Call
syssetprio priority = syscall 0x66 (priority ∷ [])

-- `sysP` and `sysV`.
abbrev pub sysp : ℕ → Call
sysp sem_no = syscall 0x67 (sem_no ∷ [])

abbrev pub sysv : ℕ → Call
sysv sem_no = syscall 0x68 (sem_no ∷ [])

abbrev pub syssleep : ℕ → Call
syssleep milliseconds = syscall 0x69 (milliseconds ∷ [])

abbrev pub sysgetcputimes : ℕ → Call
sysgetcputimes ps = syscall 0x6A (ps ∷ [])

abbrev pub syssignal : ℕ → ℕ → Call
syssignal signum handler = syscall 0x70 (signum ∷ handler ∷ [])

abbrev pub syssigreturn : ℕ → Call
syssigreturn context = syscall 0x71 (context ∷ [])

abbrev pub syswait : ℕ → Call
syswait pid = syscall 0x72 (pid ∷ [])

abbrev pub sysopen : ℕ → Call
sysopen device_no = syscall 0x80 (device_no ∷ [])

abbrev pub sysclose : ℕ → Call
sysclose fd = syscall 0x81 (fd ∷ [])

abbrev pub syswrite : ℕ → ℕ → ℕ → Call
syswrite fd buff bufflen = syscall 0x82 (fd ∷ buff ∷ bufflen ∷ [])

abbrev pub sysread : ℕ → ℕ → ℕ → Call
sysread fd buff bufflen = syscall 0x83 (fd ∷ buff ∷ bufflen ∷ [])

-- `sysioctl`, whose further arguments lie at `ap`.
abbrev pub sysioctl : ℕ → ℕ → ℕ → Call
sysioctl fd command ap = syscall 0x84 (fd ∷ command ∷ ap ∷ [])

-- `sigtramp` of c/signal.c: the address of the handler it runs, and the call that it makes then.
abbrev pub sigtramp : ℕ → ℕ → ℕ × Call
sigtramp handler context = (handler, syssigreturn context)
