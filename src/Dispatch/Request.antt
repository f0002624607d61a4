-- ===== src/Dispatch/Request.antt =====
-- The requests that `dispatch` of c/disp.c serves, and how it reads their arguments.
use xeros_kernel.Base.{◌==◌, if◌then◌else◌, ◌^◌, add32, ◌%◌, ℕ}

-- The requests of the switch in `dispatch`, with the arguments that it reads.
pub data Request : Type 0 where
  timer_int kbd_int : Request
  sys_create : (func stack : ℕ) → Request
  sys_yield sys_stop sys_getpid : Request
  sys_puts : (str : ℕ) → Request
  sys_kill : (pid signum : ℕ) → Request
  sys_setprio : (priority : ℕ) → Request
  sys_p sys_v : (sem_no : ℕ) → Request
  sys_sleep : (milliseconds : ℕ) → Request
  sys_cputimes : (ps : ℕ) → Request
  sys_signal : (signum handler : ℕ) → Request
  sys_sigreturn : (context : ℕ) → Request
  sys_wait : (pid : ℕ) → Request
  sys_open : (device_no : ℕ) → Request
  sys_close : (fd : ℕ) → Request
  sys_write sys_read : (fd buffer bufferlen : ℕ) → Request
  sys_ioctl : (fd command ap : ℕ) → Request
  no_request : Request

-- The word at an address.
abbrev pub word : (ℕ → ℕ) → ℕ → ℕ
word w a = w a % 2 ^ 32

-- The labels of the switch, and `va_arg` on the words at `args`.
unfoldable pub decode : ℕ → (ℕ → ℕ) → ℕ → Request
decode number w args =
    let a = word w args in
    let b = word w (add32 args 4) in
    let c = word w (add32 args 8) in
    if number == 0x20
    then timer_int
    else if number == 0x21
    then kbd_int
    else if number == 0x60
    then sys_create a b
    else if number == 0x61
    then sys_yield
    else if number == 0x62
    then sys_stop
    else if number == 0x63
    then sys_getpid
    else if number == 0x64
    then sys_puts a
    else if number == 0x65
    then sys_kill a b
    else if number == 0x66
    then sys_setprio a
    else if number == 0x67
    then sys_p a
    else if number == 0x68
    then sys_v a
    else if number == 0x69
    then sys_sleep a
    else if number == 0x6A
    then sys_cputimes a
    else if number == 0x70
    then sys_signal a b
    else if number == 0x71
    then sys_sigreturn a
    else if number == 0x72
    then sys_wait a
    else if number == 0x80
    then sys_open a
    else if number == 0x81
    then sys_close a
    else if number == 0x82
    then sys_write a b c
    else if number == 0x83
    then sys_read a b c
    else if number == 0x84
    then sys_ioctl a b c
    else no_request
