-- ===== src/Tests.antt =====
-- The test programs of c/test.c, as trees of the calls that they make. A call goes on with the result
-- that the kernel leaves in the field `rc`; the functions and the buffers are given by address.
use Prim.Native.String.{String}
use xeros_kernel.Dispatch.Request.{sys_getpid, Request}
use xeros_kernel.Base.{zero, suc, List, ℕ, [], ◌∷◌}
pub mod Signals
pub mod Descriptors
pub mod Reads
pub mod Runner
pub mod Run
pub mod Table
pub mod Close
pub mod Expect
pub mod Opens

-- What `sprintf` prints: a number, or what stands in memory at an address.
pub data Arg : Type 0 where
  num : ℕ → Arg
  char_at byte_at short_at int_at string_at : ℕ → Arg

-- `say` is sprintf into `buf` with sysputs of it; `warn` is kprintf; `fill` stores bytes; `ioctl` is
-- sysioctl with the arguments after the command.
pub data Test (A : Type 0) : Type 0 where
  done : A → Test A
  say : String → List Arg → Test A → Test A
  warn : String → Test A → Test A
  fill : ℕ → List ℕ → Test A → Test A
  ask : Request → (ℕ → Test A) → Test A
  ioctl : ℕ → ℕ → List ℕ → (ℕ → Test A) → Test A

infixl 5 ◌>>=◌
abbrev pub ◌>>=◌ : {A B : Type 0} → Test A → (A → Test B) → Test B
done a >>= f = f a
say s args k >>= f = say s args (k >>= f)
warn s k >>= f = warn s (k >>= f)
fill a bs k >>= f = fill a bs (k >>= f)
ask r k >>= f = ask r (λ v. k v >>= f)
ioctl fd c args k >>= f = ioctl fd c args (λ v. k v >>= f)

abbrev pub call : Request → Test ℕ
call r = ask r done

abbrev pub print : String → List Arg → Test ℕ
print s args = say s args (done 0)

-- A loop with a body that does not read its counter.
abbrev pub repeat : ℕ → Test ℕ → Test ℕ
repeat zero body = done 0
repeat (suc n) body = body >>= λ _. repeat n body

-- The addresses of the functions of c/test.c.
pub record Functions : Type 0 where
  pub sig3_entry : ℕ
  pub sig10_entry : ℕ
  pub sig22_entry : ℕ
  pub sig23_entry : ℕ
  pub test_trigger_signal_entry : ℕ
  pub test_sleep_entry : ℕ
  pub test_wait_sleep_entry : ℕ
  pub test_wait_int_entry : ℕ
  pub test_signal_priority_entry : ℕ
  pub test_signal_handler_entry : ℕ
  pub test_sys_kill_entry : ℕ
  pub test_sys_wait_entry : ℕ
  pub test_sys_open_entry : ℕ
  pub test_sys_write_entry : ℕ
  pub test_sys_ioctl_entry : ℕ
  pub test_sys_read_entry : ℕ
  pub test_zero_device_entry : ℕ
  pub test_rand_device_entry : ℕ
  pub test_kbd_eof_entry : ℕ

-- How the tests start.
abbrev pub print_pid : Test ℕ
print_pid = do pid ← call sys_getpid; _ ← print "My pid is %d.\n" (num pid ∷ []); done pid
