-- ===== src/Tests/Runner.antt =====
-- `run_test` of c/test.c: the test that the shell has asked for by its name.
use xeros_kernel.Shell.Program.{codes}
use xeros_kernel.Shell.Tokenizer.{Text}
use xeros_kernel.Shell.Command.{same_str}
use xeros_kernel.Tests.{◌>>=◌, done, warn, call, Test, Functions}
use xeros_kernel.Dispatch.Request.{sys_create, sys_wait}
use xeros_kernel.Dispatch.Serve.{stack_size}
use xeros_kernel.Base.{some, if◌then◌else◌, Option, none, ℕ}

-- The chain of tests of the name: the function of the test, if there is one.
unfoldable pub test_of : Functions → Text → Option ℕ
test_of c test_case =
    if same_str (codes "signalpriority") test_case 0
    then some c.test_signal_priority_entry
    else if same_str (codes "signalhandler") test_case 0
    then some c.test_signal_handler_entry
    else if same_str (codes "syskill") test_case 0
    then some c.test_sys_kill_entry
    else if same_str (codes "syswait") test_case 0
    then some c.test_sys_wait_entry
    else if same_str (codes "sysopen") test_case 0
    then some c.test_sys_open_entry
    else if same_str (codes "syswrite") test_case 0
    then some c.test_sys_write_entry
    else if same_str (codes "sysioctl") test_case 0
    then some c.test_sys_ioctl_entry
    else if same_str (codes "sysread") test_case 0
    then some c.test_sys_read_entry
    else if same_str (codes "zerodevice") test_case 0
    then some c.test_zero_device_entry
    else if same_str (codes "randdevice") test_case 0
    then some c.test_rand_device_entry
    else if same_str (codes "kbdeof") test_case 0
    then some c.test_kbd_eof_entry
    else none

unfoldable pub run_test : Functions → Text → Test ℕ
run_test c test_case = elim (test_of c test_case) [
  | none ↦ warn "Unknown test given.\n" (done 0)
  | some func ↦ call (sys_create func stack_size) >>= λ pid. call (sys_wait pid)
]
