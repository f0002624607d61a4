-- ===== src/Tests/Signals.antt =====
-- The tests of signals, sleep and waiting in c/test.c (test cases 1 to 4).
use xeros_kernel.Tests.{◌>>=◌, call, print, repeat, print_pid, num, Test, Functions}
use xeros_kernel.Dispatch.Request.{sys_sleep, sys_kill, sys_signal, sys_create, sys_wait}
use xeros_kernel.Dispatch.Serve.{stack_size}
use xeros_kernel.Base.{minus, ℕ, [], ◌∷◌}

-- The body of the handlers.
abbrev announce : Test ℕ → Test ℕ
announce message = message >>= λ _. call (sys_sleep 1000)

unfoldable pub sig3 : Test ℕ
sig3 = repeat 3 (announce (print "Signal 3.\n" []))

unfoldable pub sig10 : Test ℕ
sig10 = announce (print "Signal 10.\n" [])

unfoldable pub sig22 : Test ℕ
sig22 = repeat 5 (announce (print "Signal 22.\n" []))

unfoldable pub sig23 : Test ℕ
sig23 = announce (print "Signal 23.\n" [])

-- `test_trigger_signal`, with the global `pid_g`.
unfoldable pub test_trigger_signal : ℕ → Test ℕ
test_trigger_signal pid_g = do
  _ ← call (sys_kill pid_g 3)
  _ ← call (sys_sleep 1000)
  _ ← call (sys_kill pid_g 22)
  _ ← call (sys_kill pid_g 10)
  _ ← call (sys_sleep 2000)
  call (sys_kill pid_g 23)

-- `test_signal_priority`; it sets `pid_g` to the pid that it prints.
unfoldable pub test_signal_priority : Functions → Test ℕ
test_signal_priority c = do
  pid_g ← print_pid
  _ ← call (sys_signal 3 c.sig3_entry)
  _ ← call (sys_signal 10 c.sig10_entry)
  _ ← call (sys_signal 22 c.sig22_entry)
  _ ← call (sys_signal 23 c.sig23_entry)
  pid ← call (sys_create c.test_trigger_signal_entry stack_size)
  call (sys_wait pid)

unfoldable pub test_signal_handler : Functions → Test ℕ
test_signal_handler c = do
  pid ← print_pid
  ret31 ← call (sys_signal 31 c.sig3_entry)
  _ ← print "Tried to set signal 31. ret code: %d.\n" (num ret31 ∷ [])
  ret_neg ← call (sys_signal (minus 1) c.sig3_entry)
  _ ← print "Tried to set signal -1. ret code: %d.\n" (num ret_neg ∷ [])
  first ← call (sys_signal 3 c.sig3_entry)
  _ ← print "Previous sig handler: %d.\n" (num first ∷ [])
  second ← call (sys_signal 3 c.sig23_entry)
  _ ← print "Previous sighandler: %d, sig3 sighandler: %d.\n" (num second ∷ num c.sig3_entry ∷ [])
  call (sys_kill pid 3)

unfoldable pub test_sleep : Functions → Test ℕ
test_sleep c = do
  _ ← call (sys_signal 10 c.sig10_entry)
  ret ← call (sys_sleep 10000)
  print "Sleep was interrupted, remaining: %d.\n" (num ret ∷ [])

unfoldable pub test_sys_kill : Functions → Test ℕ
test_sys_kill c = do
  pid ← print_pid
  _ ← call (sys_signal 3 c.sig3_entry)
  idle ← call (sys_kill 0 3)
  _ ← print "Tried to signal idle process. ret code %d.\n" (num idle ∷ [])
  absent ← call (sys_kill 999 3)
  _ ← print "Tried to signal process 999(non-existing). ret code %d.\n" (num absent ∷ [])
  unmapped ← call (sys_kill pid 4)
  _ ← print "Tried to signal unmapped signal 4. ret code %d.\n" (num unmapped ∷ [])
  sleeper ← call (sys_create c.test_sleep_entry stack_size)
  _ ← call (sys_sleep 1000)
  ret ← call (sys_kill sleeper 10)
  _ ← print "Tried to signal sleeping process. ret code %d.\n" (num ret ∷ [])
  call (sys_wait sleeper)

unfoldable pub test_wait_sleep : Test ℕ
test_wait_sleep = call (sys_sleep 10000)

unfoldable pub test_wait_int : Functions → Test ℕ
test_wait_int c = do
  _ ← call (sys_signal 10 c.sig10_entry)
  pid ← call (sys_create c.test_wait_sleep_entry stack_size)
  ret ← call (sys_wait pid)
  print "Wait interrupted: %d.\n" (num ret ∷ [])

unfoldable pub test_sys_wait : Functions → Test ℕ
test_sys_wait c = do
  pid ← print_pid
  idle ← call (sys_wait 0)
  _ ← print "Tried to wait on idle process. ret code: %d.\n" (num idle ∷ [])
  absent ← call (sys_wait 999)
  _ ← print "Tried to wait on process 999(non-existing). ret code: %d.\n" (num absent ∷ [])
  self ← call (sys_wait pid)
  _ ← print "Tried to wait on itself. ret code: %d.\n" (num self ∷ [])
  waiter ← call (sys_create c.test_wait_int_entry stack_size)
  _ ← call (sys_sleep 1000)
  _ ← call (sys_kill waiter 10)
  call (sys_wait waiter)
