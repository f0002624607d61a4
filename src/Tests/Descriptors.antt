-- ===== src/Tests/Descriptors.antt =====
-- The tests of the descriptors in c/test.c (test cases 5 to 7).
use xeros_kernel.Tests.{◌>>=◌, done, ioctl, call, print, print_pid, num, Test}
use xeros_kernel.Dispatch.Request.{sys_open, sys_close, sys_write}
use xeros_kernel.Base.{sub32, zero, suc, minus, List, ℕ, [], ◌∷◌}

-- The loops of `test_sys_open`: the descriptors are kept in `fds`.
unfoldable pub open_loop : ℕ → Test (List ℕ)
open_loop zero = done []
open_loop (suc n) = do
  fd ← call (sys_open 0)
  _ ← print "Opening zero device. fd: %d.\n" (num fd ∷ [])
  fds ← open_loop n
  done (fd ∷ fds)

unfoldable pub close_loop : List ℕ → Test ℕ
close_loop [] = done 0
close_loop (fd ∷ fds) = do
  ret ← call (sys_close fd)
  _ ← print "Closing zero device. fd: %d.\n" (num ret ∷ [])
  close_loop fds

unfoldable pub test_sys_open : Test ℕ
test_sys_open = do
  pid ← print_pid
  negative ← call (sys_open (minus 1))
  _ ← print "Tried to open device no -1. ret code: %d.\n" (num negative ∷ [])
  large ← call (sys_open 3)
  _ ← print "Tried to open device no 3. ret code: %d.\n" (num large ∷ [])
  kbd ← call (sys_open 2)
  _ ← print "Tried to open keyboard while it is open. ret code: %d.\n" (num kbd ∷ [])
  fds ← open_loop 5
  close_loop fds

-- The loops of `test_sys_write`: entry i of `fds` is i - 1.
unfoldable pub fill_loop : ℕ → Test ℕ
fill_loop zero = done 0
fill_loop (suc n) = do _ ← call (sys_open 0); fill_loop n

unfoldable pub write_loop : ℕ → ℕ → ℕ → Test ℕ
write_loop zero i dev_buf = done 0
write_loop (suc n) i dev_buf = do
  ret ← call (sys_write (sub32 i 1) dev_buf 128)
  _ ← print "Writing to fd %d, ret code: %d.\n" (num (sub32 i 1) ∷ num ret ∷ [])
  write_loop n (suc i) dev_buf

unfoldable pub test_sys_write : ℕ → Test ℕ
test_sys_write dev_buf = do
  pid ← print_pid
  ret ← call (sys_write 0 dev_buf 128)
  _ ← print "Tried to write to unset fd. ret code: %d.\n" (num ret ∷ [])
  _ ← fill_loop 6
  write_loop 6 0 dev_buf

abbrev pub call_ioctl : ℕ → ℕ → List ℕ → Test ℕ
call_ioctl fd command args = ioctl fd command args done

unfoldable pub test_sys_ioctl : Test ℕ
test_sys_ioctl = do
  pid ← print_pid
  zero_fd ← call (sys_open 0)
  refused ← call_ioctl zero_fd 23 []
  _ ← print "Tried ioctl on zero device. ret code: %d.\n" (num refused ∷ [])
  _ ← call (sys_close zero_fd)
  fd ← call (sys_open 1)
  unknown ← call_ioctl fd 12 []
  _ ← print "Tried ioctl with command 12 on rand device. ret code: %d.\n" (num unknown ∷ [])
  ret ← call_ioctl fd 23 (2 ∷ [])
  _ ← print "Tried ioctl with command 23 on rand device. ret code: %d.\n" (num ret ∷ [])
  call (sys_close fd)
