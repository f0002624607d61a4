-- ===== src/Tests/Reads.antt =====
-- The tests of the devices in c/test.c (test cases 8 to 11). The second buffer of each test is given
-- by its address.
use xeros_kernel.Shell.Program.{codes}
use xeros_kernel.Tests.{
  ◌>>=◌, done, fill, call, print, print_pid, repeat, num, char_at, byte_at, short_at, int_at,
  string_at, Test,
}
use xeros_kernel.Tests.Descriptors.{call_ioctl}
use xeros_kernel.Dispatch.Request.{sys_open, sys_close, sys_read, sys_write, sys_sleep}
use xeros_kernel.Base.{zero, suc, ◌+◌, minus, ◌++◌, List, ℕ, [], ◌∷◌}

abbrev zeros : ℕ → List ℕ
zeros zero = []
zeros (suc n) = 0 ∷ zeros n

-- `memset(buf, 0, sizeof(buf))`.
abbrev clear : ℕ → Test ℕ
clear buf = fill buf (zeros 128) (done 0)

unfoldable pub test_sys_read : ℕ → Test ℕ
test_sys_read kbd_buf = do
  _ ← clear kbd_buf
  pid ← print_pid
  fd ← call (sys_open 2)
  _ ← print "Starting interactive testing.\n" []
  _ ← print "Sleeping for 5 seconds, type anything.\n" []
  _ ← call (sys_sleep 5000)
  _ ← print "Typed characters: " []
  _ ← repeat 4 (do _ ← call (sys_read fd kbd_buf 1); print "%c " (char_at kbd_buf ∷ []))
  _ ← print "\n" []
  _ ← print "Sleeping for 5 seconds, type anything.\n" []
  _ ← call (sys_sleep 5000)
  _ ← call (sys_read fd kbd_buf 2)
  _ ← print "Two characters read: %s.\n" (string_at kbd_buf ∷ [])
  call (sys_close fd)

-- `sprintf(z_buf, "12345678")`.
abbrev digits : ℕ → Test ℕ
digits z_buf = fill z_buf (codes "12345678" ++ 0 ∷ []) (done 0)

unfoldable pub test_zero_device : ℕ → Test ℕ
test_zero_device z_buf = do
  _ ← clear z_buf
  pid ← print_pid
  fd ← call (sys_open 0)
  negative ← call (sys_read fd z_buf (minus 1))
  _ ← print "Tried to read negative number of bytes. ret code: %d.\n" (num negative ∷ [])
  _ ← digits z_buf
  _ ← print "Current values in z_buf: %s.\n" (string_at z_buf ∷ [])
  len ← call (sys_read fd (z_buf + 1) 7)
  _ ← print "Read of 7 bytes. length: %d, z_buf: %s.\n" (num len ∷ string_at z_buf ∷ [])
  refused ← call (sys_write fd z_buf (minus 1))
  _ ← print "Tried to write negative number of bytes. ret code: %d.\n" (num refused ∷ [])
  ret ← call (sys_write fd z_buf 10)
  print "Write of 10 bytes. length: %d.\n" (num ret ∷ [])

unfoldable pub test_rand_device : ℕ → Test ℕ
test_rand_device r_buf = do
  _ ← clear r_buf
  pid ← print_pid
  fd ← call (sys_open 1)
  _ ← call_ioctl fd 23 (pid ∷ [])
  refused ← call (sys_write fd r_buf 1)
  _ ← print "Tried to write to rand device. ret code: %d.\n" (num refused ∷ [])
  one ← call (sys_read fd r_buf 1)
  _ ← print "Reading rand device. length: %d, number: %d.\n" (num one ∷ byte_at r_buf ∷ [])
  four ← call (sys_read fd r_buf 4)
  _ ← print "Reading rand device. length: %d, number: %d.\n" (num four ∷ int_at r_buf ∷ [])
  six ← call (sys_read fd r_buf 6)
  _ ←
      print "Reading rand device. length: %d, number 1: %d, number 2: %d.\n"
        (num six ∷ int_at r_buf ∷ short_at (r_buf + 4) ∷ [])
  call (sys_close fd)

unfoldable pub test_kbd_eof : ℕ → Test ℕ
test_kbd_eof k_buf = do
  _ ← clear k_buf
  pid ← print_pid
  fd ← call (sys_open 2)
  _ ← call_ioctl fd 74 []
  _ ← call_ioctl fd 18 (43 ∷ [])
  _ ← print "Type up to 4 characters including one ctrl-d.\n" []
  ret ← call (sys_read fd k_buf 4)
  _ ← print "\nRead characters. length: %d, string: %s.\n" (num ret ∷ string_at k_buf ∷ [])
  call (sys_close fd)
