-- ===== src/Shell/Login.antt =====
-- `root` of c/user.c: the login. The loop that reads a line has no bound when `sysread` answers 0,
-- and takes fuel.
use xeros_kernel.Shell.Command.{echo_on, user_stack, keyboard_no}
use xeros_kernel.Shell.Tokenizer.{is_line_end, buffer_size, kbd_eof, Text}
use xeros_kernel.Shell.Program.{
  pure, wait, read, entry_shell, open_device, create_process, puts, ioctl, close_fd, call, stuck,
  codes, Prog, ◌>>=◌, ◌>>◌,
}
use xeros_kernel.Base.{
  add32, ◌*◌, ltb, ◌||◌, zero, is_neg, ◌==◌, not, ◌&&◌, suc, if◌then◌else◌, sub32, true, Bool, List,
  ℕ, [], ◌∷◌,
}

-- USER and PASSWORD.
abbrev pub user : List ℕ
user = codes "cs415"

abbrev pub password : List ℕ
password = codes "pw"

abbrev pub echo_off : ℕ
echo_off = 73

-- strncmp(cs, &s[i], n) == 0 for a literal cs.
abbrev pub same_prefix : List ℕ → ℕ → Text → ℕ → Bool
same_prefix cs zero s i = true
same_prefix [] (suc n) s i = s i == 0
same_prefix (c ∷ cs) (suc n) s i = (s i == c) && same_prefix cs n s (suc i)

-- The loop over `sysread(fd, &buf[len], 4)`, for n turns at most: the length, which may be negative
-- after an error, and what `buf` holds.
unfoldable pub read_line : ℕ → ℕ → ℕ → Text → Prog (ℕ × Text)
read_line zero fd len buf = stuck
read_line (suc n) fd len buf =
    if is_neg len || ltb len buffer_size
    then read fd len 4 (λ v s.
      if is_line_end (s (sub32 (add32 len v) 1))
      then pure (add32 len v, s)
      else read_line n fd (add32 len v) s)
    else pure (len, buf)

-- strncmp(cs, s, n) == 0 for an int n: a negative one compares nothing.
abbrev pub same_start : List ℕ → ℕ → Text → Bool
same_start cs n s = if is_neg n then true else same_prefix cs n s 0

-- The test of the credentials.
unfoldable pub verify : ℕ → Text → ℕ → Text → Bool
verify user_len user_buf pw_len pw_buf =
    same_start user (sub32 user_len 1) user_buf && same_start password (sub32 pw_len 1) pw_buf

-- `sysclose(fd); sysputs("\n")`.
abbrev pub close_line : ℕ → Prog ℕ
close_line fd = call (close_fd fd) >> call (puts "\n")

-- A turn once both lines are there.
abbrev pub enter : ℕ → Bool → Prog ℕ
enter fd ok = if not ok then call (puts "Invalid credentials.\n") >> call (close_fd fd) else do
  _ ← close_line fd
  pid ← call (create_process entry_shell (user_stack * 4))
  call (wait pid)

abbrev pub with_user : ℕ → ℕ → ℕ → Text → Prog ℕ
with_user n fd user_len user_buf = do
  _ ← call (ioctl fd echo_off)
  _ ← call (puts "Password: ")
  (pw_len, pw_buf) ← read_line n fd 0 (λ _. 0)
  if pw_buf (sub32 pw_len 1) == kbd_eof
      then close_line fd
      else enter fd (verify user_len user_buf pw_len pw_buf)

-- A turn of the endless loop of `root`.
unfoldable pub root_round : ℕ → Prog ℕ
root_round n = do
  _ ← call (puts "Username: ")
  fd ← call (open_device keyboard_no)
  _ ← call (ioctl fd echo_on)
  (user_len, user_buf) ← read_line n fd 0 (λ _. 0)
  if user_buf (sub32 user_len 1) == kbd_eof then close_line fd else with_user n fd user_len user_buf
