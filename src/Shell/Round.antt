-- ===== src/Shell/Round.antt =====
-- A round of the loop of `shell` in c/user.c.
use xeros_kernel.Shell.Command.{
  stay, keyboard_no, echo_on, command, gone, finished, Round, again, Globals, After,
}
use xeros_kernel.Shell.Program.{
  read_into, open_device, ioctl, from_option, close_fd, getpid, when, ◌>>=◌, ◌>>◌,
}
use xeros_kernel.Shell.Program.{◌>>◌, puts, kprintf, call, stuck, pure, Prog}
use xeros_kernel.Shell.Tokenizer.{
  fresh_tok, tok_eof, is_line_end, token, buffer_size, TokState, Text,
}
use xeros_kernel.Base.{
  ltb, ◌-◌, some, false, true, is_neg, zero, ◌||◌, if◌then◌else◌, suc, ◌==◌, Bool, ℕ,
}

abbrev pub is_eof : TokState → Bool
is_eof tok_eof = true
is_eof _ = false

-- The end of the round, if the command has not left it.
abbrev pub end_round : ℕ → After → Prog (Round × Globals)
end_round fd (gone r g) = pure (r, g)
end_round fd (stay state g) =
    call (close_fd fd) >> pure (if is_eof state then finished else again, g)

abbrev pub retry : ℕ → Globals → Prog (Round × Globals)
retry fd g = call (close_fd fd) >> pure (again, g)

-- The line of a round, once it is read.
abbrev pub run_line : ℕ → (Text → ℕ) → ℕ → ℕ → Text → Globals → Prog (Round × Globals)
run_line f atoi currpid fd buf g = do
  (len, tok) ← from_option (token f (some buf) (fresh_tok buf))
  _ ← when (is_eof tok.state) (kprintf "\n")
  after ← if ltb 0 len then command f atoi currpid fd tok g else pure (stay tok.state g)
  end_round fd after

-- What a round does with a result of `sysread`.
abbrev pub after_read : ℕ → (Text → ℕ) → ℕ → ℕ → ℕ → Text → Globals → Prog (Round × Globals)
after_read f atoi currpid fd buf_len buf g =
    if (buf_len == 0) || is_neg buf_len
    then retry fd g
    else if buf_len == buffer_size
    then (call (puts "\nCommand too long.\n") >> retry fd g)
    else if is_line_end (buf (buf_len - 1))
    then run_line f atoi currpid fd buf g
    else retry fd g

-- A round after `open`.
abbrev pub with_keyboard : ℕ → (Text → ℕ) → ℕ → ℕ → Globals → Prog (Round × Globals)
with_keyboard f atoi currpid fd g = do
  _ ← call (ioctl fd echo_on)
  (buf_len, buf) ← read_into fd 0 buffer_size
  after_read f atoi currpid fd buf_len buf g

-- A round of the loop of `shell`.
unfoldable pub shell_round : ℕ → (Text → ℕ) → ℕ → Globals → Prog (Round × Globals)
shell_round f atoi currpid g = do
  _ ← call (puts "> ")
  fd ← call (open_device keyboard_no)
  with_keyboard f atoi currpid fd g

-- `shell`, for n rounds at most.
unfoldable pub shell_loop : ℕ → ℕ → (Text → ℕ) → ℕ → Globals → Prog Globals
shell_loop zero f atoi currpid g = stuck
shell_loop (suc n) f atoi currpid g = do
  (r, g') ← shell_round f atoi currpid g
  elim r [ again ↦ shell_loop n f atoi currpid g' | finished ↦ pure g' ]

abbrev pub shell : ℕ → ℕ → (Text → ℕ) → Globals → Prog Globals
shell n f atoi g = do currpid ← call getpid; shell_loop n f atoi currpid g
