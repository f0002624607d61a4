-- ===== src/Shell/Command.antt =====
-- The commands of the shell of c/user.c, and what they start.
use xeros_kernel.Dispatch.{state_code}
use Prim.Native.String.{String}
use xeros_kernel.Shell.Program.{
  create_process, set_handler, entry_a, wait, entry_run_test, handler_sig21, no_handler, puts_pid,
  kill, codes, from_option, close_fd, entry_t, getpid, sleep_for, when, ◌>>=◌, ◌>>◌,
}
use xeros_kernel.Process.{waiting, blocked, dev_block, ready, running, sleep}
use xeros_kernel.Shell.Program.{
  ◌>>◌, puts, kprintf, kprintf_row, call, stuck, getcputimes, pure, Entry, Prog, Statuses,
}
use xeros_kernel.Shell.Tokenizer.{token, is_normal, Tok, TokState, Text}
use xeros_kernel.Base.{
  none, not, ◌+◌, is_neg, zero, ◌||◌, ◌&&◌, if◌then◌else◌, suc, ◌==◌, Bool, minus, List, ℕ, [], ◌∷◌,
}

-- strcmp(cs, &s[i]) == 0 for a literal cs.
abbrev pub same_str : List ℕ → Text → ℕ → Bool
same_str [] s i = s i == 0
same_str (c ∷ cs) s i = (s i == c) && same_str cs s (suc i)

-- The static variables of c/user.c, and `test_case` of c/test.c.
pub record Globals : Type 0 where
  pub milliseconds : ℕ
  pub shellpid : ℕ
  pub test_case : Text

-- Whether the function `shell` goes on with its loop or returns.
pub data Round : Type 0 where
  again finished : Round

-- What a command leaves: the round is over, or its end is still to come.
pub data After : Type 0 where
  gone : Round → Globals → After
  stay : TokState → Globals → After

-- KEYBOARD, COMMAND_ECHO_ON, STACKSIZE and the result of `syskill` for a process that is not there.
abbrev pub keyboard_no : ℕ
keyboard_no = 2

abbrev pub echo_on : ℕ
echo_on = 74

abbrev pub user_stack : ℕ
user_stack = 8192

abbrev pub no_such_process : ℕ
no_such_process = minus 999

-- `mapstate`: the name of a state. The code of a waiting device is -2.
unfoldable pub mapstate : ℕ → String
mapstate state =
    if state == state_code running
    then "RUNNING"
    else if state == state_code ready
    then "READY"
    else if (state == state_code dev_block) || (state == state_code blocked)
    then "BLOCKED"
    else if state == state_code waiting
    then "WAITING"
    else if state == state_code sleep
    then "SLEEPING"
    else "UNKNOWN"

-- The loop of `p`: n rows from row i on.
unfoldable pub rows : ℕ → ℕ → Statuses → Prog ℕ
rows zero i ps = pure 0
rows (suc n) i ps =
    call (kprintf_row (ps.pid i) (mapstate (ps.status i)) (ps.cpu_time i)) >> rows n (suc i) ps

-- `p`: the result of `sysgetcputimes` is the last row, or negative.
unfoldable pub p : Prog ℕ
p = getcputimes (λ procs ps.
    call (kprintf "       pid         state     time (ms)\n")
    >> (if is_neg procs then pure 0 else rows (procs + 1) 0 ps))

-- `k`: a shell that kills itself closes its keyboard first.
unfoldable pub k : (Text → ℕ) → Text → ℕ → ℕ → Prog ℕ
k atoi p_str currpid fd = do
  let pid = atoi p_str
  _ ← when (pid == currpid) (close_fd fd)
  ret ← call (kill pid 31)
  when (ret == no_such_process) (puts "No such process.\n")

-- `a`, as a process of its own.
abbrev pub a : Globals → Prog ℕ
a g = do _ ← call (sleep_for g.milliseconds); call (kill g.shellpid 21)

-- `t` for n turns of its endless loop.
unfoldable pub t_loop : ℕ → Prog ℕ
t_loop zero = stuck
t_loop (suc n) = call (puts "T\n") >> call (sleep_for 10000) >> t_loop n

abbrev pub t : ℕ → Prog ℕ
t n = do pid ← call getpid; _ ← call (puts_pid pid); t_loop n

-- `sig21`, the handler.
abbrev pub sig21 : Prog ℕ
sig21 = do _ ← call (puts "SIG21 SIG21\n"); call (set_handler 21 no_handler)

abbrev pub wrong_number : TokState → Globals → Prog After
wrong_number state g = do _ ← call (puts "Wrong number of parameters.\n"); pure (stay state g)

-- `pid = syscreate(entry, STACKSIZE); if (!tok.detach) syswait(pid)`.
abbrev pub start : Entry → Bool → Prog ℕ
start entry detach = do pid ← call (create_process entry user_stack); when (not detach) (wait pid)

-- The branches of the commands that take a parameter, once it is read.
abbrev pub k_command : (Text → ℕ) → ℕ → ℕ → ℕ → Tok → Globals → Prog After
k_command atoi currpid fd len tok g =
    if (len == 0) || is_normal tok.state
    then wrong_number tok.state g
    else do _ ← k atoi tok.str currpid fd; pure (stay tok.state g)

abbrev pub a_command : (Text → ℕ) → ℕ → Tok → Globals → Prog After
a_command atoi len tok g =
    if (len == 0) || is_normal tok.state then wrong_number tok.state g else do
      pid ← call getpid
      _ ← call (set_handler 21 handler_sig21)
      _ ← start entry_a tok.detach
      pure (stay tok.state (record g { shellpid = pid; milliseconds = atoi tok.str }))

abbrev pub t_command : Tok → Globals → Prog After
t_command tok g =
    if is_normal tok.state
    then wrong_number tok.state g
    else do _ ← start entry_t tok.detach; pure (stay tok.state g)

abbrev pub x_command : ℕ → Tok → Globals → Prog After
x_command fd tok g =
    if is_normal tok.state
    then wrong_number tok.state g
    else do _ ← call (close_fd fd); pure (gone finished g)

abbrev pub p_command : Tok → Globals → Prog After
p_command tok g =
    if is_normal tok.state then wrong_number tok.state g else do _ ← p; pure (stay tok.state g)

abbrev pub test_command : ℕ → Tok → Globals → Prog After
test_command fd tok g = do
  _ ← call (close_fd fd)
  pid ← call (create_process entry_run_test user_stack)
  _ ← call (wait pid)
  pure (gone again (record g { test_case = tok.str }))

abbrev pub invalid_command : TokState → Globals → Prog After
invalid_command state g = call (puts "Invalid command specified.\n") >> pure (stay state g)

-- `len = token(NULL, &tok)`, and the command with it.
abbrev pub with_next : ℕ → Tok → (ℕ → Tok → Prog After) → Prog After
with_next f tok command = do (len, tok') ← from_option (token f none tok); command len tok'

-- The commands by their first word.
unfoldable pub command : ℕ → (Text → ℕ) → ℕ → ℕ → Tok → Globals → Prog After
command f atoi currpid fd tok g =
    if same_str (codes "x") tok.str 0
    then x_command fd tok g
    else if same_str (codes "p") tok.str 0
    then p_command tok g
    else if same_str (codes "k") tok.str 0
    then with_next f tok (λ len t. k_command atoi currpid fd len t g)
    else if same_str (codes "a") tok.str 0
    then with_next f tok (λ len t. a_command atoi len t g)
    else if same_str (codes "t") tok.str 0
    then t_command tok g
    else if same_str (codes "test") tok.str 0
    then with_next f tok (λ _ t. test_command fd t g)
    else invalid_command tok.state g
