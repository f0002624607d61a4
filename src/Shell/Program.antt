-- ===== src/Shell/Program.antt =====
-- What a program of c/user.c asks of the kernel, as a tree: each call goes on with whatever the
-- kernel answers. A loop that runs out of fuel is `stuck`.
use Prim.Native.Char.{code}
use Prim.Native.String.{String}
use xeros_kernel.Shell.Tokenizer.{Text}
use xeros_kernel.Base.{none, if◌then◌else◌, some, Bool, Option, List, ℕ, [], ◌∷◌}

-- The code points of a literal, which are its bytes.
abbrev pub codes : String → List ℕ
codes String.[] = []
codes (String.◌∷◌ c s) = code c ∷ codes s

-- The functions that the programs hand to the kernel by address.
pub data Entry : Type 0 where
  entry_shell entry_a entry_t entry_run_test : Entry

pub data Handler : Type 0 where
  no_handler handler_sig21 : Handler

-- The calls of c/syscall.c that the programs make, and `kprintf`, with their arguments.
pub data Action : Type 0 where
  puts : String → Action
  puts_pid : ℕ → Action
  kprintf : String → Action
  kprintf_row : ℕ → String → ℕ → Action
  getpid : Action
  open_device : ℕ → Action
  close_fd : ℕ → Action
  ioctl : ℕ → ℕ → Action
  create_process : Entry → ℕ → Action
  wait : ℕ → Action
  kill : ℕ → ℕ → Action
  sleep_for : ℕ → Action
  set_handler : ℕ → Handler → Action

-- The structure that `sysgetcputimes` fills.
pub record Statuses : Type 0 where
  pub pid : ℕ → ℕ
  pub status : ℕ → ℕ
  pub cpu_time : ℕ → ℕ

-- `read fd place n` is `sysread(fd, &buf[place], n)`, answered with the result and with what `buf`
-- holds then.
pub data Prog (A : Type 0) : Type 0 where
  pure : A → Prog A
  act : Action → (ℕ → Prog A) → Prog A
  read : ℕ → ℕ → ℕ → (ℕ → Text → Prog A) → Prog A
  getcputimes : (ℕ → Statuses → Prog A) → Prog A
  stuck : Prog A

infixl 5 ◌>>=◌ ◌>>◌
abbrev pub ◌>>=◌ : {A B : Type 0} → Prog A → (A → Prog B) → Prog B
pure a >>= f = f a
act x k >>= f = act x (λ v. k v >>= f)
read fd i n k >>= f = read fd i n (λ v s. k v s >>= f)
getcputimes k >>= f = getcputimes (λ v s. k v s >>= f)
stuck >>= f = stuck

abbrev pub ◌>>◌ : {A B : Type 0} → Prog A → Prog B → Prog B
m >> k = m >>= λ _. k

abbrev pub call : Action → Prog ℕ
call x = act x pure

abbrev pub read_into : ℕ → ℕ → ℕ → Prog (ℕ × Text)
read_into fd i n = read fd i n (λ v s. pure (v, s))

abbrev pub from_option : {A : Type 0} → Option A → Prog A
from_option none = stuck
from_option (some a) = pure a

abbrev pub when : Bool → Action → Prog ℕ
when b x = if b then call x else pure 0
