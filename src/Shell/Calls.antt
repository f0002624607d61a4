-- ===== src/Shell/Calls.antt =====
-- Programs of c/user.c that end, whatever the kernel answers.
use xeros_kernel.Shell.Command.{no_such_process, start, k, p, rows}
use xeros_kernel.Shell.Tokenizer.{Text}
use xeros_kernel.Shell.Program.{
  puts, wait, kill, call, Entry, when, stuck, Statuses, getcputimes, read, act, pure, Prog,
  close_fd, Action, ◌>>=◌,
}
use xeros_kernel.Base.{
  not, zero, ◌+◌, suc, refl, if◌then◌else◌, ◌||◌, ◌≤◌, ◌⊎◌, false, true, ◌==◌, ◌≡◌, Bool, is_neg, ℕ,
}

-- `sysclose(fd)`.
abbrev pub closes : ℕ → Action → Bool
closes fd (close_fd d) = d == fd
closes fd _ = false

-- What `sysread` with n places may answer: an error, or n characters at most.
abbrev pub Answer : ℕ → ℕ → Type 0
Answer n v = (is_neg v ≡ true) ⊎ (v ≤ n)

-- Whatever the kernel answers, the program ends with a result that meets `good`, which also learns
-- if `fd` has been closed.
unfoldable pub Ends : {A : Type 0} → ℕ → (Bool → A → Type 0) → Bool → Prog A → Type 0
Ends fd good c (pure a) = good c a
Ends fd good c (act x k) = (v : ℕ) → Ends fd good (c || closes fd x) (k v)
Ends fd good c (read d i n k) = (v : ℕ) (s : Text) → Answer n v → Ends fd good c (k v s)
Ends fd good c (getcputimes k) = (v : ℕ) (ps : Statuses) → Ends fd good c (k v ps)
Ends fd good c stuck = ⊥

pub Ends-bind :
    {A B : Type 0} (fd : ℕ) (P : Bool → A → Type 0) (Q : Bool → B → Type 0) (c : Bool) (m : Prog A)
    (f : A → Prog B)
    → Ends fd P c m
    → ((c' : Bool) (a : A) → P c' a → Ends fd Q c' (f a))
    → Ends fd Q c (m >>= f)
unfolding Ends
Ends-bind fd P Q c (pure a) f h g = g c a h
Ends-bind fd P Q c (act x m) f h g = λ v. Ends-bind fd P Q (c || closes fd x) (m v) f (h v) g
Ends-bind fd P Q c (read d i n m) f h g = λ v s w. Ends-bind fd P Q c (m v s) f (h v s w) g
Ends-bind fd P Q c (getcputimes m) f h g = λ v s. Ends-bind fd P Q c (m v s) f (h v s) g
Ends-bind fd P Q c stuck f h g = absurd h

pub Ends-if :
    {A : Type 0} (x y : Prog A) (fd : ℕ) (P : Bool → A → Type 0) (c b : Bool)
    → (b ≡ true → Ends fd P c x)
    → (b ≡ false → Ends fd P c y)
    → Ends fd P c (if b then x else y)
Ends-if x y fd P c true h h' = h refl
Ends-if x y fd P c false h h' = h' refl

-- It ends, and that is all.
abbrev pub Done : {A : Type 0} → Bool → A → Type 0
Done c a = Unit

pub when-Ends : (fd : ℕ) (c b : Bool) (x : Action) → Ends fd Done c (when b x)
unfolding Ends
when-Ends fd c b x = Ends-if _ _ fd Done c b (λ _ _. tt) (λ _. tt)

pub rows-Ends : (fd n i : ℕ) (c : Bool) (ps : Statuses) → Ends fd Done c (rows n i ps)
unfolding Ends rows
rows-Ends fd zero i c ps = tt
rows-Ends fd (suc n) i c ps = λ _. rows-Ends fd n (suc i) (c || false) ps

pub p-Ends : (fd : ℕ) (c : Bool) → Ends fd Done c p
unfolding Ends p
p-Ends fd c procs ps _ =
    Ends-if _ _ fd Done (c || false) (is_neg procs) (λ _. tt)
      (λ _. rows-Ends fd (procs + 1) 0 (c || false) ps)

pub k-Ends :
    (fd currpid d : ℕ) (c : Bool) (atoi : Text → ℕ) (s : Text) → Ends fd Done c (k atoi s currpid d)
unfolding Ends k
k-Ends fd currpid d c atoi s =
    Ends-bind fd Done Done c (when (atoi s == currpid) (close_fd d))
      (λ _. call (kill (atoi s) 31) >>= λ ret.
        when (ret == no_such_process) (puts "No such process.\n"))
      (when-Ends fd c (atoi s == currpid) (close_fd d))
      (λ c' _ _ ret.
        when-Ends fd (c' || false) (ret == no_such_process) (puts "No such process.\n"))

pub start-Ends : (fd : ℕ) (c : Bool) (e : Entry) (d : Bool) → Ends fd Done c (start e d)
unfolding Ends
start-Ends fd c e d pid = when-Ends fd (c || false) (not d) (wait pid)
