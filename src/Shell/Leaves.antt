-- ===== src/Shell/Leaves.antt =====
-- What the commands of the shell of c/user.c leave to the end of a round.
use xeros_kernel.Shell.Calls.{Ends-bind, Done, p-Ends, start-Ends, k-Ends, Ends-if, Ends}
use xeros_kernel.Shell.Ends.{next_token-ends}
use mathlib.Core.Bool.{or-true}
use xeros_kernel.Shell.Command.{
  same_str, with_next, command, invalid_command, test_command, p_command, t_command, a_command,
  k_command, x_command, wrong_number, stay, Globals, gone, start, After, k, p,
}
use xeros_kernel.Shell.Tokenizer.{is_line_end, is_normal, Tok, TokState, Text}
use xeros_kernel.Shell.Program.{codes, entry_t, entry_a, pure, Prog, ◌>>=◌}
use xeros_kernel.Base.{◌<◌, ==_self, refl, ◌||◌, ◌≤◌, false, true, ◌==◌, ◌≡◌, Bool, ℕ}

-- A command either has closed the keyboard or leaves it to the end of the round.
abbrev pub Leaves : Bool → After → Type 0
Leaves c (gone r g) = c ≡ true
Leaves c (stay state g) = Unit

-- A command that stays after a program that ends.
then_stay :
    {A : Type 0} (fd : ℕ) (c : Bool) (m : Prog A) (state : TokState) (g : Globals)
    → Ends fd Done c m
    → Ends fd Leaves c (m >>= λ _. pure (stay state g))
unfolding Ends
then_stay fd c m state g h = Ends-bind fd Done Leaves c m (λ _. pure (stay state g)) h (λ _ _ _. tt)

wrong_number-Ends :
    (fd : ℕ) (c : Bool) (state : TokState) (g : Globals) → Ends fd Leaves c (wrong_number state g)
unfolding Ends
wrong_number-Ends fd c state g _ = tt

pub shut_now : (fd : ℕ) (c : Bool) → (c || (fd == fd)) ≡ true
shut_now fd c = rw (==_self fd) (or-true c)

x_command-Ends :
    (fd : ℕ) (c : Bool) (tok : Tok) (g : Globals) → Ends fd Leaves c (x_command fd tok g)
unfolding Ends
x_command-Ends fd c tok g =
    Ends-if _ _ fd Leaves c (is_normal tok.state) (λ _. wrong_number-Ends fd c tok.state g)
      (λ _ _. shut_now fd c)

k_command-Ends :
    (fd currpid len : ℕ) (c : Bool) (atoi : Text → ℕ) (tok : Tok) (g : Globals)
    → Ends fd Leaves c (k_command atoi currpid fd len tok g)
k_command-Ends fd currpid len c atoi tok g =
    Ends-if _ _ fd Leaves c ((len == 0) || is_normal tok.state)
      (λ _. wrong_number-Ends fd c tok.state g)
      (λ _.
        then_stay fd c (k atoi tok.str currpid fd) tok.state g
          (k-Ends fd currpid fd c atoi tok.str))

a_command-Ends :
    (fd len : ℕ) (c : Bool) (atoi : Text → ℕ) (tok : Tok) (g : Globals)
    → Ends fd Leaves c (a_command atoi len tok g)
unfolding Ends
a_command-Ends fd len c atoi tok g =
    Ends-if _ _ fd Leaves c ((len == 0) || is_normal tok.state)
      (λ _. wrong_number-Ends fd c tok.state g)
      (λ _ pid _.
        then_stay fd ((c || false) || false) (start entry_a tok.detach) tok.state
          (record g { shellpid = pid; milliseconds = atoi tok.str })
          (start-Ends fd ((c || false) || false) entry_a tok.detach))

t_command-Ends : (fd : ℕ) (c : Bool) (tok : Tok) (g : Globals) → Ends fd Leaves c (t_command tok g)
t_command-Ends fd c tok g =
    Ends-if _ _ fd Leaves c (is_normal tok.state) (λ _. wrong_number-Ends fd c tok.state g)
      (λ _.
        then_stay fd c (start entry_t tok.detach) tok.state g (start-Ends fd c entry_t tok.detach))

p_command-Ends : (fd : ℕ) (c : Bool) (tok : Tok) (g : Globals) → Ends fd Leaves c (p_command tok g)
p_command-Ends fd c tok g =
    Ends-if _ _ fd Leaves c (is_normal tok.state) (λ _. wrong_number-Ends fd c tok.state g)
      (λ _. then_stay fd c p tok.state g (p-Ends fd c))

test_command-Ends :
    (fd : ℕ) (c : Bool) (tok : Tok) (g : Globals) → Ends fd Leaves c (test_command fd tok g)
unfolding Ends
test_command-Ends fd c tok g _ _ _ = rw (shut_now fd c) refl

invalid_command-Ends :
    (fd : ℕ) (c : Bool) (state : TokState) (g : Globals)
    → Ends fd Leaves c (invalid_command state g)
unfolding Ends
invalid_command-Ends fd c state g _ = tt

with_next-Ends :
    (fd f e : ℕ) (c : Bool) (tok : Tok) (m : ℕ → Tok → Prog After)
    → is_line_end (tok.dup e) ≡ true
    → e < f
    → (is_normal tok.state ≡ true → tok.ind ≤ e)
    → ((len : ℕ) (t : Tok) → Ends fd Leaves c (m len t))
    → Ends fd Leaves c (with_next f tok m)
with_next-Ends fd f e c tok m h lt le k =
    let (len, t, q) = next_token-ends f e tok h lt le in rw q (k len t)

pub command-Ends :
    (fd f e currpid : ℕ) (c : Bool) (atoi : Text → ℕ) (tok : Tok) (g : Globals)
    → is_line_end (tok.dup e) ≡ true
    → e < f
    → (is_normal tok.state ≡ true → tok.ind ≤ e)
    → Ends fd Leaves c (command f atoi currpid fd tok g)
unfolding command
command-Ends fd f e currpid c atoi tok g h lt le =
    Ends-if _ _ fd Leaves c (same_str (codes "x") tok.str 0) (λ _. x_command-Ends fd c tok g)
      (λ _.
        Ends-if _ _ fd Leaves c (same_str (codes "p") tok.str 0) (λ _. p_command-Ends fd c tok g)
          (λ _.
            Ends-if _ _ fd Leaves c (same_str (codes "k") tok.str 0)
              (λ _.
                with_next-Ends fd f e c tok (λ len t. k_command atoi currpid fd len t g) h lt le
                  (λ len t. k_command-Ends fd currpid len c atoi t g))
              (λ _.
                Ends-if _ _ fd Leaves c (same_str (codes "a") tok.str 0)
                  (λ _.
                    with_next-Ends fd f e c tok (λ len t. a_command atoi len t g) h lt le
                      (λ len t. a_command-Ends fd len c atoi t g))
                  (λ _.
                    Ends-if _ _ fd Leaves c (same_str (codes "t") tok.str 0)
                      (λ _. t_command-Ends fd c tok g)
                      (λ _.
                        Ends-if _ _ fd Leaves c (same_str (codes "test") tok.str 0)
                          (λ _.
                            with_next-Ends fd f e c tok (λ _ t. test_command fd t g) h lt le
                              (λ len t. test_command-Ends fd c t g))
                          (λ _. invalid_command-Ends fd c tok.state g))))))
