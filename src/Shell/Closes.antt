-- ===== src/Shell/Closes.antt =====
-- That a round of the shell of c/user.c ends, and closes the keyboard that it opens.
use xeros_kernel.Shell.Round.{is_eof, end_round, shell_round, after_read, run_line, retry}
use xeros_kernel.Shell.Leaves.{command-Ends, shut_now, Leaves}
use xeros_kernel.Shell.Calls.{when-Ends, Ends-bind, Done, Ends-if, Answer, Ends}
use xeros_kernel.Shell.Ends.{first_token-ends}
use xeros_kernel.Shell.Command.{command, stay, Globals, gone, After, k, p}
use xeros_kernel.Shell.Tokenizer.{fresh_tok, buffer_size, is_line_end, Text}
use xeros_kernel.Shell.Program.{
  kprintf, ◌>>◌, open_device, puts, call, when, stuck, Statuses, getcputimes, read, act, pure, Prog,
  ◌>>=◌,
}
use xeros_kernel.Base.{
  ltb, inr, arith, inl, ◌-◌, ◌<◌, if◌then◌else◌, ◌||◌, ◌≤◌, false, true, ◌==◌, ◌≡◌, Bool, is_neg, ℕ,
}

-- The keyboard is closed.
abbrev IsShut : {A : Type 0} → Bool → A → Type 0
IsShut c a = c ≡ true

end_round-Ends : (fd : ℕ) (c : Bool) (a : After) → Leaves c a → Ends fd IsShut c (end_round fd a)
unfolding Ends
end_round-Ends fd c (gone r g) h = h
end_round-Ends fd c (stay state g) h = λ _. shut_now fd c

retry-Ends : (fd : ℕ) (c : Bool) (g : Globals) → Ends fd IsShut c (retry fd g)
unfolding Ends
retry-Ends fd c g = λ _. shut_now fd c

run_line-Ends :
    (fd f e currpid : ℕ) (c : Bool) (atoi : Text → ℕ) (buf : Text) (g : Globals)
    → is_line_end (buf e) ≡ true
    → e < f
    → Ends fd IsShut c (run_line f atoi currpid fd buf g)
unfolding Ends
run_line-Ends fd f e currpid c atoi buf g h lt =
    let (len, tok, q, h', le) = first_token-ends f e buf (fresh_tok buf) h lt in
    rw q (
      Ends-bind fd Done IsShut c (when (is_eof tok.state) (kprintf "\n"))
        (λ _.
          (if ltb 0 len then command f atoi currpid fd tok g else pure (stay tok.state g))
          >>= end_round fd)
        (when-Ends fd c (is_eof tok.state) (kprintf "\n"))
        (λ c' _ _.
          Ends-bind fd Leaves IsShut c'
            (if ltb 0 len then command f atoi currpid fd tok g else pure (stay tok.state g))
            (end_round fd)
            (Ends-if _ _ fd Leaves c' (ltb 0 len)
              (λ _. command-Ends fd f e currpid c' atoi tok g h' lt le) (λ _. tt))
            (λ c'' a l. end_round-Ends fd c'' a l)))

too_long-Ends :
    (fd : ℕ) (c : Bool) (g : Globals)
    → Ends fd IsShut c (call (puts "\nCommand too long.\n") >> retry fd g)
unfolding Ends
too_long-Ends fd c g _ _ = shut_now fd (c || false)

place_inside :
    (n f : ℕ)
    → buffer_size ≤ f
    → ((n == 0) || is_neg n) ≡ false
    → (n == buffer_size) ≡ false
    → Answer buffer_size n
    → n - 1 < f
place_inside n f le p q (inl w) = absurd (ground (arith, p, w))
place_inside n f le p q (inr w) = ground (arith, p, q, w, le)

after_read-Ends :
    (fd f currpid n : ℕ) (c : Bool) (atoi : Text → ℕ) (buf : Text) (g : Globals)
    → buffer_size ≤ f
    → Answer buffer_size n
    → Ends fd IsShut c (after_read f atoi currpid fd n buf g)
after_read-Ends fd f currpid n c atoi buf g le w =
    Ends-if _ _ fd IsShut c ((n == 0) || is_neg n) (λ _. retry-Ends fd c g)
      (λ p.
        Ends-if _ _ fd IsShut c (n == buffer_size) (λ _. too_long-Ends fd c g)
          (λ q.
            Ends-if _ _ fd IsShut c (is_line_end (buf (n - 1)))
              (λ h. run_line-Ends fd f (n - 1) currpid c atoi buf g h (place_inside n f le p q w))
              (λ _. retry-Ends fd c g)))

-- After each `sysopen` of a program, every way to its end goes through `sysclose` of the result.
pub Shuts : {A : Type 0} → Prog A → Type 0
Shuts (pure a) = Unit
Shuts (act x k) =
    (v : ℕ)
    → elim x as (λ _. Type 0) [ open_device d ↦ Ends v IsShut false (k v) | _ ↦ Shuts (k v) ]
Shuts (read d i n k) = (v : ℕ) (s : Text) → Shuts (k v s)
Shuts (getcputimes k) = (v : ℕ) (ps : Statuses) → Shuts (k v ps)
Shuts stuck = ⊥

-- Whatever the kernel answers, with reads that fail or give at most as many characters as were
-- asked for, a round of the shell with fuel of at least 128 ends, and every way from an open of a
-- device to the end of the round closes the descriptor that the open returned.
pub shell_round-Shuts :
    (f currpid : ℕ) (atoi : Text → ℕ) (g : Globals)
    → buffer_size ≤ f
    → Shuts (shell_round f atoi currpid g)
unfolding Shuts Ends shell_round
shell_round-Shuts f currpid atoi g le _ fd _ n buf w =
    after_read-Ends fd f currpid n false atoi buf g le w
