-- ===== src/Examples/Lines.antt =====
-- Lines for the shell and for the login.
use xeros_kernel.Shell.Program.{codes}
use xeros_kernel.Shell.Round.{shell_round}
use xeros_kernel.Shell.Ends.{token-ends}
use xeros_kernel.Shell.Accepts.{verify-Fits, Fits}
use xeros_kernel.Shell.Login.{password, user, verify}
use xeros_kernel.Shell.Closes.{shell_round-Shuts, Shuts}
use xeros_kernel.Shell.Word.{token-IsWord, IsWord, is_plain}
use xeros_kernel.Shell.Tokenizer.{buffer_size, fresh_tok, token, Tok, Text}
use xeros_kernel.Base.{
  ◌++◌, zero, suc, ◌<◌, refl, ◌≤◌, ◌↔◌, arith, ◌-◌, true, some, ◌==◌, ◌≡◌, if◌then◌else◌, List, ℕ,
  [], ◌∷◌,
}

-- The text with these characters, and 0 after them.
abbrev text : List ℕ → Text
text [] i = 0
text (c ∷ cs) i = if i == 0 then c else text cs (i - 1)

-- The line `ab`.
abbrev line : Text
line = text (97 ∷ 98 ∷ 10 ∷ [])

token-ends_example :
    (len : ℕ) × (tok : Tok) × (token 3 (some line) (fresh_tok line) ≡ some (len, tok))
    × (len ≤ buffer_size)
    × ((i : ℕ) → buffer_size ≤ i → tok.str i ≡ 0)
token-ends_example = token-ends 3 2 line (fresh_tok line) refl (omega arith)

plain_line : (i : ℕ) → i < 2 → is_plain (line i) ≡ true
plain_line zero h = refl
plain_line (suc zero) h = refl
plain_line (suc (suc i)) h = absurd (omega arith)

token-IsWord_example : IsWord (token 3 (some line) (fresh_tok line)) line 2
token-IsWord_example = token-IsWord 3 2 line (fresh_tok line) (omega arith) plain_line refl

shell_round-Shuts_example :
    Shuts
      (shell_round 128 (λ s. s 0) 2 (record { milliseconds = 0; shellpid = 0; test_case = line }))
shell_round-Shuts_example =
    shell_round-Shuts 128 2 (λ s. s 0) (record { milliseconds = 0; shellpid = 0; test_case = line })
      (omega arith)

-- The beginning of the name, and the password with a character more.
verify-Fits_example :
    (verify 4 (text (codes "cs4" ++ 10 ∷ [])) 4 (text (codes "pwx" ++ 10 ∷ [])) ≡ true) ↔ (
      Fits user 3 (text (codes "cs4" ++ 10 ∷ [])) × Fits password 3 (text (codes "pwx" ++ 10 ∷ [])))
verify-Fits_example =
    verify-Fits 3 3 (text (codes "cs4" ++ 10 ∷ [])) (text (codes "pwx" ++ 10 ∷ [])) (omega arith)
      (omega arith)
