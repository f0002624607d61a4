-- ===== src/Shell/Tokenizer.antt =====
-- `token` of c/user.c. A line is a function from places to characters; `kbd_eof` is 0. The loop
-- over blanks has no bound in the code, and takes fuel.
use xeros_kernel.Keyboard.{newline}
use xeros_kernel.Base.{
  not, ◌&&◌, zero, suc, ◌||◌, true, some, ◌==◌, none, ◌+◌, if◌then◌else◌, Option, false, Bool, ℕ,
}

-- TOK_NORMAL, TOK_ENTER and TOK_EOF.
pub data TokState : Type 0 where
  tok_normal tok_enter tok_eof : TokState

abbrev pub buffer_size : ℕ
buffer_size = 128

abbrev pub Text : Type 0
Text = ℕ → ℕ

pub record Tok : Type 0 where
  pub ind : ℕ
  pub state : TokState
  pub detach : Bool
  pub dup : Text
  pub str : Text

-- `memset(tok, 0, sizeof(tok_t)); tok->dup = s`.
abbrev pub fresh_tok : Text → Tok
fresh_tok s = record { ind = 0; state = tok_normal; detach = false; dup = s; str = λ _. 0 }

-- A blank or a tab.
abbrev pub is_blank : ℕ → Bool
is_blank c = (c == 9) || (c == 32)

abbrev pub kbd_eof : ℕ
kbd_eof = 0

-- The characters that end a line.
abbrev pub is_line_end : ℕ → Bool
is_line_end c = (c == newline) || (c == kbd_eof)

-- DETACH, the character &.
abbrev pub detach_char : ℕ
detach_char = 38

-- The inner loop, from place i on: the first place that holds no blank.
unfoldable pub skip_blanks : ℕ → ℕ → Text → Option ℕ
skip_blanks zero i s = none
skip_blanks (suc f) i s =
    let rest = skip_blanks f (suc i) s in if is_blank (s i) then rest else some i

-- `tok->str[len] = c`.
abbrev pub put_char : Text → ℕ → ℕ → Text
put_char s i c j = if j == i then c else s j

-- The state after a plain character, which ends a detach that was not the last.
abbrev pub take_char : ℕ → Tok → Tok
take_char len t = record t {
  ind = t.ind + 1;
  detach = false;
  str = put_char t.str len (t.dup t.ind);
}

-- A turn of the loop past the blanks, and `rest` for the turns after it.
abbrev pub after_blanks : ℕ → Bool → Tok → (ℕ → Tok → Option (ℕ × Tok)) → Option (ℕ × Tok)
after_blanks len space t rest =
    let c = t.dup t.ind in
    let amp = c == detach_char in
    let more =
      rest (if amp then len else suc len)
        (if amp then record t { ind = t.ind + 1; detach = true } else take_char len t) in
    if c == newline
    then some (len, record t { ind = t.ind + 1; state = tok_enter })
    else if c == kbd_eof
    then some (len, record t { ind = t.ind + 1; state = tok_eof })
    else if space && not amp
    then some (len, t)
    else more

-- The loop of `token`, for n turns at most.
unfoldable pub token_loop : ℕ → ℕ → ℕ → Bool → Tok → Option (ℕ × Tok)
token_loop zero f len space t = some (len, t)
token_loop (suc n) f len space t =
    if is_blank (t.dup t.ind)
    then elim (skip_blanks f (t.ind + 1) t.dup) [
      | none ↦ none
      | some i ↦ after_blanks len true (record t { ind = i }) (λ l u. token_loop n f l true u)
    ]
    else after_blanks len space t (λ l u. token_loop n f l space u)

abbrev pub is_normal : TokState → Bool
is_normal tok_normal = true
is_normal _ = false

-- `token`: `s` is NULL for the next token of the same line.
unfoldable pub token : ℕ → Option Text → Tok → Option (ℕ × Tok)
token f s t =
    let t' = elim s as (λ _. Tok) [
      | none ↦ record t { str = λ _. 0 }
      | some line ↦ fresh_tok line
    ] in
    if is_normal t'.state then token_loop buffer_size f 0 false t' else some (0, t')
