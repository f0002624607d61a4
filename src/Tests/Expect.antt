-- ===== src/Tests/Expect.antt =====
-- What a test of c/test.c that only opens, closes and prints should print, by the descriptors alone, and
-- that the kernel of c/disp.c makes it print just that.
use xeros_kernel.Devices.{di_close, di_open}
use mathlib.Core.Option
use xeros_kernel.Tests.{done, say, warn, fill, ask, ioctl, Test}
use xeros_kernel.Tests.Run.{run, Line, returned, switched, Outcome, with_bytes}
use xeros_kernel.Tests.Table.{Table, Agrees, open_of, close_of, di_open-Answers}
use xeros_kernel.Tests.Close.{di_close-Answers}
use xeros_kernel.Dispatch.Serve.{serve}
use xeros_kernel.Dispatch.Request.{sys_getpid, sys_open, sys_close}
use xeros_kernel.System.{Env, System, with_pcbs, set_rc}
use xeros_kernel.Base.{
  ap, sym, subst, ◌==◌, if◌then◌else◌, none, refl, ◌∙◌, ==_self, ◌≡◌, some, List, Option, ℕ, [],
  ◌∷◌,
}

-- The lines, the descriptors at the end and the result; nothing for a test that makes other calls.
abbrev pub Expected : Type 0 → Type 0
Expected A = Option (List Line × Table × A)

abbrev pub with_line : {A : Type 0} → Line → List Line × Table × A → List Line × Table × A
with_line l (ls, T, a) = (l ∷ ls, T, a)

unfoldable pub expect : {A : Type 0} → ℕ → Table → Test A → Expected A
expect pid T (done a) = some ([], T, a)
expect pid T (say text args k) = Option.map (with_line (text, args)) (expect pid T k)
expect pid T (warn text k) = expect pid T k
expect pid T (fill a bs k) = expect pid T k
expect pid T (ask sys_getpid k) = expect pid T (k pid)
expect pid T (ask (sys_open n) k) = expect pid (open_of n T).1 (k (open_of n T).0)
expect pid T (ask (sys_close fd) k) = expect pid (close_of fd T).1 (k (close_of fd T).0)
expect pid T (ask r k) = none
expect pid T (ioctl fd command args k) = none

rc_of : (p v : ℕ) (s : System) → ((set_rc p v s).kernel.pcbs p).rc ≡ v
rc_of p v s = rw (==_self p) refl

set_rc-Agrees :
    (p pid v : ℕ) (s : System) (T : Table)
    → Agrees p pid s.devices s.kernel.pcbs T
    → let s' = set_rc p v s in Agrees p pid s'.devices s'.kernel.pcbs T
set_rc-Agrees p pid v s T h = record {
  pid_of = rw (==_self p) h.pid_of;
  fds_of = λ i r. rw (==_self p) (h.fds_of i r);
  kbd_of = h.kbd_of;
  devs = h.devs;
}

module _ {A : Type 0} (e : Env) (f va p pid : ℕ) where
  -- The run returns with the lines, the descriptors and the result that are expected.
  abbrev pub Meets : List Line × Outcome A → Expected A → Type 0
  Meets r none = Unit
  Meets r (some (ls, T, a)) =
      (s : System) × (r ≡ (ls, returned a s)) × Agrees p pid s.devices s.kernel.pcbs T

  say-Meets :
      (l : Line) (r : List Line × Outcome A) (o : Expected A)
      → Meets r o
      → Meets (l ∷ r.0, r.1) (Option.map (with_line l) o)
  say-Meets l r none h = tt
  say-Meets l r (some (ls, T, a)) (s, q, h) = (s, ap (λ r. (l ∷ r.0, r.1)) q, h)

  -- The process goes on with the result of its call.
  answered :
      (s : System) (k : ℕ → Test A) (o : Expected A) (v : ℕ)
      → (s.kernel.pcbs p).rc ≡ v
      → Meets (run e f va p s (k v)) o
      → Meets (if p == p then run e f va p s (k (s.kernel.pcbs p).rc) else ([], switched p s)) o
  answered s k o v h m =
      subst
        (λ b. Meets (if b then run e f va p s (k (s.kernel.pcbs p).rc) else ([], switched p s)) o)
        (sym (==_self p)) (subst (λ w. Meets (run e f va p s (k w)) o) (sym h) m)

  -- Let T be the table of the four descriptors of process p, and whether the keyboard is open, as
  -- the kernel's state has them. `expect` describes calls by T alone: an open takes the lowest
  -- free descriptor, unless there is none, the device is not there, or it is the keyboard and
  -- open; a close takes one that is open. A program for which it gives lines, a table and a
  -- result, which it does for those that ask for their pid, open, close, print and store, runs on
  -- the switch of `dispatch` without a change of process, prints those lines and returns that
  -- result, and the state then has that table.
  pub run-expect :
      (k : Test A) (s : System) (T : Table)
      → Agrees p pid s.devices s.kernel.pcbs T
      → Meets (run e f va p s k) (expect pid T k)
  unfolding run expect serve
  run-expect (done a) s T h = (s, refl, h)
  run-expect (say text args k) s T h = say-Meets (text, args) _ _ (run-expect k s T h)
  run-expect (warn text k) s T h = run-expect k s T h
  run-expect (fill a bs k) s T h =
      run-expect k (with_bytes a bs s) T
        (record { pid_of = h.pid_of; fds_of = h.fds_of; kbd_of = h.kbd_of; devs = h.devs })
  run-expect (ask sys_getpid k) s T h =
      let s' = set_rc p (s.kernel.pcbs p).pid s in
      answered s' k _ pid (rc_of p _ s ∙ h.pid_of)
        (run-expect (k pid) s' T (set_rc-Agrees p pid _ s T h))
  run-expect (ask (sys_open n) k) s T h =
      let r = di_open p n s.devices s.kernel.pcbs in
      let ok = di_open-Answers p pid n s.devices s.kernel.pcbs T h in
      let u = record (with_pcbs s r.2) { devices = r.1 } in
      let T' = (open_of n T).1 in
      let v = (open_of n T).0 in
      answered (set_rc p r.0 u) k _ v (rc_of p r.0 u ∙ ok.0)
        (run-expect (k v) (set_rc p r.0 u) T' (set_rc-Agrees p pid r.0 u T' ok.1))
  run-expect (ask (sys_close fd) k) s T h =
      let r = di_close p fd s.devices s.kernel.pcbs in
      let ok = di_close-Answers p pid fd s.devices s.kernel.pcbs T h in
      let u = record (with_pcbs s r.2) { devices = r.1 } in
      let T' = (close_of fd T).1 in
      let v = (close_of fd T).0 in
      answered (set_rc p r.0 u) k _ v (rc_of p r.0 u ∙ ok.0)
        (run-expect (k v) (set_rc p r.0 u) T' (set_rc-Agrees p pid r.0 u T' ok.1))
  run-expect (ask r k) s T h = tt
  run-expect (ioctl fd command args k) s T h = tt
