-- ===== src/Shell/Control/Foreground.antt =====
-- The foreground job of C/CSAPPLab/shell/tsh.c: a command that returns to the prompt leaves none.
use code_snippet.Prelude.{
  ℕ, zero, suc, ◌+◌, ◌≡◌, ◌≢◌, refl, Option, none, some, false, ◌==◌, ltb, arith, List, [], ◌∷◌,
  All, sym, Bool-cases, inl, inr,
}
use mathlib.Core.Path.{subst}
use code_snippet.Shell.Jobs.{
  Job, Shell, clearjob, fg, st, add_first, addjob, delete_first, deletejob, fgpid, getjobpid,
  maxjid, wrap,
}
use code_snippet.Shell.Control.{
  Status, stopped_by, signaled_by, exited, set_state_at, reap_one, sigchld_handler, waitfg,
  eval_job,
}

-- A job in the foreground is process `pid`.
abbrev pub FgIs : ℕ → Job → Type 0
FgIs pid j = j.state ≡ fg → j.pid ≡ pid

abbrev pub NotFg : Job → Type 0
NotFg j = j.state ≢ fg

NotFg-FgIs : (pid : ℕ) (js : List Job) → All NotFg js → All (FgIs pid) js
NotFg-FgIs pid [] a = tt
NotFg-FgIs pid (j ∷ js) a = (λ e. elim (a.0 e) [ ], NotFg-FgIs pid js a.1)

set_state_at-FgIs :
    (pid i v : ℕ) (js : List Job)
    → v ≢ fg
    → All (FgIs pid) js
    → All (FgIs pid) (set_state_at i v js)
unfolding set_state_at
set_state_at-FgIs pid i v [] ne a = tt
set_state_at-FgIs pid zero v (j ∷ js) ne a = (λ e. elim (ne e) [ ], a.1)
set_state_at-FgIs pid (suc i) v (j ∷ js) ne a = (a.0, set_state_at-FgIs pid i v js ne a.1)

-- The list after `delete_first`, which may be the same.
abbrev kept : Option (List Job) → List Job → List Job
kept none js = js
kept (some js') js = js'

kept-cons :
    (o : Option (List Job)) (j : Job) (js : List Job)
    → kept (elim o [ none ↦ none | some js' ↦ some (j ∷ js') ]) (j ∷ js) ≡ j ∷ kept o js
kept-cons none j js = refl
kept-cons (some js') j js = refl

delete_first-FgIs :
    (pid q : ℕ) (js : List Job) → All (FgIs pid) js → All (FgIs pid) (kept (delete_first q js) js)
unfolding delete_first clearjob
delete_first-FgIs pid q [] a = tt
delete_first-FgIs pid q (j ∷ js) a = elim (Bool-cases (j.pid == q)) [
  | inl e ↦ rw e (λ z. ground arith, a.1)
  | inr e ↦ rw (e, kept-cons (delete_first q js) j js) (a.0, delete_first-FgIs pid q js a.1)
]

deletejob-FgIs :
    (pid q : ℕ) (s : Shell) → All (FgIs pid) s.jobs → All (FgIs pid) (deletejob q s).1.jobs
unfolding deletejob
deletejob-FgIs pid q s a = elim (Bool-cases (ltb q 1)) [
  | inl e ↦ rw e a
  | inr e ↦ rw e (pick (delete_first q s.jobs) (delete_first-FgIs pid q s.jobs a))
]
  where
    pick :
        (o : Option (List Job))
        → All (FgIs pid) (kept o s.jobs)
        → All
            (FgIs pid)
            (elim o as (λ x. ℕ × Shell) [
              | none ↦ (0, s)
              | some jobs ↦ (1, record { jobs = jobs; nextjid = maxjid jobs + 1 })
            ]).1.jobs
    pick none b = b
    pick (some jobs) b = b

-- What holds of a value that is there.
abbrev OnSome : {A : Type 0} → (A → Type 0) → Option A → Type 0
OnSome P none = Unit
OnSome P (some a) = P a

OnSome-at : {A : Type 0} (P : A → Type 0) (o : Option A) (a : A) → o ≡ some a → OnSome P o → P a
OnSome-at P o a e h = subst (OnSome P) e h

OnSome-bind :
    {A B : Type 0} (P : B → Type 0) (o : Option A) (f : A → Option B)
    → ((a : A) → o ≡ some a → OnSome P (f a))
    → OnSome P (elim o [ none ↦ none | some a ↦ f a ])
OnSome-bind P none f h = tt
OnSome-bind P (some a) f h = h a refl

-- No report brings another process to the foreground.
reap_one-FgIs :
    (pid q : ℕ) (r : Status) (s : Shell)
    → All (FgIs pid) s.jobs
    → OnSome (λ s'. All (FgIs pid) s'.jobs) (reap_one q r s)
unfolding reap_one
reap_one-FgIs pid q (stopped_by sig) s a =
    OnSome-bind (λ (s' : Shell). All (FgIs pid) s'.jobs) (getjobpid q s.jobs)
      (λ i. some (record s { jobs = set_state_at i st s.jobs }))
      (λ i e. set_state_at-FgIs pid i st s.jobs (omega arith) a)
reap_one-FgIs pid q (signaled_by sig) s a = deletejob-FgIs pid q s a
reap_one-FgIs pid q exited s a = deletejob-FgIs pid q s a

sigchld_handler-FgIs :
    (pid : ℕ) (rs : List (ℕ × Status)) (s : Shell)
    → All (FgIs pid) s.jobs
    → OnSome (λ s'. All (FgIs pid) s'.jobs) (sigchld_handler rs s)
unfolding sigchld_handler
sigchld_handler-FgIs pid [] s a = a
sigchld_handler-FgIs pid (r ∷ rs) s a =
    OnSome-bind (λ (s' : Shell). All (FgIs pid) s'.jobs) (reap_one r.0 r.1 s) (sigchld_handler rs)
      (λ s1 e. sigchld_handler-FgIs pid rs s1 (
        OnSome-at (λ s'. All (FgIs pid) s'.jobs) (reap_one r.0 r.1 s) s1 e
          (reap_one-FgIs pid r.0 r.1 s a)))

no_foreground : (pid : ℕ) (js : List Job) → All (FgIs pid) js → pid ≢ fgpid js → All NotFg js
unfolding fgpid
no_foreground pid [] a ne = tt
no_foreground pid (j ∷ js) a ne = elim (Bool-cases (j.state == fg)) [
  | inl e ↦ elim (rw e at ne (sym (a.0 (ground (arith, e))))) [ ]
  | inr e ↦ (ground (arith, e), no_foreground pid js a.1 (rw e at ne))
]

waitfg-NotFg :
    (pid : ℕ) (bs : List (List (ℕ × Status))) (s : Shell)
    → All (FgIs pid) s.jobs
    → OnSome (OnSome (λ s'. All NotFg s'.jobs)) (waitfg pid bs s)
unfolding waitfg
waitfg-NotFg pid [] s a = elim (Bool-cases (pid == fgpid s.jobs)) [
  | inl e ↦ rw e tt
  | inr e ↦ rw e (no_foreground pid s.jobs a (ground (arith, e)))
]
waitfg-NotFg pid (b ∷ bs) s a = elim (Bool-cases (pid == fgpid s.jobs)) [
  | inl e ↦ rw e (
      OnSome-bind (OnSome (λ (s' : Shell). All NotFg s'.jobs)) (sigchld_handler b s) (waitfg pid bs)
        (λ s1 g. waitfg-NotFg pid bs s1 (
          OnSome-at (λ s'. All (FgIs pid) s'.jobs) (sigchld_handler b s) s1 g
            (sigchld_handler-FgIs pid b s a))))
  | inr e ↦ rw e (no_foreground pid s.jobs a (ground (arith, e)))
]

add_first-FgIs :
    (pid : ℕ) (new : Job) (js : List Job)
    → FgIs pid new
    → All (FgIs pid) js
    → All (FgIs pid) (kept (add_first new js) js)
unfolding add_first
add_first-FgIs pid new [] n a = tt
add_first-FgIs pid new (j ∷ js) n a = elim (Bool-cases (j.pid == 0)) [
  | inl e ↦ rw e (n, a.1)
  | inr e ↦ rw (e, kept-cons (add_first new js) j js) (a.0, add_first-FgIs pid new js n a.1)
]

addjob-FgIs :
    (pid v : ℕ) (c : List ℕ) (s : Shell)
    → All (FgIs pid) s.jobs
    → All (FgIs pid) (addjob pid v c s).1.jobs
unfolding addjob
addjob-FgIs pid v c s a = elim (Bool-cases (ltb pid 1)) [
  | inl e ↦ rw e a
  | inr e ↦ rw e (pick (add_first new s.jobs) (add_first-FgIs pid new s.jobs (λ z. refl) a))
]
  where
    new : Job
    new = record { pid = pid; jid = s.nextjid; state = v; cmdline = c }

    pick :
        (o : Option (List Job))
        → All (FgIs pid) (kept o s.jobs)
        → All
            (FgIs pid)
            (elim o as (λ x. ℕ × Shell) [
              | none ↦ (0, s)
              | some jobs ↦ (1, record { jobs = jobs; nextjid = wrap (s.nextjid + 1) })
            ]).1.jobs
    pick none b = b
    pick (some jobs) b = b

-- When no job of the list is in the foreground and a command is run in the foreground, whatever the
-- handler of SIGCHLD reaps meanwhile, none is in the foreground when `eval` returns.
pub eval_leaves_no_foreground :
    (pid : ℕ) (cmdline : List ℕ) (batches : List (List (ℕ × Status))) (s s' : Shell)
    → All NotFg s.jobs
    → eval_job false pid cmdline batches s ≡ some (some s')
    → All NotFg s'.jobs
unfolding eval_job
eval_leaves_no_foreground pid cmdline batches s s' a e =
    let s1 = (addjob pid fg cmdline s).1 in
    let r = waitfg-NotFg pid batches s1 (addjob-FgIs pid fg cmdline s (NotFg-FgIs pid s.jobs a)) in
    OnSome-at (λ s2. All NotFg s2.jobs) (some s') s' refl
      (OnSome-at (OnSome (λ s2. All NotFg s2.jobs)) (waitfg pid batches s1) (some s') e r)
