-- ===== src/Shell/Control.antt =====
-- The commands fg and bg, the foreground wait and the signal handlers of C/CSAPPLab/shell/tsh.c.
pub mod Foreground
pub mod Returns
use code_snippet.Prelude.{
  ℕ, zero, suc, Option, none, some, Bool, true, false, ◌==◌, ltb, if◌then◌else◌, List, [], ◌∷◌, ℤ,
  pos, negsuc, get_elem?, ◌⊎◌, inl, inr,
}
use code_snippet.Shell.Jobs.{
  Job, Shell, fg, bg, st, addjob, deletejob, fgpid, getjobpid, getjobjid, undef,
}

-- What waitpid(2) reports of a child.
pub data Status : Type 0 where
  stopped_by : ℕ → Status
  signaled_by : ℕ → Status
  exited : Status

unfoldable pub set_state_at : ℕ → ℕ → List Job → List Job
set_state_at i v [] = []
set_state_at zero v (j ∷ js) = record j { state = v } ∷ js
set_state_at (suc i) v (j ∷ js) = j ∷ set_state_at i v js

-- One turn of the loop of `sigchld_handler`. `none` is `app_error`, which ends the shell.
unfoldable pub reap_one : ℕ → Status → Shell → Option Shell
reap_one pid (stopped_by sig) s = elim (getjobpid pid s.jobs) [
  | none ↦ none
  | some i ↦ some (record s { jobs = set_state_at i st s.jobs })
]
reap_one pid (signaled_by sig) s = some (deletejob pid s).1
reap_one pid exited s = some (deletejob pid s).1

-- The handler: `reports` is what its calls of waitpid(2) return until one returns 0 or less.
unfoldable pub sigchld_handler : List (ℕ × Status) → Shell → Option Shell
sigchld_handler [] s = some s
sigchld_handler (r ∷ rs) s = elim (reap_one r.0 r.1 s) [
  | none ↦ none
  | some s' ↦ sigchld_handler rs s'
]

-- The group that `sigint_handler` and `sigtstp_handler` signal, if there is one.
unfoldable pub signal_target : Shell → Option ℕ
signal_target s = if fgpid s.jobs == 0 then none else some (fgpid s.jobs)

-- `waitfg`: between two reads of the list the handler runs on one batch of reports. `none` inside is
-- a wait that is not over.
unfoldable pub waitfg : ℕ → List (List (ℕ × Status)) → Shell → Option (Option Shell)
waitfg pid [] s = some (if pid == fgpid s.jobs then none else some s)
waitfg pid (b ∷ bs) s =
    let rest : Option (Option Shell) = elim (sigchld_handler b s) [
      | none ↦ none
      | some s' ↦ waitfg pid bs s'
    ] in
    if pid == fgpid s.jobs then rest else some (some s)

-- What `do_bgfg` does before the wait: a message, or a process group to continue in the new list.
pub data BgFg : Type 0 where
  usage : BgFg
  bad_argument : BgFg
  no_such_job : ℕ → BgFg
  no_such_process : ℕ → BgFg
  continued : ℕ → Shell → BgFg

abbrev pub pid_at : ℕ → List Job → ℕ
pid_at i jobs = elim (get_elem? jobs i) [ none ↦ 0 | some j ↦ j.pid ]

-- `is_job` is the `%` before the number; `arg` is what atoi(3) makes of the rest.
unfoldable pub bgfg_target : Bool → ℤ → List Job → BgFg ⊎ (ℕ × ℕ)
bgfg_target is_job (negsuc n) jobs = inl bad_argument
bgfg_target true (pos jid) jobs = elim (getjobjid jid jobs) [
  | none ↦ inl (no_such_job jid)
  | some i ↦ inr (i, pid_at i jobs)
]
bgfg_target false (pos pid) jobs = elim (getjobpid pid jobs) [
  | none ↦ inl (no_such_process pid)
  | some i ↦ inr (i, pid)
]

unfoldable pub do_bgfg : Bool → Option (Bool × ℤ) → Shell → BgFg
do_bgfg is_fg none s = usage
do_bgfg is_fg (some arg) s = elim (bgfg_target arg.0 arg.1 s.jobs) [
  | inl answer ↦ answer
  | inr t ↦ continued t.1 (record s { jobs = set_state_at t.0 (if is_fg then fg else bg) s.jobs })
]

-- The parent's side of `eval` for a command that is not built in: SIGCHLD stays blocked until the job is
-- on the list, and only a foreground job is waited for.
unfoldable pub eval_job :
    Bool → ℕ → List ℕ → List (List (ℕ × Status)) → Shell → Option (Option Shell)
eval_job is_bg pid cmdline batches s =
    let s' = (addjob pid (if is_bg then bg else fg) cmdline s).1 in
    if is_bg then some (some s') else waitfg pid batches s'
