-- ===== src/Shell/Tests.antt =====
-- A job list, the commands run on it, and the theorems on C/CSAPPLab/shell/tsh.c applied to it.
use code_snippet.Prelude.{
  ℕ, zero, suc, length, replicate, ◌+◌, ◌≡◌, ◌++◌, refl, arith, some, none, false, true, List, [],
  ◌∷◌, All, negsuc, pos,
}
use code_snippet.Shell.Jobs.{
  Job, Shell, cleared, bg, st, maxjobs, addjob, deletejob, fgpid, getjobpid, getjobjid, listjobs,
  maxjid, find_from, add_first, delete_first, clearjob, list_from, state_text, running, stopped,
  maxjid_from,
}
use code_snippet.Shell.Jobs.Slots.{Busy, NotOf}
use code_snippet.Shell.Jobs.Laws.{jids_collide_after_wrap}
use code_snippet.Shell.Command.{
  parseline, end_with_space, args_loop, next_arg, skip_spaces, split_at, take_background, quote,
  space, newline, builtin_cmd, strings_equal, bgfg,
}
use code_snippet.Shell.Command.Words.{IsWord, typed, mark, parseline_words, parseline_overflows}
use code_snippet.Shell.Control.{
  exited, stopped_by, eval_job, waitfg, sigchld_handler, reap_one, set_state_at, do_bgfg,
  bgfg_target, continued, usage, bad_argument,
}
use code_snippet.Shell.Control.Foreground.{NotFg, eval_leaves_no_foreground}
use code_snippet.Shell.Control.Returns.{eval_returns_at_exit}

abbrev job : ℕ → ℕ → ℕ → Job
job pid jid state = record { pid = pid; jid = jid; state = state; cmdline = [] }

-- Two background jobs, one stopped one, and two free slots.
abbrev three : List Job
three = job 101 1 bg ∷ job 102 2 bg ∷ job 103 3 st ∷ []

abbrev shell : Shell
shell = record { jobs = three ++ (cleared ∷ (cleared ∷ [])); nextjid = 4 }

fg_then_stop :
    sigchld_handler ((103, stopped_by 20) ∷ (101, exited) ∷ []) shell
    ≡ some (record {
      jobs = cleared ∷ job 102 2 bg ∷ job 103 3 st ∷ cleared ∷ cleared ∷ [];
      nextjid = 4;
    })
unfolding sigchld_handler reap_one set_state_at getjobpid find_from deletejob maxjid maxjid_from
    delete_first clearjob
fg_then_stop = refl

bgfg_cases :
    (do_bgfg true none shell ≡ usage)
    × (do_bgfg true (some (true, negsuc 0)) shell ≡ bad_argument)
    × (do_bgfg false (some (true, pos 3)) shell
        ≡ continued 103 (record {
          jobs = job 101 1 bg ∷ job 102 2 bg ∷ job 103 3 bg ∷ cleared ∷ cleared ∷ [];
          nextjid = 4;
        }))
unfolding do_bgfg bgfg_target getjobjid find_from set_state_at
bgfg_cases = (refl, refl, refl)

three_listed :
    listjobs three
    ≡ record { jid = 1; pid = 101; text = running; cmdline = [] }
      ∷ record { jid = 2; pid = 102; text = running; cmdline = [] }
      ∷ record { jid = 3; pid = 103; text = stopped; cmdline = [] }
      ∷ []
unfolding listjobs list_from state_text
three_listed = refl

three-Busy : All Busy three
three-Busy = (omega arith, (omega arith, (omega arith, tt)))

three-NotOf : All (NotOf 104) three
three-NotOf = (omega arith, (omega arith, (omega arith, tt)))

three-NotFg : All NotFg three
three-NotFg = (omega arith, (omega arith, (omega arith, tt)))

two-NotOf : All (NotOf 103) (job 101 1 bg ∷ job 102 2 bg ∷ [])
two-NotOf = (omega arith, (omega arith, tt))

jids_collide_after_wrap_example :
    (addjob 105 bg []
      (addjob 104 bg []
        (record { jobs = three ++ (cleared ∷ (cleared ∷ [])); nextjid = maxjobs })).1).1.jobs
    ≡ three ++ (job 104 16 bg ∷ (job 105 1 bg ∷ []))
jids_collide_after_wrap_example =
    jids_collide_after_wrap 104 105 bg [] [] (job 101 1 bg) (job 102 2 bg ∷ job 103 3 st ∷ []) [] []
      (omega arith) (omega arith) refl (omega arith) (omega arith, (omega arith, tt)) tt

eval_runs :
    eval_job false 104 [] (((102, exited) ∷ (104, exited) ∷ []) ∷ []) shell
    ≡ some (
        some (record {
          jobs = job 101 1 bg ∷ cleared ∷ job 103 3 st ∷ cleared ∷ cleared ∷ [];
          nextjid = 4;
        }))
unfolding eval_job waitfg addjob sigchld_handler reap_one deletejob maxjid maxjid_from fgpid
    add_first delete_first clearjob
eval_runs = refl

eval_leaves_no_foreground_example :
    All NotFg (job 101 1 bg ∷ cleared ∷ job 103 3 st ∷ cleared ∷ cleared ∷ [])
eval_leaves_no_foreground_example =
    eval_leaves_no_foreground 104 [] (((102, exited) ∷ (104, exited) ∷ []) ∷ []) shell
      (record {
        jobs = job 101 1 bg ∷ cleared ∷ job 103 3 st ∷ cleared ∷ cleared ∷ [];
        nextjid = 4;
      })
      (omega arith, (omega arith, (omega arith, (omega arith, (omega arith, tt))))) eval_runs

eval_returns_at_exit_example :
    eval_job false 104 [] (((104, exited) ∷ []) ∷ []) shell
    ≡ some (
        some (record {
          jobs = three ++ (cleared ∷ (cleared ∷ []));
          nextjid = maxjid (three ++ (cleared ∷ (cleared ∷ []))) + 1;
        }))
eval_returns_at_exit_example =
    eval_returns_at_exit 104 4 [] [] three cleared (cleared ∷ []) (omega arith) three-Busy
      three-NotOf refl three-NotFg (omega arith, tt)

-- "ab c &" and a newline.
parseline_words_example :
    parseline (typed (b'a' ∷ (b'b' ∷ [])) ((b'c' ∷ []) ∷ mark true))
    ≡ some ((b'a' ∷ (b'b' ∷ [])) ∷ ((b'c' ∷ []) ∷ []), true)
parseline_words_example =
    parseline_words true (b'a' ∷ (b'b' ∷ [])) ((b'c' ∷ []) ∷ [])
      ((omega arith, (omega arith, (omega arith, tt))), ((omega arith, (omega arith, tt)), tt))
      (refl, (refl, tt)) (omega arith)

quoted :
    parseline (quote ∷ b'a' ∷ space ∷ quote ∷ space ∷ space ∷ b'b' ∷ newline ∷ [])
    ≡ some ((b'a' ∷ space ∷ []) ∷ (b'b' ∷ []) ∷ [], false)
unfolding parseline end_with_space args_loop next_arg skip_spaces split_at take_background
quoted = refl

builtin_fg : builtin_cmd (b'f' ∷ b'g' ∷ []) ≡ bgfg true
unfolding builtin_cmd strings_equal
builtin_fg = refl

many-IsWord : (n : ℕ) → All IsWord (replicate n (b'a' ∷ []))
many-IsWord zero = tt
many-IsWord (suc n) = ((omega arith, (omega arith, tt)), many-IsWord n)

many_length : (n : ℕ) → length {A = List ℕ} (replicate n (b'a' ∷ [])) ≡ n
many_length zero = refl
many_length (suc n) = omega (arith, many_length n)

parseline_overflows_example : parseline (typed (b'a' ∷ []) (replicate 127 (b'a' ∷ []))) ≡ none
parseline_overflows_example =
    parseline_overflows (b'a' ∷ []) (replicate 127 (b'a' ∷ []))
      ((omega arith, (omega arith, tt)), many-IsWord 127) (omega (arith, many_length 127))
