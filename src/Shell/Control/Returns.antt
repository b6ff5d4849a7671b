-- ===== src/Shell/Control/Returns.antt =====
-- The foreground wait of C/CSAPPLab/shell/tsh.c ends when the job does.
use code_snippet.Prelude.{ℕ, ◌+◌, ◌<◌, ◌≡◌, refl, some, false, arith, List, [], ◌∷◌, ◌++◌, All}
use code_snippet.Shell.Jobs.{Job, cleared, fg, maxjid, wrap, fgpid}
use code_snippet.Shell.Jobs.Slots.{Busy, NotOf, addjob_takes_first_free, deletejob_clears_first}
use code_snippet.Shell.Control.{Status, exited, reap_one, sigchld_handler, waitfg, eval_job}
use code_snippet.Shell.Control.Foreground.{NotFg}

fgpid-new :
    (xs : List Job) (new : Job) (ys : List Job)
    → All NotFg xs
    → new.state ≡ fg
    → fgpid (xs ++ (new ∷ ys)) ≡ new.pid
unfolding fgpid
fgpid-new [] new ys a e = ground (arith, e)
fgpid-new (x ∷ xs) new ys a e = ground (arith, a.0, fgpid-new xs new ys a.1 e)

fgpid-none : (xs ys : List Job) → All NotFg xs → All NotFg ys → fgpid (xs ++ (cleared ∷ ys)) ≡ 0
unfolding fgpid
fgpid-none [] ys a b = rest ys b
  where
    rest : (us : List Job) → All NotFg us → fgpid us ≡ 0
    rest [] a = refl
    rest (u ∷ us) a = ground (arith, a.0, rest us a.1)
fgpid-none (x ∷ xs) ys a b = ground (arith, a.0, fgpid-none xs ys a.1 b)

-- A command that is run in the foreground, in the first free slot of a list without a foreground job and
-- without its process id before that slot, returns to the prompt when the first report is that the
-- process has exited: its slot is cleared, and the next job id is one more than the largest left.
pub eval_returns_at_exit :
    (pid n : ℕ) (cmdline : List ℕ) (bs : List (List (ℕ × Status))) (xs : List Job) (j : Job)
    (ys : List Job)
    → 0 < pid
    → All Busy xs
    → All (NotOf pid) xs
    → j.pid ≡ 0
    → All NotFg xs
    → All NotFg ys
    → eval_job false pid cmdline
        (((pid, exited) ∷ []) ∷ bs)
        (record { jobs = xs ++ (j ∷ ys); nextjid = n })
      ≡ some (
          some
            (record { jobs = xs ++ (cleared ∷ ys); nextjid = maxjid (xs ++ (cleared ∷ ys)) + 1 }))
unfolding eval_job waitfg sigchld_handler reap_one
eval_returns_at_exit pid n cmdline bs xs j ys p busy other free fx fy =
    let new : Job = record { pid = pid; jid = n; state = fg; cmdline = cmdline } in
    rw
      (
        addjob_takes_first_free pid fg cmdline n xs j ys p busy free,
        deletejob_clears_first pid (wrap (n + 1)) xs new ys p other refl,
      )
      (ground (arith, fgpid-new xs new ys fx refl, after bs))
  where
    after :
        (cs : List (List (ℕ × Status)))
        → waitfg pid cs
            (record { jobs = xs ++ (cleared ∷ ys); nextjid = maxjid (xs ++ (cleared ∷ ys)) + 1 })
          ≡ some (
              some (record {
                jobs = xs ++ (cleared ∷ ys);
                nextjid = maxjid (xs ++ (cleared ∷ ys)) + 1;
              }))
    after [] = ground (arith, fgpid-none xs ys fx fy, p)
    after (c ∷ cs) = ground (arith, fgpid-none xs ys fx fy, p)
