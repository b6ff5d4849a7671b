-- ===== src/Shell/Jobs/Slots.antt =====
-- Where addjob and deletejob of C/CSAPPLab/shell/tsh.c write in the list.
use code_snippet.Prelude.{
  ℕ, ◌+◌, ◌<◌, ◌≤◌, ◌≡◌, ◌≢◌, refl, none, some, ltb, if◌then◌else◌, arith, List, [], ◌∷◌, ◌++◌, All,
  ap,
}
use code_snippet.Shell.Jobs.{
  Job, Shell, cleared, clearjob, add_first, wrap, addjob, delete_first, deletejob, maxjid_from,
  maxjid,
}

abbrev pub Busy : Job → Type 0
Busy j = j.pid ≢ 0

abbrev pub NotOf : ℕ → Job → Type 0
NotOf pid j = j.pid ≢ pid

add_first-split :
    (new : Job) (xs : List Job) (j : Job) (ys : List Job)
    → All Busy xs
    → j.pid ≡ 0
    → add_first new (xs ++ (j ∷ ys)) ≡ some (xs ++ (new ∷ ys))
unfolding add_first
add_first-split new [] j ys busy e = ground (arith, e)
add_first-split new (x ∷ xs) j ys busy e =
    ground (arith, busy.0, add_first-split new xs j ys busy.1 e)

add_first-full : (new : Job) (xs : List Job) → All Busy xs → add_first new xs ≡ none
unfolding add_first
add_first-full new [] busy = refl
add_first-full new (x ∷ xs) busy = ground (arith, busy.0, add_first-full new xs busy.1)

delete_first-split :
    (pid : ℕ) (xs : List Job) (j : Job) (ys : List Job)
    → All (NotOf pid) xs
    → j.pid ≡ pid
    → delete_first pid (xs ++ (j ∷ ys)) ≡ some (xs ++ (cleared ∷ ys))
unfolding delete_first clearjob
delete_first-split pid [] j ys other e = ground (arith, e)
delete_first-split pid (x ∷ xs) j ys other e =
    ground (arith, other.0, delete_first-split pid xs j ys other.1 e)

delete_first-none : (pid : ℕ) (xs : List Job) → All (NotOf pid) xs → delete_first pid xs ≡ none
unfolding delete_first
delete_first-none pid [] other = refl
delete_first-none pid (x ∷ xs) other = ground (arith, other.0, delete_first-none pid xs other.1)

-- A job with a positive process id goes into the first free slot, with the next job id, and the result
-- is 1; the other slots stay, and the next job id goes up by one or back to 1 past `maxjobs`.
pub addjob_takes_first_free :
    (pid state : ℕ) (cmdline : List ℕ) (n : ℕ) (xs : List Job) (j : Job) (ys : List Job)
    → 0 < pid
    → All Busy xs
    → j.pid ≡ 0
    → addjob pid state cmdline (record { jobs = xs ++ (j ∷ ys); nextjid = n }) ≡ (
      1,
      record {
        jobs = xs ++ (record { pid = pid; jid = n; state = state; cmdline = cmdline } ∷ ys);
        nextjid = wrap (n + 1);
      },
    )
unfolding addjob
addjob_takes_first_free pid state cmdline n xs j ys p busy e = ground (
  arith,
  p,
  add_first-split (record { pid = pid; jid = n; state = state; cmdline = cmdline }) xs j ys busy e,
)

-- On a full list addjob changes nothing and returns 0.
pub addjob_full :
    (pid state : ℕ) (cmdline : List ℕ) (s : Shell)
    → All Busy s.jobs
    → addjob pid state cmdline s ≡ (0, s)
unfolding addjob
addjob_full pid state cmdline s busy = ground (
  arith,
  add_first-full (record { pid = pid; jid = s.nextjid; state = state; cmdline = cmdline }) s.jobs
      busy,
)

-- A positive process id that is on the list is taken off: its first slot is cleared, the result is 1 and
-- the next job id is one more than the largest left.
pub deletejob_clears_first :
    (pid n : ℕ) (xs : List Job) (j : Job) (ys : List Job)
    → 0 < pid
    → All (NotOf pid) xs
    → j.pid ≡ pid
    → deletejob pid (record { jobs = xs ++ (j ∷ ys); nextjid = n })
      ≡ (1, record { jobs = xs ++ (cleared ∷ ys); nextjid = maxjid (xs ++ (cleared ∷ ys)) + 1 })
unfolding deletejob
deletejob_clears_first pid n xs j ys p other e =
    ground (arith, p, delete_first-split pid xs j ys other e)

-- A process id that is not on the list is not deleted: nothing changes and the result is 0.
pub deletejob_missing : (pid : ℕ) (s : Shell) → All (NotOf pid) s.jobs → deletejob pid s ≡ (0, s)
unfolding deletejob
deletejob_missing pid s other = ground (arith, delete_first-none pid s.jobs other)

maxjid_from-bound :
    (js : List Job) (m : ℕ) → (m ≤ maxjid_from m js) × All (λ j. j.jid ≤ maxjid_from m js) js
unfolding maxjid_from
maxjid_from-bound [] m = (omega arith, tt)
maxjid_from-bound (j ∷ js) m =
    let r = maxjid_from-bound js (if ltb m j.jid then j.jid else m) in
    (ground (arith, r.0), (ground (arith, r.0), r.1))

-- After a deletion every job id of the list is below the next one.
below_next : (js : List Job) → All (λ j. j.jid < maxjid js + 1) js
unfolding maxjid
below_next js = weaken js (maxjid_from-bound js 0).1
  where
    weaken :
        (us : List Job)
        → All (λ j. j.jid ≤ maxjid_from 0 js) us
        → All (λ j. j.jid < maxjid_from 0 js + 1) us
    weaken [] a = tt
    weaken (u ∷ us) a = (omega (arith, a.0), weaken us a.1)

-- After the deletion of a process on the list, the next job id is larger than that of every job left.
pub deletejob_makes_fresh :
    (pid n : ℕ) (xs : List Job) (j : Job) (ys : List Job)
    → 0 < pid
    → All (NotOf pid) xs
    → j.pid ≡ pid
    → (s' : Shell) × (deletejob pid (record { jobs = xs ++ (j ∷ ys); nextjid = n }) ≡ (1, s'))
      × All (λ k. k.jid < s'.nextjid) s'.jobs
deletejob_makes_fresh pid n xs j ys p other e = (
  record { jobs = xs ++ (cleared ∷ ys); nextjid = maxjid (xs ++ (cleared ∷ ys)) + 1 },
  deletejob_clears_first pid n xs j ys p other e,
  below_next (xs ++ (cleared ∷ ys)),
)

-- Adding a process that is not on the list before its slot, and deleting it again, gives the list back
-- when the first free slot was a cleared one.
pub delete_undoes_add :
    (pid state : ℕ) (cmdline : List ℕ) (n : ℕ) (xs ys : List Job)
    → 0 < pid
    → All Busy xs
    → All (NotOf pid) xs
    → (let s : Shell = record { jobs = xs ++ (cleared ∷ ys); nextjid = n } in
        (deletejob pid (addjob pid state cmdline s).1).1.jobs ≡ s.jobs)
delete_undoes_add pid state cmdline n xs ys p busy other =
    let new : Job = record { pid = pid; jid = n; state = state; cmdline = cmdline } in
    rw (addjob_takes_first_free pid state cmdline n xs cleared ys p busy refl)
      (ap (λ r. r.1.jobs) (deletejob_clears_first pid (wrap (n + 1)) xs new ys p other refl))
