-- ===== src/Miniproc/Schedule.antt =====
-- `schedule` of kernel.c: a round robin over the table from the process after `current`.
use code_snippet.Prelude.{
  ℕ, zero, suc, ◌+◌, ◌%◌, ◌<◌, ◌≡◌, refl, ◌∙◌, ◌⊎◌, inl, inr, true, arith, if◌then◌else◌,
  Bool-cases, ap,
}
use mathlib.Core.Path.{subst}
use code_snippet.Miniproc.Machine.{Kernel, Outcome, spinning, run, nprocs, is_runnable}

-- The loop with `rounds` rounds left; when they are used up it has found nothing and spins.
unfoldable pub schedule_loop : ℕ → ℕ → Kernel → Outcome
schedule_loop zero pid k = spinning k
schedule_loop (suc rounds) pid k =
    let next = (pid + 1) % nprocs in
    let rest = schedule_loop rounds next k in
    if is_runnable (k.proc_array next).p_state then run next k else rest

-- One round for each descriptor: the table does not change while the kernel loops.
unfoldable pub schedule : Kernel → Outcome
schedule k = schedule_loop nprocs (k.proc_array k.current).p_pid k

abbrev pub RunnableAt : Kernel → ℕ → Type 0
RunnableAt k i = is_runnable (k.proc_array i).p_state ≡ true

-- What a loop that began after `pid` has decided: it runs the first runnable process among the next
-- `n`, or none of them is runnable.
abbrev pub Picks : Kernel → ℕ → ℕ → Outcome → Type 0
Picks k pid n out =
    ((d : ℕ) × (d < n)
      × RunnableAt k ((pid + 1 + d) % nprocs)
      × ((e : ℕ) → e < d → ¬ RunnableAt k ((pid + 1 + e) % nprocs))
      × (out ≡ run ((pid + 1 + d) % nprocs) k))
    ⊎ (((e : ℕ) → e < n → ¬ RunnableAt k ((pid + 1 + e) % nprocs)) × (out ≡ spinning k))

first : (pid : ℕ) → (pid + 1) % nprocs ≡ (pid + 1 + 0) % nprocs
first pid = omega arith

shift : (pid d : ℕ) → ((pid + 1) % nprocs + 1 + d) % nprocs ≡ (pid + 1 + suc d) % nprocs
shift pid d = omega arith

-- Going one round further keeps a run of processes that cannot run.
skip_more :
    (k : Kernel) (pid n : ℕ)
    → ¬ RunnableAt k ((pid + 1) % nprocs)
    → ((e : ℕ) → e < n → ¬ RunnableAt k (((pid + 1) % nprocs + 1 + e) % nprocs))
    → (e : ℕ) → e < suc n
    → ¬ RunnableAt k ((pid + 1 + e) % nprocs)
skip_more k pid n skip before zero l = subst (λ i. ¬ RunnableAt k i) (first pid) skip
skip_more k pid n skip before (suc e) l =
    subst (λ i. ¬ RunnableAt k i) (shift pid e) (before e (omega arith))

Picks-here :
    (k : Kernel) (pid n : ℕ)
    → RunnableAt k ((pid + 1) % nprocs)
    → Picks k pid (suc n) (run ((pid + 1) % nprocs) k)
Picks-here k pid n h = inl (
  0,
  omega arith,
  subst (λ i. RunnableAt k i) (first pid) h,
  (λ e l. elim l [ ]),
  ap (λ i. run i k) (first pid),
)

Picks-skip :
    (k : Kernel) (pid n : ℕ) (out : Outcome)
    → ¬ RunnableAt k ((pid + 1) % nprocs)
    → Picks k ((pid + 1) % nprocs) n out
    → Picks k pid (suc n) out
Picks-skip k pid n out skip (inl (d, l, r, before, e)) = inl (
  suc d,
  omega arith,
  subst (λ i. RunnableAt k i) (shift pid d) r,
  skip_more k pid d skip before,
  e ∙ ap (λ i. run i k) (shift pid d),
)
Picks-skip k pid n out skip (inr (nobody, e)) = inr (skip_more k pid n skip nobody, e)

schedule_loop-Picks : (n pid : ℕ) (k : Kernel) → Picks k pid n (schedule_loop n pid k)
unfolding schedule_loop
schedule_loop-Picks zero pid k = inr ((λ e l. elim l [ ]), refl)
schedule_loop-Picks (suc n) pid k = elim (Bool-cases (is_runnable (k.proc_array next).p_state)) [
  | inl yes_run ↦ rw yes_run (Picks-here k pid n yes_run)
  | inr no_run ↦ rw no_run (Picks-skip k pid n _ (λ e. cc) (schedule_loop-Picks n next k))
]
  where
    next : ℕ
    next = (pid + 1) % nprocs

-- The scheduler runs the first runnable process after the current one, counting round the table and
-- coming back to the current one last; it spins exactly when none of the 16 processes is runnable.
pub schedule-Picks : (k : Kernel) → Picks k (k.proc_array k.current).p_pid nprocs (schedule k)
unfolding schedule
schedule-Picks k = schedule_loop-Picks nprocs _ k
