-- ===== src/Miniproc/Wake.antt =====
-- The loop of kernel.c that wakes the processes in the waiting queue of `current`.
use code_snippet.Prelude.{
  ℕ, zero, suc, ◌+◌, ◌≤◌, ◌<◌, ◌≡◌, refl, ◌∙◌, ◌==◌, arith, if◌then◌else◌, for_range, ℕ_discrete,
  ◌≢◌, ◌⊎◌,
}
use code_snippet.Miniproc.Machine.{Kernel, Process, empty, runnable, with_eax}
use code_snippet.Miniproc.Interrupt.{wake_one, wake_waiters}

-- What the loop leaves alone, in one round and so in all.
pub record Same (k k' : Kernel) : Type 0 where
  pub current : k'.current ≡ k.current
  pub mem : k'.mem ≡ k.mem
  pub queue : (j : ℕ) → (k'.proc_array j).waiting_q ≡ (k.proc_array j).waiting_q
  pub status : (j : ℕ) → (k'.proc_array j).p_exit_status ≡ (k.proc_array j).p_exit_status
  pub pid : (j : ℕ) → (k'.proc_array j).p_pid ≡ (k.proc_array j).p_pid

Same-refl : (k : Kernel) → Same k k
Same-refl k = record {
  current = refl;
  mem = refl;
  queue = λ j. refl;
  status = λ j. refl;
  pid = λ j. refl;
}

Same-trans : {a b c : Kernel} → Same a b → Same b c → Same a c
Same-trans p q = record {
  current = q.current ∙ p.current;
  mem = q.mem ∙ p.mem;
  queue = λ j. q.queue j ∙ p.queue j;
  status = λ j. q.status j ∙ p.status j;
  pid = λ j. q.pid j ∙ p.pid j;
}

wake_one-Same : (s i : ℕ) (k : Kernel) → Same k (wake_one s i k)
unfolding wake_one
wake_one-Same s i k = record {
  current = ground arith;
  mem = ground arith;
  queue = λ j. ground arith;
  status = λ j. ground arith;
  pid = λ j. ground arith;
}

abbrev pub wake_from : ℕ → ℕ → ℕ → Kernel → Kernel
wake_from n i s k = for_range n i (wake_one s) k

wake_from-Same : (n i s : ℕ) (k : Kernel) → Same k (wake_from n i s k)
unfolding for_range
wake_from-Same zero i s k = Same-refl k
wake_from-Same (suc n) i s k =
    Same-trans (wake_one-Same s i k) (wake_from-Same n (i + 1) s (wake_one s i k))

pub wake_waiters-Same : (s : ℕ) (k : Kernel) → Same k (wake_waiters s k)
unfolding wake_waiters
wake_waiters-Same s k = wake_from-Same 15 1 s k

-- A woken process runs again, and finds the exit status of `s` in %eax.
abbrev pub woken : ℕ → Kernel → Process → Process
woken s k p = with_eax (k.proc_array s).p_exit_status (record p { p_state = runnable })

-- One round, for a process other than the current one.
wake_one-other :
    (s i j : ℕ) (k : Kernel)
    → j ≢ k.current
    → (wake_one s i k).proc_array j ≡ (
        if i == j
        then (if (k.proc_array k.current).waiting_q i == 0
            then k.proc_array j
            else woken s k (k.proc_array j))
        else k.proc_array j)
unfolding wake_one
wake_one-other s i j k ne = ground arith

-- The loop, for a process other than the current one: nothing changes before its round, …
wake_from-outside :
    (n i s j : ℕ) (k : Kernel)
    → j ≢ k.current
    → (j < i) ⊎ (i + n ≤ j)
    → (wake_from n i s k).proc_array j ≡ k.proc_array j
unfolding for_range
wake_from-outside zero i s j k ne h = refl
wake_from-outside (suc n) i s j k ne h =
    wake_from-outside n (i + 1) s j (wake_one s i k) (rw (wake_one-Same s i k).current ne)
      (omega arith)
    ∙ wake_one-other s i j k ne
    ∙ ground arith

-- … it is woken in its round, if it waits, and nothing changes after.
wake_from-inside :
    (n i s j : ℕ) (k : Kernel)
    → j ≢ k.current
    → i ≤ j
    → j < i + n
    → (wake_from n i s k).proc_array j ≡ (
        if (k.proc_array k.current).waiting_q j == 0
        then k.proc_array j
        else woken s k (k.proc_array j))
unfolding for_range
wake_from-inside zero i s j k ne l h = absurd (omega arith)
wake_from-inside (suc n) i s j k ne l h = elim (ℕ_discrete i j) [
  | yes e ↦
      wake_from-outside n (i + 1) s j (wake_one s i k) (rw (wake_one-Same s i k).current ne)
        (omega arith)
      ∙ wake_one-other s i j k ne
      ∙ ground arith
  | no e ↦
      let k' = wake_one s i k in
      let same = wake_one-Same s i k in
      ground (
        arith,
        wake_from-inside n (i + 1) s j k' (rw same.current ne) (omega arith) (omega arith),
        same.current,
        same.queue k.current,
        same.status s,
        wake_one-other s i j k ne,
      )
]

wake_one-current :
    (s i : ℕ) (k : Kernel)
    → ((wake_one s i k).proc_array k.current).p_state ≡ (
        if (k.proc_array k.current).waiting_q i == 0
        then (k.proc_array k.current).p_state
        else empty)
unfolding wake_one
wake_one-current s i k = ground arith

-- The current process is freed in the first round that finds a waiter, and stays so.
wake_from-stays_free :
    (n i s : ℕ) (k : Kernel)
    → (k.proc_array k.current).p_state ≡ empty
    → ((wake_from n i s k).proc_array k.current).p_state ≡ empty
unfolding for_range
wake_from-stays_free zero i s k e = e
wake_from-stays_free (suc n) i s k e = ground (
  arith,
  wake_from-stays_free n (i + 1) s (wake_one s i k),
  (wake_one-Same s i k).current,
  wake_one-current s i k,
)

wake_from-frees :
    (n i s w : ℕ) (k : Kernel)
    → i ≤ w
    → w < i + n
    → (k.proc_array k.current).waiting_q w ≢ 0
    → ((wake_from n i s k).proc_array k.current).p_state ≡ empty
unfolding for_range
wake_from-frees zero i s w k l h q = absurd (omega arith)
wake_from-frees (suc n) i s w k l h q =
    let k' = wake_one s i k in
    let same = wake_one-Same s i k in
    elim (ℕ_discrete i w) [
      | yes e ↦
          ground (arith, wake_from-stays_free n (i + 1) s k', same.current, wake_one-current s i k)
      | no e ↦ ground (arith, wake_from-frees n (i + 1) s w k', same.current, same.queue k.current)
    ]

-- With nobody waiting the loop does nothing.
wake_from-nobody :
    (n i s : ℕ) (k : Kernel)
    → ((w : ℕ) → i ≤ w → w < i + n → (k.proc_array k.current).waiting_q w ≡ 0)
    → wake_from n i s k ≡ k
unfolding for_range
wake_from-nobody zero i s k none_waits = refl
wake_from-nobody (suc n) i s k none_waits =
    rw (idle) (wake_from-nobody n (i + 1) s k (λ w l h. none_waits w (omega arith) (omega arith)))
  where
    idle : wake_one s i k ≡ k
    idle = unfold wake_one in ground (arith, none_waits i)

module _ (s : ℕ) (k : Kernel) where
  -- The loop of the source runs over processes 1 to 15.
  pub wake_waiters-other :
      (j : ℕ)
      → j ≢ k.current
      → 0 < j
      → j < 16
      → (wake_waiters s k).proc_array j ≡ (
          if (k.proc_array k.current).waiting_q j == 0
          then k.proc_array j
          else woken s k (k.proc_array j))
  unfolding wake_waiters
  wake_waiters-other j ne l h = wake_from-inside 15 1 s j k ne l h

  pub wake_waiters-frees :
      (w : ℕ)
      → 0 < w
      → w < 16
      → (k.proc_array k.current).waiting_q w ≢ 0
      → ((wake_waiters s k).proc_array k.current).p_state ≡ empty
  unfolding wake_waiters
  wake_waiters-frees w l h q = wake_from-frees 15 1 s w k l h q

  pub wake_waiters-nobody :
      ((w : ℕ) → 0 < w → w < 16 → (k.proc_array k.current).waiting_q w ≡ 0) → wake_waiters s k ≡ k
  unfolding wake_waiters
  wake_waiters-nobody none_waits = wake_from-nobody 15 1 s k none_waits
