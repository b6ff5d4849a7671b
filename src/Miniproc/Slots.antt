-- ===== src/Miniproc/Slots.antt =====
-- `do_fork` and `do_newthread` of kernel.c: which slot a child takes, and the answer when none is free.
use code_snippet.Prelude.{
  ℕ, zero, suc, ◌+◌, ◌≤◌, ◌<◌, ◌≡◌, refl, ◌∙◌, ◌⊎◌, inl, inr, arith, Bool-cases, ap, Option, none,
  some, ℕ_discrete,
}
use code_snippet.Miniproc.Machine.{
  Kernel, Process, Registers, empty, is_empty, nprocs, minus_one, set_eax, run,
}
use code_snippet.Miniproc.Fork.{
  empty_from, empty_slot, fork_into, do_fork, thread_into, do_newthread,
}
use code_snippet.Miniproc.Interrupt.{eax, save, sys_fork, sys_thread, dispatch, interrupt}

abbrev pub EmptyAt : Kernel → ℕ → Type 0
EmptyAt k i = (k.proc_array i).p_state ≡ empty

-- The answer of a search for a slot among `n` from `i` on.
abbrev pub Found : Kernel → ℕ → ℕ → Option ℕ → Type 0
Found k n i none = (j : ℕ) → i ≤ j → j < i + n → ¬ EmptyAt k j
Found k n i (some j) =
    (i ≤ j) × (j < i + n) × EmptyAt k j × ((e : ℕ) → i ≤ e → e < j → ¬ EmptyAt k e)

empty_from-Found : (n i : ℕ) (k : Kernel) → Found k n i (empty_from n i k)
unfolding empty_from
empty_from-Found zero i k = λ j l h. absurd (omega arith)
empty_from-Found (suc n) i k = elim (Bool-cases (is_empty (k.proc_array i).p_state)) [
  | inl e ↦ rw e (omega arith, omega arith, ground arith, λ j l h. absurd (omega arith))
  | inr e ↦ rw e (later (empty_from n (i + 1) k) (empty_from-Found n (i + 1) k) (ground arith))
]
  where
    later : (o : Option ℕ) → Found k n (i + 1) o → ¬ EmptyAt k i → Found k (suc n) i o
    later none f busy = λ j l h. elim (ℕ_discrete i j) [
      | yes e ↦ ground arith
      | no e ↦ f j (omega arith) (omega arith)
    ]
    later (some m) f busy = (
      omega (arith, f),
      omega (arith, f),
      f.2,
      λ j l h. elim (ℕ_discrete i j) [ yes e ↦ ground arith | no e ↦ f.3 j (omega arith) h ],
    )

-- `do_fork` and `do_newthread` take the lowest empty slot of 1 to 15, and none exactly if all are
-- taken.
pub empty_slot-Found : (k : Kernel) → Found k 15 1 (empty_slot k)
unfolding empty_slot
empty_slot-Found k = empty_from-Found 15 1 k

empty_from-save :
    (n i : ℕ) (reg : Registers) (k : Kernel) → empty_from n i (save reg k) ≡ empty_from n i k
unfolding empty_from
empty_from-save zero i reg k = refl
empty_from-save (suc n) i reg k = ground (arith, empty_from-save n (i + 1) reg k)

empty_slot-save : (reg : Registers) (k : Kernel) → empty_slot (save reg k) ≡ empty_slot k
unfolding empty_slot
empty_slot-save reg k = empty_from-save 15 1 reg k

interrupt-fork :
    (reg : Registers) (k : Kernel) → reg.reg_intno ≡ 49 → interrupt reg k ≡ sys_fork (save reg k)
unfolding interrupt dispatch
interrupt-fork reg k e = ap (λ n. dispatch n (save reg k)) e

interrupt-thread :
    (reg : Registers) (k : Kernel) → reg.reg_intno ≡ 53 → interrupt reg k ≡ sys_thread (save reg k)
unfolding interrupt dispatch
interrupt-thread reg k e = ap (λ n. dispatch n (save reg k)) e

abbrev pub saved : Registers → Kernel → Process
saved reg k = record (k.proc_array k.current) { p_registers = reg }

pub do_fork-none : (p : ℕ) (k : Kernel) → empty_slot k ≡ none → do_fork p k ≡ (minus_one, k)
unfolding do_fork
do_fork-none p k e = rw (e, do_fork)

pub do_fork-some :
    (p : ℕ) (k : Kernel) {c : ℕ} → empty_slot k ≡ some c → do_fork p k ≡ (c, fork_into c p k)
unfolding do_fork
do_fork-some p k e = rw (e, do_fork)

pub do_newthread-none :
    (p entry : ℕ) (k : Kernel) → empty_slot k ≡ none → do_newthread p entry k ≡ (minus_one, k)
unfolding do_newthread
do_newthread-none p entry k e = rw (e, do_newthread)

pub do_newthread-some :
    (p entry : ℕ) (k : Kernel) {c : ℕ}
    → empty_slot k ≡ some c
    → do_newthread p entry k ≡ (c, thread_into c p entry k)
unfolding do_newthread
do_newthread-some p entry k e = rw (e, do_newthread)

full_slot :
    (k : Kernel) (o : Option ℕ)
    → Found k 15 1 o
    → ((j : ℕ) → 0 < j → j < nprocs → ¬ EmptyAt k j)
    → o ≡ none
full_slot k none f full = refl
full_slot k (some j) f full = absurd (full j f.0 f.1 f.2)

-- With no empty slot among 1 to 15 both calls return -1, and change nothing else.
pub child_refused :
    (reg : Registers) (k : Kernel)
    → (reg.reg_intno ≡ 49) ⊎ (reg.reg_intno ≡ 53)
    → ((j : ℕ) → 0 < j → j < nprocs → ¬ EmptyAt k j)
    → interrupt reg k ≡ run k.current (set_eax k.current minus_one (save reg k))
unfolding sys_fork sys_thread
child_refused reg k (inl e) full =
    interrupt-fork reg k e
    ∙ rw (
        do_fork-none k.current (save reg k)
          (empty_slot-save reg k ∙ full_slot k _ (empty_slot-Found k) full))
child_refused reg k (inr e) full =
    interrupt-thread reg k e
    ∙ rw (
        do_newthread-none k.current (eax k.current (save reg k)) (save reg k)
          (empty_slot-save reg k ∙ full_slot k _ (empty_slot-Found k) full))

-- The kernel after a successful call: the child is made in the table that holds the caller's saved
-- registers, and the caller gets the child's ID.
pub fork_run :
    (reg : Registers) (k : Kernel) {c : ℕ}
    → reg.reg_intno ≡ 49
    → empty_slot k ≡ some c
    → let made = fork_into c k.current (save reg k) in
      interrupt reg k ≡ run made.current (set_eax made.current c made)
unfolding sys_fork
fork_run reg k e slot =
    interrupt-fork reg k e ∙ rw (do_fork-some k.current (save reg k) (empty_slot-save reg k ∙ slot))

pub thread_run :
    (reg : Registers) (k : Kernel) {c : ℕ}
    → reg.reg_intno ≡ 53
    → empty_slot k ≡ some c
    → let made = thread_into c k.current (eax k.current (save reg k)) (save reg k) in
      interrupt reg k ≡ run made.current (set_eax made.current c made)
unfolding sys_thread
thread_run reg k e slot =
    interrupt-thread reg k e
    ∙ rw (
        do_newthread-some k.current (eax k.current (save reg k)) (save reg k)
          (empty_slot-save reg k ∙ slot))
