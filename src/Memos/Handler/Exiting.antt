-- ===== src/Memos/Handler/Exiting.antt =====
-- INT_SYS_EXIT of OS/WeensyOS/MemOS/kernel.c.
use code_snippet.Prelude.{
  ℕ, zero, suc, ◌≤◌, ◌<◌, ◌≡◌, ◌≢◌, refl, ◌∙◌, sym, ap, arith, Bool, true, false, ◌==◌, ltb, ◌&&◌,
  inl, inr, Bool-cases,
}
use mathlib.Core.Path.{subst}
use code_snippet.Memos.Paging.{pagenumber, pte_addr, entry}
use code_snippet.Memos.Pages.{
  Pages, po_free, po_kernel, npages, is_referenced, released, release_pagetable,
}
use code_snippet.Memos.Pages.Owners.{owner_of}
use code_snippet.Memos.Pages.Release.{
  target, range-frees, range-once, release_page-free, release_page-other,
}
use code_snippet.Memos.Kernel.{
  Kernel, p_free, is_free, current_proc, release_tables, set_state, schedule, nproc,
}
use code_snippet.Memos.Handler.{
  sys_exit, all_below, check_owner, virtual_memory_check, check_pagetable, check_process,
  expected_kernel_refcount,
}

-- The kernel in which the exit calls the scheduler.
abbrev pub exited : Kernel → Kernel
exited k = set_state p_free (record k {
  pages = release_tables (current_proc k).p_pid (current_proc k).p_pagetable k.pages;
})

-- The level-2 table of the current process.
abbrev pub level2_of : Kernel → ℕ
level2_of k = pte_addr (entry k.pages.memory (current_proc k).p_pagetable 0)

abbrev pub refers : Kernel → ℕ → ℕ
refers k j = target k.pages (level2_of k) j

exit-schedules : (k : Kernel) → sys_exit k ≡ schedule (exited k)
unfolding sys_exit
exit-schedules k = refl

release_pagetable-frees :
    (owner pagetable q j : ℕ) (s : Pages)
    → 256 ≤ j
    → j < 768
    → target s pagetable j ≡ q
    → s.pageinfo q ≡ record { owner = owner; refcount = 1 }
    → owner_of (release_pagetable owner pagetable s) q ≡ po_free
unfolding release_pagetable
release_pagetable-frees owner pagetable q j s a b e o =
    release_page-free owner pagetable q _
      (range-frees 512 256 owner pagetable q j s a (omega (arith, b)) e (inl o))

-- An exit frees each page that its process owns, that has no other reference and that one of the user's
-- entries refers to; the process is then free, and another one is looked for.
pub exit_frees :
    (k : Kernel) (q j : ℕ)
    → 256 ≤ j
    → j < 768
    → refers k j ≡ q
    → k.pages.pageinfo q ≡ record { owner = (current_proc k).p_pid; refcount = 1 }
    → (k' : Kernel) × (sys_exit k ≡ schedule k')
      × (owner_of k'.pages q ≡ po_free)
      × ((k'.processes k.current).p_state ≡ p_free)
exit_frees k q j from to e o = (
  exited k,
  exit-schedules k,
  release_page-free (current_proc k).p_pid (current_proc k).p_pagetable q _
      (release_pagetable-frees (current_proc k).p_pid (level2_of k) q j k.pages from to e o),
  ground arith,
)

release_pagetable-once :
    (owner pagetable q j : ℕ) (s : Pages)
    → 256 ≤ j
    → j < 768
    → target s pagetable j ≡ q
    → ((e : ℕ) → 256 ≤ e → e < 768 → e ≢ j → target s pagetable e ≢ q)
    → pagenumber pagetable ≢ q
    → owner_of s q ≡ owner
    → is_referenced (s.pageinfo q).refcount ≡ true
    → (release_pagetable owner pagetable s).pageinfo q ≡ released (s.pageinfo q)
unfolding release_pagetable
release_pagetable-once owner pagetable q j s a b e others ne o r =
    release_page-other owner pagetable q _ ne
    ∙ range-once 512 256 owner pagetable q j s a (omega (arith, b)) e
        (λ f x y d. others f x (omega (arith, y)) d) o r

all_below-false : (n i : ℕ) (p : ℕ → Bool) → i < n → p i ≡ false → all_below n p ≡ false
unfolding all_below
all_below-false zero i p l e = absurd (omega (arith, l))
all_below-false (suc n) i p l e = elim (Bool-cases (i == n)) [
  | inl c ↦
      (let last : p n ≡ false = subst (λ z. p z ≡ false) (ground (arith, c)) e in rw last refl)
  | inr c ↦
      (let rest = all_below-false n i p (ground (arith, c, l)) e in
        and-false (p n) (all_below n p) rest)
]
  where
    and-false : (a b : Bool) → b ≡ false → (a && b) ≡ false
    and-false a b e = ground (arith, e)

check-fails :
    (k : Kernel) → all_below npages (check_owner k) ≡ false → virtual_memory_check k ≡ false
unfolding virtual_memory_check
check-fails k e =
    last (is_free (k.processes 0).p_state)
      (check_pagetable k.kernel_pagetable po_kernel (expected_kernel_refcount k) k.pages)
      (all_below nproc (check_process k)) (all_below npages (check_owner k)) e
  where
    last : (a b c d : Bool) → d ≡ false → (a && b && c && d) ≡ false
    last a b c d e = ground (arith, e)

stranded-fails :
    (k : Kernel) (q pid : ℕ)
    → k.pages.pageinfo q ≡ record { owner = pid; refcount = 1 }
    → pid < 128
    → is_free (k.processes pid).p_state ≡ true
    → check_owner k q ≡ false
unfolding check_owner
stranded-fails k q pid e l f =
    let small : ltb pid 128 ≡ true = ground (arith, l) in rw (check_owner, e, f, small) refl

-- A page that its owner shares with one more reference, and that one of the owner's entries refers to, is
-- still in use after the owner's exit, in the name of a process that is free: the kernel's own check fails.
pub exit_strands_shared_page :
    (k : Kernel) (q j : ℕ)
    → 256 ≤ j
    → j < 768
    → refers k j ≡ q
    → ((i : ℕ) → 256 ≤ i → i < 768 → i ≢ j → refers k i ≢ q)
    → pagenumber (level2_of k) ≢ q
    → pagenumber (current_proc k).p_pagetable ≢ q
    → q < npages
    → (current_proc k).p_pid ≡ k.current
    → k.current < 16
    → k.pages.pageinfo q ≡ record { owner = k.current; refcount = 2 }
    → (k' : Kernel) × (sys_exit k ≡ schedule k')
      × (k'.pages.pageinfo q ≡ record { owner = k.current; refcount = 1 })
      × (virtual_memory_check k' ≡ false)
exit_strands_shared_page k q j from to e others ne2 ne1 lq own small o =
    let pid = (current_proc k).p_pid in
    let left : (exited k).pages.pageinfo q ≡ record { owner = k.current; refcount = 1 } =
      release_page-other pid (current_proc k).p_pagetable q _ ne1
      ∙ release_pagetable-once pid (level2_of k) q j k.pages from to e others ne2
          (ap (λ z. z.owner) o ∙ sym own) (ap (λ z. is_referenced z.refcount) o)
      ∙ ap (λ z. released z) o in
    (
      exited k,
      exit-schedules k,
      left,
      check-fails (exited k) (
          all_below-false npages q (check_owner (exited k)) lq
            (stranded-fails (exited k) q k.current left (omega (arith, small)) (ground arith))),
    )
