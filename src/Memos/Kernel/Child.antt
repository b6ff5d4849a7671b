-- ===== src/Memos/Kernel/Child.antt =====
-- What `fork` of OS/WeensyOS/MemOS/kernel.c makes of the child.
use code_snippet.Prelude.{
  ℕ, ◌+◌, ◌*◌, ◌/◌, ◌≤◌, ◌<◌, ◌≡◌, ◌≢◌, refl, ◌∙◌, ap, arith, Option, none, some, Bool, true, false,
  ◌==◌,
}
use mathlib.Core.Path.{subst}
use code_snippet.Memos.Paging.{minus_one, virtual_memory_lookup}
use code_snippet.Memos.Pages.{Pages, copy_pagetable}
use code_snippet.Memos.Pages.Counting.{writable_entries}
use code_snippet.Memos.Kernel.{
  Kernel, p_runnable, is_free, is_runnable, current_proc, copy_pages, free_slot_from,
  give_pagetable, start_child, release_tables, fork_end, fork_with, fork,
}
use code_snippet.Memos.Kernel.Copying.{free_count, ends, runs_out, copy_pages-Loop}
use code_snippet.Memos.Kernel.Fork.{
  Parent, Inherits, made, no_table, copy_pagetable-Tables, forked_pages, forked-Family, forked-kept,
  Copied-Inherits,
}
use code_snippet.Memos.Kernel.Steps.{
  free_slot_from-free, not-both, copy-arguments, forked-start, fork-into, fork_into-with,
  fork_with-end, release_tables-memory, lookup_kept,
}

-- The other processes, the current process and what it has at page `j` stay.
pub record Stays (k : Kernel) (pid j : ℕ) (k' : Kernel) : Type 0 where
  pub others : (i : ℕ) → i ≢ pid → k'.processes i ≡ k.processes i
  pub current : k'.current ≡ k.current
  pub mapping :
      virtual_memory_lookup k'.pages.memory (current_proc k).p_pagetable (j * 4096)
      ≡ virtual_memory_lookup k.pages.memory (current_proc k).p_pagetable (j * 4096)

-- The outcomes of fork into slot `pid`, for the user's page `j` of a parent with its level-2 table at page
-- `t`: a child, no page for its memory, or no page for its tables.
pub data Forked (k : Kernel) (pid t j : ℕ) (r : Option (ℕ × Kernel)) : Type 0 where
  child :
      (k' : Kernel) (new : ℕ)
      → r ≡ some (pid, k')
      → free_count k.pages ≡ 2 + writable_entries (k.pages.memory t) 256 512 + free_count k'.pages
      → k'.processes pid ≡ record {
        p_pid = (k.processes pid).p_pid;
        p_registers = record (current_proc k).p_registers { reg_eax = 0 };
        p_state = p_runnable;
        p_pagetable = new;
      }
      → Inherits k.pages k'.pages pid (current_proc k).p_pagetable new t j
      → Stays k pid j k'
      → Forked k pid t j r
  no_memory :
      (k' : Kernel)
      → r ≡ some (minus_one, k')
      → 2 ≤ free_count k.pages
      → free_count k.pages < 2 + writable_entries (k.pages.memory t) 256 512
      → (k'.processes pid).p_state ≡ (k.processes pid).p_state
      → Stays k pid j k'
      → Forked k pid t j r
  no_tables : r ≡ none → free_count k.pages < 2 → Forked k pid t j r

-- When slot `pid` is the first free one, the current process runs in its own slot and its tables and
-- writable pages are in use, the number of free pages below 512 decides what fork does. It needs two for the
-- tables and one for each writable entry of the parent's table at the user's addresses. With fewer than two it
-- faults. With two but too few for the entries it returns -1, and the slot keeps its state. With enough it
-- makes a child and takes as many pages as it needs; the child is as its parent but for 0 in eax, and at each
-- page `j` of the user's addresses it has a page of its own with the parent's contents and permissions, if
-- the parent's is writable, and else what the parent has. Where it returns, the other processes, the current
-- process and the parent's mapping stay.
pub fork-Forked :
    (k : Kernel) (pid t j : ℕ)
    → free_slot_from 15 1 k ≡ some pid
    → (current_proc k).p_pid ≡ k.current
    → is_runnable (current_proc k).p_state ≡ true
    → Parent k.pages (current_proc k).p_pagetable t
    → 256 ≤ j
    → j < 768
    → Forked k pid t j (fork k)
unfolding fork_with fork_end
fork-Forked k pid t j slot own running w from to =
    let old = (current_proc k).p_pagetable in
    let s = k.pages in
    let spot = free_slot_from-free 15 1 k pid slot in
    let pos : pid ≢ 0 = λ e. absurd (omega (arith, e, spot.1)) in
    let apart : pid ≢ k.current = λ e.
      not-both (current_proc k).p_state
        (subst (λ i. is_free (k.processes i).p_state ≡ true) e spot.0) running in
    elim (copy_pagetable-Tables s pid old t pos w) [
      | no_table s' few e ↦
          no_tables (fork-into k pid none slot (fork_into-with k pid (none, s') none e refl)) few
      | made n u ln lu fn fu n_u e two ↦
          (let s0 = forked_pages s pid (old / 4096) t n u in
            let family = forked-Family s pid old t n u pos w lu fn fu n_u in
            let k1 = give_pagetable pid (n * 4096) s0 k in
            let needs : writable_entries (s0.memory t) 256 512
                ≡ writable_entries (s.memory t) 256 512 =
              ap (λ m. writable_entries m 256 512)
                (forked-kept s pid (old / 4096) t n u t fn fu w.t_used) in
            elim (copy_pages-Loop 512 s0 s0 pid (n * 4096) old t u 256 256 family
              (forked-start s pid old t n u family) (omega arith)) [
                | runs_out s1 c few at g ↦
                    no_memory (record k1 { pages = release_tables pid (n * 4096) s1 })
                      (steps n s0 (some (false, s1))
                        (some (minus_one, record k1 { pages = release_tables pid (n * 4096) s1 }))
                        apart e c refl)
                      (omega (arith, two)) (omega (arith, two, few, needs)) (ground arith)
                      (record {
                        others = λ i ne. ground (arith, ne);
                        current = refl;
                        mapping =
                            ap (λ m. virtual_memory_lookup m old (j * 4096))
                              (release_tables-memory pid (n * 4096) s1)
                            ∙ lookup_kept s s1 pid old t n u 256 at j w fn fu family g
                                (omega (arith, to));
                      })
                | ends s1 c g left ↦
                    child (start_child pid s1 k1) (n * 4096)
                      (steps n s0 (some (true, s1)) (some (pid, start_child pid s1 k1)) apart e c
                        refl)
                      (omega (arith, two, left, needs)) (child_proc n s0 s1 apart)
                      (Copied-Inherits s s1 pid old t n u j 256 768 w fn fu (omega (arith, to)) g
                        (g.done j from to))
                      (record {
                        others = λ i ne. ground (arith, ne);
                        current = refl;
                        mapping =
                            lookup_kept s s1 pid old t n u 256 768 j w fn fu family g
                              (omega (arith, to));
                      })
              ])
    ]
  where
    steps :
        (n : ℕ) (s0 : Pages) (x : Option (Bool × Pages)) (r : Option (ℕ × Kernel))
        → pid ≢ k.current
        → copy_pagetable (current_proc k).p_pagetable pid k.pages ≡ (some (n * 4096), s0)
        → copy_pages 512 (256 * 4096) pid (n * 4096) (current_proc k).p_pagetable s0 ≡ x
        → fork_end pid (n * 4096) (give_pagetable pid (n * 4096) s0 k) x ≡ r
        → fork k ≡ r
    steps n s0 x r apart e c f = fork-into k pid r slot (
        fork_into-with k pid (some (n * 4096), s0) r e
          (fork_with-end k pid (n * 4096) s0 x r (copy-arguments k pid (n * 4096) s0 own apart ∙ c)
            f))

    child_proc :
        (n : ℕ) (s0 s1 : Pages)
        → pid ≢ k.current
        → (start_child pid s1 (give_pagetable pid (n * 4096) s0 k)).processes pid ≡ record {
          p_pid = (k.processes pid).p_pid;
          p_registers = record (current_proc k).p_registers { reg_eax = 0 };
          p_state = p_runnable;
          p_pagetable = n * 4096;
        }
    child_proc n s0 s1 apart =
        let same : (pid == pid) ≡ true = ground arith in
        let other : (pid == k.current) ≡ false = ground (arith, apart) in rw (same, other) refl
