-- ===== src/Memos/Kernel/Steps.antt =====
-- The steps of `fork` of OS/WeensyOS/MemOS/kernel.c, from the search of a slot to the release of the tables.
use code_snippet.Prelude.{
  ℕ, zero, suc, ◌+◌, ◌*◌, ◌/◌, ◌≤◌, ◌<◌, ◌≡◌, ◌≢◌, refl, ◌∙◌, sym, ap, arith, Option, some, Bool,
  true, for_range, inl, inr, Bool-cases,
}
use mathlib.Core.Path.{subst}
use code_snippet.Memos.Paging.{pte_addr, entry, virtual_memory_lookup}
use code_snippet.Memos.Paging.Mapping.{seen, lookup-seen}
use code_snippet.Memos.Pages.{Pages, po_free, copy_pagetable, release_pagetable}
use code_snippet.Memos.Pages.Owners.{owner_of}
use code_snippet.Memos.Pages.Release.{release_page-memory, round_of, range-memory}
use code_snippet.Memos.Kernel.{
  Kernel, ProcState, p_runnable, p_free, p_blocked, p_broken, is_free, is_runnable, current_proc,
  copy_pages, copy_writable_page, free_slot_from, give_pagetable, release_tables, fork_end,
  fork_with, fork_into, fork, proc_start_addr, memsize_virtual,
}
use code_snippet.Memos.Kernel.Forking.{Family, Going, Going-parent}
use code_snippet.Memos.Kernel.Fork.{Parent, forked_pages, forked-kept, forked-used}

pub free_slot_from-free :
    (rounds i : ℕ) (k : Kernel) (pid : ℕ)
    → free_slot_from rounds i k ≡ some pid
    → (is_free (k.processes pid).p_state ≡ true) × (i ≤ pid)
unfolding free_slot_from
free_slot_from-free zero i k pid e = absurd (ground (arith, e))
free_slot_from-free (suc rounds) i k pid e = elim (Bool-cases (is_free (k.processes i).p_state)) [
  | inl f ↦
      (let same : i ≡ pid = ground (arith, e, f) in
        (subst (λ q. is_free (k.processes q).p_state ≡ true) same f, omega (arith, same)))
  | inr f ↦
      (let rest = free_slot_from-free rounds (i + 1) k pid (rw f at e) in
        (rest.0, omega (arith, rest.1)))
]

pub not-both : (st : ProcState) → is_free st ≡ true → ¬ (is_runnable st ≡ true)
not-both p_free a b = absurd (ground (arith, b))
not-both p_runnable a b = absurd (ground (arith, a))
not-both p_blocked a b = absurd (ground (arith, a))
not-both p_broken a b = absurd (ground (arith, a))

pub copy-arguments :
    (k : Kernel) (pid table : ℕ) (s : Pages)
    → (current_proc k).p_pid ≡ k.current
    → pid ≢ k.current
    → copy_writable_page proc_start_addr memsize_virtual pid
        (current_proc k).p_pid
        (give_pagetable pid table s k)
      ≡ copy_pages 512 (256 * 4096) pid table (current_proc k).p_pagetable s
unfolding copy_writable_page
copy-arguments k pid table s own ne =
    let mine : ((give_pagetable pid table s k).processes pid).p_pagetable ≡ table = ground arith in
    let theirs : ((give_pagetable pid table s k).processes (current_proc k).p_pid).p_pagetable
        ≡ (current_proc k).p_pagetable =
      ap (λ i. ((give_pagetable pid table s k).processes i).p_pagetable) own ∙ ground (arith, ne) in
    ap
      (λ a.
        copy_pages 512 1048576 pid a
          ((give_pagetable pid table s k).processes (current_proc k).p_pid).p_pagetable s)
      mine
    ∙ ap (λ a. copy_pages 512 1048576 pid table a s) theirs

pub forked-start :
    (s : Pages) (pid old t n u : ℕ)
    → Family (forked_pages s pid (old / 4096) t n u) pid (n * 4096) old t u
    → Going
        (forked_pages s pid (old / 4096) t n u)
        (forked_pages s pid (old / 4096) t n u)
        pid
        (n * 4096)
        old
        t
        u
        256
        256
forked-start s pid old t n u f = record {
  child = f.child;
  kept = λ q a b. refl;
  owners = λ q a. refl;
  done = λ j a b. absurd (omega (arith, a, b));
  rest = λ j a. refl;
}

pub fork-into :
    (k : Kernel) (pid : ℕ) (r : Option (ℕ × Kernel))
    → free_slot_from 15 1 k ≡ some pid
    → fork_into pid k ≡ r
    → fork k ≡ r
unfolding fork
fork-into k pid r a b = rw (fork, a) b

pub fork_into-with :
    (k : Kernel) (pid : ℕ) (c : Option ℕ × Pages) (r : Option (ℕ × Kernel))
    → copy_pagetable (current_proc k).p_pagetable pid k.pages ≡ c
    → fork_with pid k c ≡ r
    → fork_into pid k ≡ r
unfolding fork_into
fork_into-with k pid c r a b = rw (fork_into, a) b

pub fork_with-end :
    (k : Kernel) (pid table : ℕ) (s : Pages) (x : Option (Bool × Pages)) (r : Option (ℕ × Kernel))
    → copy_writable_page proc_start_addr memsize_virtual pid
        (current_proc k).p_pid
        (give_pagetable pid table s k)
      ≡ x
    → fork_end pid table (give_pagetable pid table s k) x ≡ r
    → fork_with pid k (some table, s) ≡ r
unfolding fork_with
fork_with-end k pid table s x r a b = rw (fork_with, a) b

pub release_tables-memory :
    (pid table : ℕ) (s : Pages) → (release_tables pid table s).memory ≡ s.memory
unfolding release_pagetable
release_tables-memory pid table s =
    let level2 = pte_addr (entry s.memory table 0) in
    let rounds = for_range 512 256 (round_of pid level2) s in
    release_page-memory pid table (release_pagetable pid level2 s)
    ∙ release_page-memory pid level2 rounds
    ∙ range-memory 512 256 pid level2 s

-- What the parent has at page `j` stays while the pages are copied.
pub lookup_kept :
    (s s1 : Pages) (pid old t n u first v j : ℕ)
    → Parent s old t
    → owner_of s n ≡ po_free
    → owner_of s u ≡ po_free
    → Family (forked_pages s pid (old / 4096) t n u) pid (n * 4096) old t u
    → Going (forked_pages s pid (old / 4096) t n u) s1 pid (n * 4096) old t u first v
    → j < 1024
    → virtual_memory_lookup s1.memory old (j * 4096) ≡ virtual_memory_lookup s.memory old (j * 4096)
lookup_kept s s1 pid old t n u first v j w fn fu family g l =
    let s0 = forked_pages s pid (old / 4096) t n u in
    lookup-seen s1.memory old t j (Going-parent s0 s1 pid (n * 4096) old t u first v family g) l
    ∙ ap (λ m. seen (m j))
        (g.kept t (forked-used s pid (old / 4096) t n u t fn fu w.t_used) family.t_u
          ∙ forked-kept s pid (old / 4096) t n u t fn fu w.t_used)
    ∙ sym (lookup-seen s.memory old t j w.tables l)
