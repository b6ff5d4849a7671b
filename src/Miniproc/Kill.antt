-- ===== src/Miniproc/Kill.antt =====
-- `sys_kill` of kernel.c.
use code_snippet.Prelude.{ℕ, ◌<◌, ◌≡◌, refl, ◌∙◌, true, arith, ◌≢◌, ap}
use code_snippet.Miniproc.Machine.{
  Kernel, Registers, running, empty, runnable, zombie, nprocs, minus_one, set_proc, set_eax,
  with_eax, final, run,
}
use code_snippet.Miniproc.Interrupt.{
  save, wake_waiters, killed, kill_target, sys_kill, dispatch, interrupt,
}
use code_snippet.Miniproc.Wake.{wake_waiters-other, wake_waiters-frees, wake_waiters-nobody}
use code_snippet.Miniproc.Exit.{is_alive, Names, Refusable}

interrupt-kill :
    (reg : Registers) (k : Kernel) → reg.reg_intno ≡ 54 → interrupt reg k ≡ sys_kill (save reg k)
unfolding interrupt dispatch
interrupt-kill reg k e = ap (λ n. dispatch n (save reg k)) e

-- `sys_kill` on an ID out of range, on the caller itself or on an empty slot returns -1 to the caller,
-- which goes on running, and changes no other descriptor.
pub kill_refuses :
    (reg : Registers) (k : Kernel)
    → reg.reg_intno ≡ 54
    → Refusable reg.reg_eax k
    → interrupt reg k ≡ run k.current (set_eax k.current minus_one (save reg k))
unfolding sys_kill
kill_refuses reg k intno bad = interrupt-kill reg k intno ∙ ground arith

-- The table that a successful `sys_kill` hands to its waking loop.
abbrev killing : Registers → Kernel → Kernel
killing reg k = set_proc reg.reg_eax (killed ((save reg k).proc_array reg.reg_eax)) (save reg k)

kill_alive :
    (reg : Registers) (k : Kernel)
    → reg.reg_intno ≡ 54
    → Names reg.reg_eax k
    → is_alive (k.proc_array reg.reg_eax).p_state ≡ true
    → interrupt reg k ≡ run k.current (wake_waiters reg.reg_eax (killing reg k))
unfolding sys_kill kill_target
kill_alive reg k intno named a = interrupt-kill reg k intno ∙ ground arith

-- What `sys_kill` does to a live target while nobody waits on the KILLER: the target becomes a zombie
-- with exit status -1, and every descriptor but the target's and the caller's stays as it was. So a
-- process that waits on the target stays blocked.
pub kill_strands_waiters :
    (reg : Registers) (k : Kernel)
    → reg.reg_intno ≡ 54
    → Names reg.reg_eax k
    → is_alive (k.proc_array reg.reg_eax).p_state ≡ true
    → ((w : ℕ) → 0 < w → w < nprocs → (k.proc_array k.current).waiting_q w ≡ 0)
    → let after = (final (interrupt reg k)).proc_array in
      (after reg.reg_eax
        ≡ record (k.proc_array reg.reg_eax) { p_state = zombie; p_exit_status = minus_one })
      × ((j : ℕ) → j ≢ reg.reg_eax → j ≢ k.current → after j ≡ k.proc_array j)
kill_strands_waiters reg k intno named a nobody =
    rw (kill_alive reg k intno named a, idle) (ground arith, λ j n m. ground arith)
  where
    idle : wake_waiters reg.reg_eax (killing reg k) ≡ killing reg k
    idle = wake_waiters-nobody reg.reg_eax (killing reg k) (λ w p l. ground (arith, nobody w p l))

-- While some process waits on the KILLER, `sys_kill` of a live target empties the killer's own slot,
-- gives that process -1, and yet runs the killer.
pub kill_frees_killer :
    (reg : Registers) (k : Kernel) (w : ℕ)
    → reg.reg_intno ≡ 54
    → Names reg.reg_eax k
    → is_alive (k.proc_array reg.reg_eax).p_state ≡ true
    → 0 < w
    → w < nprocs
    → w ≢ k.current
    → w ≢ reg.reg_eax
    → (k.proc_array k.current).waiting_q w ≢ 0
    → let after = final (interrupt reg k) in
      (interrupt reg k ≡ running after)
      × (after.current ≡ k.current)
      × ((after.proc_array k.current).p_state ≡ empty)
      × (after.proc_array w ≡ with_eax minus_one (record (k.proc_array w) { p_state = runnable }))
kill_frees_killer reg k w intno named a pos l ne nt waits = rw (kill_alive reg k intno named a) (
  refl,
  refl,
  wake_waiters-frees reg.reg_eax (killing reg k) w pos l (ground arith),
  ground (arith, wake_waiters-other reg.reg_eax (killing reg k) w ne pos l),
)
