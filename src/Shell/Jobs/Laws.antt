-- ===== src/Shell/Jobs/Laws.antt =====
-- Lookups by process id and by job id agree, and where job ids stop being unique (C/CSAPPLab/shell/tsh.c).
use code_snippet.Prelude.{
  ℕ, suc, ◌<◌, ◌≡◌, refl, Option, none, some, Bool, ◌==◌, ltb, arith, List, [], ◌∷◌, ◌++◌, All, ap,
  get_elem?, sym, ◌∙◌, Bool-cases, inl, inr,
}
use code_snippet.Shell.Jobs.{
  Job, cleared, addjob, find_from, getjobpid, pid2jid_in, pid2jid, maxjobs,
}
use code_snippet.Shell.Jobs.Slots.{Busy, addjob_takes_first_free}

-- The job id behind an index, 0 for NULL.
abbrev pub jid_of : Option ℕ → List Job → ℕ
jid_of none jobs = 0
jid_of (some i) jobs = elim (get_elem? jobs i) [ none ↦ 0 | some j ↦ j.jid ]

find_from-shift :
    (test : Job → Bool) (i : ℕ) (js : List Job)
    → find_from test (suc i) js ≡ elim (find_from test i js) [ none ↦ none | some k ↦ some (suc k) ]
unfolding find_from
find_from-shift test i [] = refl
find_from-shift test i (j ∷ js) = ground (arith, find_from-shift test (suc i) js)

jid_of-suc :
    (o : Option ℕ) (j : Job) (js : List Job)
    → jid_of (elim o [ none ↦ none | some k ↦ some (suc k) ]) (j ∷ js) ≡ jid_of o js
jid_of-suc none j js = refl
jid_of-suc (some k) j js = refl

pid2jid_in-find :
    (pid : ℕ) (js : List Job) → pid2jid_in pid js ≡ jid_of (find_from (λ j. j.pid == pid) 0 js) js
unfolding pid2jid_in find_from
pid2jid_in-find pid [] = refl
pid2jid_in-find pid (j ∷ js) = elim (Bool-cases (j.pid == pid)) [
  | inl e ↦ rw e refl
  | inr e ↦ rw e (
      pid2jid_in-find pid js
      ∙ sym (jid_of-suc (find_from (λ k. k.pid == pid) 0 js) j js)
      ∙ ap (λ o. jid_of o (j ∷ js)) (sym (find_from-shift (λ k. k.pid == pid) 0 js)))
]

-- For every process id, pid2jid is the job id of the job that getjobpid finds, and 0 when it finds none.
pub pid2jid-getjobpid :
    (pid : ℕ) (jobs : List Job) → pid2jid pid jobs ≡ jid_of (getjobpid pid jobs) jobs
unfolding pid2jid getjobpid
pid2jid-getjobpid pid jobs = elim (Bool-cases (ltb pid 1)) [
  | inl e ↦ rw e refl
  | inr e ↦ rw e (pid2jid_in-find pid jobs)
]

mid_assoc :
    (xs : List Job) (n : Job) (zs ys : List Job)
    → ((xs ++ (n ∷ zs)) ++ ys) ≡ (xs ++ (n ∷ (zs ++ ys)))
mid_assoc [] n zs ys = refl
mid_assoc (x ∷ xs) n zs ys = ap (λ (t : List Job). x ∷ t) (mid_assoc xs n zs ys)

Busy-mid :
    (xs : List Job) (n : Job) (zs : List Job)
    → All Busy xs
    → Busy n
    → All Busy zs
    → All Busy (xs ++ (n ∷ zs))
Busy-mid [] n zs a b c = (b, c)
Busy-mid (x ∷ xs) n zs a b c = (a.0, Busy-mid xs n zs a.1 b c)

-- When the next job id is 16, the first slot holds a job with job id 1 and two slots are free, then of two
-- processes added to the list the second gets job id 1 as well.
pub jids_collide_after_wrap :
    (p q state : ℕ) (c d : List ℕ) (one : Job) (xs zs ws : List Job)
    → 0 < p
    → 0 < q
    → one.jid ≡ 1
    → Busy one
    → All Busy xs
    → All Busy zs
    → (addjob q state d
        (addjob p state c (record {
          jobs = (one ∷ xs) ++ (cleared ∷ (zs ++ (cleared ∷ ws)));
          nextjid = maxjobs;
        })).1).1.jobs
      ≡ ((one ∷ (xs ++ (record { pid = p; jid = maxjobs; state = state; cmdline = c } ∷ zs)))
          ++ (record { pid = q; jid = one.jid; state = state; cmdline = d } ∷ ws))
jids_collide_after_wrap p q state c d one xs zs ws pp qq j1 b1 bx bz =
    let first : Job = record { pid = p; jid = maxjobs; state = state; cmdline = c } in
    let all : All Busy ((one ∷ xs) ++ (first ∷ zs)) =
      Busy-mid (one ∷ xs) first zs (b1, bx) (omega (arith, pp)) bz in
    rw
      (
        addjob_takes_first_free p state c maxjobs (one ∷ xs) cleared (zs ++ (cleared ∷ ws)) pp
            (b1, bx) refl,
        sym (mid_assoc (one ∷ xs) first zs (cleared ∷ ws)),
      )
      (ap (λ r. r.1.jobs)
          (addjob_takes_first_free q state d 1 ((one ∷ xs) ++ (first ∷ zs)) cleared ws qq all refl)
        ∙ ap
            (λ v.
              ((one ∷ xs) ++ (first ∷ zs))
              ++ (record { pid = q; jid = v; state = state; cmdline = d } ∷ ws))
            (sym j1))
