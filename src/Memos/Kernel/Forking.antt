-- ===== src/Memos/Kernel/Forking.antt =====
-- The loop of `copy_writable_page` of OS/WeensyOS/MemOS/kernel.c, which gives a child its own pages.
use code_snippet.Prelude.{
  ℕ, suc, ◌+◌, ◌*◌, ◌/◌, ◌%◌, ◌≤◌, ◌<◌, ◌≡◌, ◌≢◌, refl, ◌∙◌, sym, ap, arith, none, some, true,
  false, ◌==◌, if◌then◌else◌, update, ◌⊎◌, inl, inr, Bool-cases,
}
use mathlib.Core.Path.{subst}
use code_snippet.Memos.Paging.{
  Memory, Vamapping, pagesize, has_p, virtual_memory_map, virtual_memory_lookup,
}
use code_snippet.Memos.Paging.Mapping.{HasLevel2, seen, mapped, mapped-HasLevel2}
use code_snippet.Memos.Pages.{Pages, po_free, set_info, find_free_physic_page, copy_page}
use code_snippet.Memos.Pages.Counting.{writable}
use code_snippet.Memos.Pages.Owners.{owner_of}
use code_snippet.Memos.Kernel.{
  is_page_readable, is_page_writable, referenced_again, copy_one_page, copy_one_mapping, give_page,
}

pub writable-seen : (e : ℕ) → is_page_writable (seen e).perm ≡ writable e
writable-seen e = elim (Bool-cases (has_p e)) [
  | inl p ↦ ground (arith, p)
  | inr p ↦ ground (arith, p)
]

pub seen-writable :
    (e : ℕ)
    → writable e ≡ true
    → seen e ≡ record { pn = e / 4096; pa = e / 4096 * 4096; perm = e % 4096 }
seen-writable e h = let odd : has_p e ≡ true = ground (arith, h) in rw odd refl

abbrev pub shared_pages : Vamapping → Pages → Pages
shared_pages vam s =
    if is_page_readable vam.perm
    then set_info vam.pn (referenced_again (s.pageinfo vam.pn)) s
    else s

pub one_page-skip :
    (va pid new old : ℕ) (s : Pages) (vam : Vamapping)
    → virtual_memory_lookup s.memory old va ≡ vam
    → is_page_writable vam.perm ≡ false
    → copy_one_page va pid new old s ≡ some (true, shared_pages vam s)
unfolding copy_one_page copy_one_mapping give_page
one_page-skip va pid new old s vam a b = rw (copy_one_page, a, copy_one_mapping, b) refl

pub one_page-full :
    (va pid new old : ℕ) (s : Pages) (vam : Vamapping)
    → virtual_memory_lookup s.memory old va ≡ vam
    → is_page_writable vam.perm ≡ true
    → find_free_physic_page pid s ≡ (none, s)
    → copy_one_page va pid new old s ≡ some (false, s)
unfolding copy_one_page copy_one_mapping give_page
one_page-full va pid new old s vam a b c = rw (copy_one_page, a, copy_one_mapping, b, c) refl

give_page-some :
    (va new p : ℕ) (s1 : Pages) (vam : Vamapping) (mem : Memory)
    → virtual_memory_map new va p pagesize vam.perm s1.memory ≡ some mem
    → give_page va new vam (some p, s1)
      ≡ some (true, copy_page p vam.pa (record s1 { memory = mem }))
unfolding give_page
give_page-some va new p s1 vam mem d = rw (give_page, d) refl

pub one_page-found :
    (va pid new old p : ℕ) (s s1 : Pages) (vam : Vamapping) (mem : Memory)
    → virtual_memory_lookup s.memory old va ≡ vam
    → is_page_writable vam.perm ≡ true
    → find_free_physic_page pid s ≡ (some p, s1)
    → virtual_memory_map new va p pagesize vam.perm s1.memory ≡ some mem
    → copy_one_page va pid new old s ≡ some (true, copy_page p vam.pa (record s1 { memory = mem }))
unfolding copy_one_page copy_one_mapping
one_page-found va pid new old p s s1 vam mem a b c d =
    rw (copy_one_page, a, copy_one_mapping, b, c) (give_page-some va new p s1 vam mem d)

pub shared-memory : (vam : Vamapping) (s : Pages) → (shared_pages vam s).memory ≡ s.memory
shared-memory vam s = elim (Bool-cases (is_page_readable vam.perm)) [
  | inl e ↦ rw e refl
  | inr e ↦ rw e refl
]

pub shared-owner :
    (vam : Vamapping) (s : Pages) (q : ℕ) → owner_of (shared_pages vam s) q ≡ owner_of s q
shared-owner vam s q = ground arith

-- The tables of a parent and of a child whose own pages are not free.
pub record Family (s0 : Pages) (pid new old t u : ℕ) : Type 0 where
  pub pid-pos : pid ≢ 0
  pub parent : HasLevel2 s0.memory old t
  pub child : HasLevel2 s0.memory new u
  pub old_used : owner_of s0 (old / 4096) ≢ po_free
  pub new_used : owner_of s0 (new / 4096) ≢ po_free
  pub t_used : owner_of s0 t ≢ po_free
  pub u_used : owner_of s0 u ≢ po_free
  pub t_u : t ≢ u
  pub old_u : old / 4096 ≢ u
  pub sources :
      (j : ℕ) → writable (s0.memory t j) ≡ true → owner_of s0 (s0.memory t j / 4096) ≢ po_free
  pub sources_u : (j : ℕ) → writable (s0.memory t j) ≡ true → s0.memory t j / 4096 ≢ u

-- What the child has at page `j`: a new page of its own with the parent's contents, or the parent's entry.
abbrev pub Copied : Pages → Pages → ℕ → ℕ → ℕ → ℕ → Type 0
Copied s0 s pid t u j =
    ((writable (s0.memory t j) ≡ true)
      × ((p : ℕ) × (owner_of s0 p ≡ po_free)
          × (owner_of s p ≡ pid)
          × (s.memory u j ≡ p * 4096 + s0.memory t j % 4096)
          × (s.memory p ≡ s0.memory (s0.memory t j / 4096))))
    ⊎ ((writable (s0.memory t j) ≡ false) × (s.memory u j ≡ s0.memory u j))

-- The state of the loop at page `v`.
pub record Going (s0 s : Pages) (pid new old t u first v : ℕ) : Type 0 where
  pub child : HasLevel2 s.memory new u
  pub kept : (q : ℕ) → owner_of s0 q ≢ po_free → q ≢ u → s.memory q ≡ s0.memory q
  pub owners : (q : ℕ) → owner_of s0 q ≢ po_free → owner_of s q ≡ owner_of s0 q
  pub done : (j : ℕ) → first ≤ j → j < v → Copied s0 s pid t u j
  pub rest : (j : ℕ) → v ≤ j → s.memory u j ≡ s0.memory u j

pub Going-parent :
    (s0 s : Pages) (pid new old t u first v : ℕ)
    → Family s0 pid new old t u
    → Going s0 s pid new old t u first v
    → HasLevel2 s.memory old t
Going-parent s0 s pid new old t u first v f g =
    let same = g.kept (old / 4096) f.old_used f.old_u in
    record {
      aligned = f.parent.aligned;
      at = ap (λ w. w 0 / 4096) same ∙ f.parent.at;
      flags = ap (λ w. w 0 % 8) same ∙ f.parent.flags;
      low = f.parent.low;
      apart = f.parent.apart;
    }

last_or_before : (j v : ℕ) → j < suc v → (j ≡ v) ⊎ (j < v)
last_or_before j v l = ground (arith, l)

-- A state that differs in no page and no owner from one at `v`, where the entry is not writable.
pub Going-skip :
    (s0 s s' : Pages) (pid new old t u first v : ℕ)
    → Going s0 s pid new old t u first v
    → writable (s0.memory t v) ≡ false
    → s'.memory ≡ s.memory
    → ((q : ℕ) → owner_of s' q ≡ owner_of s q)
    → Going s0 s' pid new old t u first (suc v)
Going-skip s0 s s' pid new old t u first v g no_w m o = record {
  child = subst (λ z. HasLevel2 z new u) (sym m) g.child;
  kept = λ q a b. ap (λ z. z q) m ∙ g.kept q a b;
  owners = λ q a. o q ∙ g.owners q a;
  done = λ j a b. elim (last_or_before j v b) [
    | inl e ↦
        subst (λ i. Copied s0 s' pid t u i) (sym e)
          (inr (no_w, ap (λ z. z u v) m ∙ g.rest v (omega arith)))
    | inr l ↦ elim (g.done j a l) [
      | inl c ↦ inl (
        c.0,
        (c.1.0, c.1.1, o c.1.0 ∙ c.1.2, ap (λ z. z u j) m ∙ c.1.3, ap (λ z. z c.1.0) m ∙ c.1.4),
      )
      | inr c ↦ inr (c.0, ap (λ z. z u j) m ∙ c.1)
    ]
  ];
  rest = λ j l. ap (λ z. z u j) m ∙ g.rest j (omega (arith, l));
}

-- The state after page `p` was given out for entry `v`, whose contents are those of page `src`.
abbrev pub given : Pages → ℕ → ℕ → ℕ → ℕ → ℕ → ℕ → Pages
given s pid u v p src e = record {
  pageinfo = update s.pageinfo p (record { owner = pid; refcount = 1 });
  memory = update (mapped s.memory u v e) p (mapped s.memory u v e src);
}

was_free :
    (s0 s : Pages) (pid new old t u first v p : ℕ)
    → Going s0 s pid new old t u first v
    → owner_of s p ≡ po_free
    → owner_of s0 p ≡ po_free
was_free s0 s pid new old t u first v p g o = elim (Bool-cases (owner_of s0 p == 0)) [
  | inl e ↦ ground (arith, e)
  | inr e ↦ absurd (used e (sym (g.owners p (used e)) ∙ o))
]
  where
    used : (owner_of s0 p == 0) ≡ false → owner_of s0 p ≢ po_free
    used e = ground (arith, e)

given-child :
    (s : Pages) (pid new u v p src e : ℕ)
    → HasLevel2 s.memory new u
    → p ≢ new / 4096
    → HasLevel2 (given s pid u v p src e).memory new u
given-child s pid new u v p src e w ne =
    let m = mapped-HasLevel2 s.memory new u v e w in
    record {
      aligned = w.aligned;
      at = ground (arith, m.at, ne);
      flags = ground (arith, m.flags, ne);
      low = w.low;
      apart = w.apart;
    }

pub Going-page :
    (s0 s : Pages) (pid new old t u first v p : ℕ)
    → Family s0 pid new old t u
    → Going s0 s pid new old t u first v
    → writable (s0.memory t v) ≡ true
    → owner_of s p ≡ po_free
    → Going s0
        (given s pid u v p (s0.memory t v / 4096) (p * 4096 + s0.memory t v % 4096))
        pid
        new
        old
        t
        u
        first
        (suc v)
Going-page s0 s pid new old t u first v p f g w free =
    let e = p * 4096 + s0.memory t v % 4096 in
    let src = s0.memory t v / 4096 in
    let fresh = was_free s0 s pid new old t u first v p g free in
    let p_u : p ≢ u = λ q. f.u_used (sym (ap (λ i. owner_of s0 i) q) ∙ fresh) in
    let other : (q : ℕ) → owner_of s0 q ≢ po_free → p ≢ q =
      λ q used c. used (sym (ap (λ i. owner_of s0 i) c) ∙ fresh) in
    record {
      child = given-child s pid new u v p src e g.child (other (new / 4096) f.new_used);
      kept = λ q a b. ground (arith, other q a, b) ∙ g.kept q a b;
      owners = λ q a. ground (arith, other q a) ∙ g.owners q a;
      done = λ j a b. elim (last_or_before j v b) [
        | inl c ↦
            subst (λ i. Copied s0 (given s pid u v p src e) pid t u i) (sym c)
              (inl (
                w,
                (
                  p,
                  fresh,
                  ground arith,
                  ground (arith, p_u),
                  ground (arith, f.sources_u v w) ∙ g.kept src (f.sources v w) (f.sources_u v w),
                ),
              ))
        | inr l ↦ elim (g.done j a l) [
          | inl c ↦
              (let q = c.1.0 in
                let q_p : q ≢ p = λ z. f.pid-pos (sym c.1.2 ∙ ap (λ i. owner_of s i) z ∙ free) in
                let q_u : q ≢ u = λ z. f.u_used (sym (ap (λ i. owner_of s0 i) z) ∙ c.1.1) in
                inl (
                  c.0,
                  (
                    q,
                    c.1.1,
                    ground (arith, q_p) ∙ c.1.2,
                    ground (arith, p_u, l) ∙ c.1.3,
                    ground (arith, q_p, q_u) ∙ c.1.4,
                  ),
                ))
          | inr c ↦ inr (c.0, ground (arith, p_u, l) ∙ c.1)
        ]
      ];
      rest = λ j l. ground (arith, p_u, l) ∙ g.rest j (omega (arith, l));
    }
