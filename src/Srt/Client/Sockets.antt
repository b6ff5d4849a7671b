-- ===== src/Srt/Client/Sockets.antt =====
-- sock and close of Networks/DartNet/SRT/client/srt_client.c.
use code_snippet.Prelude.{
  moved-Apart, Apart-sym, All-at, NotIn, pred_of, pred-ne, ℕ, ◌≡◌, refl, ◌∙◌, sym, Option, some,
  true, false, ◌==◌, ltb, if◌then◌else◌, arith, List, [], ◌∷◌, ◌++◌, All, ap, pos, negsuc, update,
}
use code_snippet.Srt.Tcb.{
  Store, set_free, insert_into_list, take_first, take_from_list_head, write, max_port_num,
}
use code_snippet.Srt.Tcb.Effect.{
  insert_into_list-effect, unlinked, unlinked-effect, remove_from_list-some,
}
use code_snippet.Srt.Tcb.Linked.{Linked, SameLinks, Linked-same, prev-pred_of, unlinked-Linked}
use code_snippet.Srt.Tcb.Moves.{unlinked-other, set_free-Linked}
use code_snippet.Srt.Client.{closed, free_node, srt_client_sock, srt_client_close}
use code_snippet.Srt.Client.Lists.{Lists, put_over, move_over, Lists-at}

-- When the used list holds `n`, close succeeds in taking it off and putting it first on the free list:
-- the other blocks stay in order, no block is lost or doubled, and the result is 1 when the state was
-- CLOSED and -1 otherwise.
pub close_moves :
    (s : Store) (xs : List ℕ) (n : ℕ) (ys fs : List ℕ)
    → Lists s (xs ++ (n ∷ ys)) fs
    → (s.tcb n).is_free ≡ false
    → (s' : Store) × (srt_client_close (some n) s
        ≡ some (if (s.tcb n).state == closed then pos 1 else negsuc 0, s'))
      × Lists s' (xs ++ ys) (n ∷ fs)
      × ((s'.tcb n).is_free ≡ true)
      × (s'.port2sock ≡ s.port2sock)
unfolding srt_client_close free_node
close_moves s xs n ys fs ls live =
    let q = pred_of s.tcb_used_list xs in
    let pe = prev-pred_of s s.tcb_used_list xs n ys ls.used_linked in
    let ne = pred-ne s.tcb_used_list xs n ys ls.used_distinct in
    let u = s.tcb_used_list in
    let f = s.tcb_free_list in
    let s1 = unlinked q n s in
    let s2 = insert_into_list f n s1 in
    let n_f = (All-at (λ x. NotIn x (f ∷ fs)) xs n ys ls.apart.1).0 in
    let m =
      move_over s u xs n ys f fs ls.used_distinct ls.used_linked ls.apart ls.free_distinct
        ls.free_linked in
    let a = moved-Apart u xs n ys f fs ls.used_distinct ls.apart ls.free_distinct in
    let r = unlinked-effect q n s n pe ne in
    let i = insert_into_list-effect f n s1 n n_f in
    (
      set_free n true s2,
      ground (arith, remove_from_list-some q n s pe, r.free, r.block.2, i.block.2, live),
      Lists-at (set_free n true s2) u f (xs ++ ys) (n ∷ fs) (i.used ∙ r.used) (i.free ∙ r.free)
          (set_free-Linked s2 n true u (xs ++ ys) m.0) (set_free-Linked s2 n true f (n ∷ fs) m.1) a,
      ground arith,
      i.ports ∙ r.ports,
    )

-- The fields that sock writes are no links.
fill_in-Linked :
    (s : Store) (n client_port h : ℕ) (zs : List ℕ)
    → Linked s h zs
    → Linked (write n (record (s.tcb n) { state = closed; client_port_num = client_port }) s) h zs
fill_in-Linked s n client_port h zs l = Linked-same s s' h zs (ground arith) (same zs) l
  where
    s' : Store
    s' = write n (record (s.tcb n) { state = closed; client_port_num = client_port }) s

    same :
        (us : List ℕ)
        → All
            (SameLinks s
              (write n (record (s.tcb n) { state = closed; client_port_num = client_port }) s))
            us
    same [] = tt
    same (u ∷ us) = ((ground arith, ground arith), same us)

take_first_node :
    (malloc : ℕ → Option ℕ) (s : Store) (n : ℕ)
    → (s.tcb s.tcb_free_list).next ≡ some n
    → (s.tcb n).prev ≡ some s.tcb_free_list
    → take_from_list_head malloc s.tcb_free_list s ≡ some (some n, unlinked s.tcb_free_list n s)
unfolding take_from_list_head take_first
take_first_node malloc s n e pe = ground (arith, e, remove_from_list-some s.tcb_free_list n s pe)

same_tcbs : (s s' : Store) → s'.tcb ≡ s.tcb → (h : ℕ) (zs : List ℕ) → Linked s h zs → Linked s' h zs
same_tcbs s s' e h [] l = ap (λ t. (t h).next) e ∙ l
same_tcbs s s' e h (z ∷ zs) l =
    (ap (λ t. (t h).next) e ∙ l.0, ap (λ t. (t z).prev) e ∙ l.1, same_tcbs s s' e z zs l.2)

-- When the free list holds a block and the port is one of the table, sock takes the first free block,
-- and only it, to the front of the used list, in state CLOSED, no longer free, with the client's port,
-- and enters it in the table of ports under that port alone.
pub sock_moves :
    (malloc : ℕ → Option ℕ) (client_port : ℕ) (s : Store) (us : List ℕ) (n : ℕ) (fs : List ℕ)
    → Lists s us (n ∷ fs)
    → (s.tcb n).is_free ≡ true
    → ltb client_port max_port_num ≡ true
    → (s' : Store) × (srt_client_sock malloc client_port s ≡ some (some n, s'))
      × Lists s' (n ∷ us) fs
      × ((s'.tcb n).state ≡ closed)
      × ((s'.tcb n).client_port_num ≡ client_port)
      × ((s'.tcb n).is_free ≡ false)
      × (s'.port2sock ≡ update s.port2sock client_port (some n))
unfolding srt_client_sock
sock_moves malloc client_port s us n fs ls free ok =
    let u = s.tcb_used_list in
    let f = s.tcb_free_list in
    let pe = ls.free_linked.1 in
    let ne = pred-ne f [] n fs ls.free_distinct in
    let s1 = unlinked f n s in
    let s1' = write n (record (s1.tcb n) { state = closed; client_port_num = client_port }) s1 in
    let s2 = insert_into_list u n s1' in
    let ap' = Apart-sym (u ∷ us) (f ∷ (n ∷ fs)) ls.apart in
    let r = unlinked-effect f n s n pe ne in
    let i = insert_into_list-effect u n s1' n ap'.1.0.0 in
    let l1 = unlinked-Linked s f f [] n fs refl pe ne ls.free_distinct ls.free_linked in
    let o1 = unlinked-other s f [] n fs u us ls.free_distinct ls.free_linked ap' ls.used_linked in
    let d = moved-Apart f [] n fs u us ls.free_distinct ap' ls.used_distinct in
    let l1' = fill_in-Linked s1 n client_port f fs l1 in
    let o1' = fill_in-Linked s1 n client_port u us o1 in
    let p =
      put_over s1' f fs n u us ap'.1.0 ((λ e. ne (sym e), ls.free_distinct.1.0))
        (Apart-sym (f ∷ fs) (u ∷ us) (ap'.0, ap'.1.1)) ls.used_distinct l1' o1' in
    let s3 = record (set_free n false s2) { port2sock = update s.port2sock client_port (some n) } in
    (
      s3,
      ground (
        arith,
        take_first_node malloc s n ls.free_linked.0 ls.free_linked.1,
        r.used,
        r.ports,
        r.block.3,
        i.ports,
        free,
        ok,
      ),
      Lists-at s3 u f (n ∷ us) fs (i.used ∙ r.used) (i.free ∙ r.free)
          (same_tcbs (set_free n false s2) s3 refl u (n ∷ us)
            (set_free-Linked s2 n false u (n ∷ us) p.1))
          (same_tcbs (set_free n false s2) s3 refl f fs (set_free-Linked s2 n false f fs p.0))
          (d.1, d.0, Apart-sym (f ∷ fs) (u ∷ (n ∷ us)) d.2),
      ground (arith, i.block.2),
      ground (arith, i.block.1),
      ground arith,
      refl,
    )
