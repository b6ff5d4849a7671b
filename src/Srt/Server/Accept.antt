-- ===== src/Srt/Server/Accept.antt =====
-- The busy wait of `srt_server_accept` in Networks/DartNet/SRT/server/srt_server.c.
use code_snippet.Prelude.{
  ℕ, ◌≡◌, refl, none, some, true, false, ◌==◌, if◌then◌else◌, ◌&&◌, arith, List, [], ◌∷◌, All, pos,
  ◌∙◌, ap, Bool-cases, inl, inr,
}
use code_snippet.Srt.Client.{Header, World, connected, syn, fin, put_state}
use code_snippet.Srt.Client.Waits.{InRange, addressed}
use code_snippet.Srt.Server.{
  listening, closewait, server_next, server_handle, server_handle_all, wait_connected,
  srt_server_accept,
}
use code_snippet.Srt.Server.Handshake.{
  types_for, contains, after_syn, server_handle-effect, server_handle_all-run, run, run-closewait,
  run-listening,
}

-- A read of the state after every segment.
abbrev pub one_by_one : List Header → List (List Header)
one_by_one [] = []
one_by_one (h ∷ hs) = (h ∷ []) ∷ one_by_one hs

wait-connected :
    (n : ℕ) (bs : List (List Header)) (w : World)
    → (w.store.tcb n).state ≡ connected
    → wait_connected n bs w ≡ some (some (pos 1), w)
unfolding wait_connected
wait-connected n [] w e = ground (arith, e)
wait-connected n (b ∷ bs) w e = ground (arith, e)

still :
    (h : Header) (w : World) (n : ℕ) (w' : World)
    → (addressed w.store.port2sock n h && (h.type == syn)) ≡ false
    → (w.store.tcb n).state ≡ listening
    → (w'.store.tcb n).state ≡ (
        if addressed w.store.port2sock n h
        then server_next h.type (w.store.tcb n).state
        else (w.store.tcb n).state)
    → (w'.store.tcb n).state ≡ listening
unfolding server_next
still h w n w' e st eff = ground (arith, eff, e, st)

skip :
    (h : Header) (hs : List Header) (w w1 : World) (n : ℕ) (w' : World)
    → server_handle h w ≡ some w1
    → (w.store.tcb n).state ≡ listening
    → (addressed w.store.port2sock n h && (h.type == syn)) ≡ false
    → wait_connected n (one_by_one hs) w1
      ≡ some (if contains syn (types_for w.store.port2sock n hs) then some (pos 1) else none, w')
    → wait_connected n (one_by_one (h ∷ hs)) w
      ≡ some
          (if contains syn (types_for w.store.port2sock n (h ∷ hs)) then some (pos 1) else none, w')
unfolding wait_connected server_handle_all types_for contains
skip h hs w w1 n w' a st e rest = ground (arith, a, st, e, rest)

wait-listening :
    (hs : List Header) (w : World) (n : ℕ)
    → All InRange hs
    → (w.store.tcb n).is_free ≡ false
    → (w.store.tcb n).state ≡ listening
    → (w' : World) × (wait_connected n (one_by_one hs) w
        ≡ some (if contains syn (types_for w.store.port2sock n hs) then some (pos 1) else none, w'))
unfolding wait_connected server_handle_all types_for contains server_next
wait-listening [] w n r live st = (w, ground (arith, st))
wait-listening (h ∷ hs) w n r live st =
    let a = server_handle-effect h w n r.0 live in
    elim (Bool-cases (addressed w.store.port2sock n h && (h.type == syn))) [
      | inl e ↦ (
        a.0,
        ground
            (arith, a.1, e, st, wait-connected n (one_by_one hs) a.0 (ground (arith, a.4, e, st))),
      )
      | inr e ↦
          (let b = wait-listening hs a.0 n r.1 a.3 (still h w n a.0 e st a.4) in
            (
              b.0,
              skip h hs w a.0 n b.0 a.1 st e (
                  b.1
                  ∙ ap
                      (λ p.
                        some (if contains syn (types_for p n hs) then some (pos 1) else none, b.0))
                      a.2),
            ))
    ]

-- When every segment has a port of the table and the state of a socket in use is read after every
-- segment, accept returns 1 if a SYN for the socket arrives, and waits on if none does.
pub accept_waits_for_syn :
    (hs : List Header) (w : World) (n : ℕ)
    → All InRange hs
    → (w.store.tcb n).is_free ≡ false
    → (w' : World) × (srt_server_accept n (one_by_one hs) w
        ≡ some (if contains syn (types_for w.store.port2sock n hs) then some (pos 1) else none, w'))
unfolding srt_server_accept
accept_waits_for_syn hs w n r live =
    wait-listening hs (put_state n listening w) n r (ground (arith, live)) (ground arith)

wait-closewait :
    (n : ℕ) (bs : List (List Header)) (w : World)
    → All (All InRange) bs
    → (w.store.tcb n).is_free ≡ false
    → (w.store.tcb n).state ≡ closewait
    → (w' : World) × (wait_connected n bs w ≡ some (none, w'))
unfolding wait_connected
wait-closewait n [] w r live st = (w, ground (arith, st))
wait-closewait n (b ∷ bs) w r live st =
    let a = server_handle_all-run b w n r.0 live in
    let e =
      a.3
      ∙ ap (run (types_for w.store.port2sock n b)) st
      ∙ run-closewait (types_for w.store.port2sock n b) in
    let c = wait-closewait n bs a.0 r.1 a.2 e in (c.0, ground (arith, a.1, c.1, st))

-- When a SYN for the socket and a FIN after it arrive between the first two reads of accept, accept waits
-- on whatever arrives later, though the connection was made.
pub accept_misses_short_connection :
    (b : List Header) (bs : List (List Header)) (w : World) (n : ℕ)
    → All InRange b
    → All (All InRange) bs
    → (w.store.tcb n).is_free ≡ false
    → contains syn (types_for w.store.port2sock n b) ≡ true
    → contains fin (after_syn (types_for w.store.port2sock n b)) ≡ true
    → (w' : World) × (srt_server_accept n (b ∷ bs) w ≡ some (none, w'))
unfolding srt_server_accept wait_connected
accept_misses_short_connection b bs w n rb r live s f =
    let w0 = put_state n listening w in
    let a = server_handle_all-run b w0 n rb (ground (arith, live)) in
    let ts = types_for w.store.port2sock n b in
    let e = a.3 ∙ ap (run ts) (ground arith) ∙ run-listening ts ∙ rw (s, f) refl in
    let c = wait-closewait n bs a.0 r a.2 e in (c.0, ground (arith, a.1, c.1))
