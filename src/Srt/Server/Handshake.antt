-- ===== src/Srt/Server/Handshake.antt =====
-- What the handler of Networks/DartNet/SRT/server/srt_server.c does to one connection.
use code_snippet.Prelude.{
  ℕ, ◌≡◌, refl, Option, some, Bool, true, false, ◌==◌, if◌then◌else◌, ◌||◌, arith, List, [], ◌∷◌,
  All, ◌∙◌, ap, Option-cases, Bool-cases, inl, inr,
}
use code_snippet.Srt.Tcb.{Tcb}
use code_snippet.Srt.Client.{Header, World, connected, syn, synack, fin}
use code_snippet.Srt.Client.Waits.{InRange, addressed}
use code_snippet.Srt.Server.{
  listening, closewait, reply_type, server_next, learn_port, server_handle, server_step,
  server_handle_all,
}

-- The segments for connection `n` of a list, in order: the others go elsewhere.
unfoldable pub types_for : (ℕ → Option ℕ) → ℕ → List Header → List ℕ
types_for ports n [] = []
types_for ports n (h ∷ hs) =
    if addressed ports n h then h.type ∷ types_for ports n hs else types_for ports n hs

unfoldable pub contains : ℕ → List ℕ → Bool
contains t [] = false
contains t (u ∷ us) = (u == t) || contains t us

-- What follows the first SYN.
unfoldable pub after_syn : List ℕ → List ℕ
after_syn [] = []
after_syn (t ∷ ts) = if t == syn then ts else after_syn ts

learn_port-keeps :
    (st : ℕ) (h : Header) (t : Tcb)
    → ((learn_port st h t).state ≡ t.state) × ((learn_port st h t).is_free ≡ t.is_free)
unfolding learn_port
learn_port-keeps st h t = (ground arith, ground arith)

pub server_handle-effect :
    (h : Header) (w : World) (n : ℕ)
    → InRange h
    → (w.store.tcb n).is_free ≡ false
    → (w' : World) × (server_handle h w ≡ some w')
      × (w'.store.port2sock ≡ w.store.port2sock)
      × ((w'.store.tcb n).is_free ≡ false)
      × ((w'.store.tcb n).state ≡ (
          if addressed w.store.port2sock n h
          then server_next h.type (w.store.tcb n).state
          else (w.store.tcb n).state))
unfolding server_handle server_step
server_handle-effect h w n r live = elim (Option-cases (w.store.port2sock h.dest_port)) [
  | inl e ↦ (w, ground arith, refl, live, ground arith)
  | inr e ↦ elim (Bool-cases (w.store.tcb e.0).is_free) [
    | inl f ↦ (w, ground (arith, e.1, f), refl, live, ground (arith, e.1))
    | inr f ↦ (
      server_step e.0 h w,
      ground (arith, e.1, f),
      refl,
      ground (arith, live, k e.0),
      ground (arith, e.1, k e.0),
    )
  ]
]
  where
    t' : ℕ → Tcb
    t' m = record (w.store.tcb m) { state = server_next h.type (w.store.tcb m).state }

    k :
        (m : ℕ)
        → ((learn_port (w.store.tcb m).state h (t' m)).state ≡ (t' m).state)
          × ((learn_port (w.store.tcb m).state h (t' m)).is_free ≡ (t' m).is_free)
    k m = learn_port-keeps (w.store.tcb m).state h (t' m)

-- The states of one connection under the types of its segments.
abbrev pub run : List ℕ → ℕ → ℕ
run [] st = st
run (t ∷ ts) st = run ts (server_next t st)

pub server_handle_all-run :
    (hs : List Header) (w : World) (n : ℕ)
    → All InRange hs
    → (w.store.tcb n).is_free ≡ false
    → (w' : World) × (server_handle_all hs w ≡ some w')
      × ((w'.store.tcb n).is_free ≡ false)
      × ((w'.store.tcb n).state ≡ run (types_for w.store.port2sock n hs) (w.store.tcb n).state)
unfolding server_handle_all types_for
server_handle_all-run [] w n r live = (w, refl, live, refl)
server_handle_all-run (h ∷ hs) w n r live =
    let a = server_handle-effect h w n r.0 live in
    let b = server_handle_all-run hs a.0 n r.1 a.3 in
    (
      b.0,
      ground (arith, a.1, b.1),
      b.2,
      b.3
          ∙ ap (λ p. run (types_for p n hs) (a.0.store.tcb n).state) a.2
          ∙ ap (run (types_for w.store.port2sock n hs)) a.4
          ∙ pick (addressed w.store.port2sock n h),
    )
  where
    pick :
        (b : Bool)
        → run
            (types_for w.store.port2sock n hs)
            (if b then server_next h.type (w.store.tcb n).state else (w.store.tcb n).state)
          ≡ run
              (if b
                then h.type ∷ types_for w.store.port2sock n hs
                else types_for w.store.port2sock n hs)
              (w.store.tcb n).state
    pick true = refl
    pick false = refl

pub run-closewait : (ts : List ℕ) → run ts closewait ≡ closewait
unfolding server_next
run-closewait [] = refl
run-closewait (t ∷ ts) = run-closewait ts

run-connected :
    (ts : List ℕ) → run ts connected ≡ (if contains fin ts then closewait else connected)
unfolding server_next contains
run-connected [] = refl
run-connected (t ∷ ts) = ground (arith, run-connected ts, run-closewait ts)

pub run-listening :
    (ts : List ℕ)
    → run ts listening ≡ (
        if contains syn ts
        then (if contains fin (after_syn ts) then closewait else connected)
        else listening)
unfolding server_next contains after_syn
run-listening [] = refl
run-listening (t ∷ ts) = ground (arith, run-connected ts, run-listening ts)

-- When every segment has a port of the table, the handler takes any sequence of segments, and a socket
-- in use in state LISTENING ends in LISTENING when no SYN is for it, in CLOSEWAIT when a FIN for it comes
-- after its first SYN, and in CONNECTED otherwise.
pub listening_follows :
    (hs : List Header) (w : World) (n : ℕ)
    → All InRange hs
    → (w.store.tcb n).is_free ≡ false
    → (w.store.tcb n).state ≡ listening
    → (w' : World) × (server_handle_all hs w ≡ some w')
      × ((w'.store.tcb n).state ≡ (
          if contains syn (types_for w.store.port2sock n hs)
          then (if contains fin (after_syn (types_for w.store.port2sock n hs))
              then closewait
              else connected)
          else listening))
listening_follows hs w n r live st =
    let a = server_handle_all-run hs w n r live in
    (
      a.0,
      a.1,
      a.3
          ∙ ap (run (types_for w.store.port2sock n hs)) st
          ∙ run-listening (types_for w.store.port2sock n hs),
    )

-- A SYN for a socket in use in state LISTENING is answered by a SYNACK to the client port that the
-- socket held before, whatever the SYN's source port is. The socket holds that source port afterwards,
-- and the same SYN received again is answered to it.
pub first_synack_is_stale :
    (h : Header) (w : World) (n : ℕ)
    → InRange h
    → h.type ≡ syn
    → w.store.port2sock h.dest_port ≡ some n
    → (w.store.tcb n).is_free ≡ false
    → (w.store.tcb n).state ≡ listening
    → (w1 : World) × (w2 : World) × (server_handle h w ≡ some w1)
      × (w1.sent
          ≡ record {
            src_port = (w.store.tcb n).svr_port_num;
            dest_port = (w.store.tcb n).client_port_num;
            type = synack;
          }
            ∷ w.sent)
      × (server_handle h w1 ≡ some w2)
      × (w2.sent
          ≡ record {
            src_port = (w.store.tcb n).svr_port_num;
            dest_port = h.src_port;
            type = synack;
          }
            ∷ w1.sent)
unfolding server_handle server_step learn_port reply_type server_next
first_synack_is_stale h w n r ty e live st = (
  server_step n h w,
  server_step n h (server_step n h w),
  ground arith,
  ground arith,
  ground arith,
  ground arith,
)
