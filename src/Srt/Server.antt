-- ===== src/Srt/Server.antt =====
-- The server of Networks/DartNet/SRT/server/srt_server.c: the socket calls and the handler of segments.
pub mod Handshake
pub mod Accept
use code_snippet.Prelude.{
  ℕ, ◌≡◌, Option, none, some, Bool, true, false, ◌==◌, ltb, if◌then◌else◌, ◌||◌, List, [], ◌∷◌,
  update, ℤ, pos, negsuc,
}
use code_snippet.Srt.Tcb.{
  Tcb, Store, max_port_num, write, set_state, set_free, insert_into_list, take_from_list_head,
}
use code_snippet.Srt.Client.{
  Header, World, closed, connected, syn, synack, fin, finack, send, put_state, free_node,
}

abbrev pub listening : ℕ
listening = 2

abbrev pub closewait : ℕ
closewait = 4

-- The switch of the handler: the type of the reply, if there is one.
unfoldable pub reply_type : ℕ → ℕ → Option ℕ
reply_type st t =
    if st == listening
    then (if t == syn then some synack else none)
    else if st == connected
    then (if t == syn then some synack else if t == fin then some finack else none)
    else if st == closewait
    then (if t == fin then some finack else none)
    else none

-- The switch of the handler: the next state.
unfoldable pub server_next : ℕ → ℕ → ℕ
server_next t st =
    if st == listening
    then (if t == syn then connected else listening)
    else if st == connected
    then (if t == syn then connected else if t == fin then closewait else connected)
    else st

-- Only the first SYN writes the client's port, and it does so after the reply has been sent.
unfoldable pub learn_port : ℕ → Header → Tcb → Tcb
learn_port st h t =
    if st == listening
    then (if h.type == syn then record t { client_port_num = h.src_port } else t)
    else t

-- sendSeg: its ports are set before the switch.
abbrev pub reply : Option ℕ → Tcb → World → World
reply none t w = w
reply (some ty) t w =
    send (record { src_port = t.svr_port_num; dest_port = t.client_port_num; type = ty }) w

-- The switch on a connection in use.
unfoldable pub server_step : ℕ → Header → World → World
server_step n h w =
    let t = w.store.tcb n in
    let s =
      write n (learn_port t.state h (record t { state = server_next h.type t.state })) w.store in
    record (reply (reply_type t.state h.type) t w) { store = s }

-- The round of `seghandler` for one segment. `none` is an index outside `port2sock`.
unfoldable pub server_handle : Header → World → Option World
server_handle h w =
    if ltb h.dest_port max_port_num
    then elim (w.store.port2sock h.dest_port) [
      | none ↦ some w
      | some n ↦ (if (w.store.tcb n).is_free then some w else some (server_step n h w))
    ]
    else none

unfoldable pub server_handle_all : List Header → World → Option World
server_handle_all [] w = some w
server_handle_all (h ∷ hs) w = elim (server_handle h w) [
  | none ↦ none
  | some w' ↦ server_handle_all hs w'
]

-- The busy wait of accept, when its reads of the state come between the batches that the handler takes.
-- `none` for the first component is a wait that is not over after the last batch.
unfoldable pub wait_connected : ℕ → List (List Header) → World → Option (Option ℤ × World)
wait_connected n [] w = some (if (w.store.tcb n).state == connected then some (pos 1) else none, w)
wait_connected n (b ∷ bs) w =
    let rest : Option (Option ℤ × World) = elim (server_handle_all b w) [
      | none ↦ none
      | some w' ↦ wait_connected n bs w'
    ] in
    if (w.store.tcb n).state == connected then some (some (pos 1), w) else rest

unfoldable pub srt_server_accept : ℕ → List (List Header) → World → Option (Option ℤ × World)
srt_server_accept n batches w = wait_connected n batches (put_state n listening w)

-- The socket or NULL, and the store. `none` is a failed assertion or a fault.
unfoldable pub srt_server_sock : (ℕ → Option ℕ) → ℕ → Store → Option (Option ℕ × Store)
srt_server_sock malloc port s = elim (take_from_list_head malloc s.tcb_free_list s) [
  | none ↦ none
  | some r ↦ elim r.0 [
    | none ↦ some (none, r.1)
    | some n ↦
        (let s1 = write n (record (r.1.tcb n) { state = closed; svr_port_num = port }) r.1 in
          let s2 = set_free n false (insert_into_list s1.tcb_used_list n s1) in
          if (r.1.tcb n).is_free
          then (if ltb port max_port_num
              then some (some n, record s2 { port2sock = update s2.port2sock port (some n) })
              else none)
          else none)
  ]
]

unfoldable pub srt_server_close : Option ℕ → Store → Option (ℤ × Store)
srt_server_close none s = some (negsuc 0, s)
srt_server_close (some n) s =
    let freed = free_node n s in
    if (s.tcb n).is_free then some (negsuc 0, s) else elim freed [
      | none ↦ none
      | some s' ↦
          (let st = (s'.tcb n).state in
            some (if (st == closewait) || (st == closed) then pos 1 else negsuc 0, s'))
    ]
