-- ===== src/Srt/Client.antt =====
-- The client of Networks/DartNet/SRT/client/srt_client.c: the socket calls of the application's thread
-- and the handler of the segments that arrive.
pub mod Waits
pub mod Calls
pub mod Lists
pub mod Sockets
use code_snippet.Prelude.{
  ℕ, zero, suc, ◌≡◌, Option, none, some, Bool, true, false, ◌==◌, ltb, if◌then◌else◌, List, [], ◌∷◌,
  ◌++◌, update, ℤ, pos, negsuc,
}
use code_snippet.Srt.Tcb.{
  Tcb, Store, max_port_num, write, set_state, set_free, insert_into_list, remove_from_list,
  take_from_list_head,
}

-- The header fields of a segment that the calls and the handlers use.
pub record Header : Type 0 where
  pub src_port : ℕ
  pub dest_port : ℕ
  pub type : ℕ

-- The store and the headers handed to `sendseg`, the last one first.
pub record World : Type 0 where
  pub store : Store
  pub sent : List Header

abbrev pub closed : ℕ
closed = 1

abbrev pub synsent : ℕ
synsent = 2

abbrev pub connected : ℕ
connected = 3

abbrev pub finwait : ℕ
finwait = 4

abbrev pub syn : ℕ
syn = 0

abbrev pub synack : ℕ
synack = 1

abbrev pub fin : ℕ
fin = 2

abbrev pub finack : ℕ
finack = 3

abbrev pub syn_max_retry : ℕ
syn_max_retry = 5

abbrev pub fin_max_retry : ℕ
fin_max_retry = 5

abbrev pub send : Header → World → World
send h w = record w { sent = h ∷ w.sent }

-- The switch of the handler: the state after a segment of type `t` in state `st`.
unfoldable pub client_next : ℕ → ℕ → ℕ
client_next t st =
    if st == synsent
    then (if t == synack then connected else synsent)
    else if st == finwait
    then (if t == finack then closed else finwait)
    else st

-- The round of `seghandler` for one segment. `none` is an index outside `port2sock`.
unfoldable pub client_handle : Header → World → Option World
client_handle h w =
    if ltb h.dest_port max_port_num
    then elim (w.store.port2sock h.dest_port) [
      | none ↦ some w
      | some n ↦
          (if (w.store.tcb n).is_free
            then some w
            else some (record w {
              store = set_state n (client_next h.type (w.store.tcb n).state) w.store;
            }))
    ]
    else none

-- The handler's thread takes the segments `hs` while the caller sleeps or between two of its statements.
unfoldable pub client_handle_all : List Header → World → Option World
client_handle_all [] w = some w
client_handle_all (h ∷ hs) w = elim (client_handle h w) [
  | none ↦ none
  | some w' ↦ client_handle_all hs w'
]

-- What the handler receives in a round of `try_send`: before the state is written, and in the sleep.
pub record Round : Type 0 where
  pub early : List Header
  pub late : List Header

abbrev pub put_state : ℕ → ℕ → World → World
put_state n st w = record w { store = set_state n st w.store }

-- One round: send, write the middle state, sleep.
unfoldable pub try_once : ℕ → Header → ℕ → Round → World → Option World
try_once n seg mid r w = elim (client_handle_all r.early (send seg w)) [
  | none ↦ none
  | some w' ↦ client_handle_all r.late (put_state n mid w')
]

-- `k` rounds are left; round i sees `rounds i`.
unfoldable pub try_loop : ℕ → ℕ → ℕ → Header → ℕ → ℕ → (ℕ → Round) → World → Option (ℤ × World)
try_loop zero i n seg mid dest rounds w = some (negsuc 0, put_state n closed w)
try_loop (suc k) i n seg mid dest rounds w = elim (try_once n seg mid (rounds i) w) [
  | none ↦ none
  | some w' ↦
      (let rest = try_loop k (suc i) n seg mid dest rounds w' in
        if (w'.store.tcb n).state == dest then some (pos 0, w') else rest)
]

-- while(--tryNum): one round fewer than `try_max_num`, which is positive at both calls.
abbrev pub pred : ℕ → ℕ
pred zero = zero
pred (suc k) = k

unfoldable pub try_send : ℕ → ℕ → Header → ℕ → ℕ → (ℕ → Round) → World → Option (ℤ × World)
try_send n try_max_num seg mid dest rounds w = try_loop (pred try_max_num) 0 n seg mid dest rounds w

unfoldable pub srt_client_connect : Option ℕ → ℕ → (ℕ → Round) → World → Option (ℤ × World)
srt_client_connect none server_port rounds w = some (negsuc 0, w)
srt_client_connect (some n) server_port rounds w =
    let t = w.store.tcb n in
    let w1 = record w { store = write n (record t { svr_port_num = server_port }) w.store } in
    let seg : Header = record {
      src_port = t.client_port_num;
      dest_port = server_port;
      type = syn;
    } in
    let tried = try_send n syn_max_retry seg synsent connected rounds w1 in
    if t.is_free
    then some (negsuc 0, w)
    else if t.state == closed
    then tried
    else some (negsuc 0, w)

unfoldable pub srt_client_disconnect : Option ℕ → (ℕ → Round) → World → Option (ℤ × World)
srt_client_disconnect none rounds w = some (negsuc 0, w)
srt_client_disconnect (some n) rounds w =
    let t = w.store.tcb n in
    let seg : Header = record {
      src_port = t.client_port_num;
      dest_port = t.svr_port_num;
      type = fin;
    } in
    let tried = try_send n fin_max_retry seg finwait closed rounds w in
    if t.is_free
    then some (negsuc 0, w)
    else if t.state == connected
    then tried
    else some (negsuc 0, w)

-- The socket or NULL, and the store. `none` is a failed assertion or a fault.
unfoldable pub srt_client_sock : (ℕ → Option ℕ) → ℕ → Store → Option (Option ℕ × Store)
srt_client_sock malloc client_port s = elim (take_from_list_head malloc s.tcb_free_list s) [
  | none ↦ none
  | some r ↦ elim r.0 [
    | none ↦ some (none, r.1)
    | some n ↦
        (let s1 =
            write n (record (r.1.tcb n) { state = closed; client_port_num = client_port }) r.1 in
          let s2 = set_free n false (insert_into_list s1.tcb_used_list n s1) in
          if (r.1.tcb n).is_free
          then (if ltb client_port max_port_num
              then some (some n, record s2 { port2sock = update s2.port2sock client_port (some n) })
              else none)
          else none)
  ]
]

-- What close does to the lists, for the client and the server alike.
unfoldable pub free_node : ℕ → Store → Option Store
free_node n s = elim (remove_from_list n s) [
  | none ↦ none
  | some s1 ↦ some (set_free n true (insert_into_list s1.tcb_free_list n s1))
]

unfoldable pub srt_client_close : Option ℕ → Store → Option (ℤ × Store)
srt_client_close none s = some (negsuc 0, s)
srt_client_close (some n) s =
    let freed = free_node n s in
    if (s.tcb n).is_free then some (negsuc 0, s) else elim freed [
      | none ↦ none
      | some s' ↦ some (if (s'.tcb n).state == closed then pos 1 else negsuc 0, s')
    ]
