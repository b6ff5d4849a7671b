-- ===== src/Srt/Client/Calls/Connect.antt =====
-- The calls connect and disconnect of Networks/DartNet/SRT/client/srt_client.c.
use code_snippet.Prelude.{ℕ, ◌≡◌, ◌≢◌, some, true, false, arith, ℤ, negsuc, ◌⊎◌}
use code_snippet.Srt.Tcb.{write}
use code_snippet.Srt.Client.{
  Header, World, Round, closed, connected, syn, synack, fin, finack, synsent, finwait, try_send,
  srt_client_connect, srt_client_disconnect,
}
use code_snippet.Srt.Client.Waits.{synsent-Waits, finwait-Waits}
use code_snippet.Srt.Client.Calls.{Sent, InRangeRounds, try_loop-Sent}

-- On a socket in use in state CLOSED, and when every segment that arrives has a port of the table,
-- connect returns: 0 with state CONNECTED when one of its four sleeps receives a SYNACK for the socket,
-- and -1 with state CLOSED when none does. It sends one SYN with the socket's port and `server_port`
-- for each round up to the first such sleep, and nothing else is sent.
pub connect_reports :
    (n server_port : ℕ) (rounds : ℕ → Round) (w : World)
    → InRangeRounds rounds
    → (w.store.tcb n).is_free ≡ false
    → (w.store.tcb n).state ≡ closed
    → (r : ℤ × World) × (srt_client_connect (some n) server_port rounds w ≡ some r)
      × Sent n connected synack
          (record {
            src_port = (w.store.tcb n).client_port_num;
            dest_port = server_port;
            type = syn;
          })
          rounds
          4
          0
          w
          r.1
          r.0
unfolding srt_client_connect try_send
connect_reports n server_port rounds w ok live st =
    let t = w.store.tcb n in
    let w1 : World = record w {
      store = write n (record t { svr_port_num = server_port }) w.store;
    } in
    let seg : Header = record {
      src_port = t.client_port_num;
      dest_port = server_port;
      type = syn;
    } in
    let a =
      try_loop-Sent synsent connected synack synsent-Waits n seg rounds ok 4 0 w1
        (ground (arith, live)) in
    (
      a.0,
      ground (arith, live, st, a.1),
      record { code_is = a.2.code_is; state = a.2.state; sent = a.2.sent },
    )

-- On a socket in use in state CONNECTED, and when every segment that arrives has a port of the table,
-- disconnect returns with state CLOSED: 0 when one of its four sleeps receives a FINACK for the socket
-- and -1 when none does. It sends one FIN with the ports of the connection for each round up to the
-- first such sleep, and nothing else is sent.
pub disconnect_reports :
    (n : ℕ) (rounds : ℕ → Round) (w : World)
    → InRangeRounds rounds
    → (w.store.tcb n).is_free ≡ false
    → (w.store.tcb n).state ≡ connected
    → (r : ℤ × World) × (srt_client_disconnect (some n) rounds w ≡ some r)
      × Sent n closed finack
          (record {
            src_port = (w.store.tcb n).client_port_num;
            dest_port = (w.store.tcb n).svr_port_num;
            type = fin;
          })
          rounds
          4
          0
          w
          r.1
          r.0
unfolding srt_client_disconnect try_send
disconnect_reports n rounds w ok live st =
    let t = w.store.tcb n in
    let seg : Header = record {
      src_port = t.client_port_num;
      dest_port = t.svr_port_num;
      type = fin;
    } in
    let a = try_loop-Sent finwait closed finack finwait-Waits n seg rounds ok 4 0 w live in
    (a.0, ground (arith, live, st, a.1), a.2)

-- On a socket that is free, or in a state other than CLOSED, connect returns -1 and changes nothing.
pub connect_refuses :
    (n server_port : ℕ) (rounds : ℕ → Round) (w : World)
    → ((w.store.tcb n).is_free ≡ true) ⊎ ((w.store.tcb n).state ≢ closed)
    → srt_client_connect (some n) server_port rounds w ≡ some (negsuc 0, w)
unfolding srt_client_connect
connect_refuses n server_port rounds w h = ground (arith, h)

-- On a socket that is free, or in a state other than CONNECTED, disconnect returns -1 and changes nothing.
pub disconnect_refuses :
    (n : ℕ) (rounds : ℕ → Round) (w : World)
    → ((w.store.tcb n).is_free ≡ true) ⊎ ((w.store.tcb n).state ≢ connected)
    → srt_client_disconnect (some n) rounds w ≡ some (negsuc 0, w)
unfolding srt_client_disconnect
disconnect_refuses n rounds w h = ground (arith, h)
