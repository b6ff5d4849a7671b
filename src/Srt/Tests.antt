-- ===== src/Srt/Tests.antt =====
-- A connection of Networks/DartNet/SRT, its calls on concrete segments, and the theorems applied.
use code_snippet.Prelude.{
  ℕ, zero, suc, ◌≡◌, ◌++◌, refl, arith, some, none, false, true, List, [], ◌∷◌, replicate, negsuc,
  ℤ, if◌then◌else◌, ◌==◌, length,
}
use code_snippet.Srt.Framing.{sendseg, bang, amp, hash, seg_size, segment, fault, recvseg, seglost}
use code_snippet.Srt.Framing.Frames.{Plain, read_array}
use code_snippet.Srt.Framing.Stream.{
  wire, recvseg_first_kept, recvseg_cuts_at_mark, recvseg_overflows,
}
use code_snippet.Srt.Tcb.{Tcb, Store}
use code_snippet.Srt.Client.{
  Header, World, Round, closed, connected, syn, synack, fin, srt_client_connect, srt_client_close,
}
use code_snippet.Srt.Client.Calls.{Sent}
use code_snippet.Srt.Client.Calls.Connect.{connect_reports}
use code_snippet.Srt.Client.Lists.{Lists}
use code_snippet.Srt.Client.Sockets.{close_moves}
use code_snippet.Srt.Server.{
  listening, closewait, server_handle, server_handle_all, srt_server_accept,
}
use code_snippet.Srt.Server.Handshake.{
  types_for, contains, after_syn, listening_follows, first_synack_is_stale,
}
use code_snippet.Srt.Server.Accept.{accept_misses_short_connection}

-- Blocks 10 and 11 head the used and the free list; 1 is in use on port 87, and 2 is free.
abbrev block : ℕ → ℕ → Tcb
block st j = record {
  svr_port_num = 88;
  client_port_num = 87;
  state = st;
  prev = if j == 1 then some 10 else if j == 2 then some 11 else none;
  next = if j == 10 then some 1 else if j == 11 then some 2 else none;
  is_free = j == 2;
}

abbrev store : ℕ → Store
store st = record {
  tcb = block st;
  tcb_used_list = 10;
  tcb_free_list = 11;
  port2sock = λ p. if p == 87 then some 1 else none;
}

abbrev world : ℕ → World
world st = record { store = store st; sent = [] }

abbrev to_client : ℕ → Header
to_client t = record { src_port = 88; dest_port = 87; type = t }

-- A segment of type `t` arrives in every sleep.
abbrev rounds : ℕ → ℕ → Round
rounds t i = record { early = []; late = to_client t ∷ [] }

connect_reports_example :
    (r : ℤ × World) × (srt_client_connect (some 1) 88 (rounds synack) (world closed) ≡ some r)
    × Sent 1 connected synack
        (record { src_port = 87; dest_port = 88; type = syn })
        (rounds synack)
        4
        0
        (world closed)
        r.1
        r.0
connect_reports_example =
    connect_reports 1 88 (rounds synack) (world closed) (λ i. (tt, (refl, tt))) refl refl

store_Lists : (st : ℕ) → Lists (store st) (1 ∷ []) (2 ∷ [])
store_Lists st = record {
  used_linked = (refl, refl, refl);
  free_linked = (refl, refl, refl);
  used_distinct = ((omega arith, tt), (tt, tt));
  free_distinct = ((omega arith, tt), (tt, tt));
  apart = ((omega arith, (omega arith, tt)), ((omega arith, (omega arith, tt)), tt));
}

close_moves_example :
    (s' : Store) × (srt_client_close (some 1) (store connected) ≡ some (negsuc 0, s'))
    × Lists s' [] (1 ∷ (2 ∷ []))
    × ((s'.tcb 1).is_free ≡ true)
    × (s'.port2sock ≡ (store connected).port2sock)
close_moves_example = close_moves (store connected) [] 1 [] (2 ∷ []) (store_Lists connected) refl

abbrev from_client : ℕ → Header
from_client t = record { src_port = 5; dest_port = 87; type = t }

abbrev short_connection : List Header
short_connection = from_client fin ∷ (from_client syn ∷ (from_client fin ∷ []))

listening_follows_example :
    (w' : World) × (server_handle_all short_connection (world listening) ≡ some w')
    × ((w'.store.tcb 1).state ≡ closewait)
unfolding types_for contains after_syn
listening_follows_example =
    listening_follows short_connection (world listening) 1 (refl, (refl, (refl, tt))) refl refl

first_synack_is_stale_example :
    (w1 : World) × (w2 : World) × (server_handle (from_client syn) (world listening) ≡ some w1)
    × (w1.sent ≡ record { src_port = 88; dest_port = 87; type = synack } ∷ [])
    × (server_handle (from_client syn) w1 ≡ some w2)
    × (w2.sent ≡ record { src_port = 88; dest_port = 5; type = synack } ∷ w1.sent)
first_synack_is_stale_example =
    first_synack_is_stale (from_client syn) (world listening) 1 refl refl refl refl refl

accept_misses_short_connection_example :
    (w' : World) × (srt_server_accept 1 (short_connection ∷ (short_connection ∷ [])) (world closed)
      ≡ some (none, w'))
unfolding types_for contains after_syn
accept_misses_short_connection_example =
    accept_misses_short_connection short_connection (short_connection ∷ []) (world closed) 1
      (refl, (refl, (refl, tt))) ((refl, (refl, (refl, tt))), tt) refl refl refl

sevens-Plain : (n : ℕ) → Plain false (replicate n 7)
sevens-Plain zero = tt
sevens-Plain (suc n) = (λ e. omega arith, sevens-Plain n)

sevens_length : (n : ℕ) → length {A = ℕ} (replicate n 7) ≡ n
sevens_length zero = refl
sevens_length (suc n) = omega (arith, sevens_length n)

recvseg_first_kept_example :
    (buf : ℕ → ℕ) × (recvseg (λ i. 5) 0 (λ i. 0) (wire (λ i. true) (replicate seg_size 7 ∷ []))
      ≡ segment buf [] 1)
    × (read_array buf 0 seg_size ≡ replicate seg_size 7)
unfolding seglost wire
recvseg_first_kept_example =
    recvseg_first_kept (λ i. true) (λ i. 5) 0 [] (replicate seg_size 7) [] (λ i. 0)
      (refl, refl, refl) tt (sevens-Plain seg_size, sevens_length seg_size) refl

-- Port 8993 is 0x2321, whose bytes in memory are '!' and '#'.
recvseg_cuts_at_mark_example :
    (buf : ℕ → ℕ) × (recvseg
        (λ i. 5)
        0
        (λ i. 0)
        ((sendseg (λ i. true) (bang ∷ (hash ∷ (0 ∷ (0 ∷ []))))).1 ++ [])
      ≡ segment buf (0 ∷ (0 ∷ (bang ∷ (hash ∷ [])))) 1)
    × (read_array buf 0 0 ≡ [])
unfolding seglost
recvseg_cuts_at_mark_example =
    recvseg_cuts_at_mark (λ i. true) (λ i. 5) 0 [] (0 ∷ (0 ∷ [])) [] (λ i. 0) (refl, refl, refl) tt
      (omega arith) refl

recvseg_overflows_example :
    recvseg (λ i. 5) 0 (λ i. 0) (bang ∷ (amp ∷ (replicate 1600 7 ++ []))) ≡ fault
recvseg_overflows_example =
    recvseg_overflows (λ i. 5) 0 (replicate 1600 7) [] (λ i. 0) (sevens-Plain 1600)
      (omega (arith, sevens_length 1600))
