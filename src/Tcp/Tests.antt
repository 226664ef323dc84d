-- ===== src/Tcp/Tests.antt =====
-- jordyOS/net/tcp.c at concrete inputs: a connection that is opened, and one in the middle of sending.
use os_research_lab.Base.{
  ℕ, ◌+◌, ◌/◌, List, [], ◌∷◌, Option, some, true, false, max, min, ◌≡◌, refl, arith,
}
use os_research_lab.Base.Fault.{Outcome}
use os_research_lab.Packet.{net_read16, net_read32}
use os_research_lab.Packet.Sum.{IsBytes}
use os_research_lab.Tcp.{oldest, output, Tcp, established, Larp, Ports}
use os_research_lab.Tcp.Send.{cleared, tcp_start}
use os_research_lab.Tcp.Input.{Segment, opened, synchronized, tcp_input, syn_options}
use os_research_lab.Tcp.Tick.{timed_out, send_ack, tcp_tick}
use os_research_lab.Tcp.Invariant.{IsTcp}
use os_research_lab.Tcp.Window.{Sends}
use os_research_lab.Tcp.Ticked.{tcp_tick-Sends}
use os_research_lab.Tcp.Reach.{input, tick, Reach, here, next, sent_file, Reach-IsTcp}

-- A controller with a window of four segments, and a callback that counts what it sends.
abbrev test_larp : Larp ℕ
test_larp = record {
  larp_start = λ now. now;
  larp_update = λ m f. m;
  larp_window = λ m mss slots. 4;
  larp_ack_window = λ cwnd target busy acked slots r. max 1 target;
  larp_max = max;
  larp_min = min;
  larp_div = λ a b. a / b;
  rate = λ m. 1000;
  min_rtt_us = λ m. m;
  with_min_rtt = λ m rtt now. rtt;
  larp_max-eq-max = λ a b. refl;
  larp_min-eq-min = λ a b. refl;
}

abbrev test_ports : Ports ℕ ℕ
test_ports = record { larp = test_larp; emit = λ w b. (true, w + 1) }

abbrev test_file : Option (List ℕ)
test_file = some (72 ∷ 105 ∷ 10 ∷ [])

abbrev conn_new : Tcp ℕ ℕ
conn_new = tcp_start test_ports 40000 8080 1000 test_file 3 5 0

abbrev conn_syn : Tcp ℕ ℕ
conn_syn = tcp_tick test_ports conn_new 10

-- The peer's SYN/ACK, with the option MSS 400.
abbrev syn_ack : List ℕ
syn_ack =
    31 ∷ 144 ∷ 156 ∷ 64 ∷ 0 ∷ 0 ∷ 19 ∷ 136 ∷ 0 ∷ 0 ∷ 3 ∷ 233 ∷ 96 ∷ 18 ∷ 16 ∷ 0 ∷ 0 ∷ 0 ∷ 0 ∷ 0 ∷ 2
    ∷ 4 ∷ 1 ∷ 144 ∷ []

abbrev syn_ack_fields : Segment
syn_ack_fields = record {
  seq = 5000;
  acknowledgement = 1001;
  flags = 18;
  window = 4096;
  header = 24;
  payload = [];
}

abbrev conn_open : Tcp ℕ ℕ
conn_open = opened test_ports conn_syn syn_ack_fields 400 20

syn_ack-IsBytes : IsBytes syn_ack
syn_ack-IsBytes = ground arith

opens : tcp_input test_ports conn_syn syn_ack 24 20 ≡ Outcome.done conn_open
unfolding tcp_input tcp_tick tcp_start net_read16 oldest output net_read32 syn_options
opens = refl

conn_open-Reach : Reach test_ports conn_new conn_open
conn_open-Reach =
    next (next here (tick 10)) (input syn_ack 24 20 conn_open syn_ack-IsBytes (omega arith) opens)

Reach-IsTcp_example : IsTcp (sent_file test_file 3) conn_open
Reach-IsTcp_example =
    Reach-IsTcp test_ports 40000 8080 1000 test_file 3 5 0 conn_open refl conn_open-Reach

-- Two bytes of the peer's stream.
abbrev two_bytes : List ℕ
two_bytes =
    31 ∷ 144 ∷ 156 ∷ 64 ∷ 0 ∷ 0 ∷ 19 ∷ 137 ∷ 0 ∷ 0 ∷ 3 ∷ 233 ∷ 80 ∷ 24 ∷ 16 ∷ 0 ∷ 0 ∷ 0 ∷ 0 ∷ 0 ∷ 79
    ∷ 75 ∷ []

abbrev two_bytes_fields : Segment
two_bytes_fields = record {
  seq = 5001;
  acknowledgement = 1001;
  flags = 24;
  window = 4096;
  header = 20;
  payload = 79 ∷ 75 ∷ [];
}

abbrev conn_data : Tcp ℕ ℕ
conn_data = synchronized test_ports conn_open two_bytes_fields 30

-- A connection with three bytes to send.
abbrev sending : Tcp ℕ ℕ
sending = record (cleared test_ports 0) {
  state = established;
  isn = 1000;
  una = 1001;
  next = 1001;
  mss = 536;
  peer_window = 4096;
  cwnd = 4;
  tx_size = 3;
}

in_time : timed_out sending 5 (oldest sending) ≡ false
unfolding oldest
in_time = refl

tcp_tick-Sends_example :
    Sends test_ports (send_ack test_ports sending) 5 (tcp_tick test_ports sending 5)
tcp_tick-Sends_example =
    tcp_tick-Sends test_ports sending 5 (omega arith) (omega arith) (omega arith) refl refl in_time
