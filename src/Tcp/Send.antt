-- ===== src/Tcp/Send.antt =====
-- jordyOS/net/tcp.c: `tcp_abort`, `transmit`, `feedback`, `tcp_start`, `rtt_sample` and `loss`.
use os_research_lab.Base.{
  ℕ, ◌+◌, ◌-◌, ◌*◌, ◌/◌, ◌^◌, ◌%◌, bit_or, List, [], ◌++◌, Option, some, none, Bool, true, false,
  ◌&&◌, ◌||◌, leb, ltb, ◌==◌, ◌!=◌, min, replicate, take, drop, set, u32, if◌then◌else◌,
}
use os_research_lab.Bpf.Memory.{is_null, bytes_of}
use os_research_lab.Tcp.{
  Tcp, TcpSegment, TcpState, idle, syn_sent, established, closing, done, failed, Reason,
  invalid_transfer, retransmission_limit, Feedback, Recovery, larp_recovery, larp_timeout, Ports,
  tcp_buffer, tcp_slots, tcp_mss, tcp_rst, tcp_ack, sub64, u64_add, inflight, oldest, output,
}

-- Whether the peer knows of the connection.
abbrev pub is_open : TcpState → Bool
is_open idle = false
is_open syn_sent = false
is_open established = true
is_open closing = true
is_open done = false
is_open failed = false

unfoldable pub tcp_abort : {M W : Type 0} → Ports M W → Tcp M W → Reason → Tcp M W
tcp_abort ports c reason =
    let c' = if is_open c.state then (output ports c c.next (bit_or tcp_rst tcp_ack) []).1 else c in
    record c' { state = failed; error = some reason }

-- The pacing of a data segment that was sent.
abbrev pub paced : {M W : Type 0} → Ports M W → Tcp M W → TcpSegment → ℕ → Tcp M W
paced ports c s now =
    let gap = sub64 now c.last_data_us in
    let rate = ports.larp.rate c.larp in
    record c {
      minimum_gap_us =
          if c.last_data_us != 0 && ltb gap c.minimum_gap_us then u32 gap else c.minimum_gap_us;
      last_data_us = now;
      paced_packets = u32 (c.paced_packets + 1);
      next_send_us = u64_add now (
          ports.larp.larp_max 1
            (ports.larp.larp_div ((s.length * 1000000 + rate + 2 ^ 64 - 1) % 2 ^ 64) rate));
    }

-- What a transmission leaves: whether it was sent, the connection, and the segment.
pub record Sent (M W : Type 0) : Type 0 where
  pub ok : Bool
  pub conn : Tcp M W
  pub segment : TcpSegment

unfoldable pub transmit : {M W : Type 0} → Ports M W → Tcp M W → TcpSegment → ℕ → Sent M W
transmit ports c s now =
    let bytes = if s.length != 0 then take s.length (drop s.offset c.tx) else [] in
    let (ok, c') = output ports c s.sequence s.flags bytes in
    if ok
    then record {
      ok = true;
      conn = if s.length != 0 then paced ports c' s now else c';
      segment = record s { sent_us = now };
    }
    else record { ok = false; conn = c'; segment = s }

unfoldable pub feedback : {M W : Type 0} → Ports M W → Tcp M W → Feedback → ℕ → Recovery → Tcp M W
feedback ports c f acked recovery =
    let model = ports.larp.larp_update c.larp f in
    record c {
      larp = model;
      feedbacks = u32 (c.feedbacks + 1);
      cwnd =
          ports.larp.larp_ack_window c.cwnd (ports.larp.larp_window model c.mss tcp_slots)
            (inflight c) acked tcp_slots recovery;
    }

abbrev pub no_segment : TcpSegment
no_segment = record {
  sequence = 0;
  offset = 0;
  length = 0;
  delivered = 0;
  sent_us = 0;
  delivered_us = 0;
  flight_us = 0;
  flags = 0;
  retries = 0;
  used = false;
  app_limited = false;
}

-- `memset(c, 0, sizeof *c)` with the callback's context set; the model it clears is read no more
-- before it is started.
abbrev pub cleared : {M W : Type 0} → Ports M W → W → Tcp M W
cleared ports context = record {
  state = idle;
  error = none;
  local_port = 0;
  peer_port = 0;
  mss = 0;
  peer_window = 0;
  isn = 0;
  una = 0;
  next = 0;
  receive_next = 0;
  window_seq = 0;
  window_ack = 0;
  tx_size = 0;
  tx_offset = 0;
  rx_size = 0;
  delivered = 0;
  cwnd = 0;
  recovery_end = 0;
  srtt_us = 0;
  rttvar_us = 0;
  rto_us = 0;
  dupacks = 0;
  retransmits = 0;
  timeouts = 0;
  fast_retransmits = 0;
  feedbacks = 0;
  invalid_acks = 0;
  paced_packets = 0;
  minimum_gap_us = 0;
  started_us = 0;
  next_send_us = 0;
  timer_us = 0;
  delivered_us = 0;
  flight_us = 0;
  probe_us = 0;
  last_data_us = 0;
  own_fin = false;
  own_fin_acked = false;
  peer_fin = false;
  ack_pending = false;
  recovery = false;
  larp = ports.larp.larp_start 0;
  pending = replicate tcp_slots no_segment;
  tx = replicate tcp_buffer 0;
  rx = replicate tcp_buffer 0;
  context = context;
}

-- `tcp_start` with the `size` bytes of `bytes`; a null pointer is `none`. The controller is started
-- with the constants of the source at the time `now`.
unfoldable pub tcp_start :
    {M W : Type 0} → Ports M W → ℕ → ℕ → ℕ → Option (List ℕ) → ℕ → ℕ → W → Tcp M W
tcp_start ports local peer isn bytes size now context =
    let c = cleared ports context in
    if (local == 0) || (peer == 0) || ltb tcp_buffer size || (size != 0) && is_null bytes
    then record c { state = failed; error = some invalid_transfer }
    else (let model = ports.larp.larp_start now in
        record c {
          tx = take size (bytes_of bytes) ++ drop size c.tx;
          tx_size = size;
          local_port = local;
          peer_port = peer;
          isn = isn;
          una = isn;
          next = isn;
          mss = tcp_mss;
          rto_us = 1000000;
          minimum_gap_us = 2 ^ 32 - 1;
          started_us = now;
          state = syn_sent;
          larp = model;
          cwnd = ports.larp.larp_window model tcp_mss tcp_slots;
        })

-- `rtt_sample` up to the timeout.
abbrev pub smoothed : {M W : Type 0} → Tcp M W → ℕ → Tcp M W
smoothed c rtt =
    if c.srtt_us == 0
    then record c { srtt_us = rtt; rttvar_us = rtt / 2 }
    else (let difference = if ltb rtt c.srtt_us then c.srtt_us - rtt else rtt - c.srtt_us in
        record c {
          rttvar_us = u32 (3 * c.rttvar_us + difference) / 4;
          srtt_us = u32 (7 * c.srtt_us + rtt) / 8;
        })

unfoldable pub rtt_sample : {M W : Type 0} → Ports M W → Tcp M W → ℕ → Tcp M W
rtt_sample ports c rtt =
    let c' = smoothed c (if rtt == 0 then 1 else rtt) in
    record c' {
      rto_us = u32 (
          ports.larp.larp_min 60000000 (
            ports.larp.larp_max 1000000
              (u64_add c'.srtt_us (ports.larp.larp_max 1000 (4 * c'.rttvar_us)))));
    }

abbrev pub is_syn_sent : TcpState → Bool
is_syn_sent idle = false
is_syn_sent syn_sent = true
is_syn_sent established = false
is_syn_sent closing = false
is_syn_sent done = false
is_syn_sent failed = false

-- What follows a retransmission that was sent, the slots written back.
unfoldable pub after_loss : {M W : Type 0} → Ports M W → Tcp M W → ℕ → Bool → Tcp M W
after_loss ports c now timeout =
    let c = record c { retransmits = u32 (c.retransmits + 1); timer_us = now } in
    let c =
      if timeout
      then record c { timeouts = u32 (c.timeouts + 1); rto_us = min 60000000 (u32 (c.rto_us * 2)) }
      else record c { fast_retransmits = u32 (c.fast_retransmits + 1) } in
    if is_syn_sent c.state
    then c
    else (let c = record c {
      cwnd = if timeout then 1 else c.cwnd;
      recovery = true;
      recovery_end = c.next;
    } in
        feedback ports c
          (record {
            now_us = now;
            rtt_us = 0;
            loss = true;
            in_recovery = true;
            inflight = inflight c;
            app_limited = false;
            window_limited = false;
            valid_delivery = false;
            delivery_rate = 0;
            sample_start_us = 0;
          })
          0 (if timeout then larp_timeout else larp_recovery))

-- `loss` of the segment `s` in the slot `i`.
unfoldable pub lost : {M W : Type 0} → Ports M W → Tcp M W → ℕ → Bool → ℕ → TcpSegment → Tcp M W
unfolding transmit after_loss
lost ports c now timeout i s =
    if leb 8 s.retries
    then tcp_abort ports c retransmission_limit
    else if ltb now c.next_send_us && (s.length != 0)
    then c
    else (let t = transmit ports c s now in
        if t.ok
        then after_loss ports
            (record t.conn {
              pending = set t.conn.pending i (record t.segment { retries = s.retries + 1 });
            })
            now timeout
        else t.conn)

unfoldable pub loss : {M W : Type 0} → Ports M W → Tcp M W → ℕ → Bool → Tcp M W
unfolding lost
loss ports c now timeout = elim (oldest c) [ none ↦ c | some (i, s) ↦ lost ports c now timeout i s ]
