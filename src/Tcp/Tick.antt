-- ===== src/Tcp/Tick.antt =====
-- jordyOS/net/tcp.c: `tcp_tick`, what the endpoint does as time passes.
use os_research_lab.Base.{
  ℕ, ◌+◌, ◌-◌, ◌*◌, bit_or, List, [], ◌∷◌, Option, some, none, Bool, true, false, not, ◌&&◌, ◌||◌,
  leb, ltb, ◌==◌, ◌!=◌, min, get_or, set, u32, if◌then◌else◌,
}
use os_research_lab.Tcp.{
  Tcp, TcpSegment, TcpState, idle, syn_sent, established, closing, failed, deadline, Ports, tcp_ack,
  tcp_fin, tcp_psh, tcp_syn, sub32, sub64, has, one_if, inflight, oldest, output,
}
use os_research_lab.Tcp.Send.{tcp_abort, transmit, loss, no_segment, is_syn_sent}

-- The first unused slot from `i` on.
unfoldable pub free_slot : List TcpSegment → ℕ → Option ℕ
free_slot [] i = none
free_slot (s ∷ slots) i = if s.used then free_slot slots (i + 1) else some i

-- `if (c->ack_pending && output(...)) c->ack_pending = false`
unfoldable pub send_ack : {M W : Type 0} → Ports M W → Tcp M W → Tcp M W
send_ack ports c =
    if c.ack_pending
    then (let (sent, c') = output ports c c.next tcp_ack [] in record c' { ack_pending = not sent })
    else c

-- The SYN, once.
unfoldable pub send_syn : {M W : Type 0} → Ports M W → Tcp M W → ℕ → Tcp M W
unfolding transmit
send_syn ports c now =
    if c.next != c.isn
    then c
    else (let s : TcpSegment = record no_segment {
      sequence = c.isn;
      flags = tcp_syn;
      used = true;
    } in
        let t = transmit ports c s now in
        if t.ok
        then record t.conn {
          pending = set t.conn.pending 0 t.segment;
          next = u32 (t.conn.next + 1);
          timer_us = now;
        }
        else t.conn)

-- The probe of a closed window: the last byte sent, once more.
unfoldable pub probe : {M W : Type 0} → Ports M W → Tcp M W → ℕ → Tcp M W
probe ports c now =
    let last = if c.tx_offset != 0 then get_or c.tx (c.tx_offset - 1) 0 else 0 in
    let (sent, c') = output ports c (sub32 c.next 1) tcp_ack (last ∷ []) in
    if sent then record c' { probe_us = now } else c'

-- The next segment: as much data as the segment size and the peer's window let pass.
unfoldable pub next_segment : {M W : Type 0} → Tcp M W → TcpSegment
next_segment c = record no_segment {
  sequence = c.next;
  offset = c.tx_offset;
  flags = bit_or tcp_ack tcp_psh;
  delivered = c.delivered;
  delivered_us = c.delivered_us;
  flight_us = c.flight_us;
  app_limited =
      ltb (sub32 c.tx_size (sub32 (sub32 c.una c.isn) 1))
        (min (u32 (c.cwnd * c.mss)) c.peer_window);
  used = true;
  length = min c.mss (min (sub32 c.tx_size c.tx_offset) (sub32 c.peer_window (sub32 c.next c.una)));
}

-- The segment is sent and put into its slot.
unfoldable pub commit : {M W : Type 0} → Ports M W → Tcp M W → TcpSegment → ℕ → Bool → ℕ → Tcp M W
unfolding transmit
commit ports c s slot outstanding now =
    let t = transmit ports c s now in
    if t.ok
    then record t.conn {
      timer_us = if outstanding then t.conn.timer_us else now;
      pending = set t.conn.pending slot t.segment;
      next = u32 (t.conn.next + s.length + one_if (has s.flags tcp_fin));
      tx_offset = u32 (t.conn.tx_offset + s.length);
      own_fin = t.conn.own_fin || has s.flags tcp_fin;
      state = if has s.flags tcp_fin then closing else t.conn.state;
    }
    else t.conn

-- The next data, or the FIN behind the last acknowledged byte, into the slot.
unfoldable pub send_from : {M W : Type 0} → Ports M W → Tcp M W → ℕ → Bool → ℕ → Tcp M W
unfolding next_segment commit
send_from ports c slot outstanding now =
    let s = next_segment c in
    if s.length != 0
    then commit ports c s slot outstanding now
    else if (c.tx_offset != c.tx_size) || (inflight c != 0)
    then c
    else commit ports c (record s { flags = bit_or tcp_ack tcp_fin }) slot outstanding now

unfoldable pub send_next : {M W : Type 0} → Ports M W → Tcp M W → ℕ → Bool → ℕ → Tcp M W
unfolding send_from
send_next ports c slot outstanding now =
    send_from ports
      (if inflight c == 0 then record c { flight_us = now; delivered_us = now } else c) slot
      outstanding now

-- What holds new data back: the FIN was sent, the pace, the congestion window, the peer's window.
unfoldable pub held : {M W : Type 0} → Tcp M W → ℕ → Bool
held c now =
    c.own_fin
    || ltb now c.next_send_us
    || leb c.cwnd (inflight c)
    || leb c.peer_window (sub32 c.next c.una)

abbrev pub into_slot : {M W : Type 0} → Ports M W → Tcp M W → Option ℕ → Bool → ℕ → Tcp M W
into_slot ports c none outstanding now = c
into_slot ports c (some slot) outstanding now = send_next ports c slot outstanding now

-- The rest of `tcp_tick` for an established connection whose timer has not run out.
unfoldable pub proceed : {M W : Type 0} → Ports M W → Tcp M W → ℕ → Bool → Tcp M W
unfolding probe held send_next
proceed ports c now outstanding =
    if c.own_fin_acked && c.peer_fin && not c.ack_pending
    then record c { state = TcpState.done }
    else if (c.peer_window == 0) && leb 1000000 (sub64 now c.probe_us)
    then probe ports c now
    else if held c now
    then c
    else into_slot ports c (free_slot c.pending 0) outstanding now

abbrev pub timed_out : {M W : Type 0} → Tcp M W → ℕ → Option (ℕ × TcpSegment) → Bool
timed_out c now none = false
timed_out c now (some s) = leb c.rto_us (sub64 now c.timer_us)

abbrev pub is_some : Option (ℕ × TcpSegment) → Bool
is_some none = false
is_some (some s) = true

-- Behind the pending acknowledgement.
unfoldable pub advance_timer : {M W : Type 0} → Ports M W → Tcp M W → ℕ → Tcp M W
unfolding send_syn proceed
advance_timer ports c now =
    if timed_out c now (oldest c)
    then loss ports c now true
    else if is_syn_sent c.state
    then send_syn ports c now
    else proceed ports c now (is_some (oldest c))

abbrev pub deadline_us : ℕ
deadline_us = 120000000

-- Of a connection that is not over: the deadline, the acknowledgement, the timer.
unfoldable pub live : {M W : Type 0} → Ports M W → Tcp M W → ℕ → Tcp M W
unfolding send_ack advance_timer
live ports c now =
    if ltb deadline_us (sub64 now c.started_us)
    then tcp_abort ports c deadline
    else advance_timer ports (send_ack ports c) now

-- By the state.
unfoldable pub tick : {M W : Type 0} → Ports M W → TcpState → Tcp M W → ℕ → Tcp M W
unfolding send_ack live
tick ports idle c now = c
tick ports failed c now = c
tick ports TcpState.done c now = send_ack ports c
tick ports syn_sent c now = live ports c now
tick ports established c now = live ports c now
tick ports closing c now = live ports c now

unfoldable pub tcp_tick : {M W : Type 0} → Ports M W → Tcp M W → ℕ → Tcp M W
unfolding tick
tcp_tick ports c now = tick ports c.state c now
