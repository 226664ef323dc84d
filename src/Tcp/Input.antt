-- ===== src/Tcp/Input.antt =====
-- jordyOS/net/tcp.c: `tcp_input`, a received segment. `fault` is a read outside the segment's bytes,
-- and `reject` a return that changes nothing.
use os_research_lab.Base.{
  ℕ, zero, suc, ◌+◌, ◌-◌, ◌*◌, bit_and, List, [], ◌∷◌, ◌++◌, Option, some, none, Bool, true, false,
  not, ◌&&◌, ◌||◌, leb, ltb, ◌==◌, ◌!=◌, min, length, take, drop, get_or, u32, ◌>>>◌, if◌then◌else◌,
}
use os_research_lab.Base.Fault.{Outcome, require, ◌>>=◌, ◌>>◌}
use os_research_lab.Packet.{byte, net_read16, net_read32}
use os_research_lab.Tcp.{
  Tcp, TcpSegment, TcpState, idle, syn_sent, established, closing, failed, connection_refused,
  peer_reset, file_too_large, Ports, tcp_buffer, tcp_mss, tcp_fin, tcp_syn, tcp_rst, tcp_ack, sub32,
  sub64, before, has, one_if, receive_window,
}
use os_research_lab.Tcp.Send.{tcp_abort, rtt_sample, no_segment}
use os_research_lab.Tcp.Ack.{ack}

-- What `tcp_input` reads of a segment: the fields, the length of the header, and the payload.
pub record Segment : Type 0 where
  pub seq : ℕ
  pub acknowledgement : ℕ
  pub flags : ℕ
  pub window : ℕ
  pub header : ℕ
  pub payload : List ℕ

-- The checks on the header and on the ports.
unfoldable pub tcp_parse : {M W : Type 0} → Tcp M W → List ℕ → ℕ → Outcome Segment
tcp_parse c b size = do
  require (not (ltb size 20))
  offset ← byte b 12
  let header = (offset >>> 4) * 4
  require (not (ltb (offset >>> 4) 5))
  require (not (ltb size header))
  source ← net_read16 b
  require (source == c.peer_port)
  destination ← net_read16 (drop 2 b)
  require (destination == c.local_port)
  seq ← net_read32 (drop 4 b)
  acknowledgement ← net_read32 (drop 8 b)
  flags ← byte b 13
  window ← net_read16 (drop 14 b)
  Outcome.done (record {
    seq = seq;
    acknowledgement = acknowledgement;
    flags = flags;
    window = window;
    header = header;
    payload = take (size - header) (drop header b);
  })

-- One round of the loop over the options, at `i`: the next index and MSS, or none at the end.
unfoldable pub next_option : List ℕ → ℕ → ℕ → ℕ → Outcome (Option (ℕ × ℕ))
next_option b header i mss = if leb header i then Outcome.done none else (do
  kind ← byte b i
  elim (kind == 0) [
    | true ↦ Outcome.done none
    | false ↦ elim (kind == 1) [
      | true ↦ Outcome.done (some (i + 1, mss))
      | false ↦ do
        require (not (leb header (i + 1)))
        size ← byte b (i + 1)
        require (not (ltb size 2) && not (ltb header (i + size)))
        elim (kind == 2) [
          | true ↦ do
            require (size == 4)
            value ← net_read16 (drop (i + 2) b)
            require (value != 0)
            Outcome.done (some (i + size, min mss value))
          | false ↦ Outcome.done (some (i + size, mss))
        ]
    ]
  ])

-- The loop with fuel; every round takes a byte of the header.
unfoldable pub syn_options : ℕ → List ℕ → ℕ → ℕ → ℕ → Outcome ℕ
unfolding next_option
syn_options zero b header i mss = Outcome.done mss
syn_options (suc left) b header i mss = do
  next ← next_option b header i mss
  elim next [ none ↦ Outcome.done mss | some (i', mss') ↦ syn_options left b header i' mss' ]

abbrev pub slot_zero : {M W : Type 0} → Tcp M W → TcpSegment
slot_zero c = get_or c.pending 0 no_segment

abbrev pub unused_zero : List TcpSegment → List TcpSegment
unused_zero [] = []
unused_zero (s ∷ slots) = record s { used = false } ∷ slots

-- The SYN/ACK that opens the connection.
unfoldable pub opened : {M W : Type 0} → Ports M W → Tcp M W → Segment → ℕ → ℕ → Tcp M W
opened ports c s mss now =
    let first = slot_zero c in
    let c = record c {
      mss = mss;
      receive_next = u32 (s.seq + 1);
      peer_window = s.window;
      window_seq = s.seq;
      window_ack = s.acknowledgement;
      una = s.acknowledgement;
      pending = unused_zero c.pending;
    } in
    let c =
      if first.retries == 0
      then (let c' =
            rtt_sample ports c (u32 (ports.larp.larp_min (sub64 now first.sent_us) 60000000)) in
          record c' { larp = ports.larp.with_min_rtt c'.larp c'.srtt_us now })
      else record c { rto_us = 3000000 } in
    record c { state = established; ack_pending = true; delivered_us = now }

-- A segment in the state `syn_sent`.
unfoldable pub handshake :
    {M W : Type 0} → Ports M W → Tcp M W → Segment → List ℕ → ℕ → Outcome (Tcp M W)
unfolding opened
handshake ports c s b now =
    if has s.flags tcp_rst && has s.flags tcp_ack && (s.acknowledgement == u32 (c.isn + 1))
    then Outcome.done (tcp_abort ports c connection_refused)
    else (do
      require (
          (bit_and s.flags (tcp_syn + tcp_ack + tcp_rst + tcp_fin) == tcp_syn + tcp_ack)
          && (s.acknowledgement == u32 (c.isn + 1))
          && (c.next == s.acknowledgement)
          && (length s.payload == 0))
      mss ← syn_options s.header b s.header 20 tcp_mss
      Outcome.done (opened ports c s mss now))

abbrev pub sequence_length : Segment → ℕ
sequence_length s = length s.payload + one_if (has s.flags tcp_fin)

unfoldable pub acceptable : {M W : Type 0} → Tcp M W → Segment → Bool
unfolding before
acceptable c s =
    let window = receive_window c in
    let end = u32 (c.receive_next + window) in
    if sequence_length s != 0
    then before s.seq end && not (before (sub32 (s.seq + sequence_length s) 1) c.receive_next)
    else (s.seq == c.receive_next)
      || (window != 0) && not (before s.seq c.receive_next) && before s.seq end

-- The update of the peer's window, and whether it changed.
unfoldable pub window_update : {M W : Type 0} → Tcp M W → Segment → Bool × Tcp M W
unfolding before
window_update c s =
    if before c.window_seq s.seq
      || (c.window_seq == s.seq) && not (before s.acknowledgement c.window_ack)
    then (let changed = c.peer_window != s.window in
        (
          changed,
          record c {
            peer_window = s.window;
            window_seq = s.seq;
            window_ack = s.acknowledgement;
            dupacks = if changed then 0 else c.dupacks;
          },
        ))
    else (false, c)

-- The bytes of a payload that lie behind those that were received.
abbrev pub trimmed : {M W : Type 0} → Tcp M W → Segment → ℕ
trimmed c s =
    if before s.seq c.receive_next then min (sub32 c.receive_next s.seq) (length s.payload) else 0

-- The bytes stored behind the received ones, and the end of the stream.
unfoldable pub store : {M W : Type 0} → Tcp M W → List ℕ → Bool → Tcp M W
store c bytes fin = record c {
  rx = take c.rx_size c.rx ++ bytes ++ drop (c.rx_size + length bytes) c.rx;
  rx_size = u32 (c.rx_size + length bytes);
  receive_next = u32 (c.receive_next + length bytes + one_if fin);
  peer_fin = c.peer_fin || fin;
}

-- The payload and the end of the stream, where they come next.
unfoldable pub accept_payload : {M W : Type 0} → Ports M W → Tcp M W → Segment → Tcp M W
unfolding before store
accept_payload ports c s =
    if (length s.payload == 0) && not (has s.flags tcp_fin)
    then c
    else (let c = record c { ack_pending = true } in
        let bytes = drop (trimmed c s) s.payload in
        if c.peer_fin || (u32 (s.seq + trimmed c s) != c.receive_next)
        then c
        else if ltb (sub32 tcp_buffer c.rx_size) (length bytes)
        then tcp_abort ports c file_too_large
        else store c bytes (has s.flags tcp_fin))

-- An acceptable segment whose acknowledgement is in range: the peer's window, the acknowledgement
-- unless it is a plain duplicate beside data or a window update, and the payload.
unfoldable pub process : {M W : Type 0} → Ports M W → Tcp M W → Segment → ℕ → Tcp M W
unfolding window_update accept_payload
process ports c s now =
    let (changed, c) = window_update c s in
    let c =
      if (s.acknowledgement != c.una) || (sequence_length s == 0) && not changed
      then ack ports c s.acknowledgement now
      else c in
    accept_payload ports c s

-- A segment once the connection is established.
unfoldable pub synchronized : {M W : Type 0} → Ports M W → Tcp M W → Segment → ℕ → Tcp M W
unfolding before acceptable process
synchronized ports c s now =
    if has s.flags tcp_rst
    then (if s.seq == c.receive_next
        then record c { state = failed; error = some peer_reset }
        else record c { ack_pending = true })
    else if has s.flags tcp_syn
        && has s.flags tcp_ack
        && (u32 (s.seq + 1) == c.receive_next)
        && (s.acknowledgement == u32 (c.isn + 1))
    then record c { ack_pending = true }
    else if has s.flags tcp_syn || not (has s.flags tcp_ack)
    then c
    else if not (acceptable c s)
    then record c { ack_pending = true }
    else if before c.next s.acknowledgement
    then record c { invalid_acks = u32 (c.invalid_acks + 1); ack_pending = true }
    else if before s.acknowledgement c.una
    then c
    else process ports c s now

-- By the state.
unfoldable pub receive :
    {M W : Type 0} → Ports M W → TcpState → Tcp M W → Segment → List ℕ → ℕ → Outcome (Tcp M W)
unfolding handshake synchronized
receive ports idle c s b now = Outcome.done c
receive ports syn_sent c s b now = handshake ports c s b now
receive ports established c s b now = Outcome.done (synchronized ports c s now)
receive ports closing c s b now = Outcome.done (synchronized ports c s now)
receive ports TcpState.done c s b now = Outcome.done (synchronized ports c s now)
receive ports failed c s b now = Outcome.done c

unfoldable pub tcp_input : {M W : Type 0} → Ports M W → Tcp M W → List ℕ → ℕ → ℕ → Outcome (Tcp M W)
unfolding tcp_parse receive
tcp_input ports c b size now = do s ← tcp_parse c b size; receive ports c.state c s b now
