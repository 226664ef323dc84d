-- ===== src/Tcp/Accept.antt =====
-- jordyOS/net/tcp.c: the safety of `tcp_input`, and the invariant of the connection under it.
use os_research_lab.Base.{
  if-P, ℕ, ◌+◌, ◌≤◌, List, [], ◌∷◌, ◌++◌, some, Bool, true, false, not, ◌&&◌, ◌||◌, ltb, ◌==◌, ◌!=◌,
  length, take, drop, length-append, length-take, length-drop, Bool-cases, ◌≡◌, inl, inr, refl, ◌∙◌,
  arith, u32, bit_and,
}
use os_research_lab.Base.Fault.{Ensures, >>=-Ensures}
use os_research_lab.Packet.Sum.{IsBytes}
use os_research_lab.Packet.Decode.{byte_lem, read16_lem, read32_lem}
use os_research_lab.Tcp.{
  Tcp, TcpSegment, TcpState, idle, syn_sent, established, closing, failed, peer_reset, Ports,
  tcp_buffer, tcp_mss, tcp_fin, tcp_syn, tcp_rst, tcp_ack, before, sub32, has,
}
use os_research_lab.Tcp.Input.{
  Segment, tcp_parse, syn_options, slot_zero, unused_zero, opened, handshake, sequence_length,
  acceptable, window_update, trimmed, store, accept_payload, process, synchronized, receive,
  tcp_input,
}
use os_research_lab.Tcp.Frame.{body}
use os_research_lab.Tcp.Invariant.{
  EachSegment, IsBody, IsTcp, IsBody-state, IsBody-rto, IsBody-pending,
}
use os_research_lab.Tcp.Resend.{tcp_abort-IsTcp}
use os_research_lab.Tcp.Options.{syn_options-reads}
use os_research_lab.Tcp.Retire.{rtt_sample-IsTcp, ack-IsTcp}

-- What `tcp_parse` gives: a header that lies in the segment.
abbrev pub IsParsed : List ℕ → Segment → Type 0
IsParsed b s = s.header ≤ length b

tcp_parse-reads :
    {M W : Type 0} (c : Tcp M W) (b : List ℕ) (size : ℕ)
    → IsBytes b
    → size ≤ length b
    → Ensures (IsParsed b) (tcp_parse c b size)
unfolding tcp_parse
tcp_parse-reads c b size bytes inside = elim (Bool-cases (ltb size 20)) [
  | inl short ↦ rw short tt
  | inr long ↦
      rw
        (
          long,
          byte_lem b 12 (ground arith),
          read16_lem b 0 bytes (ground arith),
          read16_lem b 2 bytes (ground arith),
          read32_lem b 4 bytes (ground arith),
          read32_lem b 8 bytes (ground arith),
          byte_lem b 13 (ground arith),
          read16_lem b 14 bytes (ground arith),
        )
        (ground arith)
]

-- Bytes written over a part of an array.
length-splice :
    (xs bytes : List ℕ) (n : ℕ)
    → n + length bytes ≤ length xs
    → length (take n xs ++ bytes ++ drop (n + length bytes) xs) ≡ length xs
length-splice xs bytes n h = omega (
  arith,
  length-append (take n xs ++ bytes) (drop (n + length bytes) xs),
  length-append (take n xs) bytes,
  length-take n xs,
  length-drop (n + length bytes) xs,
)

module _ {M W : Type 0} (ports : Ports M W) (file : List ℕ) where
  EachSegment-unused :
      (n : ℕ) (slots : List TcpSegment) → EachSegment n slots → EachSegment n (unused_zero slots)
  EachSegment-unused n [] h = tt
  EachSegment-unused n (s ∷ slots) h = h

  length-unused_zero : (slots : List TcpSegment) → length (unused_zero slots) ≡ length slots
  length-unused_zero [] = refl
  length-unused_zero (s ∷ slots) = refl

  opened-IsTcp :
      (c : Tcp M W) (s : Segment) (mss now : ℕ)
      → IsTcp file c
      → IsTcp file (opened ports c s mss now)
  unfolding opened
  opened-IsTcp c s mss now h =
      let k : IsBody file (record (body c) { pending = unused_zero c.pending }) =
        IsBody-pending file (body c) (unused_zero c.pending)
          (length-unused_zero c.pending ∙ h.slots)
          (EachSegment-unused c.tx_size c.pending h.segments) h in
      elim (Bool-cases ((slot_zero c).retries == 0)) [
        | inl fresh ↦
            rw fresh (IsBody-state file _ established refl (rtt_sample-IsTcp ports file _ _ k))
        | inr again ↦ rw again (
            IsBody-state file _ established refl
              (IsBody-rto file _ 3000000 (omega arith, omega arith) k))
      ]

  pub window_update-IsTcp :
      (c : Tcp M W) (s : Segment) → IsTcp file c → IsTcp file (window_update c s).1
  unfolding window_update
  window_update-IsTcp c s h =
      elim (Bool-cases (
        before c.window_seq s.seq
        || (c.window_seq == s.seq) && not (before s.acknowledgement c.window_ack))) [
          | inl new ↦ rw new h
          | inr old ↦ rw old h
        ]

  -- Bytes that fit behind the received ones.
  store-IsTcp :
      (c : Tcp M W) (bytes : List ℕ) (fin : Bool)
      → ltb (sub32 tcp_buffer c.rx_size) (length bytes) ≡ false
      → IsTcp file c
      → IsTcp file (store c bytes fin)
  unfolding store
  store-IsTcp c bytes fin fits h = record {
    tx = h.tx;
    offset = h.offset;
    size = h.size;
    buffer =
        let r = h.received in
        length-splice c.rx bytes c.rx_size (ground (arith, h.buffer)) ∙ h.buffer;
    received = let r = h.received in ground arith;
    slots = h.slots;
    segments = h.segments;
    rto_low = h.rto_low;
    rto_high = h.rto_high;
    closed = elim h.closed [ inl e ↦ inl e | inr e ↦ inr (grind arith) ];
  }

  accept_payload-IsTcp :
      (c : Tcp M W) (s : Segment) → IsTcp file c → IsTcp file (accept_payload ports c s)
  unfolding accept_payload
  accept_payload-IsTcp c s h =
      let pending = record c { ack_pending = true } in
      elim (Bool-cases ((length s.payload == 0) && not (has s.flags tcp_fin))) [
        | inl nothing ↦ rw nothing h
        | inr something ↦
            rw something
              (elim (Bool-cases (c.peer_fin || (u32 (s.seq + trimmed c s) != c.receive_next))) [
                | inl later ↦ rw later h
                | inr here ↦
                    rw here
                      (elim (Bool-cases (
                        ltb (sub32 tcp_buffer c.rx_size) (length (drop (trimmed c s) s.payload)))) [
                          | inl large ↦ rw large (tcp_abort-IsTcp ports file pending _ h)
                          | inr fits ↦ rw fits (
                              store-IsTcp pending (drop (trimmed c s) s.payload)
                                (has s.flags tcp_fin) fits h)
                        ])
              ])
      ]

  process-IsTcp :
      (c : Tcp M W) (s : Segment) (now : ℕ) → IsTcp file c → IsTcp file (process ports c s now)
  unfolding process
  process-IsTcp c s now h =
      let u = window_update c s in
      let k = window_update-IsTcp c s h in
      accept_payload-IsTcp _ s
        (elim (Bool-cases ((s.acknowledgement != u.1.una) || (sequence_length s == 0) && not u.0)) [
          | inl counts ↦ rw counts (ack-IsTcp ports file u.1 s.acknowledgement now k)
          | inr plain ↦ rw plain k
        ])

  -- A segment resets the connection, or asks for an acknowledgement, or is ignored, or processed.
  pub synchronized-cases :
      (P : Tcp M W → Type 0) (c : Tcp M W) (s : Segment) (now : ℕ)
      → P (record c { state = failed; error = some peer_reset })
      → P (record c { ack_pending = true })
      → P c
      → P (record c { invalid_acks = u32 (c.invalid_acks + 1); ack_pending = true })
      → P (process ports c s now)
      → P (synchronized ports c s now)
  unfolding synchronized
  synchronized-cases P c s now fails owes same odd takes =
      if-P P (has s.flags tcp_rst) (if-P P (s.seq == c.receive_next) fails owes) (
        if-P P
          (has s.flags tcp_syn
            && has s.flags tcp_ack
            && (u32 (s.seq + 1) == c.receive_next)
            && (s.acknowledgement == u32 (c.isn + 1)))
          owes
          (if-P P (has s.flags tcp_syn || not (has s.flags tcp_ack)) same (
            if-P P (not (acceptable c s)) owes (
              if-P P (before c.next s.acknowledgement) odd
                (if-P P (before s.acknowledgement c.una) same takes)))))

  synchronized-IsTcp :
      (c : Tcp M W) (s : Segment) (now : ℕ) → IsTcp file c → IsTcp file (synchronized ports c s now)
  synchronized-IsTcp c s now h =
      synchronized-cases (IsTcp file) c s now (IsBody-state file (body c) failed refl h) h h h
        (process-IsTcp c s now h)

  handshake-IsTcp :
      (c : Tcp M W) (s : Segment) (b : List ℕ) (now : ℕ)
      → IsBytes b
      → IsParsed b s
      → IsTcp file c
      → Ensures (IsTcp file) (handshake ports c s b now)
  unfolding handshake
  handshake-IsTcp c s b now bytes parsed h =
      elim (Bool-cases
        (has s.flags tcp_rst && has s.flags tcp_ack && (s.acknowledgement == u32 (c.isn + 1)))) [
          | inl refused ↦ rw refused (tcp_abort-IsTcp ports file c _ h)
          | inr other ↦
              rw other
                (elim (Bool-cases (
                  (bit_and s.flags (tcp_syn + tcp_ack + tcp_rst + tcp_fin) == tcp_syn + tcp_ack)
                  && (s.acknowledgement == u32 (c.isn + 1))
                  && (c.next == s.acknowledgement)
                  && (length s.payload == 0))) [
                    | inr odd ↦ rw odd tt
                    | inl answers ↦ rw answers (
                        >>=-Ensures (λ (m : ℕ). Unit {0}) (IsTcp file)
                          (syn_options s.header b s.header 20 tcp_mss) _
                          (syn_options-reads s.header b s.header 20 tcp_mss bytes parsed)
                          (λ mss _. opened-IsTcp c s mss now h))
                  ])
        ]

  receive-IsTcp :
      (state : TcpState) (c : Tcp M W) (s : Segment) (b : List ℕ) (now : ℕ)
      → IsBytes b
      → IsParsed b s
      → IsTcp file c
      → Ensures (IsTcp file) (receive ports state c s b now)
  unfolding receive
  receive-IsTcp idle c s b now bytes parsed h = h
  receive-IsTcp syn_sent c s b now bytes parsed h = handshake-IsTcp c s b now bytes parsed h
  receive-IsTcp established c s b now bytes parsed h = synchronized-IsTcp c s now h
  receive-IsTcp closing c s b now bytes parsed h = synchronized-IsTcp c s now h
  receive-IsTcp TcpState.done c s b now bytes parsed h = synchronized-IsTcp c s now h
  receive-IsTcp failed c s b now bytes parsed h = h

  pub tcp_input-IsTcp :
      (c : Tcp M W) (b : List ℕ) (size now : ℕ)
      → IsBytes b
      → size ≤ length b
      → IsTcp file c
      → Ensures (IsTcp file) (tcp_input ports c b size now)
  unfolding tcp_input
  tcp_input-IsTcp c b size now bytes inside h =
      >>=-Ensures (IsParsed b) (IsTcp file) (tcp_parse c b size) _
        (tcp_parse-reads c b size bytes inside)
        (λ s parsed. receive-IsTcp c.state c s b now bytes parsed h)
