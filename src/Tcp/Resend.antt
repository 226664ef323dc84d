-- ===== src/Tcp/Resend.antt =====
-- jordyOS/net/tcp.c: the invariant of the connection under sending, losing and aborting.
use os_research_lab.Base.{
  ℕ, ◌+◌, ◌≤◌, List, [], none, Bool, ◌&&◌, leb, ltb, ◌!=◌, set, take, drop, length-set, Bool-cases,
  Option-cases, inl, inr, refl, ap, ◌∙◌, arith, if◌then◌else◌,
}
use os_research_lab.Tcp.{Tcp, TcpSegment, failed, Reason, Ports, output, oldest}
use os_research_lab.Tcp.Send.{tcp_abort, transmit, after_loss, lost, loss}
use os_research_lab.Tcp.Frame.{
  Core, body, core-transmit, core-tcp_abort, core-after_loss, backed_off,
}
use os_research_lab.Tcp.Invariant.{
  EachSegment-set, IsBody-pending, IsBody-rto, IsBody-state, IsSegment, IsTcp, backed_off_range,
  oldest_from-Found,
}

module _ {M W : Type 0} (ports : Ports M W) (file : List ℕ) where
  pub tcp_abort-IsTcp : (c : Tcp M W) (r : Reason) → IsTcp file c → IsTcp file (tcp_abort ports c r)
  tcp_abort-IsTcp c r h =
      rw (ap Core.body (core-tcp_abort ports c r)) (IsBody-state file (body c) failed refl h)

  after_loss-IsTcp :
      (c : Tcp M W) (now : ℕ) (timeout : Bool)
      → IsTcp file c
      → IsTcp file (after_loss ports c now timeout)
  after_loss-IsTcp c now timeout h = rw (ap Core.body (core-after_loss ports c now timeout)) (
      IsBody-rto file (body c) (backed_off timeout c.rto_us)
        (backed_off_range timeout c.rto_us h.rto_low h.rto_high) h)

  pub transmit-IsTcp :
      (c : Tcp M W) (s : TcpSegment) (now : ℕ)
      → IsTcp file c
      → IsTcp file (transmit ports c s now).conn
  transmit-IsTcp c s now h = rw (ap Core.body (core-transmit ports c s now)) h

  segment-transmit :
      (c : Tcp M W) (s : TcpSegment) (now n r : ℕ)
      → r ≤ 8
      → IsSegment n s
      → IsSegment n (record (transmit ports c s now).segment { retries = r })
  unfolding transmit
  segment-transmit c s now n r low p =
      let bytes = if s.length != 0 then take s.length (drop s.offset c.tx) else [] in
      elim (Bool-cases (output ports c s.sequence s.flags bytes).0) [
        | inl sent ↦ rw sent (low, p.1)
        | inr fails ↦ rw fails (low, p.1)
      ]

  pub transmit-IsSegment :
      (c : Tcp M W) (s : TcpSegment) (now n : ℕ)
      → IsSegment n s
      → IsSegment n (transmit ports c s now).segment
  unfolding transmit
  transmit-IsSegment c s now n p =
      let bytes = if s.length != 0 then take s.length (drop s.offset c.tx) else [] in
      elim (Bool-cases (output ports c s.sequence s.flags bytes).0) [
        | inl sent ↦ rw sent p
        | inr fails ↦ rw fails p
      ]

  -- A segment of the file that takes a slot.
  pub placed-IsTcp :
      (c : Tcp M W) (i : ℕ) (s : TcpSegment)
      → IsSegment c.tx_size s
      → IsTcp file c
      → IsTcp file (record c { pending = set c.pending i s })
  placed-IsTcp c i s p h =
      IsBody-pending file (body c) (set c.pending i s) (length-set c.pending i s ∙ h.slots)
        (EachSegment-set c.tx_size c.pending i s h.segments p) h

  -- What was found by `oldest` is sent again at most eight times.
  lost-IsTcp :
      (c : Tcp M W) (now : ℕ) (timeout : Bool) (i : ℕ) (s : TcpSegment)
      → IsSegment c.tx_size s
      → IsTcp file c
      → IsTcp file (lost ports c now timeout i s)
  unfolding lost
  lost-IsTcp c now timeout i s p h =
      let t = transmit ports c s now in
      let again = record t.conn {
        pending = set t.conn.pending i (record t.segment { retries = s.retries + 1 });
      } in
      elim (Bool-cases (leb 8 s.retries)) [
        | inl tired ↦ rw tired (tcp_abort-IsTcp c _ h)
        | inr fresh ↦ rw fresh (elim (Bool-cases (ltb now c.next_send_us && (s.length != 0))) [
          | inl early ↦ rw early h
          | inr due ↦ rw due (elim (Bool-cases t.ok) [
            | inr fails ↦ rw fails (transmit-IsTcp c s now h)
            | inl sent ↦ rw sent (
                after_loss-IsTcp again now timeout (
                  placed-IsTcp t.conn i (record t.segment { retries = s.retries + 1 })
                    (rw (ap (λ (k : Core). k.body.tx_size) (core-transmit ports c s now))
                      (segment-transmit c s now c.tx_size (s.retries + 1) (ground arith) p))
                    (transmit-IsTcp c s now h)))
          ])
        ])
      ]

  pub loss-IsTcp :
      (c : Tcp M W) (now : ℕ) (timeout : Bool)
      → IsTcp file c
      → IsTcp file (loss ports c now timeout)
  unfolding loss oldest
  loss-IsTcp c now timeout h =
      let found = oldest_from-Found c.tx_size c.pending 0 none h.segments tt in
      elim (Option-cases (oldest c)) [
        | inl e ↦ rw (loss, e) h
        | inr (p, e) ↦ rw (loss, e) (lost-IsTcp c now timeout p.0 p.1 (rw e at found) h)
      ]
