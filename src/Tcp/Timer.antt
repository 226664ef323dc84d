-- ===== src/Tcp/Timer.antt =====
-- jordyOS/net/tcp.c: the invariant of the connection under `tcp_tick`.
use os_research_lab.Base.{
  ℕ, ◌+◌, ◌-◌, ◌≤◌, List, [], ◌∷◌, Option, some, none, Bool, true, not, ◌&&◌, ◌||◌, leb, ltb, ◌==◌,
  ◌!=◌, get_or, Bool-cases, ◌≡◌, inl, inr, refl, ap, arith, bit_or, if◌then◌else◌,
}
use os_research_lab.Tcp.{
  Tcp, TcpSegment, TcpState, idle, syn_sent, established, closing, failed, Ports, tcp_ack, tcp_fin,
  tcp_syn, sub32, sub64, has, inflight, oldest, output,
}
use os_research_lab.Tcp.Send.{transmit, no_segment, is_syn_sent}
use os_research_lab.Tcp.Tick.{
  free_slot, live, send_ack, send_syn, probe, next_segment, commit, send_from, send_next, held,
  into_slot, proceed, timed_out, is_some, advance_timer, deadline_us, tick, tcp_tick,
}
use os_research_lab.Tcp.Frame.{Core, body, core-output, core-transmit}
use os_research_lab.Tcp.Invariant.{IsTcp, if-IsTcp, IsBody-sent, IsBody-done}
use os_research_lab.Tcp.Resend.{
  tcp_abort-IsTcp, transmit-IsTcp, transmit-IsSegment, placed-IsTcp, loss-IsTcp,
}

module _ {M W : Type 0} (ports : Ports M W) (file : List ℕ) where
  output-IsTcp :
      (c : Tcp M W) (seq flags : ℕ) (bytes : List ℕ)
      → IsTcp file c
      → IsTcp file (output ports c seq flags bytes).1
  output-IsTcp c seq flags bytes h = rw (ap Core.body (core-output ports c seq flags bytes)) h

  send_ack-IsTcp : (c : Tcp M W) → IsTcp file c → IsTcp file (send_ack ports c)
  unfolding send_ack output
  send_ack-IsTcp c h = elim (Bool-cases c.ack_pending) [
    | inl owed ↦ rw owed (output-IsTcp c c.next tcp_ack [] h)
    | inr nothing ↦ rw nothing h
  ]

  send_syn-IsTcp : (c : Tcp M W) (now : ℕ) → IsTcp file c → IsTcp file (send_syn ports c now)
  unfolding send_syn
  send_syn-IsTcp c now h =
      let s : TcpSegment = record no_segment { sequence = c.isn; flags = tcp_syn; used = true } in
      let t = transmit ports c s now in
      elim (Bool-cases (c.next != c.isn)) [
        | inl sent ↦ rw sent h
        | inr first ↦ rw first (elim (Bool-cases t.ok) [
          | inr fails ↦ rw fails (transmit-IsTcp ports file c s now h)
          | inl sent ↦ rw sent (
              placed-IsTcp ports file t.conn 0 t.segment
                (transmit-IsSegment ports file c s now t.conn.tx_size (omega arith, omega arith))
                (transmit-IsTcp ports file c s now h))
        ])
      ]

  probe-IsTcp : (c : Tcp M W) (now : ℕ) → IsTcp file c → IsTcp file (probe ports c now)
  unfolding probe
  probe-IsTcp c now h =
      let last = if c.tx_offset != 0 then get_or c.tx (c.tx_offset - 1) 0 else 0 in
      let k = output-IsTcp c (sub32 c.next 1) tcp_ack (last ∷ []) h in
      elim (Bool-cases (output ports c (sub32 c.next 1) tcp_ack (last ∷ [])).0) [
        | inl sent ↦ rw sent k
        | inr fails ↦ rw fails k
      ]

  -- What is sent next lies behind what was sent.
  commit-IsTcp :
      (c : Tcp M W) (s : TcpSegment) (slot : ℕ) (outstanding : Bool) (now : ℕ)
      → s.retries ≡ 0
      → s.offset ≡ c.tx_offset
      → c.tx_offset + s.length ≤ c.tx_size
      → IsTcp file c
      → IsTcp file (commit ports c s slot outstanding now)
  unfolding commit
  commit-IsTcp c s slot outstanding now fresh at_end fits h =
      let t = transmit ports c s now in
      let same = ap Core.body (core-transmit ports c s now) in
      let k = transmit-IsTcp ports file c s now h in
      elim (Bool-cases t.ok) [
        | inr fails ↦ rw fails k
        | inl sent ↦ rw sent (
            IsBody-sent file (body t.conn) s.length slot t.segment (has s.flags tcp_fin)
              (rw same (
                transmit-IsSegment ports file c s now c.tx_size
                  (omega arith, omega (arith, ap (λ n. n + s.length) at_end))))
              (rw same fits) k)
      ]

  -- The next segment holds no more than what is left of the file.
  next_segment-fits :
      (c : Tcp M W) → IsTcp file c → c.tx_offset + (next_segment c).length ≤ c.tx_size
  unfolding next_segment
  next_segment-fits c h = let inside = h.offset in let small = h.size in ground arith

  send_from-IsTcp :
      (c : Tcp M W) (slot : ℕ) (outstanding : Bool) (now : ℕ)
      → IsTcp file c
      → IsTcp file (send_from ports c slot outstanding now)
  unfolding send_from
  send_from-IsTcp c slot outstanding now h =
      let fits = next_segment-fits c h in
      let s = next_segment c in
      let last = record s { flags = bit_or tcp_ack tcp_fin } in
      let ended =
        if (c.tx_offset != c.tx_size) || (inflight c != 0)
        then c
        else commit ports c last slot outstanding now in
      if-IsTcp file (s.length != 0) (commit ports c s slot outstanding now) ended
        (commit-IsTcp c s slot outstanding now refl refl fits h)
        (if-IsTcp file ((c.tx_offset != c.tx_size) || (inflight c != 0)) c
          (commit ports c last slot outstanding now) h
          (commit-IsTcp c last slot outstanding now refl refl fits h))

  send_next-IsTcp :
      (c : Tcp M W) (slot : ℕ) (outstanding : Bool) (now : ℕ)
      → IsTcp file c
      → IsTcp file (send_next ports c slot outstanding now)
  unfolding send_next
  send_next-IsTcp c slot outstanding now h = elim (Bool-cases (inflight c == 0)) [
    | inl empty ↦
        rw empty (
          send_from-IsTcp (record c { flight_us = now; delivered_us = now }) slot outstanding now h)
    | inr busy ↦ rw busy (send_from-IsTcp c slot outstanding now h)
  ]

  into_slot-IsTcp :
      (c : Tcp M W) (slot : Option ℕ) (outstanding : Bool) (now : ℕ)
      → IsTcp file c
      → IsTcp file (into_slot ports c slot outstanding now)
  into_slot-IsTcp c none outstanding now h = h
  into_slot-IsTcp c (some slot) outstanding now h = send_next-IsTcp c slot outstanding now h

  proceed-IsTcp :
      (c : Tcp M W) (now : ℕ) (outstanding : Bool)
      → IsTcp file c
      → IsTcp file (proceed ports c now outstanding)
  unfolding proceed
  proceed-IsTcp c now outstanding h =
      elim (Bool-cases (c.own_fin_acked && c.peer_fin && not c.ack_pending)) [
        | inl ends ↦ rw ends (IsBody-done file (body c) (ground arith) h)
        | inr goes_on ↦
            rw goes_on
              (elim (Bool-cases ((c.peer_window == 0) && leb 1000000 (sub64 now c.probe_us))) [
                | inl shut ↦ rw shut (probe-IsTcp c now h)
                | inr passes ↦ rw passes (elim (Bool-cases (held c now)) [
                  | inl waits ↦ rw waits h
                  | inr free ↦ rw free (into_slot-IsTcp c (free_slot c.pending 0) outstanding now h)
                ])
              ])
      ]

  advance_timer-IsTcp :
      (c : Tcp M W) (now : ℕ) → IsTcp file c → IsTcp file (advance_timer ports c now)
  unfolding advance_timer
  advance_timer-IsTcp c now h = elim (Bool-cases (timed_out c now (oldest c))) [
    | inl out ↦ rw out (loss-IsTcp ports file c now true h)
    | inr runs ↦ rw runs (elim (Bool-cases (is_syn_sent c.state)) [
      | inl opens ↦ rw opens (send_syn-IsTcp c now h)
      | inr opened ↦ rw opened (proceed-IsTcp c now (is_some (oldest c)) h)
    ])
  ]

  live-IsTcp : (c : Tcp M W) (now : ℕ) → IsTcp file c → IsTcp file (live ports c now)
  unfolding live
  live-IsTcp c now h = elim (Bool-cases (ltb deadline_us (sub64 now c.started_us))) [
    | inl late ↦ rw late (tcp_abort-IsTcp ports file c _ h)
    | inr early ↦ rw early (advance_timer-IsTcp (send_ack ports c) now (send_ack-IsTcp c h))
  ]

  tick-IsTcp :
      (state : TcpState) (c : Tcp M W) (now : ℕ)
      → IsTcp file c
      → IsTcp file (tick ports state c now)
  unfolding tick
  tick-IsTcp idle c now h = h
  tick-IsTcp failed c now h = h
  tick-IsTcp TcpState.done c now h = send_ack-IsTcp c h
  tick-IsTcp syn_sent c now h = live-IsTcp c now h
  tick-IsTcp established c now h = live-IsTcp c now h
  tick-IsTcp closing c now h = live-IsTcp c now h

  pub tcp_tick-IsTcp : (c : Tcp M W) (now : ℕ) → IsTcp file c → IsTcp file (tcp_tick ports c now)
  unfolding tcp_tick
  tcp_tick-IsTcp c now h = tick-IsTcp c.state c now h
