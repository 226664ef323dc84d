-- ===== src/Tcp/Proceed.antt =====
-- jordyOS/net/tcp.c: what `proceed`, the last part of `tcp_tick`, hands on and counts as sent.
use os_research_lab.Base.{
  ℕ, ◌+◌, ◌^◌, ◌≤◌, ◌<◌, [], ◌∷◌, Option, some, none, Bool, false, not, ◌&&◌, ◌||◌, leb, ◌==◌, ◌!=◌,
  min, Bool-cases, if-P_eq, ◌≡◌, inl, inr, refl, arith, bit_or, if◌then◌else◌,
}
use os_research_lab.Tcp.{
  Tcp, TcpSegment, TcpState, Ports, tcp_ack, tcp_psh, tcp_fin, sub32, sub64, inflight, tcp_header,
  output,
}
use os_research_lab.Tcp.Tick.{
  free_slot, probe, next_segment, commit, send_from, send_next, held, into_slot, proceed,
}
use os_research_lab.Tcp.Window.{last_byte, Probes, Sends, commit-Advances}

module _ {M W : Type 0} (ports : Ports M W) where
  -- The room that the window leaves holds the segment.
  window_arith :
      (next una window n mss left : ℕ)
      → next < 2 ^ 32
      → una < 2 ^ 32
      → window < 2 ^ 16
      → leb window (sub32 next una) ≡ false
      → n ≡ min mss (min left (sub32 window (sub32 next una)))
      → (sub32 next una + n ≤ window) × (sub32 next una + 1 ≤ window) × (n ≤ mss) × (n ≤ left)
  window_arith next una window n mss left a b w opens e = ground arith

  send_from-Sends :
      (c : Tcp M W) (slot : ℕ) (outstanding : Bool) (now : ℕ)
      → c.next < 2 ^ 32
      → c.una < 2 ^ 32
      → c.peer_window < 2 ^ 16
      → held c now ≡ false
      → Sends ports c now (send_from ports c slot outstanding now)
  unfolding send_from next_segment held
  send_from-Sends c slot outstanding now a b w free =
      let s = next_segment c in
      let end : TcpSegment = record s { flags = bit_or tcp_ack tcp_fin } in
      let (fits, one, segment, left) =
        window_arith c.next c.una c.peer_window s.length c.mss (sub32 c.tx_size c.tx_offset) a b w
          (ground arith) refl in
      if-P_eq (Sends ports c now) (s.length != 0) {x = commit ports c s slot outstanding now}
        {y = if (c.tx_offset != c.tx_size) || (inflight c != 0)
          then c
          else commit ports c end slot outstanding now}
        (λ more. inr (
          bit_or tcp_ack tcp_psh,
          s.length,
          record {
            still_open = ground arith;
            pace = ground arith;
            congestion = ground arith;
            segment_size = segment;
            left = left;
            window = omega (arith, fits);
            kind = inl (refl, ground arith);
          },
          commit-Advances ports c s slot outstanding now,
        ))
        (λ nothing.
          if-P_eq (Sends ports c now) ((c.tx_offset != c.tx_size) || (inflight c != 0)) {x = c}
            {y = commit ports c end slot outstanding now}
            (λ waits. inl (inl (refl, (refl, refl, refl))))
            (λ ends. inr (
              bit_or tcp_ack tcp_fin,
              s.length,
              record {
                still_open = ground arith;
                pace = ground arith;
                congestion = ground arith;
                segment_size = segment;
                left = left;
                window = ground (arith, one, nothing);
                kind = inr (refl, ground arith, ground arith, ground arith);
              },
              commit-Advances ports c end slot outstanding now,
            )))

  -- The times that the first segment of a flight is given are not handed on.
  abbrev timed : Tcp M W → ℕ → Tcp M W
  timed c now = record c { flight_us = now; delivered_us = now }

  timed-Sends : (c c' : Tcp M W) (now : ℕ) → Sends ports (timed c now) now c' → Sends ports c now c'
  unfolding output tcp_header inflight
  timed-Sends c c' now (inl (inl s)) = inl (inl s)
  timed-Sends c c' now (inl (inr p)) = inl (inr p)
  timed-Sends c c' now (inr (flags, n, m, s)) = inr (
    flags,
    n,
    record {
      still_open = m.still_open;
      pace = m.pace;
      congestion = m.congestion;
      segment_size = m.segment_size;
      left = m.left;
      window = m.window;
      kind = m.kind;
    },
    record { handed = s.handed; next = s.next; offset = s.offset; ends = s.ends },
  )

  send_next-Sends :
      (c : Tcp M W) (slot : ℕ) (outstanding : Bool) (now : ℕ)
      → c.next < 2 ^ 32
      → c.una < 2 ^ 32
      → c.peer_window < 2 ^ 16
      → held c now ≡ false
      → Sends ports c now (send_next ports c slot outstanding now)
  unfolding send_next held inflight
  send_next-Sends c slot outstanding now a b w free = elim (Bool-cases (inflight c == 0)) [
    | inl first ↦ rw first (
        timed-Sends c (send_from ports (timed c now) slot outstanding now) now
          (send_from-Sends (timed c now) slot outstanding now a b w free))
    | inr later ↦ rw later (send_from-Sends c slot outstanding now a b w free)
  ]

  into_slot-Sends :
      (c : Tcp M W) (slot : Option ℕ) (outstanding : Bool) (now : ℕ)
      → c.next < 2 ^ 32
      → c.una < 2 ^ 32
      → c.peer_window < 2 ^ 16
      → held c now ≡ false
      → Sends ports c now (into_slot ports c slot outstanding now)
  into_slot-Sends c none outstanding now a b w free = inl (inl (refl, (refl, refl, refl)))
  into_slot-Sends c (some slot) outstanding now a b w free =
      send_next-Sends c slot outstanding now a b w free

  probe-Probes : (c : Tcp M W) (now : ℕ) → c.peer_window ≡ 0 → Probes ports c (probe ports c now)
  unfolding probe output
  probe-Probes c now shut =
      let o = output ports c (sub32 c.next 1) tcp_ack (last_byte c ∷ []) in
      if-P_eq (Probes ports c) o.0 {x = record o.1 { probe_us = now }} {y = o.1}
        (λ sent. (shut, refl, (refl, refl, refl))) (λ fails. (shut, refl, (refl, refl, refl)))

  -- The same behind the acknowledgement, the timeout and the SYN.
  pub proceed-Sends :
      (c : Tcp M W) (now : ℕ) (outstanding : Bool)
      → c.next < 2 ^ 32
      → c.una < 2 ^ 32
      → c.peer_window < 2 ^ 16
      → Sends ports c now (proceed ports c now outstanding)
  unfolding proceed
  proceed-Sends c now outstanding a b w =
      if-P_eq (Sends ports c now) (c.own_fin_acked && c.peer_fin && not c.ack_pending)
        {x = record c { state = TcpState.done }} (λ over. inl (inl (refl, (refl, refl, refl))))
        (λ goes_on.
          if-P_eq (Sends ports c now) ((c.peer_window == 0) && leb 1000000 (sub64 now c.probe_us))
            {x = probe ports c now} (λ shut. inl (inr (probe-Probes c now (ground arith))))
            (λ passes.
              if-P_eq (Sends ports c now) (held c now) {x = c}
                {y = into_slot ports c (free_slot c.pending 0) outstanding now}
                (λ waits. inl (inl (refl, (refl, refl, refl))))
                (λ free. into_slot-Sends c (free_slot c.pending 0) outstanding now a b w free)))
