-- ===== src/Tcp/Ticked.antt =====
-- jordyOS/net/tcp.c: what `tcp_tick` hands on over an open connection whose timer runs.
use os_research_lab.Base.{ℕ, ◌^◌, ◌<◌, [], true, false, not, ltb, if-P_eq, ◌≡◌, refl, ◌∙◌, arith}
use os_research_lab.Tcp.{
  Tcp, TcpState, idle, syn_sent, established, closing, failed, Ports, tcp_ack, sub64, oldest,
  output,
}
use os_research_lab.Tcp.Send.{is_open, is_syn_sent}
use os_research_lab.Tcp.Tick.{
  timed_out, is_some, send_ack, advance_timer, deadline_us, live, tick, tcp_tick,
}
use os_research_lab.Tcp.Proceed.{proceed-Sends}
use os_research_lab.Tcp.Window.{Sends}

module _ {M W : Type 0} (ports : Ports M W) where
  -- An acknowledgement leaves what the rest of `tcp_tick` looks at first.
  Acked : Tcp M W → ℕ → Tcp M W → Type 0
  Acked c now d =
      (timed_out d now (oldest d) ≡ timed_out c now (oldest c))
      × (d.state ≡ c.state)
      × (d.next ≡ c.next)
      × (d.una ≡ c.una)
      × (d.peer_window ≡ c.peer_window)

  send_ack-Acked : (c : Tcp M W) (now : ℕ) → Acked c now (send_ack ports c)
  unfolding Acked send_ack output oldest
  send_ack-Acked c now =
      let o = output ports c c.next tcp_ack [] in
      if-P_eq (Acked c now) c.ack_pending {x = record o.1 { ack_pending = not o.0 }} {y = c}
        (λ owed. (refl, refl, refl, refl, refl)) (λ nothing. (refl, refl, refl, refl, refl))

  advance_timer-Sends :
      (c : Tcp M W) (now : ℕ)
      → c.next < 2 ^ 32
      → c.una < 2 ^ 32
      → c.peer_window < 2 ^ 16
      → is_open c.state ≡ true
      → timed_out c now (oldest c) ≡ false
      → Sends ports c now (advance_timer ports c now)
  unfolding advance_timer
  advance_timer-Sends c now a b w opened in_time =
      if-P_eq (Sends ports c now) (timed_out c now (oldest c)) (λ out. ground arith)
        (λ runs.
          if-P_eq (Sends ports c now) (is_syn_sent c.state)
            (λ opens. absurd (never c.state opened opens))
            (λ past. proceed-Sends ports c now (is_some (oldest c)) a b w))
    where
      never : (s : TcpState) → is_open s ≡ true → is_syn_sent s ≡ true → ⊥
      never idle h k = ground arith
      never syn_sent h k = ground arith
      never established h k = ground arith
      never closing h k = ground arith
      never TcpState.done h k = ground arith
      never failed h k = ground arith

  live-Sends :
      (c : Tcp M W) (now : ℕ)
      → c.next < 2 ^ 32
      → c.una < 2 ^ 32
      → c.peer_window < 2 ^ 16
      → is_open c.state ≡ true
      → ltb deadline_us (sub64 now c.started_us) ≡ false
      → timed_out c now (oldest c) ≡ false
      → Sends ports (send_ack ports c) now (live ports c now)
  unfolding live Acked
  live-Sends c now a b w opened early in_time =
      let (same, state, next, una, window) = send_ack-Acked c now in
      rw early (
        advance_timer-Sends (send_ack ports c) now (rw next a) (rw una b) (rw window w)
          (rw state opened) (same ∙ in_time))

  tick-Sends :
      (state : TcpState) (c : Tcp M W) (now : ℕ)
      → is_open state ≡ true
      → Sends ports (send_ack ports c) now (live ports c now)
      → Sends ports (send_ack ports c) now (tick ports state c now)
  unfolding tick
  tick-Sends established c now h s = s
  tick-Sends closing c now h s = s
  tick-Sends idle c now h s = ground arith
  tick-Sends syn_sent c now h s = ground arith
  tick-Sends TcpState.done c now h s = ground arith
  tick-Sends failed c now h s = ground arith

  -- Of an open connection before its deadline, whose oldest segment has not timed out, `tcp_tick` does one
  -- of three things once a pending acknowledgement was sent: it hands on nothing; it hands on one
  -- byte to probe a window of 0; or it hands on one new segment, from the next byte of the file on,
  -- when that may be sent, so that all that is sent and not acknowledged fits the window that the
  -- peer told. If the callback sent the new segment, the next number, the place in the file and the
  -- end of the stream are advanced over it, and else they stay.
  pub tcp_tick-Sends :
      (c : Tcp M W) (now : ℕ)
      → c.next < 2 ^ 32
      → c.una < 2 ^ 32
      → c.peer_window < 2 ^ 16
      → is_open c.state ≡ true
      → ltb deadline_us (sub64 now c.started_us) ≡ false
      → timed_out c now (oldest c) ≡ false
      → Sends ports (send_ack ports c) now (tcp_tick ports c now)
  unfolding tcp_tick
  tcp_tick-Sends c now a b w opened early in_time =
      tick-Sends c.state c now opened (live-Sends c now a b w opened early in_time)
