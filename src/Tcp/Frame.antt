-- ===== src/Tcp/Frame.antt =====
-- What the parts of tcp.c leave alone: the streams in both directions, the slots, the state, and the
-- retransmission timeout with its range.
use os_research_lab.Base.{
  ℕ, ◌*◌, ◌≤◌, List, [], Bool, true, false, ◌==◌, ◌!=◌, min, take, drop, Bool-cases, ◌≡◌, inl, inr,
  refl, ap, arith, u32, if◌then◌else◌,
}
use os_research_lab.Tcp.{
  Tcp, TcpSegment, TcpState, failed, Reason, Feedback, Recovery, Ports, output,
}
use os_research_lab.Tcp.Send.{
  is_open, tcp_abort, transmit, feedback, rtt_sample, smoothed, after_loss, is_syn_sent,
}

-- What the invariant speaks of: the file and what is sent of it, what is received, the slots, the
-- state and the timeout.
pub record Body : Type 0 where
  pub tx : List ℕ
  pub tx_size : ℕ
  pub tx_offset : ℕ
  pub rx : List ℕ
  pub rx_size : ℕ
  pub own_fin_acked : Bool
  pub peer_fin : Bool
  pub pending : List TcpSegment
  pub state : TcpState
  pub rto : ℕ

-- The numbers of both streams.
pub record Flow : Type 0 where
  pub isn : ℕ
  pub una : ℕ
  pub next : ℕ
  pub peer_window : ℕ
  pub receive_next : ℕ
  pub own_fin : Bool

pub record Core : Type 0 where
  pub body : Body
  pub flow : Flow

-- The timeout after a loss.
abbrev pub backed_off : Bool → ℕ → ℕ
backed_off timeout rto = if timeout then min 60000000 (u32 (rto * 2)) else rto

module _ {M W : Type 0} where
  abbrev pub body : Tcp M W → Body
  body c = record {
    tx = c.tx;
    tx_size = c.tx_size;
    tx_offset = c.tx_offset;
    rx = c.rx;
    rx_size = c.rx_size;
    own_fin_acked = c.own_fin_acked;
    peer_fin = c.peer_fin;
    pending = c.pending;
    state = c.state;
    rto = c.rto_us;
  }

  abbrev pub flow : Tcp M W → Flow
  flow c = record {
    isn = c.isn;
    una = c.una;
    next = c.next;
    peer_window = c.peer_window;
    receive_next = c.receive_next;
    own_fin = c.own_fin;
  }

  abbrev pub core : Tcp M W → Core
  core c = record { body = body c; flow = flow c }

  module _ (ports : Ports M W) where
    pub core-output :
        (c : Tcp M W) (seq flags : ℕ) (bytes : List ℕ)
        → core (output ports c seq flags bytes).1 ≡ core c
    unfolding output
    core-output c seq flags bytes = refl

    pub core-transmit :
        (c : Tcp M W) (s : TcpSegment) (now : ℕ) → core (transmit ports c s now).conn ≡ core c
    unfolding transmit
    core-transmit c s now =
        let bytes = if s.length != 0 then take s.length (drop s.offset c.tx) else [] in
        let kept = core-output c s.sequence s.flags bytes in
        elim (Bool-cases (output ports c s.sequence s.flags bytes).0) [
          | inr fails ↦ rw fails kept
          | inl sent ↦ rw sent (elim (Bool-cases (s.length != 0)) [
            | inl some_data ↦ rw some_data (rw some_data at kept)
            | inr no_data ↦ rw no_data (rw no_data at kept)
          ])
        ]

    pub core-feedback :
        (c : Tcp M W) (f : Feedback) (acked : ℕ) (r : Recovery)
        → core (feedback ports c f acked r) ≡ core c
    unfolding feedback
    core-feedback c f acked r = refl

    pub core-tcp_abort :
        (c : Tcp M W) (r : Reason)
        → core (tcp_abort ports c r)
          ≡ record { flow = flow c; body = record (body c) { state = failed } }
    unfolding tcp_abort
    core-tcp_abort c r = elim (Bool-cases (is_open c.state)) [
      | inl tells ↦ rw tells (
          ap (λ (k : Core). record { flow = k.flow; body = record k.body { state = failed } })
            (core-output c c.next _ []))
      | inr silent ↦ rw silent
    ]

    pub core-after_loss :
        (c : Tcp M W) (now : ℕ) (timeout : Bool)
        → core (after_loss ports c now timeout)
          ≡ record { flow = flow c; body = record (body c) { rto = backed_off timeout c.rto_us } }
    unfolding after_loss feedback
    core-after_loss c now true = elim (Bool-cases (is_syn_sent c.state)) [
      | inl s ↦ rw s
      | inr s ↦ rw s
    ]
    core-after_loss c now false = elim (Bool-cases (is_syn_sent c.state)) [
      | inl s ↦ rw s
      | inr s ↦ rw s
    ]

    core-smoothed : (c : Tcp M W) (rtt : ℕ) → core (smoothed c rtt) ≡ core c
    core-smoothed c rtt = elim (Bool-cases (c.srtt_us == 0)) [ inl new ↦ rw new | inr old ↦ rw old ]

    pub core-rtt_sample :
        (c : Tcp M W) (rtt : ℕ)
        → core (rtt_sample ports c rtt) ≡ record {
          flow = flow c;
          body = record (body c) { rto = (rtt_sample ports c rtt).rto_us };
        }
    unfolding rtt_sample
    core-rtt_sample c rtt =
        let rto = (rtt_sample ports c rtt).rto_us in
        ap (λ (k : Core). record { flow = k.flow; body = record k.body { rto = rto } })
          (core-smoothed c (if rtt == 0 then 1 else rtt))

    pub rtt_sample_range :
        (c : Tcp M W) (rtt : ℕ)
        → (1000000 ≤ (rtt_sample ports c rtt).rto_us) × ((rtt_sample ports c rtt).rto_us ≤ 60000000)
    unfolding rtt_sample
    rtt_sample_range c rtt = (
      rw (ports.larp.larp_min-eq-min, ports.larp.larp_max-eq-max) (omega arith),
      rw (ports.larp.larp_min-eq-min, ports.larp.larp_max-eq-max) (omega arith),
    )
