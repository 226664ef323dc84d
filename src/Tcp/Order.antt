-- ===== src/Tcp/Order.antt =====
-- jordyOS/net/tcp.c: what `tcp_input` delivers.
use os_research_lab.Base.{
  ℕ, ◌+◌, ◌≤◌, List, ◌++◌, Bool, true, false, length, take, drop, ◌≡◌, ◌⊎◌, u32,
}
use os_research_lab.Tcp.{
  Tcp, TcpState, idle, syn_sent, established, closing, failed, tcp_fin, has, one_if,
}
use os_research_lab.Tcp.Input.{Segment}
use os_research_lab.Tcp.Frame.{Core, core}

-- The receiving side.
pub record Receiving : Type 0 where
  pub rx : List ℕ
  pub rx_size : ℕ
  pub receive_next : ℕ
  pub peer_fin : Bool

abbrev pub receiving : Core → Receiving
receiving k = record {
  rx = k.body.rx;
  rx_size = k.body.rx_size;
  receive_next = k.flow.receive_next;
  peer_fin = k.body.peer_fin;
}

-- The bytes received so far.
abbrev pub delivered : Receiving → List ℕ
delivered r = take r.rx_size r.rx

-- From one receiving side to another the segment delivered nothing, or what of its payload comes
-- next in the stream.
abbrev pub Delivers : Receiving → Segment → Receiving → Type 0
Delivers r s r' =
    ((delivered r' ≡ delivered r) × (r'.receive_next ≡ r.receive_next) × (r'.peer_fin ≡ r.peer_fin))
    ⊎ ((k : ℕ) × (k ≤ length s.payload)
        × (u32 (s.seq + k) ≡ r.receive_next)
        × (r.peer_fin ≡ false)
        × (delivered r' ≡ delivered r ++ drop k s.payload)
        × (r'.receive_next
            ≡ u32 (r.receive_next + length (drop k s.payload) + one_if (has s.flags tcp_fin)))
        × (r'.peer_fin ≡ has s.flags tcp_fin))

abbrev pub InOrder : {M W : Type 0} → Tcp M W → Segment → Tcp M W → Type 0
InOrder c s c' = Delivers (receiving (core c)) s (receiving (core c'))

-- The states in which the stream is open to the peer.
abbrev pub is_synchronized : TcpState → Bool
is_synchronized idle = false
is_synchronized syn_sent = false
is_synchronized established = true
is_synchronized closing = true
is_synchronized TcpState.done = true
is_synchronized failed = false
