-- ===== src/Tcp.antt =====
-- jordyOS/net/tcp.h and tcp.c: the active-open TCP endpoint. Here its state, the arithmetic on
-- sequence numbers, the slots of unacknowledged segments and `output`; the rest of tcp.c is in
-- `Tcp.Send`, `Tcp.Ack`, `Tcp.Input` and `Tcp.Tick`. The congestion controller is vendored
-- (larp_core.h) and the callback `emit` is the caller's: both are parameters, `Larp` and `Ports`.
pub mod Send
pub mod Ack
pub mod Input
pub mod Tick
pub mod Frame
pub mod Invariant
pub mod Resend
pub mod Retire
pub mod Accept
pub mod Timer
pub mod Order
pub mod Options
pub mod Window
pub mod Proceed
pub mod Ticked
pub mod Reach
mod Tests
use os_research_lab.Base.{
  ℕ, zero, suc, ◌+◌, ◌-◌, ◌*◌, ◌/◌, ◌^◌, ◌%◌, bit_and, List, [], ◌∷◌, ◌++◌, Option, some, none,
  Bool, true, false, not, ◌&&◌, ◌||◌, leb, ltb, ◌==◌, ◌!=◌, min, max, length, replicate, take, drop,
  set, get_or, u32, ◌<<<◌, ◌≡◌, if◌then◌else◌,
}
use os_research_lab.Packet.{net_write16, net_write32}

abbrev pub tcp_buffer : ℕ
tcp_buffer = 16384

abbrev pub tcp_slots : ℕ
tcp_slots = 16

abbrev pub tcp_mss : ℕ
tcp_mss = 536

-- The flags.
abbrev pub tcp_fin : ℕ
tcp_fin = 1

abbrev pub tcp_syn : ℕ
tcp_syn = 2

abbrev pub tcp_rst : ℕ
tcp_rst = 4

abbrev pub tcp_psh : ℕ
tcp_psh = 8

abbrev pub tcp_ack : ℕ
tcp_ack = 16

pub data TcpState : Type 0 where
  idle syn_sent established closing done failed : TcpState

-- The texts that `error` is set to; the last two are set by tcp_native.c.
pub data Reason : Type 0 where
  invalid_transfer connection_refused retransmission_limit peer_reset : Reason
  file_too_large deadline cancelled interface_stopped : Reason

-- `TcpSegment`
pub record TcpSegment : Type 0 where
  pub sequence : ℕ
  pub offset : ℕ
  pub length : ℕ
  pub delivered : ℕ
  pub sent_us : ℕ
  pub delivered_us : ℕ
  pub flight_us : ℕ
  pub flags : ℕ
  pub retries : ℕ
  pub used : Bool
  pub app_limited : Bool

-- `struct larp_feedback`, with the fields that tcp.c sets.
pub record Feedback : Type 0 where
  pub now_us : ℕ
  pub rtt_us : ℕ
  pub loss : Bool
  pub in_recovery : Bool
  pub inflight : ℕ
  pub app_limited : Bool
  pub window_limited : Bool
  pub valid_delivery : Bool
  pub delivery_rate : ℕ
  pub sample_start_us : ℕ

-- The members of `enum larp_recovery` that tcp.c passes.
pub data Recovery : Type 0 where
  larp_open larp_recovery larp_timeout : Recovery

-- The controller: its model, what tcp.c reads and writes of the model, and its operations.
-- `larp_max` and `larp_min` are the greater and the lesser of two words.
pub record Larp (M : Type 0) : Type 0 where
  pub larp_start : ℕ → M
  pub larp_update : M → Feedback → M
  pub larp_window : M → ℕ → ℕ → ℕ
  pub larp_ack_window : ℕ → ℕ → ℕ → ℕ → ℕ → Recovery → ℕ
  pub larp_max : ℕ → ℕ → ℕ
  pub larp_min : ℕ → ℕ → ℕ
  pub larp_div : ℕ → ℕ → ℕ
  pub rate : M → ℕ
  pub min_rtt_us : M → ℕ
  pub with_min_rtt : M → ℕ → ℕ → M
  pub larp_max-eq-max : (a b : ℕ) → larp_max a b ≡ max a b
  pub larp_min-eq-min : (a b : ℕ) → larp_min a b ≡ min a b

-- The controller beside the callback, which takes a segment and tells whether it was sent; `W` is
-- what stands behind the pointer `context`.
pub record Ports (M W : Type 0) : Type 0 where
  pub larp : Larp M
  pub emit : W → List ℕ → Bool × W

-- `Tcp`. `tx` and `rx` are the whole buffers.
pub record Tcp (M W : Type 0) : Type 0 where
  pub state : TcpState
  pub error : Option Reason
  pub local_port : ℕ
  pub peer_port : ℕ
  pub mss : ℕ
  pub peer_window : ℕ
  pub isn : ℕ
  pub una : ℕ
  pub next : ℕ
  pub receive_next : ℕ
  pub window_seq : ℕ
  pub window_ack : ℕ
  pub tx_size : ℕ
  pub tx_offset : ℕ
  pub rx_size : ℕ
  pub delivered : ℕ
  pub cwnd : ℕ
  pub recovery_end : ℕ
  pub srtt_us : ℕ
  pub rttvar_us : ℕ
  pub rto_us : ℕ
  pub dupacks : ℕ
  pub retransmits : ℕ
  pub timeouts : ℕ
  pub fast_retransmits : ℕ
  pub feedbacks : ℕ
  pub invalid_acks : ℕ
  pub paced_packets : ℕ
  pub minimum_gap_us : ℕ
  pub started_us : ℕ
  pub next_send_us : ℕ
  pub timer_us : ℕ
  pub delivered_us : ℕ
  pub flight_us : ℕ
  pub probe_us : ℕ
  pub last_data_us : ℕ
  pub own_fin : Bool
  pub own_fin_acked : Bool
  pub peer_fin : Bool
  pub ack_pending : Bool
  pub recovery : Bool
  pub larp : M
  pub pending : List TcpSegment
  pub tx : List ℕ
  pub rx : List ℕ
  pub context : W

-- `a - b` on 32-bit and on 64-bit words.
abbrev pub sub32 : ℕ → ℕ → ℕ
sub32 a b = (a + 2 ^ 32 - b) % 2 ^ 32

abbrev pub sub64 : ℕ → ℕ → ℕ
sub64 a b = (a + 2 ^ 64 - b) % 2 ^ 64

abbrev pub u64_add : ℕ → ℕ → ℕ
u64_add a b = (a + b) % 2 ^ 64

-- `(int32_t)(a - b) < 0`
unfoldable pub before : ℕ → ℕ → Bool
before a b = leb (2 ^ 31) (sub32 a b)

abbrev pub has : ℕ → ℕ → Bool
has flags flag = bit_and flags flag != 0

abbrev pub one_if : Bool → ℕ
one_if b = if b then 1 else 0

unfoldable pub count_used : List TcpSegment → ℕ
count_used [] = 0
count_used (s ∷ slots) = one_if s.used + count_used slots

unfoldable pub inflight : {M W : Type 0} → Tcp M W → ℕ
unfolding count_used
inflight c = count_used c.pending

-- The loop of `oldest` from slot `i` on, with the slot found so far.
abbrev pub older : TcpSegment → ℕ → Option (ℕ × TcpSegment) → Option (ℕ × TcpSegment)
older s i none = if s.used then some (i, s) else none
older s i (some (j, t)) =
    if s.used && before s.sequence t.sequence then some (i, s) else some (j, t)

unfoldable pub oldest_from : List TcpSegment → ℕ → Option (ℕ × TcpSegment) → Option (ℕ × TcpSegment)
unfolding before
oldest_from [] i found = found
oldest_from (s ∷ slots) i found = oldest_from slots (i + 1) (older s i found)

-- The oldest segment and its slot.
unfoldable pub oldest : {M W : Type 0} → Tcp M W → Option (ℕ × TcpSegment)
unfolding oldest_from
oldest c = oldest_from c.pending 0 none

-- `min32(4096, TCP_BUFFER + 1 - rx_size)`
abbrev pub receive_window : {M W : Type 0} → Tcp M W → ℕ
receive_window c = min 4096 (sub32 (tcp_buffer + 1) c.rx_size)

abbrev pub header_size : ℕ → ℕ
header_size flags = if has flags tcp_syn then 24 else 20

-- The header that `output` writes.
unfoldable pub tcp_header : {M W : Type 0} → Tcp M W → ℕ → ℕ → List ℕ
tcp_header c seq flags =
    let b = replicate (header_size flags) 0 in
    let b = net_write16 (net_write16 b 0 c.local_port) 2 c.peer_port in
    let b = net_write32 (net_write32 b 4 seq) 8 c.receive_next in
    let b = set (set b 12 ((header_size flags / 4) <<< 4)) 13 flags in
    let b = net_write16 b 14 (receive_window c) in
    if has flags tcp_syn then net_write16 (set (set b 20 2) 21 4) 22 tcp_mss else b

-- The segment that `output` hands to the callback. The local array of 24 + TCP_MSS bytes is the list; its
-- size is not checked here.
unfoldable pub output : {M W : Type 0} → Ports M W → Tcp M W → ℕ → ℕ → List ℕ → Bool × Tcp M W
unfolding tcp_header
output ports c seq flags bytes =
    let (sent, context) = ports.emit c.context (tcp_header c seq flags ++ bytes) in
    (sent, record c { context = context })
