-- ===== src/Tcp/Reach.antt =====
-- jordyOS/net/tcp.c: a connection over time. A step is a received segment that was taken, a tick, or
-- an abort by the caller.
use os_research_lab.Base.{
  ℕ, zero, suc, ◌≤◌, List, ◌++◌, Option, Bool, false, ◌&&◌, ◌||◌, ltb, ◌==◌, ◌!=◌, length,
  replicate, take, drop, length-replicate, ◌≡◌, inl, refl, arith,
}
use os_research_lab.Base.Fault.{Outcome, Ensures}
use os_research_lab.Packet.Sum.{IsBytes}
use os_research_lab.Bpf.Memory.{is_null, bytes_of}
use os_research_lab.Tcp.{Tcp, Reason, Ports, tcp_buffer, tcp_slots}
use os_research_lab.Tcp.Send.{tcp_start, tcp_abort, no_segment}
use os_research_lab.Tcp.Input.{tcp_input}
use os_research_lab.Tcp.Tick.{tcp_tick}
use os_research_lab.Tcp.Invariant.{IsTcp, EachSegment}
use os_research_lab.Tcp.Resend.{tcp_abort-IsTcp}
use os_research_lab.Tcp.Accept.{tcp_input-IsTcp}
use os_research_lab.Tcp.Timer.{tcp_tick-IsTcp}

pub data Step {M W : Type 0} (ports : Ports M W) (c : Tcp M W) : Tcp M W → Type 0 where
  input :
      (b : List ℕ) (size now : ℕ) (c' : Tcp M W)
      → IsBytes b
      → size ≤ length b
      → tcp_input ports c b size now ≡ Outcome.done c'
      → Step ports c c'
  tick : (now : ℕ) → Step ports c (tcp_tick ports c now)
  abort : (reason : Reason) → Step ports c (tcp_abort ports c reason)

pub data Reach {M W : Type 0} (ports : Ports M W) (c : Tcp M W) : Tcp M W → Type 0 where
  here : Reach ports c c
  next : {d e : Tcp M W} → Reach ports c d → Step ports d e → Reach ports c e

Ensures-eq :
    {A : Type 0} (P : A → Type 0) (m : Outcome A) (a : A) → m ≡ Outcome.done a → Ensures P m → P a
Ensures-eq P m a e h = rw e at h

EachSegment-none : (n k : ℕ) → EachSegment n (replicate k no_segment)
EachSegment-none n zero = tt
EachSegment-none n (suc k) = ((omega arith, omega arith), EachSegment-none n k)

-- The conditions under which `tcp_start` opens a connection.
abbrev pub refuses : ℕ → ℕ → Option (List ℕ) → ℕ → Bool
refuses local peer bytes size =
    (local == 0) || (peer == 0) || ltb tcp_buffer size || (size != 0) && is_null bytes

-- The bytes of the file at the front of the send buffer.
abbrev pub sent_file : Option (List ℕ) → ℕ → List ℕ
sent_file bytes size = take size (bytes_of bytes) ++ drop size (replicate tcp_buffer 0)

module _ {M W : Type 0} (ports : Ports M W) where
  tcp_start-IsTcp :
      (local peer isn : ℕ) (bytes : Option (List ℕ)) (size now : ℕ) (w : W)
      → refuses local peer bytes size ≡ false
      → IsTcp (sent_file bytes size) (tcp_start ports local peer isn bytes size now w)
  unfolding tcp_start
  tcp_start-IsTcp local peer isn bytes size now w accepts = rw accepts (record {
    tx = refl;
    offset = omega arith;
    size = ground arith;
    buffer = length-replicate {A = ℕ} tcp_buffer 0;
    received = omega arith;
    slots = length-replicate tcp_slots no_segment;
    segments = EachSegment-none size tcp_slots;
    rto_low = omega arith;
    rto_high = omega arith;
    closed = inl refl;
  })

  Step-IsTcp : (file : List ℕ) {c d : Tcp M W} → Step ports c d → IsTcp file c → IsTcp file d
  Step-IsTcp file {c = c} (input b size now c' bytes inside e) h =
      Ensures-eq (IsTcp file) (tcp_input ports c b size now) c' e
        (tcp_input-IsTcp ports file c b size now bytes inside h)
  Step-IsTcp file {c = c} (tick now) h = tcp_tick-IsTcp ports file c now h
  Step-IsTcp file {c = c} (abort reason) h = tcp_abort-IsTcp ports file c reason h

  Reach-kept : (file : List ℕ) {c d : Tcp M W} → IsTcp file c → Reach ports c d → IsTcp file d
  Reach-kept file h here = h
  Reach-kept file h (next r s) = Step-IsTcp file s (Reach-kept file h r)

  -- Every connection reached from one that `tcp_start` opened, by segments of any content, ticks at
  -- any times and aborts, keeps the file to send unchanged; its sixteen slots hold parts of that file
  -- sent again at most eight times; what was received fits the 16 KiB buffer; the retransmission
  -- timeout lies between one second and sixty; and it is done only when the peer acknowledged our
  -- end of the stream and sent its own.
  pub Reach-IsTcp :
      (local peer isn : ℕ) (bytes : Option (List ℕ)) (size now : ℕ) (w : W) (c : Tcp M W)
      → refuses local peer bytes size ≡ false
      → Reach ports (tcp_start ports local peer isn bytes size now w) c
      → IsTcp (sent_file bytes size) c
  Reach-IsTcp local peer isn bytes size now w c accepts r =
      Reach-kept (sent_file bytes size) (tcp_start-IsTcp local peer isn bytes size now w accepts) r
