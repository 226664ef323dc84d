-- ===== src/Tcp/Invariant.antt =====
-- The invariant of a connection, and the changes that keep it.
use os_research_lab.Base.{
  ℕ, zero, suc, ◌+◌, ◌≤◌, List, [], ◌∷◌, Option, some, none, Bool, true, false, ◌&&◌, ◌||◌, length,
  set, length-set, Bool-cases, ◌≡◌, ◌⊎◌, inl, inr, refl, ◌∙◌, arith, u32, if◌then◌else◌,
}
use os_research_lab.Tcp.{
  Tcp, TcpSegment, TcpState, idle, syn_sent, established, closing, failed, tcp_buffer, tcp_slots,
  oldest_from, older, before,
}
use os_research_lab.Tcp.Frame.{Body, body, backed_off}

abbrev pub is_done : TcpState → Bool
is_done idle = false
is_done syn_sent = false
is_done established = false
is_done closing = false
is_done TcpState.done = true
is_done failed = false

-- A segment was sent again at most eight times, and its bytes lie in the file of `n` bytes.
abbrev pub IsSegment : ℕ → TcpSegment → Type 0
IsSegment n s = (s.retries ≤ 8) × (s.offset + s.length ≤ n)

abbrev pub EachSegment : ℕ → List TcpSegment → Type 0
EachSegment n [] = Unit {0}
EachSegment n (s ∷ slots) = IsSegment n s × EachSegment n slots

-- The file to send stays, what is sent lies in it, and what is received fits its buffer; the
-- sixteen slots hold segments of the file; the timeout lies between one second and sixty; and the
-- connection is done only when both ends have closed it.
pub record IsBody (file : List ℕ) (k : Body) : Type 0 where
  pub tx : k.tx ≡ file
  pub offset : k.tx_offset ≤ k.tx_size
  pub size : k.tx_size ≤ tcp_buffer
  pub buffer : length k.rx ≡ tcp_buffer
  pub received : k.rx_size ≤ tcp_buffer
  pub slots : length k.pending ≡ tcp_slots
  pub segments : EachSegment k.tx_size k.pending
  pub rto_low : 1000000 ≤ k.rto
  pub rto_high : k.rto ≤ 60000000
  pub closed : (is_done k.state ≡ false) ⊎ ((k.own_fin_acked && k.peer_fin) ≡ true)

abbrev pub IsTcp : {M W : Type 0} → List ℕ → Tcp M W → Type 0
IsTcp file c = IsBody file (body c)

pub if-IsTcp :
    {M W : Type 0} (file : List ℕ) (b : Bool) (c c' : Tcp M W)
    → IsTcp file c
    → IsTcp file c'
    → IsTcp file (if b then c else c')
if-IsTcp file true c c' h h' = h
if-IsTcp file false c c' h h' = h'

pub EachSegment-set :
    (n : ℕ) (slots : List TcpSegment) (i : ℕ) (s : TcpSegment)
    → EachSegment n slots
    → IsSegment n s
    → EachSegment n (set slots i s)
EachSegment-set n [] i s h p = tt
EachSegment-set n (t ∷ slots) zero s h p = (p, h.1)
EachSegment-set n (t ∷ slots) (suc i) s h p = (h.0, EachSegment-set n slots i s h.1 p)

-- The segment that a search found so far.
abbrev Found : ℕ → Option (ℕ × TcpSegment) → Type 0
Found n none = Unit {0}
Found n (some p) = IsSegment n p.1

older-Found :
    (n i : ℕ) (s : TcpSegment) (found : Option (ℕ × TcpSegment))
    → IsSegment n s
    → Found n found
    → Found n (older s i found)
older-Found n i s none p h = elim (Bool-cases s.used) [ inl u ↦ rw u p | inr u ↦ rw u tt ]
older-Found n i s (some (j, t)) p h = elim (Bool-cases (s.used && before s.sequence t.sequence)) [
  | inl u ↦ rw u p
  | inr u ↦ rw u h
]

pub oldest_from-Found :
    (n : ℕ) (slots : List TcpSegment) (i : ℕ) (found : Option (ℕ × TcpSegment))
    → EachSegment n slots
    → Found n found
    → Found n (oldest_from slots i found)
unfolding oldest_from
oldest_from-Found n [] i found h p = p
oldest_from-Found n (s ∷ slots) i found h p =
    oldest_from-Found n slots (i + 1) (older s i found) h.1 (older-Found n i s found h.0 p)

-- Other states than `done`, a timeout in its range and slots with segments of the file are in
-- keeping with the invariant.
pub IsBody-state :
    (file : List ℕ) (k : Body) (state : TcpState)
    → is_done state ≡ false
    → IsBody file k
    → IsBody file (record k { state = state })
IsBody-state file k state e h = record {
  tx = h.tx;
  offset = h.offset;
  size = h.size;
  buffer = h.buffer;
  received = h.received;
  slots = h.slots;
  segments = h.segments;
  rto_low = h.rto_low;
  rto_high = h.rto_high;
  closed = inl e;
}

pub IsBody-done :
    (file : List ℕ) (k : Body)
    → (k.own_fin_acked && k.peer_fin) ≡ true
    → IsBody file k
    → IsBody file (record k { state = TcpState.done })
IsBody-done file k e h = record {
  tx = h.tx;
  offset = h.offset;
  size = h.size;
  buffer = h.buffer;
  received = h.received;
  slots = h.slots;
  segments = h.segments;
  rto_low = h.rto_low;
  rto_high = h.rto_high;
  closed = inr e;
}

pub IsBody-rto :
    (file : List ℕ) (k : Body) (rto : ℕ)
    → (1000000 ≤ rto) × (rto ≤ 60000000)
    → IsBody file k
    → IsBody file (record k { rto = rto })
IsBody-rto file k rto range h = record {
  tx = h.tx;
  offset = h.offset;
  size = h.size;
  buffer = h.buffer;
  received = h.received;
  slots = h.slots;
  segments = h.segments;
  rto_low = range.0;
  rto_high = range.1;
  closed = h.closed;
}

pub IsBody-pending :
    (file : List ℕ) (k : Body) (slots : List TcpSegment)
    → length slots ≡ tcp_slots
    → EachSegment k.tx_size slots
    → IsBody file k
    → IsBody file (record k { pending = slots })
IsBody-pending file k slots e each h = record {
  tx = h.tx;
  offset = h.offset;
  size = h.size;
  buffer = h.buffer;
  received = h.received;
  slots = e;
  segments = each;
  rto_low = h.rto_low;
  rto_high = h.rto_high;
  closed = h.closed;
}

-- Done stays so with more acknowledged.
pub IsBody-fin_acked :
    (file : List ℕ) (k : Body) (b : Bool)
    → IsBody file k
    → IsBody file (record k { own_fin_acked = k.own_fin_acked || b })
IsBody-fin_acked file k b h = record {
  tx = h.tx;
  offset = h.offset;
  size = h.size;
  buffer = h.buffer;
  received = h.received;
  slots = h.slots;
  segments = h.segments;
  rto_low = h.rto_low;
  rto_high = h.rto_high;
  closed = elim h.closed [ inl e ↦ inl e | inr e ↦ inr (grind arith) ];
}

closing-closed :
    (fin : Bool) (state : TcpState) (both : Bool)
    → (is_done state ≡ false) ⊎ (both ≡ true)
    → (is_done (if fin then closing else state) ≡ false) ⊎ (both ≡ true)
closing-closed true state both h = inl refl
closing-closed false state both h = h

-- The next bytes of the file in a slot.
pub IsBody-sent :
    (file : List ℕ) (k : Body) (size slot : ℕ) (s : TcpSegment) (fin : Bool)
    → IsSegment k.tx_size s
    → k.tx_offset + size ≤ k.tx_size
    → IsBody file k
    → IsBody file (record k {
      tx_offset = u32 (k.tx_offset + size);
      pending = set k.pending slot s;
      state = if fin then closing else k.state;
    })
IsBody-sent file k size slot s fin p fits h = record {
  tx = h.tx;
  offset = let small = h.size in omega arith;
  size = h.size;
  buffer = h.buffer;
  received = h.received;
  slots = length-set k.pending slot s ∙ h.slots;
  segments = EachSegment-set k.tx_size k.pending slot s h.segments p;
  rto_low = h.rto_low;
  rto_high = h.rto_high;
  closed = closing-closed fin k.state (k.own_fin_acked && k.peer_fin) h.closed;
}

pub backed_off_range :
    (timeout : Bool) (rto : ℕ)
    → 1000000 ≤ rto
    → rto ≤ 60000000
    → (1000000 ≤ backed_off timeout rto) × (backed_off timeout rto ≤ 60000000)
backed_off_range true rto low high = omega arith
backed_off_range false rto low high = (low, high)
