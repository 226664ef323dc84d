-- ===== src/Packet.antt =====
-- jordyOS/net/packet.c and packet.h: big-endian fields, the Internet checksum and the IPv4 decoder.
-- A pointer into a byte array is the list of the bytes from it to the array's end, so `p + k` is
-- `drop k p` and a read past the end is a `fault`. The parser of addresses is in `Packet.Text`.
pub mod Sum
pub mod Decode
pub mod Text
mod Tests
use os_research_lab.Base.{
  ℕ, zero, suc, ◌+◌, ◌-◌, ◌*◌, ◌/◌, ◌%◌, ◌^◌, bit_and, bit_or, List, Option, some, none, Bool,
  get_elem?, set, drop, u8, u16, u32, ◌<<<◌, ◌>>>◌, ltb, ◌==◌, ◌!=◌, not, if◌then◌else◌,
}
use os_research_lab.Base.Fault.{Outcome, fault, reject, done, require, load, ◌>>=◌, ◌>>◌}

-- `Packet`
pub record Packet : Type 0 where
  pub source : ℕ
  pub destination : ℕ
  pub source_port : ℕ
  pub destination_port : ℕ
  pub length : ℕ
  pub protocol : ℕ

abbrev pub net_frame_max : ℕ
net_frame_max = 1514

abbrev pub net_ip : ℕ
net_ip = 0xc0000202

abbrev pub net_mask : ℕ
net_mask = 0xffffff00

abbrev pub net_icmp : ℕ
net_icmp = 1

abbrev pub net_tcp : ℕ
net_tcp = 6

abbrev pub net_udp : ℕ
net_udp = 17

-- `p[i]`
abbrev pub byte : List ℕ → ℕ → Outcome ℕ
byte p i = load (get_elem? p i)

unfoldable pub net_read16 : List ℕ → Outcome ℕ
net_read16 p = do hi ← byte p 0; lo ← byte p 1; done (bit_or (hi <<< 8) lo)

unfoldable pub net_read32 : List ℕ → Outcome ℕ
unfolding net_read16
net_read32 p = do hi ← net_read16 p; lo ← net_read16 (drop 2 p); done (bit_or (hi <<< 16) lo)

-- The field at `p + i` of a whole array: a store keeps the rest of the array.
unfoldable pub net_write16 : List ℕ → ℕ → ℕ → List ℕ
net_write16 p i n = set (set p i (u8 (n >>> 8))) (i + 1) (u8 n)

unfoldable pub net_write32 : List ℕ → ℕ → ℕ → List ℕ
unfolding net_write16
net_write32 p i n = net_write16 (net_write16 p i (u16 (n >>> 16))) (i + 2) (u16 n)

-- `while (length >= 2)` and the odd byte after it.
unfoldable pub sum_words : List ℕ → ℕ → ℕ → Outcome ℕ
sum_words p zero sum = done sum
sum_words p (suc zero) sum = do last ← byte p 0; done (u32 (sum + (last <<< 8)))
sum_words p (suc (suc length)) sum = do
  word ← net_read16 p
  sum_words (drop 2 p) length (u32 (sum + word))

-- `while (sum >> 16)` with fuel. A 32-bit sum takes at most two rounds.
unfoldable pub fold_carries : ℕ → ℕ → ℕ
fold_carries zero sum = sum
fold_carries (suc fuel) sum =
    let next = fold_carries fuel (u32 (bit_and sum 65535 + (sum >>> 16))) in
    if (sum >>> 16) == 0 then sum else next

abbrev pub fold_rounds : ℕ
fold_rounds = 3

-- `(uint16_t)~sum` of a sum below 2^16 is 65535 - sum.
unfoldable pub net_checksum : List ℕ → ℕ → ℕ → Outcome ℕ
unfolding sum_words fold_carries
net_checksum p length sum = do
  total ← sum_words p length sum
  done (u16 (2 ^ 32 - 1 - fold_carries fold_rounds total))

-- The checks on the transport header, and the ports.
unfoldable pub net_transport : List ℕ → ℕ → ℕ → ℕ → Outcome (ℕ × ℕ)
net_transport body size protocol pseudo =
    if protocol == net_icmp
    then (do
      require (not (ltb size 8))
      check ← net_checksum body size 0
      require (check == 0)
      done (0, 0))
    else if protocol == net_udp
    then (do
      require (not (ltb size 8))
      datagram ← net_read16 (drop 4 body)
      require (datagram == size)
      field ← net_read16 (drop 6 body)
      check ← if field == 0 then done 0 else net_checksum body size pseudo
      require (check == 0)
      source ← net_read16 body
      destination ← net_read16 (drop 2 body)
      done (source, destination))
    else if protocol == net_tcp
    then (do
      require (not (ltb size 20))
      offset ← byte body 12
      require (not (ltb (offset >>> 4) 5))
      require (not (ltb size ((offset >>> 4) * 4)))
      check ← net_checksum body size pseudo
      require (check == 0)
      source ← net_read16 body
      destination ← net_read16 (drop 2 body)
      done (source, destination))
    else reject

-- The checks on the IPv4 header; the result is the total length that the header gives.
unfoldable pub net_header : List ℕ → ℕ → Outcome ℕ
net_header ip available = do
  require (not (ltb available 20))
  require (not (ltb 1500 available))
  version ← byte ip 0
  require (version == 0x45)
  ttl ← byte ip 8
  require (ttl != 0)
  flags ← net_read16 (drop 6 ip)
  require (bit_and flags 0xbfff == 0)
  check ← net_checksum ip 20 0
  require (check == 0)
  length ← net_read16 (drop 2 ip)
  require (not (ltb length 20))
  require (not (ltb available length))
  done length

-- The four address words, the protocol and the size, as `unsigned`.
unfoldable pub net_pseudo : List ℕ → ℕ → ℕ → Outcome ℕ
net_pseudo ip protocol size = do
  a ← net_read16 (drop 12 ip)
  b ← net_read16 (drop 14 ip)
  c ← net_read16 (drop 16 ip)
  d ← net_read16 (drop 18 ip)
  done (u32 (a + b + c + d + protocol + size))

unfoldable pub net_decode : List ℕ → ℕ → Outcome Packet
net_decode ip available = do
  length ← net_header ip available
  let size = length - 20
  protocol ← byte ip 9
  pseudo ← net_pseudo ip protocol size
  ports ← net_transport (drop 20 ip) size protocol pseudo
  source ← net_read32 (drop 12 ip)
  destination ← net_read32 (drop 16 ip)
  done (record {
    source = source;
    destination = destination;
    source_port = ports.0;
    destination_port = ports.1;
    length = length;
    protocol = protocol;
  })
