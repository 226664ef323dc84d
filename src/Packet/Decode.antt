-- ===== src/Packet/Decode.antt =====
-- jordyOS/net/packet.c: the laws of the IPv4 decoder.
use os_research_lab.Base.{
  ℕ, zero, suc, ◌+◌, ◌-◌, ◌*◌, ◌/◌, ◌^◌, ◌≤◌, ◌<◌, bit_and, List, [], ◌∷◌, get_elem?, get_or, drop,
  length, leb, ◌==◌, ◌&&◌, ◌||◌, Bool, not, if◌then◌else◌, ◌≡◌, inl, inr, refl, ap, arith,
  length-drop, Bool-cases, get_elem?-of_lt,
}
use native.Mathlib.Decide.{dec_le}
use os_research_lab.Base.Bits.{bit_or_fields}
use os_research_lab.Base.Fault.{Outcome, reject, done, ◌>>=◌}
use os_research_lab.Packet.{
  Packet, byte, net_read16, net_read32, net_transport, net_header, net_pseudo, net_decode, net_icmp,
  net_tcp, net_udp,
}
use os_research_lab.Packet.Sum.{IsBytes, verifies, net_checksum-verifies}

-- The byte, the 16-bit and the 32-bit field at an offset of an array.
abbrev pub field8 : List ℕ → ℕ → ℕ
field8 p i = get_or p i 0

abbrev pub field16 : List ℕ → ℕ → ℕ
field16 p i = get_or p i 0 * 256 + get_or p (i + 1) 0

abbrev pub field32 : List ℕ → ℕ → ℕ
field32 p i = field16 p i * 65536 + field16 p (i + 2)

pub IsBytes-drop : (p : List ℕ) (k : ℕ) → IsBytes p → IsBytes (drop k p)
IsBytes-drop p zero b = b
IsBytes-drop [] (suc k) b = b
IsBytes-drop (a ∷ p) (suc k) b = IsBytes-drop p k b.1

get_or-lt : (p : List ℕ) (i : ℕ) → IsBytes p → get_or p i 0 < 256
get_or-lt [] i b = omega arith
get_or-lt (a ∷ p) zero b = b.0
get_or-lt (a ∷ p) (suc i) b = get_or-lt p i b.1

get_elem?-drop : (p : List ℕ) (k i : ℕ) → get_elem? (drop k p) i ≡ get_elem? p (k + i)
get_elem?-drop p zero i = ap (get_elem? p) (omega arith)
get_elem?-drop [] (suc k) i = refl
get_elem?-drop (a ∷ p) (suc k) i =
    let e : suc k + i ≡ suc (k + i) = omega arith in rw e (get_elem?-drop p k i)

pub byte_lem : (p : List ℕ) (i : ℕ) → i < length p → byte p i ≡ done (field8 p i)
byte_lem p i h = rw (get_elem?-of_lt p i 0 h)

-- A field that lies inside the array is read.
pub read16_lem :
    (p : List ℕ) (k : ℕ) → IsBytes p → k + 2 ≤ length p → net_read16 (drop k p) ≡ done (field16 p k)
unfolding net_read16
read16_lem p k b h =
    let e : k + 0 ≡ k = omega arith in
    rw
      (
        get_elem?-drop p k 0,
        get_elem?-drop p k 1,
        e,
        get_elem?-of_lt p k 0 (omega arith),
        get_elem?-of_lt p (k + 1) 0 (omega arith),
      )
      (ap done (bit_or_fields 8 (get_or p k 0) (get_or p (k + 1) 0) (get_or-lt p (k + 1) b)))

drop-drop : (p : List ℕ) (k : ℕ) → drop 2 (drop k p) ≡ drop (k + 2) p
drop-drop p zero = refl
drop-drop [] (suc k) = let e : suc k + 2 ≡ suc (k + 2) = omega arith in rw e
drop-drop (a ∷ p) (suc k) = let e : suc k + 2 ≡ suc (k + 2) = omega arith in rw e (drop-drop p k)

pub read32_lem :
    (p : List ℕ) (k : ℕ) → IsBytes p → k + 4 ≤ length p → net_read32 (drop k p) ≡ done (field32 p k)
unfolding net_read32
read32_lem p k b h =
    let low : field16 p (k + 2) < 2 ^ 16 =
      omega (arith, get_or-lt p (k + 2) b, get_or-lt p (k + 2 + 1) b) in
    rw (read16_lem p k b (omega arith), drop-drop p k, read16_lem p (k + 2) b (omega arith))
      (ap done (bit_or_fields 16 (field16 p k) (field16 p (k + 2)) low))

-- What the header has to be: a version 4 header with no options, not expired, no fragment, with a
-- checksum that verifies and a total length inside the available bytes.
abbrev pub header_ok : List ℕ → ℕ → Bool
header_ok ip available =
    leb 20 available
    && leb available 1500
    && (field8 ip 0 == 0x45)
    && not (field8 ip 8 == 0)
    && (bit_and (field16 ip 6) 0xbfff == 0)
    && verifies ip 20 0
    && leb 20 (field16 ip 2)
    && leb (field16 ip 2) available

net_header_lem :
    (ip : List ℕ) (available : ℕ)
    → IsBytes ip
    → available ≤ length ip
    → net_header ip available ≡ (if header_ok ip available then done (field16 ip 2) else reject)
unfolding net_header
net_header_lem ip available b h = elim (dec_le 20 available) [
  | no short ↦ ground arith
  | yes long ↦
      let (c, is, iff) =
        net_checksum-verifies ip 20 0 b (omega arith) (omega arith) (omega arith) in
      rw
        (
          byte_lem ip 0 (omega arith),
          byte_lem ip 8 (omega arith),
          read16_lem ip 6 b (omega arith),
          is,
          read16_lem ip 2 b (omega arith),
        )
        (ground (arith, iff))
]

-- What each transport has to be.
abbrev pub icmp_ok : List ℕ → ℕ → Bool
icmp_ok body size = leb 8 size && verifies body size 0

-- A UDP datagram without a checksum has 0 in that field.
abbrev pub udp_ok : List ℕ → ℕ → ℕ → Bool
udp_ok body size pseudo =
    leb 8 size && (field16 body 4 == size) && ((field16 body 6 == 0) || verifies body size pseudo)

abbrev pub tcp_ok : List ℕ → ℕ → ℕ → Bool
tcp_ok body size pseudo =
    leb 20 size
    && leb 5 (field8 body 12 / 16)
    && leb (field8 body 12 / 16 * 4) size
    && verifies body size pseudo

abbrev pub transport_spec : List ℕ → ℕ → ℕ → ℕ → Outcome (ℕ × ℕ)
transport_spec body size protocol pseudo =
    if protocol == net_icmp
    then (if icmp_ok body size then done (0, 0) else reject)
    else if protocol == net_udp
    then (if udp_ok body size pseudo then done (field16 body 0, field16 body 2) else reject)
    else if protocol == net_tcp
    then (if tcp_ok body size pseudo then done (field16 body 0, field16 body 2) else reject)
    else reject

net_transport_lem :
    (body : List ℕ) (size protocol pseudo : ℕ)
    → IsBytes body
    → size ≤ length body
    → size ≤ 1480
    → pseudo ≤ 2 ^ 20
    → net_transport body size protocol pseudo ≡ transport_spec body size protocol pseudo
unfolding net_transport
net_transport_lem body size protocol pseudo b h k l = elim (dec_le 8 size) [
  | no short ↦ ground arith
  | yes long ↦
      let (c, is, iff) = net_checksum-verifies body size 0 b h (omega arith) (omega arith) in
      let (c', is', iff') = net_checksum-verifies body size pseudo b h (omega arith) l in
      let ports : net_read16 body ≡ done (field16 body 0) = read16_lem body 0 b (omega arith) in
      rw
        (
          is,
          is',
          ports,
          read16_lem body 2 b (omega arith),
          read16_lem body 4 b (omega arith),
          read16_lem body 6 b (omega arith),
        )
        (elim (dec_le 20 size) [
          | no tiny ↦ ground (arith, iff, iff')
          | yes full ↦ rw (byte_lem body 12 (omega arith)) (ground (arith, iff, iff'))
        ])
]

-- The sum of the pseudo header, in the order in which the code adds.
abbrev pub pseudo_sum : List ℕ → ℕ → ℕ → ℕ
pseudo_sum ip protocol size =
    field16 ip 12 + field16 ip 14 + field16 ip 16 + field16 ip 18 + protocol + size

field16-lt : (p : List ℕ) (i : ℕ) → IsBytes p → field16 p i < 65536
field16-lt p i b = omega (arith, get_or-lt p i b, get_or-lt p (i + 1) b)

pseudo_sum-le :
    (ip : List ℕ) (size : ℕ) → IsBytes ip → size ≤ 1480 → pseudo_sum ip (field8 ip 9) size ≤ 2 ^ 20
pseudo_sum-le ip size b h = omega (
  arith,
  field16-lt ip 12 b,
  field16-lt ip 14 b,
  field16-lt ip 16 b,
  field16-lt ip 18 b,
  get_or-lt ip 9 b,
)

net_pseudo_lem :
    (ip : List ℕ) (size : ℕ)
    → IsBytes ip
    → 20 ≤ length ip
    → size ≤ 1480
    → net_pseudo ip (field8 ip 9) size ≡ done (pseudo_sum ip (field8 ip 9) size)
unfolding net_pseudo
net_pseudo_lem ip size b h k =
    rw
      (
        read16_lem ip 12 b (omega arith),
        read16_lem ip 14 b (omega arith),
        read16_lem ip 16 b (omega arith),
        read16_lem ip 18 b (omega arith),
      )
      (ap done (omega (arith, pseudo_sum-le ip size b k)))

-- The packet that the fields describe, with the ports of its transport.
abbrev pub packet_at : List ℕ → ℕ × ℕ → Packet
packet_at ip ports = record {
  source = field32 ip 12;
  destination = field32 ip 16;
  source_port = ports.0;
  destination_port = ports.1;
  length = field16 ip 2;
  protocol = field8 ip 9;
}

abbrev pub decode_spec : List ℕ → ℕ → Outcome Packet
decode_spec ip available =
    if header_ok ip available
    then (do
      ports ←
          transport_spec (drop 20 ip) (field16 ip 2 - 20) (field8 ip 9)
            (pseudo_sum ip (field8 ip 9) (field16 ip 2 - 20))
      done (packet_at ip ports))
    else reject

-- On bytes, with no more declared available than the array holds, the decoder reads nothing out of
-- bounds; it accepts exactly the datagrams whose header and transport satisfy the Boolean
-- description above, with checksums as sums of words modulo 65535, and gives their fields.
pub net_decode_lem :
    (ip : List ℕ) (available : ℕ)
    → IsBytes ip
    → available ≤ length ip
    → net_decode ip available ≡ decode_spec ip available
unfolding net_decode
net_decode_lem ip available b h =
    rw (net_header_lem ip available b h) (elim (Bool-cases (header_ok ip available)) [
      | inl good ↦
          let size = field16 ip 2 - 20 in
          let bounds : (20 ≤ available) × (available ≤ 1500) × (field16 ip 2 ≤ available) =
            ground arith in
          rw (
            good,
            byte_lem ip 9 (omega arith),
            net_pseudo_lem ip size b (omega arith) (omega arith),
            net_transport_lem (drop 20 ip) size (field8 ip 9) (pseudo_sum ip (field8 ip 9) size)
                (IsBytes-drop ip 20 b) (omega (arith, length-drop 20 ip)) (omega arith)
                (pseudo_sum-le ip size b (omega arith)),
            read32_lem ip 12 b (omega arith),
            read32_lem ip 16 b (omega arith),
          )
      | inr bad ↦ rw bad
    ])
