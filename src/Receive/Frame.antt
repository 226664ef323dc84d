-- ===== src/Receive/Frame.antt =====
-- jordyOS/net/network.c: the parts of a reply, and where they lie in the frame.
use os_research_lab.Base.{
  ℕ, ◌+◌, ◌-◌, ◌≤◌, ◌<◌, List, Option, some, none, true, ◌&&◌, leb, ◌==◌, length, drop, set,
  length-drop, length-set, Bool-cases, ◌≡◌, inl, inr, ◌∙◌, arith, if-P,
}
use os_research_lab.Base.Fault.{Outcome, Ensures, >>=-Ensures, ◌>>=◌}
use os_research_lab.Packet.{
  Packet, net_write16, net_write32, net_checksum, net_decode, net_ip, net_icmp, net_udp,
}
use os_research_lab.Packet.Sum.{
  IsBytes, IsBytes-set, IsBytes-write, length-write, net_checksum-verifies,
}
use os_research_lab.Packet.Decode.{
  field8, field16, byte_lem, IsBytes-drop, net_decode_lem, header_ok, transport_spec, pseudo_sum,
}
use os_research_lab.Receive.{Host, echo_icmp, echo_udp, echoed, readdressed}

-- A decoded packet has its header and eight bytes more, inside the available ones.
abbrev pub Fits : ℕ → Packet → Type 0
Fits available p = (28 ≤ p.length) × (p.length ≤ available) × (p.length ≤ 1500)

pub transport-size :
    (body : List ℕ) (size protocol pseudo : ℕ)
    → Ensures (λ (ports : ℕ × ℕ). 8 ≤ size) (transport_spec body size protocol pseudo)
transport-size body size protocol pseudo = ground arith

pub net_decode-Fits :
    (ip : List ℕ) (available : ℕ)
    → IsBytes ip
    → available ≤ length ip
    → Ensures (Fits available) (net_decode ip available)
net_decode-Fits ip available b inside =
    rw (net_decode_lem ip available b inside) (elim (Bool-cases (header_ok ip available)) [
      | inr bad ↦ rw bad tt
      | inl good ↦ rw good (
          >>=-Ensures (λ (ports : ℕ × ℕ). 8 ≤ field16 ip 2 - 20) (Fits available)
            (transport_spec (drop 20 ip) (field16 ip 2 - 20) (field8 ip 9)
              (pseudo_sum ip (field8 ip 9) (field16 ip 2 - 20)))
            _
            (transport-size (drop 20 ip) (field16 ip 2 - 20) (field8 ip 9)
              (pseudo_sum ip (field8 ip 9) (field16 ip 2 - 20)))
            (λ ports eight. (ground arith, ground arith, ground arith)))
    ])

-- `n` bytes.
abbrev pub IsFrame : ℕ → List ℕ → Type 0
IsFrame n f = IsBytes f × (length f ≡ n)

pub set-IsFrame : (n : ℕ) (f : List ℕ) (i v : ℕ) → v < 256 → IsFrame n f → IsFrame n (set f i v)
set-IsFrame n f i v small h = (IsBytes-set f i v h.0 small, length-set f i v ∙ h.1)

pub write16-IsFrame : (n : ℕ) (f : List ℕ) (i v : ℕ) → IsFrame n f → IsFrame n (net_write16 f i v)
write16-IsFrame n f i v h = (IsBytes-write f i v h.0, length-write f i v ∙ h.1)

pub write32-IsFrame : (n : ℕ) (f : List ℕ) (i v : ℕ) → IsFrame n f → IsFrame n (net_write32 f i v)
unfolding net_write32
write32-IsFrame n f i v h = write16-IsFrame n _ (i + 2) _ (write16-IsFrame n f i _ h)

-- A checksum of bytes that lie in the frame.
pub summed :
    (A : Type 0) (P : A → Type 0) (n k size : ℕ) (f : List ℕ) (go : ℕ → Outcome A)
    → IsFrame n f
    → k + size ≤ n
    → size ≤ 1500
    → ((c : ℕ) → Ensures P (go c))
    → Ensures P (net_checksum (drop k f) size 0 >>= go)
summed A P n k size f go h inside small next =
    let (c, is, iff) =
      net_checksum-verifies (drop k f) size 0 (IsBytes-drop f k h.0)
        (omega (arith, length-drop k f, h.1)) small (omega arith) in
    rw is (next c)

pub echo_icmp-IsFrame :
    (n : ℕ) (f : List ℕ) (p : Packet)
    → IsFrame n f
    → Fits (n - 14) p
    → Ensures (IsFrame n) (echo_icmp f p)
unfolding echo_icmp
echo_icmp-IsFrame n f p h fits =
    let cleared = net_write16 (set f 34 0) 36 0 in
    let k = write16-IsFrame n (set f 34 0) 36 0 (set-IsFrame n f 34 0 (omega arith) h) in
    let room : leb 38 (length f) ≡ true = ground (arith, h.1) in
    rw room (
      summed (List ℕ) (IsFrame n) n 34 (p.length - 20) cleared _ k (omega arith) (omega arith)
        (λ check. write16-IsFrame n cleared 36 check k))

pub echo_udp-IsFrame :
    (n : ℕ) (f : List ℕ) (p : Packet)
    → IsFrame n f
    → Fits (n - 14) p
    → Ensures (IsFrame n) (echo_udp f p)
unfolding echo_udp
echo_udp-IsFrame n f p h fits =
    let room : leb 42 (length f) ≡ true = ground (arith, h.1) in
    rw room (write16-IsFrame n _ 40 0 (write16-IsFrame n _ 36 _ (write16-IsFrame n f 34 _ h)))

pub readdressed-IsFrame :
    (n : ℕ) (f : List ℕ) (p : Packet)
    → IsFrame n f
    → Fits (n - 14) p
    → Ensures (IsFrame n) (readdressed f p)
unfolding readdressed
readdressed-IsFrame n f p h fits =
    let addressed = net_write32 (net_write32 f 26 net_ip) 30 p.source in
    let cleared = net_write16 (set addressed 22 64) 24 0 in
    let k = write16-IsFrame n (set addressed 22 64) 24 0 (
      set-IsFrame n addressed 22 64 (omega arith) (
        write32-IsFrame n (net_write32 f 26 net_ip) 30 p.source
          (write32-IsFrame n f 26 net_ip h))) in
    let room : leb 34 (length f) ≡ true = ground (arith, h.1) in
    rw room (
      summed (List ℕ) (IsFrame n) n 14 20 cleared _ k (omega arith) (omega arith)
        (λ check. write16-IsFrame n cleared 24 check k))

-- The reply, where there is one, is a frame.
abbrev pub IsReply : ℕ → Option (List ℕ) → Type 0
IsReply n none = Unit {0}
IsReply n (some f) = IsFrame n f

pub echoed-IsReply :
    (n : ℕ) (host : Host) (f : List ℕ) (p : Packet)
    → IsFrame n f
    → Fits (n - 14) p
    → Ensures (IsReply n) (echoed host f p)
unfolding echoed
echoed-IsReply n host f p h fits =
    if-P (Ensures (IsReply n)) (p.protocol == net_icmp)
      (rw (byte_lem f 34 (omega (arith, h.1)), byte_lem f 35 (omega (arith, h.1)))
        (if-P (Ensures (IsReply n)) ((field8 f 34 == 8) && (field8 f 35 == 0))
          (>>=-Ensures (IsFrame n) (IsReply n) (echo_icmp f p) _ (echo_icmp-IsFrame n f p h fits)
            (λ g k. k))
          tt))
      (if-P (Ensures (IsReply n))
        ((p.protocol == net_udp) && (p.destination_port == 7777) && host.network.echo)
        (>>=-Ensures (IsFrame n) (IsReply n) (echo_udp f p) _ (echo_udp-IsFrame n f p h fits)
          (λ g k. k))
        tt)
