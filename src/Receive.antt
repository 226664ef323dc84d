-- ===== src/Receive.antt =====
-- jordyOS/net/network.c and network.h: a frame that arrives, through the early program, the decoder and
-- the firewall to a reply. The driver and the TCP service are called with what is listed in `calls`.
pub mod Frame
pub mod Safety
mod Tests
use os_research_lab.Base.{
  ℕ, zero, suc, ◌+◌, ◌-◌, ◌^◌, ◌%◌, bit_and, List, [], ◌∷◌, ◌++◌, Option, some, none, Bool, true,
  false, not, ◌&&◌, ◌||◌, leb, ltb, ◌==◌, ◌!=◌, length, replicate, take, drop, set, u32,
  if◌then◌else◌,
}
use os_research_lab.Base.Fault.{Outcome, fault, reject, done, load, ◌>>=◌, ◌>>◌}
use os_research_lab.Packet.{
  Packet, byte, net_read16, net_read32, net_write16, net_write32, net_checksum, net_decode,
  net_frame_max, net_ip, net_mask, net_icmp, net_tcp, net_udp,
}
use os_research_lab.Firewall.{fw_in, fw_out}
use os_research_lab.Firewall.Prepare.{Layout, Programs, State}
use os_research_lab.Firewall.Policy.{fw_bpf_xdp, fw_accept}

-- `Network`
pub record Network : Type 0 where
  pub up : Bool
  pub echo : Bool
  pub received : ℕ
  pub transmitted : ℕ
  pub invalid : ℕ
  pub ignored : ℕ
  pub tx_dropped : ℕ
  pub driver_errors : ℕ

pub data NetCall : Type 0 where
  rtl_send : List ℕ → NetCall
  tcp_net_arp : List ℕ → ℕ → NetCall
  tcp_net_input : List ℕ → Packet → NetCall

-- `native_network`, the firewall with its counters, and the calls made.
pub record Host : Type 0 where
  pub network : Network
  pub firewall : State
  pub calls : List NetCall

-- `++` of a counter.
abbrev pub ignore : Host → Outcome Host
ignore h = done (record h { network = record h.network { ignored = u32 (h.network.ignored + 1) } })

abbrev pub refuse : Host → Outcome Host
refuse h = done (record h { network = record h.network { invalid = u32 (h.network.invalid + 1) } })

abbrev pub asks : Host → NetCall → Host
asks h c = record h { calls = h.calls ++ c ∷ [] }

abbrev pub peer_ip : ℕ → Bool
peer_ip ip =
    (bit_and ip net_mask == bit_and net_ip net_mask)
    && (bit_and ip 255 != 0)
    && (bit_and ip 255 != 255)
    && (ip != net_ip)

-- The `n` bytes at `p + i`.
abbrev pub bytes_at : List ℕ → ℕ → ℕ → Outcome (List ℕ)
bytes_at p i n = if leb (i + n) (length p) then done (take n (drop i p)) else fault

-- A store into the first `n` bytes.
abbrev pub within : List ℕ → ℕ → Outcome (Unit {0})
within p n = if leb n (length p) then done tt else fault

-- `!memcmp(a, b, n)` of `n` bytes each.
unfoldable pub bytes_eq : List ℕ → List ℕ → Bool
bytes_eq [] [] = true
bytes_eq [] (y ∷ b) = false
bytes_eq (x ∷ a) [] = false
bytes_eq (x ∷ a) (y ∷ b) = (x == y) && bytes_eq a b

-- `if (!decode) ...; else ...`
abbrev pub attempt : Outcome Packet → Outcome Host → (Packet → Outcome Host) → Outcome Host
attempt fault refusal f = fault
attempt reject refusal f = refusal
attempt (done p) refusal f = f p

-- The reply to an ARP request from `sender`, with the ten bytes of its addresses.
unfoldable pub arp_reply : List ℕ → List ℕ → List ℕ → List ℕ → List ℕ
arp_reply mac from fields sender =
    let reply = replicate 42 0 in
    let reply = net_write16 (from ++ mac ++ drop 12 reply) 12 0x0806 in
    let reply = net_write16 (take 14 reply ++ fields ++ drop 22 reply) 20 2 in
    let reply = net_write32 (take 22 reply ++ mac ++ drop 28 reply) 28 net_ip in
    take 32 reply ++ sender ++ drop 42 reply

abbrev pub answer_arp : Host → Bool → List ℕ → Outcome Host
answer_arp h other reply = if other then ignore h else done (asks h (rtl_send reply))

-- An ARP frame for our address.
unfoldable pub receive_arp : List ℕ → Host → List ℕ → ℕ → Outcome Host
unfolding bytes_eq arp_reply
receive_arp mac h frame size = if ltb size 42 then ignore h else (do
  hardware ← net_read16 (drop 14 frame)
  protocol ← net_read16 (drop 16 frame)
  hardware_size ← byte frame 18
  protocol_size ← byte frame 19
  operation ← net_read16 (drop 20 frame)
  from ← bytes_at frame 6 6
  sender ← bytes_at frame 22 6
  source ← net_read32 (drop 28 frame)
  target ← net_read32 (drop 38 frame)
  fields ← bytes_at frame 14 8
  addresses ← bytes_at frame 22 10
  let other =
      (hardware != 1)
      || (protocol != 0x0800)
      || (hardware_size != 6)
      || (protocol_size != 4)
      || (operation != 1)
      || not (bytes_eq from sender)
      || not (peer_ip source)
      || (target != net_ip)
  answer_arp h other (arp_reply mac from fields addresses))

-- The echo of an ICMP request and of a UDP datagram, written over the body of the frame.
unfoldable pub echo_icmp : List ℕ → Packet → Outcome (List ℕ)
echo_icmp frame p = do
  within frame 38
  let cleared = net_write16 (set frame 34 0) 36 0
  check ← net_checksum (drop 34 cleared) (p.length - 20) 0
  done (net_write16 cleared 36 check)

unfoldable pub echo_udp : List ℕ → Packet → Outcome (List ℕ)
echo_udp frame p = do
  within frame 42
  done (net_write16 (net_write16 (net_write16 frame 34 p.destination_port) 36 p.source_port) 40 0)

-- The body of the reply, if there is one.
unfoldable pub echoed : Host → List ℕ → Packet → Outcome (Option (List ℕ))
unfolding echo_icmp echo_udp
echoed h frame p =
    if p.protocol == net_icmp
    then (do
      kind ← byte frame 34
      code ← byte frame 35
      if (kind == 8) && (code == 0)
          then (do reply ← echo_icmp frame p; done (some reply))
          else done none)
    else if (p.protocol == net_udp) && (p.destination_port == 7777) && h.network.echo
    then (do reply ← echo_udp frame p; done (some reply))
    else done none

-- The header of the reply.
unfoldable pub readdressed : List ℕ → Packet → Outcome (List ℕ)
readdressed frame p = do
  within frame 34
  let addressed = net_write32 (net_write32 frame 26 net_ip) 30 p.source
  let cleared = net_write16 (set addressed 22 64) 24 0
  check ← net_checksum (drop 14 cleared) 20 0
  done (net_write16 cleared 24 check)

-- The reply to the sender, if the firewall lets it out.
unfoldable pub send_reply : Layout → Programs → List ℕ → Host → List ℕ → Packet → Outcome Host
unfolding readdressed
send_reply layout programs mac h frame p = do
  frame ← readdressed frame p
  attempt (net_decode (drop 14 frame) p.length) (done h) (λ outgoing. do
    (allow, firewall) ← load (fw_accept layout programs h.firewall outgoing fw_out)
    let h' : Host = record h { firewall = firewall }
    to ← bytes_at frame 6 6
    done (
        if allow
        then asks h' (rtl_send (take (14 + p.length) (to ++ mac ++ drop 12 frame)))
        else h'))

unfoldable pub answer_with :
    Layout → Programs → List ℕ → Host → Packet → Option (List ℕ) → Outcome Host
unfolding send_reply
answer_with layout programs mac h p none = done h
answer_with layout programs mac h p (some frame) = send_reply layout programs mac h frame p

-- A datagram that the firewall let in.
unfoldable pub receive_packet : Layout → Programs → List ℕ → Host → List ℕ → Packet → Outcome Host
unfolding echoed answer_with
receive_packet layout programs mac h frame p =
    if p.protocol == net_tcp
    then done (asks h (tcp_net_input frame p))
    else (do reply ← echoed h frame p; answer_with layout programs mac h p reply)

-- An IPv4 frame to our station.
unfoldable pub receive_ip : Layout → Programs → List ℕ → Host → List ℕ → ℕ → Outcome Host
unfolding receive_packet
receive_ip layout programs mac h frame size =
    attempt (net_decode (drop 14 frame) (size - 14)) (refuse h) (λ p.
      if (p.destination != net_ip) || not (peer_ip p.source) then ignore h else (do
        (allow, firewall) ← load (fw_accept layout programs h.firewall p fw_in)
        let h' : Host = record h { firewall = firewall }
        if allow then receive_packet layout programs mac h' frame p else done h'))

-- A frame that the early program let pass.
unfoldable pub receive_frame : Layout → Programs → List ℕ → Host → List ℕ → ℕ → Outcome Host
unfolding bytes_eq receive_arp receive_ip
receive_frame layout programs mac h frame size = do
  to ← bytes_at frame 0 6
  group ← byte frame 6
  type ← net_read16 (drop 12 frame)
  let local = bytes_eq to mac
  if not local && not (bytes_eq to (replicate 6 255)) || (bit_and group 1 != 0)
      then ignore h
      else if type == 0x0806
      then receive_arp mac (asks h (tcp_net_arp frame size)) frame size
      else if (type != 0x0800) || not local
      then ignore h
      else receive_ip layout programs mac h frame size

-- `net_receive`, with the station's address `net_mac`.
unfoldable pub net_receive : Layout → Programs → List ℕ → Host → List ℕ → ℕ → Outcome Host
unfolding receive_frame
net_receive layout programs mac h frame size =
    let h' : Host = record h {
      network = record h.network { received = u32 (h.network.received + 1) };
    } in
    if ltb size 14 || ltb net_frame_max size then refuse h' else (do
      (pass, firewall) ← load (fw_bpf_xdp layout programs h'.firewall frame size)
      let judged : Host = record h' { firewall = firewall }
      if pass then receive_frame layout programs mac judged frame size else done judged)
