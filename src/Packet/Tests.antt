-- ===== src/Packet/Tests.antt =====
-- Examples for net/packet.c: a UDP datagram from 10.0.0.1 port 7 to 192.0.2.2 port 9, and numbers.
use os_research_lab.Base.{ℕ, ◌+◌, ◌-◌, List, [], ◌∷◌, ◌≡◌, refl, arith}
use os_research_lab.Base.Fault.{done}
use os_research_lab.Packet.{net_checksum, net_read16, net_write16, net_decode}
use os_research_lab.Packet.Sum.{IsBytes, ones_sum, word_sum, net_checksum_lem, net_checksum-write}
use os_research_lab.Packet.Decode.{decode_spec, net_decode_lem}
use os_research_lab.Packet.Text.{net_number}
use os_research_lab.Packet.Text.Laws.{at_most, decimal, net_number_lem}

abbrev datagram : List ℕ
datagram =
    0x45 ∷ 0 ∷ 0 ∷ 28 ∷ 0 ∷ 1 ∷ 0 ∷ 0 ∷ 64 ∷ 17 ∷ 0xae ∷ 0xcd ∷ 10 ∷ 0 ∷ 0 ∷ 1 ∷ 192 ∷ 0 ∷ 2 ∷ 2 ∷ 0
    ∷ 7 ∷ 0 ∷ 9 ∷ 0 ∷ 8 ∷ 0 ∷ 0 ∷ []

datagram-IsBytes : IsBytes datagram
datagram-IsBytes = ground arith

abbrev zeroed : List ℕ
zeroed = 0x45 ∷ 0 ∷ 0 ∷ 28 ∷ 0 ∷ 0 ∷ 7 ∷ []

zeroed-IsBytes : IsBytes zeroed
zeroed-IsBytes = ground arith

net_decode_lem_example : net_decode datagram 28 ≡ decode_spec datagram 28
net_decode_lem_example = net_decode_lem datagram 28 datagram-IsBytes (omega arith)

net_checksum_lem_example : net_checksum zeroed 7 5 ≡ done (65535 - ones_sum (5 + word_sum zeroed 7))
net_checksum_lem_example = net_checksum_lem zeroed 7 5 zeroed-IsBytes (omega arith) (omega arith)

given : net_checksum (net_write16 zeroed 4 0) 7 0 ≡ done 46051
unfolding net_checksum net_write16 net_read16
given = refl

net_checksum-write_example : net_checksum (net_write16 zeroed 4 46051) 7 0 ≡ done 0
net_checksum-write_example =
    net_checksum-write zeroed 4 7 0 46051 zeroed-IsBytes (omega arith) (omega arith) (omega arith)
      (unfold net_write16 in omega arith) given

net_number_lem_example :
    net_number (b'6' ∷ b'5' ∷ []) 255 ≡ at_most 255 (decimal (b'6' ∷ b'5' ∷ []))
net_number_lem_example = net_number_lem (b'6' ∷ b'5' ∷ []) 255 (omega arith)
