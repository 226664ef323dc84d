-- ===== src/Driver.antt =====
-- jordyOS/net/rtl8139.c: the network card. What the card shows in its registers and in the receive ring
-- is an argument; what is written to the ports, and the calls of the network and of the TCP
-- service, are listed. A write or a read outside a buffer is a `fault`.
pub mod Up
pub mod Poll
pub mod Ring
pub mod Restart
pub mod Safe
mod Tests
use os_research_lab.Base.{
  ℕ, zero, suc, ◌+◌, ◌-◌, ◌*◌, ◌/◌, ◌^◌, ◌%◌, bit_and, bit_or, List, [], ◌∷◌, ◌++◌, Option, some,
  none, Bool, true, false, not, ◌&&◌, ◌||◌, leb, ltb, ◌==◌, ◌!=◌, length, set, get_or, get_elem?,
  u16, u32, ◌<<<◌, if◌then◌else◌,
}
use os_research_lab.Base.Fault.{Outcome, fault, reject, done, load, ◌>>=◌}
use os_research_lab.Packet.{net_frame_max}
use os_research_lab.Receive.{Network}
use os_research_lab.Text.{store, memset, memcpy}

abbrev pub rx_size : ℕ
rx_size = 8192

-- `io`, `net_mac`, `rx_offset`, `tx_slot`, `tx_buffers` and `frame`
pub record Nic : Type 0 where
  pub io : ℕ
  pub mac : List ℕ
  pub rx_offset : ℕ
  pub tx_slot : ℕ
  pub tx_buffers : List (List ℕ)
  pub frame : List ℕ

-- What the driver does outside its memory: a write to a port, a frame handed to `net_receive` with its
-- size, and the calls of `tcp_net_poll` and `tcp_net_down`.
pub data Event : Type 0 where
  out : ℕ → ℕ → Event
  received : List ℕ → ℕ → Event
  tcp_polled tcp_stopped : Event

pub record Driver : Type 0 where
  pub nic : Nic
  pub network : Network
  pub events : List Event

abbrev pub driver_error : Driver → Driver
driver_error d = record d {
  network = record d.network { driver_errors = u32 (d.network.driver_errors + 1) };
}

abbrev pub happens : Driver → Event → Driver
happens d e = record d { events = d.events ++ e ∷ [] }

-- The status register of the transmit slot.
abbrev pub slot_port : Nic → ℕ
slot_port nic = nic.io + 0x10 + nic.tx_slot * 4

-- The frame is in the buffer; it is given to the card.
abbrev pub sent : Driver → List ℕ → ℕ → Bool × Driver
sent d buffer wire_size = (
  true,
  record {
    nic = record d.nic {
      tx_buffers = set d.nic.tx_buffers d.nic.tx_slot buffer;
      tx_slot = (d.nic.tx_slot + 1) % 4;
    };
    network = record d.network { transmitted = u32 (d.network.transmitted + 1) };
    events = d.events ++ out (slot_port d.nic) wire_size ∷ [];
  },
)

-- `rtl_send`, with what the status register of the slot shows.
unfoldable pub rtl_send : ℕ → Driver → List ℕ → ℕ → Outcome (Bool × Driver)
rtl_send status d bytes size =
    let wire_size = if ltb size 60 then 60 else size in
    let dropped : Driver = record d {
      network = record d.network { tx_dropped = u32 (d.network.tx_dropped + 1) };
    } in
    if not d.network.up || ltb size 14 || ltb net_frame_max size
    then done (false, d)
    else if bit_and status 0x2000 == 0
    then done (false, dropped)
    else (do
      buffer ← load (get_elem? d.nic.tx_buffers d.nic.tx_slot)
      blank ← memset buffer 0 wire_size
      filled ← memcpy blank bytes size
      done (sent d filled wire_size))
