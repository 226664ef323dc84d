-- ===== src/Driver/Poll.antt =====
-- jordyOS/net/rtl8139.c: `rtl_poll`, which hands the frames of the receive ring to the network.
use os_research_lab.Base.{
  ℕ, zero, suc, ◌+◌, ◌-◌, ◌*◌, ◌/◌, ◌^◌, ◌%◌, bit_and, List, not, ◌||◌, ltb, ◌==◌, ◌!=◌, get_elem?,
  u16, if◌then◌else◌,
}
use os_research_lab.Base.Fault.{Outcome, done, load, ◌>>=◌}
use os_research_lab.Packet.{net_frame_max}
use os_research_lab.Text.{store}
use os_research_lab.Driver.{out, received, tcp_polled, Driver, rx_size, driver_error, happens}
use os_research_lab.Driver.Up.{Card, rtl_up, rtl_down}

-- What the card shows at one look: its command register and the ring.
pub record Look : Type 0 where
  pub command : ℕ
  pub ring : List ℕ

-- `rx_ring[i % RX_SIZE]`
abbrev pub ring_byte : List ℕ → ℕ → Outcome ℕ
ring_byte ring i = load (get_elem? ring (i % rx_size))

-- `for (i = ...; i < size - 4; i++) frame[i] = rx_ring[(rx_offset + 4 + i) % RX_SIZE]`
unfoldable pub copy_frame : List ℕ → ℕ → List ℕ → ℕ → ℕ → Outcome (List ℕ)
copy_frame ring offset frame i zero = done frame
copy_frame ring offset frame i (suc left) = do
  byte ← ring_byte ring (offset + 4 + i)
  frame' ← store frame i byte
  copy_frame ring offset frame' (i + 1) left

-- A frame whose status is good is handed on, another is an error.
abbrev pub take_frame : Driver → List ℕ → ℕ → ℕ → Outcome Driver
take_frame d ring status size =
    if bit_and status 0x3f == 1
    then (do
      frame' ← copy_frame ring d.nic.rx_offset d.nic.frame 0 (size - 4)
      done (
          happens (record d { nic = record d.nic { frame = frame' } })
            (received frame' (size - 4))))
    else done (driver_error d)

-- `(rx_offset + size + 4 + 3) & ~3u`, modulo the ring.
abbrev pub next_offset : ℕ → ℕ → ℕ
next_offset offset size = ((offset + size + 7) / 4 * 4) % rx_size

-- The read pointer of the card, sixteen behind.
abbrev pub pass : Driver → ℕ → Driver
pass d size =
    let offset = next_offset d.nic.rx_offset size in
    happens (record d { nic = record d.nic { rx_offset = offset } })
      (out (d.nic.io + 0x38) (u16 (offset + 2 ^ 16 - 16)))

-- How the loop ends: with the rest of `rtl_poll`, or behind a restart.
pub data Polled : Type 0 where
  ended stopped : Driver → Polled

-- `driver_errors++; rtl_down(); rtl_up(); return;`
abbrev pub restart : Card → Driver → Driver
restart card d = (rtl_up card (rtl_down (driver_error d))).1

-- The loop of `rtl_poll`, with the number of the look and the looks that are left.
unfoldable pub poll_loop : Card → (ℕ → Look) → ℕ → ℕ → Driver → Outcome Polled
poll_loop card look k zero d = done (ended d)
poll_loop card look k (suc budget) d =
    let ring = (look k).ring in
    let goes = (do
      low ← ring_byte ring d.nic.rx_offset
      high ← ring_byte ring (d.nic.rx_offset + 1)
      size_low ← ring_byte ring (d.nic.rx_offset + 2)
      size_high ← ring_byte ring (d.nic.rx_offset + 3)
      let size = size_low + size_high * 256
      let taken = (do
        d' ← take_frame d ring (low + high * 256) size
        poll_loop card look (k + 1) budget (pass d' size))
      if size == 0xfff0
          then done (ended d)
          else if ltb size 4 || ltb (net_frame_max + 4) size
          then done (stopped (restart card d))
          else taken) in
    if bit_and (look k).command 1 != 0 then done (ended d) else goes

abbrev pub finished : Polled → Driver
finished (ended d) = happens (happens d (out (d.nic.io + 0x3e) 0x0f)) tcp_polled
finished (stopped d) = d

-- `rtl_poll`, with the interrupt register.
unfoldable pub rtl_poll : Card → ℕ → (ℕ → Look) → Driver → Outcome Driver
rtl_poll card interrupts look d =
    if not d.network.up
    then done d
    else if bit_and interrupts 0x50 != 0
    then done (restart card d)
    else (do p ← poll_loop card look 0 8 d; done (finished p))
