-- ===== src/Driver/Up.antt =====
-- jordyOS/net/rtl8139.c: `rtl_up` and `rtl_down`. What the card and the PCI bus show is a parameter.
use os_research_lab.Base.{
  ℕ, zero, suc, ◌+◌, ◌-◌, ◌*◌, ◌/◌, ◌^◌, ◌%◌, bit_and, bit_or, List, [], ◌∷◌, ◌++◌, Option, some,
  none, Bool, true, false, ◌||◌, ltb, ◌==◌, ◌!=◌, u16, u32, if◌then◌else◌,
}
use os_research_lab.Driver.{Event, out, tcp_stopped, Driver, happens}

-- The PCI registers by slot, function and register; the command register of the card at each look
-- after the reset; its address bytes; and the addresses of the buffers.
pub record Card : Type 0 where
  pub pci : ℕ → ℕ → ℕ → ℕ
  pub command : ℕ → ℕ
  pub address : ℕ → ℕ
  pub ring_address : ℕ
  pub buffer_address : ℕ → ℕ

-- The first function from `n` on, of those that are left of the 256, that is an RTL8139.
unfoldable pub find_card : Card → ℕ → ℕ → Option ℕ
find_card card n zero = none
find_card card n (suc left) =
    let rest = find_card card (n + 1) left in
    if card.pci (n / 8) (n % 8) 0 == 0x813910ec then some n else rest

-- `while ((in8(io + 0x37) & 0x10) && --tries)`: the tries that are left.
unfoldable pub reset_wait : Card → ℕ → ℕ → ℕ
reset_wait card k zero = 0
reset_wait card k (suc tries) =
    let rest = reset_wait card (k + 1) tries in
    if bit_and (card.command k) 0x10 == 0 then suc tries else rest

abbrev pub reset_tries : ℕ
reset_tries = 100000

-- The address bits of the base register, without the two lowest bits.
abbrev pub base_address : ℕ → ℕ
base_address bar = bar / 4 * 4

-- What is written to the card before the reset, and after it.
abbrev pub wake_writes : Card → ℕ → ℕ → List Event
wake_writes card n io =
    out 0xcfc (u16 (bit_or (u16 (card.pci (n / 8) (n % 8) 4)) 5))
    ∷ out (io + 0x52) 0
    ∷ out (io + 0x37) 0x10
    ∷ []

abbrev pub start_writes : Card → ℕ → List Event
start_writes card io =
    out (io + 0x3c) 0
    ∷ out (io + 0x3e) 0xffff
    ∷ out (io + 0x30) (u32 card.ring_address)
    ∷ out (io + 0x20) (u32 (card.buffer_address 0))
    ∷ out (io + 0x24) (u32 (card.buffer_address 1))
    ∷ out (io + 0x28) (u32 (card.buffer_address 2))
    ∷ out (io + 0x2c) (u32 (card.buffer_address 3))
    ∷ out (io + 0x37) 0x0c
    ∷ out (io + 0x44) 0x70a
    ∷ out (io + 0x40) 0x03000700
    ∷ out (io + 0x38) 0xfff0
    ∷ []

abbrev pub mac_of : Card → List ℕ
mac_of card =
    card.address 0
    ∷ card.address 1
    ∷ card.address 2
    ∷ card.address 3
    ∷ card.address 4
    ∷ card.address 5
    ∷ []

-- The card is reset and started.
abbrev pub start_card : Card → Driver → ℕ → ℕ → Bool × Driver
start_card card d n io =
    let woken : Driver = record {
      nic = record d.nic { io = io };
      network = d.network;
      events = d.events ++ wake_writes card n io;
    } in
    if reset_wait card 0 reset_tries == 0 then (false, woken) else (
      true,
      record {
        nic = record woken.nic { mac = mac_of card; rx_offset = 0; tx_slot = 0 };
        network = record d.network { up = true };
        events = woken.events ++ start_writes card io;
      },
    )

-- The sizes of the ring and of the buffers.
abbrev pub out_of_reach : Card → Bool
out_of_reach card =
    ltb (2 ^ 32 - 1 - 8192) card.ring_address || ltb (2 ^ 32 - 1 - 4 * 1536) (card.buffer_address 0)

-- The card that was found at function `n`.
abbrev pub try_card : Card → Driver → ℕ → Bool × Driver
try_card card d n =
    let bar = card.pci (n / 8) (n % 8) 0x10 in
    let io = base_address bar in
    if bit_and bar 1 == 0 || ltb 0xff00 io || (io == 0)
    then (false, d)
    else if out_of_reach card
    then (false, record d { nic = record d.nic { io = io } })
    else start_card card d n io

abbrev pub found_card : Card → Driver → Option ℕ → Bool × Driver
found_card card d none = (false, d)
found_card card d (some n) = try_card card d n

unfoldable pub rtl_up : Card → Driver → Bool × Driver
rtl_up card d = if d.network.up then (true, d) else found_card card d (find_card card 0 256)

unfoldable pub rtl_down : Driver → Driver
rtl_down d =
    let stopped = happens d tcp_stopped in
    let silenced = if d.nic.io != 0 then happens stopped (out (d.nic.io + 0x37) 0) else stopped in
    record silenced { network = record d.network { up = false } }
