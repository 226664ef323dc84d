-- ===== src/Driver/Restart.antt =====
-- jordyOS/net/rtl8139.c: the laws of `rtl_up`, `rtl_down` and the restart of the card.
use os_research_lab.Base.{
  ℕ, ◌+◌, ◌/◌, ◌%◌, ◌≤◌, ◌<◌, bit_and, List, [], ◌∷◌, ◌++◌, Option, some, none, Bool, true, false,
  ◌||◌, ltb, ◌==◌, ◌!=◌, length, Bool-cases, if-P, ◌≡◌, inl, inr, refl, arith,
}
use os_research_lab.Packet.{net_frame_max}
use os_research_lab.Driver.{Event, out, received, tcp_polled, tcp_stopped, Nic, Driver, rx_size}
use os_research_lab.Driver.Up.{
  Card, find_card, start_card, reset_wait, reset_tries, out_of_reach, base_address, try_card,
  found_card, wake_writes, start_writes, rtl_up, rtl_down,
}
use os_research_lab.Driver.Ring.{AllDelivered, frames, AllDelivered-append, frames-append}
use os_research_lab.Driver.Poll.{Look}

-- The read offset lies in the ring and is aligned, and the frame buffer has its size.
abbrev pub IsNic : Nic → Type 0
IsNic nic = (nic.rx_offset < rx_size) × (nic.rx_offset % 4 ≡ 0) × (length nic.frame ≡ net_frame_max)

-- That, with at most `c` frames handed on, all of them from the ring.
abbrev pub IsDriver : (ℕ → Look) → ℕ → Driver → Type 0
IsDriver look c d = IsNic d.nic × AllDelivered look d.events × (frames d.events ≤ c)

-- Events that hand on no frame.
abbrev pub quiet : List Event → Bool
quiet [] = true
quiet (received frame n ∷ events) = false
quiet (out port value ∷ events) = quiet events
quiet (tcp_polled ∷ events) = quiet events
quiet (tcp_stopped ∷ events) = quiet events

quiet_lem :
    (look : ℕ → Look) (events : List Event)
    → quiet events ≡ true
    → AllDelivered look events × (frames events ≡ 0)
quiet_lem look [] h = (tt, refl)
quiet_lem look (received frame n ∷ events) h = absurd (ground arith)
quiet_lem look (out port value ∷ events) h =
    let (all, zero_frames) = quiet_lem look events h in ((tt, all), zero_frames)
quiet_lem look (tcp_polled ∷ events) h =
    let (all, zero_frames) = quiet_lem look events h in ((tt, all), zero_frames)
quiet_lem look (tcp_stopped ∷ events) h =
    let (all, zero_frames) = quiet_lem look events h in ((tt, all), zero_frames)

-- A step with no frame, on events that were fine.
pub quiet_step :
    (look : ℕ → Look) (c : ℕ) (events more : List Event)
    → quiet more ≡ true
    → AllDelivered look events
    → frames events ≤ c
    → AllDelivered look (events ++ more) × (frames (events ++ more) ≤ c)
quiet_step look c events more h all few =
    let (all', zero_frames) = quiet_lem look more h in
    (
      AllDelivered-append look events more all all',
      omega (arith, frames-append events more, zero_frames),
    )

start_card-IsDriver :
    (look : ℕ → Look) (c : ℕ) (card : Card) (d : Driver) (n io : ℕ)
    → IsDriver look c d
    → IsDriver look c (start_card card d n io).1
start_card-IsDriver look c card d n io (nic, all, few) =
    let (woken, few') = quiet_step look c d.events (wake_writes card n io) refl all few in
    let (started, few'') =
      quiet_step look c (d.events ++ wake_writes card n io) (start_writes card io) refl woken
        few' in
    elim (Bool-cases (reset_wait card 0 reset_tries == 0)) [
      | inl dead ↦ rw dead (nic, woken, few')
      | inr alive ↦ rw alive ((omega arith, omega arith, nic.2), started, few'')
    ]

try_card-IsDriver :
    (look : ℕ → Look) (c : ℕ) (card : Card) (d : Driver) (n : ℕ)
    → IsDriver look c d
    → IsDriver look c (try_card card d n).1
try_card-IsDriver look c card d n v =
    let io = base_address (card.pci (n / 8) (n % 8) 0x10) in
    let P : Bool × Driver → Type 0 = λ r. IsDriver look c r.1 in
    if-P P (bit_and (card.pci (n / 8) (n % 8) 0x10) 1 == 0 || ltb 0xff00 io || (io == 0))
      {x = (false, d)} v
      (if-P P (out_of_reach card) {x = (false, record d { nic = record d.nic { io = io } })} v
        (start_card-IsDriver look c card d n io v))

found_card-IsDriver :
    (look : ℕ → Look) (c : ℕ) (card : Card) (d : Driver) (n : Option ℕ)
    → IsDriver look c d
    → IsDriver look c (found_card card d n).1
found_card-IsDriver look c card d none v = v
found_card-IsDriver look c card d (some n) v = try_card-IsDriver look c card d n v

-- `rtl_up` on any card.
pub rtl_up-IsDriver :
    (look : ℕ → Look) (c : ℕ) (card : Card) (d : Driver)
    → IsDriver look c d
    → IsDriver look c (rtl_up card d).1
unfolding rtl_up
rtl_up-IsDriver look c card d v =
    if-P (λ (r : Bool × Driver). IsDriver look c r.1) d.network.up {x = (true, d)} v
      (found_card-IsDriver look c card d (find_card card 0 256) v)

pub rtl_down-IsDriver :
    (look : ℕ → Look) (c : ℕ) (d : Driver) → IsDriver look c d → IsDriver look c (rtl_down d)
unfolding rtl_down
rtl_down-IsDriver look c d (nic, all, few) =
    let (stops, few') = quiet_step look c d.events (tcp_stopped ∷ []) refl all few in
    let (silent, few'') =
      quiet_step look c (d.events ++ tcp_stopped ∷ []) (out (d.nic.io + 0x37) 0 ∷ []) refl stops
        few' in
    elim (Bool-cases (d.nic.io != 0)) [
      | inl there ↦ rw there (nic, silent, few'')
      | inr nowhere ↦ rw nowhere (nic, stops, few')
    ]
