-- ===== src/Receive/Safety.antt =====
-- jordyOS/net/network.c: the safety of `net_receive`.
use os_research_lab.Base.{ℕ, ◌+◌, ◌≤◌, length, ◌≡◌}
use os_research_lab.Packet.{Packet}
use os_research_lab.Receive.{Host}

-- The frame is counted already, and at most so many calls were made.
abbrev pub Accounts : Host → ℕ → Host → Type 0
Accounts h n h' =
    (h'.network.received ≡ h.network.received) × (length h'.calls ≤ length h.calls + n)
