-- ===== src/Driver/Tests.antt =====
-- Examples for the driver of rtl8139.c: a ring with one frame of three bytes, and a short frame that is
-- sent.
use os_research_lab.Base.{ℕ, [], ◌∷◌, replicate, true, false, ◌≡◌, refl}
use os_research_lab.Base.Fault.{done}
use os_research_lab.Packet.{net_frame_max}
use os_research_lab.Receive.{Network}
use os_research_lab.Driver.{Driver}
use os_research_lab.Driver.Poll.{Look, copy_frame}

-- The ring holds a good frame of three bytes and its checksum, at each look.
one_frame : ℕ → Look
one_frame k = record { command = 0; ring = 1 ∷ 0 ∷ 7 ∷ 0 ∷ replicate 8188 9 }

abbrev quiet_network : Network
quiet_network = record {
  up = true;
  echo = false;
  received = 0;
  transmitted = 0;
  invalid = 0;
  ignored = 0;
  tx_dropped = 0;
  driver_errors = 0;
}

abbrev idle : Driver
idle = record {
  nic = record {
    io = 0xc000;
    mac = [];
    rx_offset = 0;
    tx_slot = 0;
    tx_buffers = [];
    frame = replicate net_frame_max 0;
  };
  network = quiet_network;
  events = [];
}

copied_round :
    copy_frame (5 ∷ 6 ∷ 7 ∷ 8 ∷ 9 ∷ replicate 8187 4) 8190 (0 ∷ 0 ∷ 0 ∷ []) 0 3
    ≡ done (7 ∷ 8 ∷ 9 ∷ [])
unfolding copy_frame
copied_round = refl
