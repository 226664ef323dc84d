-- ===== src/Receive/Tests.antt =====
-- jordyOS/net/network.c at a concrete frame: sixty bytes of no known protocol.
use os_research_lab.Base.{ℕ, ◌*◌, List, [], ◌∷◌, replicate, get_or, length-replicate, true}
use os_research_lab.Bpf.{Insn}
use os_research_lab.Firewall.{fw_reset}
use os_research_lab.Firewall.Prepare.{Layout, Programs}
use os_research_lab.Receive.{Host}

-- r0 = 2; exit
abbrev pass_all : List Insn
pass_all =
    record { code = 0xb7; regs = 0; offset = 0; immediate = 2 }
    ∷ record { code = 0x95; regs = 0; offset = 0; immediate = 0 }
    ∷ []

abbrev test_programs : Programs
test_programs = record { policy_code = pass_all; xdp_code = pass_all }

abbrev test_layout : Layout
test_layout = record {
  counter_size = 16;
  metadata_size = 28;
  policy_bytes = λ h entries. replicate (33 * 96) 0;
  metadata_bytes = λ m. replicate 28 0;
  prefix_bytes = λ p. replicate (32 * 20) 0;
  packets = λ counters i. get_or counters (i * 16) 0;
  length-policy_bytes = λ h entries few. length-replicate {A = ℕ} (33 * 96) 0;
  length-metadata_bytes = λ m. length-replicate {A = ℕ} 28 0;
  length-prefix_bytes = λ p few. length-replicate {A = ℕ} (32 * 20) 0;
}

abbrev test_host : Host
test_host = record {
  network = record {
    up = true;
    echo = true;
    received = 3;
    transmitted = 0;
    invalid = 0;
    ignored = 0;
    tx_dropped = 0;
    driver_errors = 0;
  };
  firewall = record {
    fw = fw_reset;
    stats = record { policy_runs = 0; xdp_runs = 0; xdp_drops = 0; faults = 0; steps = 0 };
  };
  calls = [];
}

abbrev test_mac : List ℕ
test_mac = 82 ∷ 84 ∷ 0 ∷ 18 ∷ 52 ∷ 86 ∷ []

abbrev test_frame : List ℕ
test_frame = replicate 60 255
