-- ===== src/Firewall/Tests.antt =====
-- Examples for net/firewall.c and fw_bpf.c: a table of two rules, and programs that let all pass.
use os_research_lab.Base.{
  ℕ, ◌*◌, ◌≤◌, ◌<◌, List, [], ◌∷◌, ◌++◌, some, none, Bool, true, false, length, get_or, replicate,
  length-replicate, ltb, ◌≡◌, ◌⊎◌, refl, arith, if◌then◌else◌,
}
use os_research_lab.Bpf.{Insn}
use os_research_lab.Packet.{Packet}
use os_research_lab.Packet.Text.{prefix_mask}
use os_research_lab.Firewall.Entries.{bits, fill}
use os_research_lab.Firewall.Prepare.{Layout, Programs, State}
use os_research_lab.Firewall.{FirewallRule, Firewall, fw_out, zero_rule, rule_ok, fw_add, fw_delete}
use os_research_lab.Firewall.Table.{IsTable, active, remove_at, fw_add_lem, fw_delete_lem}
use os_research_lab.Firewall.Policy.{fw_accept}
use os_research_lab.Firewall.Entries.Order.{
  entries_where, positions_where, is_block, is_ordinary, fill_lem, bits-prefix_mask,
}
use os_research_lab.Firewall.Policy.{fw_bpf_xdp, refused}
use os_research_lab.Firewall.Policy.Early.{runs, Drops, Cleared, fw_bpf_xdp_lem}
use os_research_lab.Firewall.Policy.Verdict.{Counted, Passed, fw_accept_lem}

-- Block 10.0.0.0/8; let TCP to port 80 pass.
abbrev block_ten : FirewallRule
block_ten = record zero_rule { source = 0x0a000000; source_mask = 0xff000000; block = true }

abbrev allow_web : FirewallRule
allow_web = record zero_rule { port = 80; protocol = 6; allow = true; hits = 3 }

abbrev table : Firewall
table = record {
  rules = allow_web ∷ block_ten ∷ replicate 30 zero_rule;
  count = 2;
  enabled = true;
  defaults = false ∷ true ∷ [];
  allowed = 0 ∷ 0 ∷ [];
  denied = 0 ∷ 0 ∷ [];
}

table-IsTable : IsTable table
table-IsTable = record { size = refl; within = omega arith; sound = (refl, (refl, tt)) }

fw_add_lem_example :
    ((rule_ok block_ten ≡ false) × (fw_add table block_ten ≡ none))
    ⊎ ((fw' : Firewall) × (rule_ok block_ten ≡ true)
        × (fw_add table block_ten ≡ some fw')
        × (active fw' ≡ active table ++ record block_ten { hits = 0 } ∷ [])
        × IsTable fw')
fw_add_lem_example = fw_add_lem table block_ten table-IsTable (omega arith)

abbrev first : ℕ
first = 1

fw_delete_lem_example :
    ((first ≡ 0) ⊎ (2 < first)) × (fw_delete table first ≡ none)
    ⊎ ((fw' : Firewall) × (0 < first)
        × (first ≤ 2)
        × (fw_delete table first ≡ some fw')
        × (active fw' ≡ remove_at 0 (active table))
        × IsTable fw')
fw_delete_lem_example = fw_delete_lem table first table-IsTable

-- r0 = 2; exit
abbrev passing : List Insn
passing =
    record { code = 0xb7; regs = 0; offset = 0; immediate = 2 }
    ∷ record { code = 0x95; regs = 0; offset = 0; immediate = 0 }
    ∷ []

abbrev programs : Programs
programs = record { policy_code = passing; xdp_code = passing }

abbrev layout : Layout
layout = record {
  counter_size = 16;
  metadata_size = 28;
  policy_bytes = λ h entries. replicate (33 * 96) 0;
  metadata_bytes = λ m. replicate 28 0;
  prefix_bytes = λ p. replicate (32 * 20) 0;
  packets = λ counters i. get_or counters (i * 16) 0;
  length-policy_bytes = λ h entries few. length-replicate {A = ℕ} (33 * 96) 0;
  length-metadata_bytes = λ m. length-replicate {A = ℕ} 28 0;
  length-prefix_bytes = λ p few. length-replicate {A = ℕ} (32 * 20) 0;
}

abbrev state : State
state = record {
  fw = table;
  stats = record { policy_runs = 0; xdp_runs = 0; xdp_drops = 0; faults = 0; steps = 0 };
}

abbrev request : Packet
request = record {
  source = 0xc0000203;
  destination = 0xc0000202;
  source_port = 4000;
  destination_port = 80;
  length = 40;
  protocol = 6;
}

fw_accept_lem_example :
    (allow : Bool) × (s' : State) × (fw_accept layout programs state request 0 ≡ some (allow, s'))
    × (if ltb fw_out 0 then (allow ≡ false) × (s' ≡ state) else Counted allow 0 state s')
    × ((allow ≡ false) ⊎ Passed layout programs state request 0)
fw_accept_lem_example = fw_accept_lem layout programs state request 0

abbrev two : List FirewallRule
two = allow_web ∷ block_ten ∷ []

fill_lem_example :
    ((fill two).entries ≡ entries_where is_block two 0 ++ entries_where is_ordinary two 0)
    × (length (fill two).entries ≡ length two)
    × ((fill two).indexes ≡ positions_where is_block two 0)
    × (length (fill two).blocked ≡ length (fill two).indexes)
    × (length (fill two).indexes ≤ length two)
fill_lem_example = fill_lem two

bits_of_24 : bits (prefix_mask 24) ≡ 24
bits_of_24 = bits-prefix_mask 24 (omega arith)

abbrev frame : List ℕ
frame = replicate 60 7

fw_bpf_xdp_lem_example :
    ((runs programs state 60 ≡ false)
      × (fw_bpf_xdp layout programs state frame 60 ≡ some (refused state)))
    ⊎ ((pass : Bool) × (s' : State) × (runs programs state 60 ≡ true)
        × (fw_bpf_xdp layout programs state frame 60 ≡ some (pass, s'))
        × Drops pass state s'
        × ((pass ≡ false) ⊎ Cleared layout programs state frame 60))
fw_bpf_xdp_lem_example = fw_bpf_xdp_lem layout programs state frame 60 (omega arith)
