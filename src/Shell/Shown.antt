-- ===== src/Shell/Shown.antt =====
-- jordyOS/net/command.c: what `fw_command` prints.
use os_research_lab.Base.{
  ℕ, ◌+◌, List, [], ◌∷◌, ◌++◌, Bool, false, ◌==◌, ◌!=◌, length, get_or, take, codes, if◌then◌else◌,
}
use os_research_lab.Firewall.{FirewallRule, Firewall, fw_in, fw_out}
use os_research_lab.Firewall.Prepare.{Programs, FirewallBpfStats}
use os_research_lab.Firewall.Policy.{fw_bpf_ready}
use os_research_lab.Shell.{net_print_number, cidr, protocol}
use os_research_lab.Shell.Firewall.{
  Answer, helped, not_ready, now_enabled, now_disabled, status_asked, stats_asked, bpf_asked,
  doctor_asked, was_reset, rule_deleted, table_full, block_added, default_updated, rule_added,
  invalid,
}

abbrev pub hits_shown : FirewallRule → List ℕ
hits_shown r = codes " hits=" ++ (net_print_number r.hits ++ codes "\n")

-- A rule that is not a block, between its number and its hits.
unfoldable pub rule_shown : FirewallRule → List ℕ
rule_shown r =
    (if r.allow then codes " allow " else codes " deny ")
    ++ ((if r.direction == fw_in then codes "in " else codes "out ")
        ++ ((if r.port != 0 then net_print_number r.port ++ codes "/" else [])
            ++ (protocol r.protocol
                ++ (codes " from "
                    ++ (cidr r.source r.source_mask
                        ++ (codes " to " ++ cidr r.destination r.destination_mask))))))

-- One line of `fw_status`.
unfoldable pub status_line : ℕ → FirewallRule → List ℕ
status_line number r =
    net_print_number number
    ++ ((if r.block then codes " block from " ++ cidr r.source r.source_mask else rule_shown r)
        ++ hits_shown r)

unfoldable pub status_lines : ℕ → List FirewallRule → List ℕ
status_lines i [] = []
status_lines i (r ∷ rules) = status_line (i + 1) r ++ status_lines (i + 1) rules

unfoldable pub fw_status : Firewall → List ℕ
fw_status fw =
    codes "Native JordyOS firewall: "
    ++ (if fw.enabled then codes "enabled\n" else codes "disabled\n")
    ++ codes "Backend: eBPF interpreter; upstream ebpfw XDP + stateless policy.\n"
    ++ codes "Defaults: incoming "
    ++ (if get_or fw.defaults fw_in false then codes "allow" else codes "deny")
    ++ codes ", outgoing "
    ++ (if get_or fw.defaults fw_out false then codes "allow\n" else codes "deny\n")
    ++ codes "Rules: "
    ++ net_print_number fw.count
    ++ codes "/32 (blocks first; ordinary first match)\n"
    ++ status_lines 0 (take fw.count fw.rules)

unfoldable pub help : List ℕ
help =
    codes
      "ebpfw: interpreted eBPF/XDP; native stateless IPv4 adaptation\n  ebpfw enable | disable | status [numbered] | stats | doctor\n  ebpfw allow|deny [in|out] SERVICE [from CIDR] [to CIDR]\n  SERVICE: all, icmp, tcp, udp, PORT/tcp, PORT/udp\n  ebpfw default allow|deny incoming|outgoing\n  ebpfw block from CIDR | bpf\n  ebpfw delete NUMBER | reset\nOmitted direction means in. Ports match destination, including out.\nARP bypasses IP policy; IPv6/options/fragments are unsupported.\nRules and counters are RAM-only. No connection tracking or forwarding.\n"

-- The `stats` of both directions and of the programs.
unfoldable pub stats_shown : Firewall → FirewallBpfStats → List ℕ
stats_shown fw stats =
    codes "in allowed="
    ++ net_print_number (get_or fw.allowed fw_in 0)
    ++ codes " denied="
    ++ net_print_number (get_or fw.denied fw_in 0)
    ++ codes "\nout allowed="
    ++ net_print_number (get_or fw.allowed fw_out 0)
    ++ codes " denied="
    ++ net_print_number (get_or fw.denied fw_out 0)
    ++ codes "\nbpf policy_runs="
    ++ net_print_number stats.policy_runs
    ++ codes " xdp_runs="
    ++ net_print_number stats.xdp_runs
    ++ codes " xdp_drops="
    ++ net_print_number stats.xdp_drops
    ++ codes " faults="
    ++ net_print_number stats.faults
    ++ codes "\n"

unfoldable pub bpf_shown : Programs → List ℕ → List ℕ
bpf_shown programs hash =
    (if fw_bpf_ready programs
      then codes "BPF validation: passed\n"
      else codes "BPF validation: FAILED\n")
    ++ codes "eBPF instructions: policy="
    ++ net_print_number (length programs.policy_code)
    ++ codes " xdp="
    ++ net_print_number (length programs.xdp_code)
    ++ codes "\nELF SHA256: "
    ++ hash
    ++ codes
        "\nInterpreter: 11 registers, 512B stack, checked memory, 65536-step limit.\nMaps: arrays, map-of-maps, LPM; helper 1 (lookup). No JIT/Netfilter/conntrack.\n"

unfoldable pub doctor_shown : Programs → Bool → List ℕ
doctor_shown programs up =
    codes "Backend: eBPF interpreter; upstream ebpfw XDP, stateless IPv4 policy.\n"
    ++ (if fw_bpf_ready programs
        then codes "BPF validation: passed; XDP PASS/DROP hook installed.\n"
        else codes "BPF validation: FAILED.\n")
    ++ (if up
        then codes "RTL8139: up, receive/transmit hooks active.\n"
        else codes "RTL8139: down; attach -device rtl8139 and run net up.\n")
    ++ codes
        "Validation: IPv4/transport lengths and checksums; fragments/options rejected.\nServices: ICMP echo; optional UDP echo at 7777; active TCP file transfers.\nPolling requires console activity, yields, or guest wait calls.\n"

-- What is printed, with the firewall after the command and whether the network is up.
unfoldable pub answer_shown :
    Programs → List ℕ → FirewallBpfStats → Bool → Firewall → Answer → List ℕ
answer_shown programs hash stats up fw helped = help
answer_shown programs hash stats up fw not_ready =
    codes "BPF program validation failed; firewall not enabled.\n"
answer_shown programs hash stats up fw now_enabled = codes "Native firewall enabled.\n"
answer_shown programs hash stats up fw now_disabled =
    codes "Native firewall disabled; packet validation remains active.\n"
answer_shown programs hash stats up fw status_asked = fw_status fw
answer_shown programs hash stats up fw stats_asked = stats_shown fw stats
answer_shown programs hash stats up fw bpf_asked = bpf_shown programs hash
answer_shown programs hash stats up fw doctor_asked = doctor_shown programs up
answer_shown programs hash stats up fw was_reset =
    codes "Rules/counters reset; firewall disabled.\n"
answer_shown programs hash stats up fw rule_deleted = codes "Rule deleted.\n"
answer_shown programs hash stats up fw table_full = codes "Rule table full (32).\n"
answer_shown programs hash stats up fw block_added =
    codes "Rule added: " ++ net_print_number fw.count ++ codes " (XDP source block)\n"
answer_shown programs hash stats up fw default_updated = codes "Default updated.\n"
answer_shown programs hash stats up fw rule_added =
    codes "Rule added: " ++ net_print_number fw.count ++ codes "\n"
answer_shown programs hash stats up fw invalid =
    codes "Invalid command; policy unchanged. Type ebpfw help.\n"
