-- ===== src/Shell/Tests.antt =====
-- Examples for the network commands of command.c: a rule that is added, and the address block of it.
use os_research_lab.Base.{bit_and, [], ◌∷◌, some, none, true, codes, ◌≡◌, refl, arith}
use os_research_lab.Fs.{str_eq}
use os_research_lab.Packet.Text.{
  net_number, number_from, take_part, cidr_octets, cidr_prefix, prefix_mask, net_cidr,
}
use os_research_lab.Firewall.{FirewallRule, zero_rule, fw_reset, fw_add}
use os_research_lab.Firewall.Prepare.{Programs}
use os_research_lab.Firewall.Policy.{fw_bpf_ready}
use os_research_lab.Shell.{
  protocol, number_loop, net_print_number, net_print_ip, prefix_loop, cidr, words_from, words,
}
use os_research_lab.Shell.Rules.{split_slash, service, rule_clauses, rule_service, rule_of}
use os_research_lab.Shell.Firewall.{added, rule_added, fw_command}
use os_research_lab.Shell.Shown.{rule_shown}
use os_research_lab.Shell.Status.{IsOrdinary, fw_command-rule_shown}
use os_research_lab.Shell.Does.{Kept, words_of}
use os_research_lab.Shell.Kept.{fw_reset-IsTable, fw_command-Kept}
use os_research_lab.Shell.Addresses.{net_cidr-cidr}

-- Programs of no instructions, which are not valid.
abbrev no_programs : Programs
no_programs = record { policy_code = []; xdp_code = [] }

four_words :
    words (codes "allow  in 80/tcp\tfrom ") 10
    ≡ some (codes "allow" ∷ codes "in" ∷ codes "80/tcp" ∷ codes "from" ∷ [])
unfolding words words_from codes
four_words = refl

too_many_words : words (codes "a b c d") 3 ≡ none
unfolding words words_from codes
too_many_words = refl

-- 10.1.0.0/16 in a rule for port 80.
rule_read :
    rule_of true (codes "80/tcp" ∷ codes "from" ∷ codes "10.1.2.3/16" ∷ [])
    ≡ some (record zero_rule {
      allow = true;
      protocol = 6;
      port = 80;
      source = 0x0a010000;
      source_mask = 0xffff0000;
    })
unfolding rule_of rule_service rule_clauses service split_slash str_eq codes net_number number_from
    take_part cidr_octets cidr_prefix prefix_mask net_cidr
rule_read = refl

block_shown : cidr 0x0a010000 0xffff0000 ≡ codes "10.1.0.0/16"
unfolding cidr net_print_ip net_print_number number_loop prefix_loop codes
block_shown = refl

fw_command-Kept_example :
    Kept
      (fw_bpf_ready no_programs)
      fw_reset
      (words_of (words (codes "allow in 80/tcp from 10.1.2.3/16") 10))
      (fw_command no_programs fw_reset (codes "allow in 80/tcp from 10.1.2.3/16"))
fw_command-Kept_example =
    fw_command-Kept no_programs fw_reset (codes "allow in 80/tcp from 10.1.2.3/16") fw_reset-IsTable

block_read_back :
    net_cidr (cidr 0x0a010203 (prefix_mask 16))
    ≡ some (bit_and 0x0a010203 (prefix_mask 16), prefix_mask 16)
block_read_back = net_cidr-cidr 0x0a010203 16 (omega arith) (omega arith) (omega arith)

-- `deny in 80/tcp from 10.1.0.0/16 to any`
abbrev web_rule : FirewallRule
web_rule = record zero_rule {
  protocol = 6;
  port = 80;
  source = 0x0a010000;
  source_mask = 0xffff0000;
}

web_rule-IsOrdinary : IsOrdinary web_rule
unfolding prefix_mask
web_rule-IsOrdinary = record {
  no_block = refl;
  sound = refl;
  port_fits = omega arith;
  source_block = (16, omega arith, refl, omega arith, refl);
  destination_block = (0, omega arith, refl, omega arith, refl);
}

web_rule_shown : rule_shown web_rule ≡ codes " deny in 80/tcp from 10.1.0.0/16 to any"
unfolding rule_shown protocol cidr net_print_ip net_print_number number_loop prefix_loop codes
web_rule_shown = refl

fw_command-rule_shown_example :
    fw_command no_programs fw_reset (rule_shown web_rule)
    ≡ added fw_reset rule_added (fw_add fw_reset web_rule)
fw_command-rule_shown_example =
    fw_command-rule_shown no_programs fw_reset web_rule web_rule-IsOrdinary
