-- ===== src/Shell/Rules.antt =====
-- jordyOS/net/command.c: how a rule is read from the words of a command.
use os_research_lab.Base.{
  ℕ, List, [], ◌∷◌, Option, some, none, Bool, true, false, not, ◌&&◌, ◌==◌, u16, codes,
  if◌then◌else◌,
}
use os_research_lab.Fs.{str_eq}
use os_research_lab.Packet.{net_icmp, net_tcp, net_udp}
use os_research_lab.Packet.Text.{net_number, net_cidr}
use os_research_lab.Firewall.{FirewallRule, zero_rule, fw_in, fw_out}

abbrev pub before_slash : ℕ → Option (List ℕ × List ℕ) → Option (List ℕ × List ℕ)
before_slash c none = none
before_slash c (some (port, rest)) = some (c ∷ port, rest)

-- The text before the first `/`, and the text behind it.
unfoldable pub split_slash : List ℕ → Option (List ℕ × List ℕ)
split_slash [] = none
split_slash (c ∷ text) =
    let rest = before_slash c (split_slash text) in if c == b'/' then some ([], text) else rest

-- The port and the protocol behind it.
abbrev pub set_port : FirewallRule → List ℕ → Option ℕ → Option FirewallRule
set_port rule after none = none
set_port rule after (some port) =
    if port == 0
    then none
    else if str_eq after (codes "tcp")
    then some (record rule { protocol = net_tcp; port = u16 port })
    else if str_eq after (codes "udp")
    then some (record rule { protocol = net_udp; port = u16 port })
    else none

abbrev pub port_service : FirewallRule → Option (List ℕ × List ℕ) → Option FirewallRule
port_service rule none = none
port_service rule (some (port, after)) = set_port rule after (net_number port 65535)

unfoldable pub service : List ℕ → FirewallRule → Option FirewallRule
service text rule =
    if str_eq text (codes "all")
    then some rule
    else if str_eq text (codes "icmp")
    then some (record rule { protocol = net_icmp })
    else if str_eq text (codes "tcp")
    then some (record rule { protocol = net_tcp })
    else if str_eq text (codes "udp")
    then some (record rule { protocol = net_udp })
    else port_service rule (split_slash text)

abbrev pub set_source : FirewallRule → Option (ℕ × ℕ) → Option FirewallRule
set_source rule none = none
set_source rule (some (ip, mask)) = some (record rule { source = ip; source_mask = mask })

abbrev pub set_destination : FirewallRule → Option (ℕ × ℕ) → Option FirewallRule
set_destination rule none = none
set_destination rule (some (ip, mask)) =
    some (record rule { destination = ip; destination_mask = mask })

abbrev pub from_block : FirewallRule → List ℕ → Option FirewallRule
from_block rule text =
    if str_eq text (codes "any") then some rule else set_source rule (net_cidr text)

abbrev pub to_block : FirewallRule → List ℕ → Option FirewallRule
to_block rule text =
    if str_eq text (codes "any") then some rule else set_destination rule (net_cidr text)

abbrev pub and_then :
    (FirewallRule → Option FirewallRule) → Option FirewallRule → Option FirewallRule
and_then f none = none
and_then f (some rule) = f rule

-- The words behind the service, with what was seen of them.
unfoldable pub rule_clauses : Bool → Bool → List (List ℕ) → FirewallRule → Option FirewallRule
rule_clauses from to [] rule = some rule
rule_clauses from to (w ∷ []) rule = none
rule_clauses from to (w ∷ text ∷ ws) rule =
    let after_from = and_then (rule_clauses true to ws) (from_block rule text) in
    let after_to = and_then (rule_clauses from true ws) (to_block rule text) in
    if str_eq w (codes "from") && not from
    then after_from
    else if str_eq w (codes "to") && not to
    then after_to
    else none

-- The service and what stands behind it.
unfoldable pub rule_service : List (List ℕ) → FirewallRule → Option FirewallRule
rule_service [] rule = none
rule_service (w ∷ ws) rule = and_then (rule_clauses false false ws) (service w rule)

-- The words behind `allow` or `deny`.
unfoldable pub rule_of : Bool → List (List ℕ) → Option FirewallRule
rule_of allow [] = none
rule_of allow (w ∷ ws) =
    let rule : FirewallRule = record zero_rule { allow = allow; direction = fw_in } in
    if str_eq w (codes "in")
    then rule_service ws rule
    else if str_eq w (codes "out")
    then rule_service ws (record rule { direction = fw_out })
    else rule_service (w ∷ ws) rule
