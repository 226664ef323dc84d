-- ===== src/Shell/Parsed.antt =====
-- jordyOS/net/command.c: the rules that are read from a command.
use os_research_lab.Base.{
  ℕ, List, [], ◌∷◌, Option, some, none, Bool, true, false, not, ◌&&◌, leb, ◌==◌, if-P, u16, codes,
  ◌≡◌, refl, arith,
}
use os_research_lab.Base.Fault.{Each}
use os_research_lab.Fs.{str_eq}
use os_research_lab.Packet.{net_icmp, net_tcp, net_udp}
use os_research_lab.Packet.Text.{net_number, net_cidr}
use os_research_lab.Firewall.{FirewallRule, fw_in, fw_out, zero_rule, rule_ok}
use os_research_lab.Shell.Rules.{
  split_slash, set_port, port_service, service, set_source, set_destination, from_block, to_block,
  and_then, rule_clauses, rule_service, rule_of,
}

-- A rule that `fw_add` accepts while there is room, and that is no block.
abbrev pub Good : FirewallRule → Type 0
Good r = (rule_ok r ≡ true) × (r.block ≡ false)

-- A rule with no service yet.
abbrev Fresh : FirewallRule → Type 0
Fresh r = (leb r.direction fw_out ≡ true) × (r.protocol ≡ 0) × (r.port ≡ 0) × (r.block ≡ false)

service-Good : (text : List ℕ) (rule : FirewallRule) → Fresh rule → Each Good (service text rule)
unfolding service
service-Good text rule (direction, protocol, port, block) =
    let is = λ (name : List ℕ). str_eq text name in
    let icmp : FirewallRule = record rule { protocol = net_icmp } in
    let tcp : FirewallRule = record rule { protocol = net_tcp } in
    let udp : FirewallRule = record rule { protocol = net_udp } in
    if-P (Each Good) (is (codes "all")) {x = some rule} (ground arith, block)
      (if-P (Each Good) (is (codes "icmp")) {x = some icmp} (ground arith, block)
        (if-P (Each Good) (is (codes "tcp")) {x = some tcp} (ground arith, block)
          (if-P (Each Good) (is (codes "udp")) {x = some udp} (ground arith, block)
            (port_service-Good rule (split_slash text) (direction, block)))))
  where
    set_port-Good :
        (rule : FirewallRule) (after : List ℕ) (port : Option ℕ)
        → (leb rule.direction fw_out ≡ true) × (rule.block ≡ false)
        → Each Good (set_port rule after port)
    set_port-Good rule after none h = tt
    set_port-Good rule after (some port) (direction, block) =
        let tcp : FirewallRule = record rule { protocol = net_tcp; port = u16 port } in
        let udp : FirewallRule = record rule { protocol = net_udp; port = u16 port } in
        if-P (Each Good) (port == 0) {x = none} tt (
          if-P (Each Good) (str_eq after (codes "tcp")) {x = some tcp} (ground arith, block)
            (if-P (Each Good) (str_eq after (codes "udp")) {x = some udp} (ground arith, block) tt))

    port_service-Good :
        (rule : FirewallRule) (split : Option (List ℕ × List ℕ))
        → (leb rule.direction fw_out ≡ true) × (rule.block ≡ false)
        → Each Good (port_service rule split)
    port_service-Good rule none h = tt
    port_service-Good rule (some (port, after)) h =
        set_port-Good rule after (net_number port 65535) h

and_then-Good :
    (f : FirewallRule → Option FirewallRule) (o : Option FirewallRule)
    → ((r : FirewallRule) → Good r → Each Good (f r))
    → Each Good o
    → Each Good (and_then f o)
and_then-Good f none keeps h = tt
and_then-Good f (some r) keeps h = keeps r h

set_source-Good :
    (rule : FirewallRule) (o : Option (ℕ × ℕ)) → Good rule → Each Good (set_source rule o)
set_source-Good rule none h = tt
set_source-Good rule (some (ip, mask)) h = h

set_destination-Good :
    (rule : FirewallRule) (o : Option (ℕ × ℕ)) → Good rule → Each Good (set_destination rule o)
set_destination-Good rule none h = tt
set_destination-Good rule (some (ip, mask)) h = h

rule_clauses-Good :
    (from to : Bool) (ws : List (List ℕ)) (rule : FirewallRule)
    → Good rule
    → Each Good (rule_clauses from to ws rule)
unfolding rule_clauses
rule_clauses-Good from to [] rule h = h
rule_clauses-Good from to (w ∷ []) rule h = tt
rule_clauses-Good from to (w ∷ text ∷ ws) rule h =
    if-P (Each Good) (str_eq w (codes "from") && not from)
      (and_then-Good (rule_clauses true to ws) (from_block rule text)
        (λ r g. rule_clauses-Good true to ws r g)
        (if-P (Each Good) (str_eq text (codes "any")) {x = some rule} h
          (set_source-Good rule (net_cidr text) h)))
      (if-P (Each Good) (str_eq w (codes "to") && not to)
        (and_then-Good (rule_clauses from true ws) (to_block rule text)
          (λ r g. rule_clauses-Good from true ws r g)
          (if-P (Each Good) (str_eq text (codes "any")) {x = some rule} h
            (set_destination-Good rule (net_cidr text) h)))
        tt)

rule_service-Good :
    (ws : List (List ℕ)) (rule : FirewallRule) → Fresh rule → Each Good (rule_service ws rule)
unfolding rule_service
rule_service-Good [] rule h = tt
rule_service-Good (w ∷ ws) rule h =
    and_then-Good (rule_clauses false false ws) (service w rule)
      (λ r g. rule_clauses-Good false false ws r g) (service-Good w rule h)

pub rule_of-Good : (allow : Bool) (ws : List (List ℕ)) → Each Good (rule_of allow ws)
unfolding rule_of
rule_of-Good allow [] = tt
rule_of-Good allow (w ∷ ws) =
    let rule : FirewallRule = record zero_rule { allow = allow; direction = fw_in } in
    if-P (Each Good) (str_eq w (codes "in")) (rule_service-Good ws rule (refl, refl, refl, refl)) (
      if-P (Each Good) (str_eq w (codes "out"))
        (rule_service-Good ws (record rule { direction = fw_out }) (refl, refl, refl, refl))
        (rule_service-Good (w ∷ ws) rule (refl, refl, refl, refl)))
