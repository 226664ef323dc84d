-- ===== src/Firewall.antt =====
-- jordyOS/net/firewall.h and firewall.c: the rule table of the native firewall. `Firewall.Entries`,
-- `Firewall.Prepare` and `Firewall.Policy` are net/fw_bpf.c, which hands the table to the
-- eBPF programs.
pub mod Table
pub mod Entries
pub mod Prepare
pub mod Policy
mod Tests
use os_research_lab.Base.{
  ℕ, zero, suc, ◌+◌, ◌-◌, List, [], ◌∷◌, Option, some, none, Bool, true, false, ◌&&◌, ◌||◌, ltb,
  leb, ◌==◌, ◌!=◌, get_or, set, replicate, if◌then◌else◌,
}
use os_research_lab.Packet.{net_icmp, net_tcp, net_udp}

-- `FW_RULES`, `FW_IN` and `FW_OUT`
abbrev pub fw_rules : ℕ
fw_rules = 32

abbrev pub fw_in : ℕ
fw_in = 0

abbrev pub fw_out : ℕ
fw_out = 1

-- `FirewallRule`
pub record FirewallRule : Type 0 where
  pub source : ℕ
  pub source_mask : ℕ
  pub destination : ℕ
  pub destination_mask : ℕ
  pub hits : ℕ
  pub port : ℕ
  pub protocol : ℕ
  pub direction : ℕ
  pub allow : Bool
  pub block : Bool

-- `Firewall`; the arrays of two are indexed by direction.
pub record Firewall : Type 0 where
  pub rules : List FirewallRule
  pub count : ℕ
  pub enabled : Bool
  pub defaults : List Bool
  pub allowed : List ℕ
  pub denied : List ℕ

abbrev pub zero_rule : FirewallRule
zero_rule = record {
  source = 0;
  source_mask = 0;
  destination = 0;
  destination_mask = 0;
  hits = 0;
  port = 0;
  protocol = 0;
  direction = 0;
  allow = false;
  block = false;
}

unfoldable pub fw_reset : Firewall
fw_reset = record {
  rules = replicate fw_rules zero_rule;
  count = 0;
  enabled = false;
  defaults = false ∷ true ∷ [];
  allowed = 0 ∷ 0 ∷ [];
  denied = 0 ∷ 0 ∷ [];
}

-- What `fw_add` accepts of a rule.
abbrev pub rule_ok : FirewallRule → Bool
rule_ok r =
    leb r.direction fw_out
    && ((r.protocol == 0)
        || (r.protocol == net_icmp)
        || (r.protocol == net_tcp)
        || (r.protocol == net_udp))
    && ((r.port == 0) || (r.protocol == net_tcp) || (r.protocol == net_udp))

-- `none` is `return false`.
unfoldable pub fw_add : Firewall → FirewallRule → Option Firewall
fw_add fw rule =
    if leb fw_rules fw.count
      || ltb fw_out rule.direction
      || (rule.protocol != 0)
        && (rule.protocol != net_icmp)
        && (rule.protocol != net_tcp)
        && (rule.protocol != net_udp)
      || (rule.port != 0) && (rule.protocol != net_tcp) && (rule.protocol != net_udp)
    then none
    else some (record fw {
      rules = set fw.rules fw.count (record rule { hits = 0 });
      count = fw.count + 1;
    })

-- `for (i = number; i < count; i++) rules[i - 1] = rules[i]`, from `i` with `left` rounds to go.
unfoldable pub shift_down : List FirewallRule → ℕ → ℕ → List FirewallRule
shift_down rules i zero = rules
shift_down rules i (suc left) =
    shift_down (set rules (i - 1) (get_or rules i zero_rule)) (i + 1) left

unfoldable pub fw_delete : Firewall → ℕ → Option Firewall
fw_delete fw number =
    if (number == 0) || ltb fw.count number
    then none
    else some
        (record fw { rules = shift_down fw.rules number (fw.count - number); count = fw.count - 1 })
