-- ===== src/Shell/Firewall.antt =====
-- jordyOS/net/command.c: `fw_command`, on the firewall and what its commands show. The hash of the
-- compiled programs is a parameter with them.
use os_research_lab.Base.{
  ℕ, List, [], ◌∷◌, Option, some, none, Bool, true, false, ◌&&◌, ◌||◌, leb, ◌==◌, length, get_or,
  set, codes, if◌then◌else◌,
}
use os_research_lab.Fs.{str_eq}
use os_research_lab.Packet.Text.{net_number, net_cidr}
use os_research_lab.Firewall.{
  FirewallRule, Firewall, fw_rules, fw_in, fw_out, zero_rule, fw_reset, fw_add, fw_delete,
}
use os_research_lab.Firewall.Prepare.{Programs}
use os_research_lab.Firewall.Policy.{fw_bpf_ready}
use os_research_lab.Shell.{words, action}
use os_research_lab.Shell.Rules.{rule_of}

-- The ways in which `fw_command` returns.
pub data Answer : Type 0 where
  helped not_ready now_enabled now_disabled status_asked stats_asked bpf_asked : Answer
  doctor_asked was_reset rule_deleted table_full block_added default_updated : Answer
  rule_added invalid : Answer

-- `!strcmp(w[i], name)`
abbrev pub says : List (List ℕ) → ℕ → List ℕ → Bool
says w i name = str_eq (get_or w i []) name

-- A single word.
abbrev pub asks_for : List (List ℕ) → List ℕ → Bool
asks_for w name = (length w == 1) && says w 0 name

abbrev pub added : Firewall → Answer → Option Firewall → Answer × Firewall
added fw answer none = (table_full, fw)
added fw answer (some fw') = (answer, fw')

-- `allow` or `deny` and a rule.
abbrev pub add_rule : Firewall → Option FirewallRule → Answer × Firewall
add_rule fw none = (invalid, fw)
add_rule fw (some rule) = added fw rule_added (fw_add fw rule)

abbrev pub block_source : Firewall → Option (ℕ × ℕ) → Answer × Firewall
block_source fw none = (invalid, fw)
block_source fw (some (ip, mask)) =
    added fw block_added
      (fw_add fw (record zero_rule { block = true; source = ip; source_mask = mask }))

abbrev pub set_default : Firewall → Bool → List ℕ → Answer × Firewall
set_default fw allow w =
    if str_eq w (codes "incoming")
    then (default_updated, record fw { defaults = set fw.defaults fw_in allow })
    else if str_eq w (codes "outgoing")
    then (default_updated, record fw { defaults = set fw.defaults fw_out allow })
    else (invalid, fw)

abbrev pub rule_words : List (List ℕ) → List (List ℕ)
rule_words [] = []
rule_words (w ∷ ws) = ws

abbrev pub try_rule : Firewall → List (List ℕ) → Option Bool → Answer × Firewall
try_rule fw w none = (invalid, fw)
try_rule fw w (some allow) = add_rule fw (rule_of allow (rule_words w))

abbrev pub rule_action : List (List ℕ) → Option Bool
rule_action w = if leb 2 (length w) then action (get_or w 0 []) else none

abbrev pub try_default : Firewall → List (List ℕ) → Option Bool → Answer × Firewall
try_default fw w none = try_rule fw w (rule_action w)
try_default fw w (some allow) = set_default fw allow (get_or w 2 [])

abbrev pub default_action : List (List ℕ) → Option Bool
default_action w =
    if (length w == 3) && says w 0 (codes "default") then action (get_or w 1 []) else none

-- The commands that change rules and defaults, but `delete`.
unfoldable pub fw_change : Firewall → List (List ℕ) → Answer × Firewall
fw_change fw w =
    if (length w == 3) && says w 0 (codes "block") && says w 1 (codes "from")
    then block_source fw (net_cidr (get_or w 2 []))
    else try_default fw w (default_action w)

abbrev pub delete_number : Firewall → Option ℕ → Option Firewall
delete_number fw none = none
delete_number fw (some number) = fw_delete fw number

-- `n == 2 && !strcmp(w[0], "delete") && net_number(...) && fw_delete(...)`
abbrev pub delete_rule : Firewall → List (List ℕ) → Option Firewall
delete_rule fw w =
    if (length w == 2) && says w 0 (codes "delete")
    then delete_number fw (net_number (get_or w 1 []) fw_rules)
    else none

abbrev pub deleted_or : Answer × Firewall → Option Firewall → Answer × Firewall
deleted_or otherwise none = otherwise
deleted_or otherwise (some fw) = (rule_deleted, fw)

-- The command on the words, with whether the eBPF programs are valid.
unfoldable pub fw_run : Bool → Firewall → List (List ℕ) → Answer × Firewall
fw_run ready fw w =
    if (length w == 0) || asks_for w (codes "help")
    then (helped, fw)
    else if asks_for w (codes "enable")
    then (if ready then (now_enabled, record fw { enabled = true }) else (not_ready, fw))
    else if asks_for w (codes "disable")
    then (now_disabled, record fw { enabled = false })
    else if ((length w == 1) || (length w == 2) && says w 1 (codes "numbered"))
        && says w 0 (codes "status")
    then (status_asked, fw)
    else if asks_for w (codes "stats")
    then (stats_asked, fw)
    else if asks_for w (codes "bpf")
    then (bpf_asked, fw)
    else if asks_for w (codes "doctor")
    then (doctor_asked, fw)
    else if asks_for w (codes "reset")
    then (was_reset, fw_reset)
    else deleted_or (fw_change fw w) (delete_rule fw w)

-- More than ten words are an invalid command.
unfoldable pub fw_words : Bool → Firewall → Option (List (List ℕ)) → Answer × Firewall
fw_words ready fw none = (invalid, fw)
fw_words ready fw (some w) = fw_run ready fw w

unfoldable pub fw_command : Programs → Firewall → List ℕ → Answer × Firewall
fw_command programs fw arguments = fw_words (fw_bpf_ready programs) fw (words arguments 10)
