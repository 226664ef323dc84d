-- ===== src/Shell/Does.antt =====
-- jordyOS/net/command.c: what a command of the firewall does when it gives an answer.
use os_research_lab.Base.{
  ℕ, ◌-◌, ◌≤◌, ◌<◌, List, [], ◌∷◌, ◌++◌, Option, some, none, Bool, true, false, get_or, set, codes,
  ◌≡◌,
}
use os_research_lab.Packet.Text.{net_number, net_cidr}
use os_research_lab.Firewall.{FirewallRule, Firewall, fw_rules, fw_in, fw_out, zero_rule, fw_reset}
use os_research_lab.Firewall.Table.{active, remove_at, IsTable}
use os_research_lab.Shell.Rules.{rule_of}
use os_research_lab.Shell.Firewall.{
  asks_for, Answer, helped, not_ready, now_enabled, now_disabled, status_asked, stats_asked,
  bpf_asked, doctor_asked, was_reset, rule_deleted, table_full, block_added, default_updated,
  rule_added, invalid, says, rule_words,
}

-- All but the rules and the hits is the same.
abbrev pub SameSettings : Firewall → Firewall → Type 0
SameSettings fw fw' =
    (fw'.enabled ≡ fw.enabled)
    × (fw'.defaults ≡ fw.defaults)
    × (fw'.allowed ≡ fw.allowed)
    × (fw'.denied ≡ fw.denied)

-- The rule is appended, with no hits, and nothing else changes.
abbrev pub Appends : Firewall → FirewallRule → Firewall → Type 0
Appends fw r fw' = (active fw' ≡ active fw ++ record r { hits = 0 } ∷ []) × SameSettings fw fw'

-- The words for an action and for the direction of a default.
abbrev pub action_name : Bool → List ℕ
action_name true = codes "allow"
action_name false = codes "deny"

abbrev pub direction_name : Bool → List ℕ
direction_name true = codes "incoming"
direction_name false = codes "outgoing"

abbrev pub default_at : Bool → ℕ
default_at true = fw_in
default_at false = fw_out

-- What a command of the words `w` with that answer does to the firewall.
abbrev pub Does : Bool → Firewall → List (List ℕ) → Answer → Firewall → Type 0
Does ready fw w helped fw' = fw' ≡ fw
Does ready fw w not_ready fw' = (fw' ≡ fw) × (ready ≡ false)
Does ready fw w now_enabled fw' =
    (asks_for w (codes "enable") ≡ true) × (fw' ≡ record fw { enabled = true }) × (ready ≡ true)
Does ready fw w now_disabled fw' =
    (asks_for w (codes "disable") ≡ true) × (fw' ≡ record fw { enabled = false })
Does ready fw w status_asked fw' = fw' ≡ fw
Does ready fw w stats_asked fw' = fw' ≡ fw
Does ready fw w bpf_asked fw' = fw' ≡ fw
Does ready fw w doctor_asked fw' = fw' ≡ fw
Does ready fw w was_reset fw' = (asks_for w (codes "reset") ≡ true) × (fw' ≡ fw_reset)
Does ready fw w rule_deleted fw' =
    (number : ℕ) × (says w 0 (codes "delete") ≡ true)
    × (net_number (get_or w 1 []) fw_rules ≡ some number)
    × (0 < number)
    × (number ≤ fw.count)
    × (active fw' ≡ remove_at (number - 1) (active fw))
    × SameSettings fw fw'
Does ready fw w table_full fw' = (fw' ≡ fw) × (fw.count ≡ fw_rules)
Does ready fw w block_added fw' =
    (ip : ℕ) × (mask : ℕ) × (says w 0 (codes "block") ≡ true)
    × (net_cidr (get_or w 2 []) ≡ some (ip, mask))
    × Appends fw (record zero_rule { block = true; source = ip; source_mask = mask }) fw'
Does ready fw w default_updated fw' =
    (allow : Bool) × (incoming : Bool) × (says w 0 (codes "default") ≡ true)
    × (says w 1 (action_name allow) ≡ true)
    × (says w 2 (direction_name incoming) ≡ true)
    × (fw' ≡ record fw { defaults = set fw.defaults (default_at incoming) allow })
Does ready fw w rule_added fw' =
    (allow : Bool) × (r : FirewallRule) × (says w 0 (action_name allow) ≡ true)
    × (rule_of allow (rule_words w) ≡ some r)
    × (r.block ≡ false)
    × Appends fw r fw'
Does ready fw w invalid fw' = fw' ≡ fw

-- That, and a table that is still well formed.
abbrev pub Kept : Bool → Firewall → List (List ℕ) → Answer × Firewall → Type 0
Kept ready fw w (answer, fw') = Does ready fw w answer fw' × IsTable fw'

-- The words of a command; a text of more than ten has none.
abbrev pub words_of : Option (List (List ℕ)) → List (List ℕ)
words_of none = []
words_of (some w) = w
