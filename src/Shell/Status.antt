-- ===== src/Shell/Status.antt =====
-- jordyOS/net/command.c: the text that `status` shows of a rule, as a command.
use os_research_lab.Base.{
  ℕ, ◌≤◌, ◌<◌, List, [], ◌∷◌, some, Bool, true, false, ◌≡◌, refl, ap, ◌∙◌, arith, codes,
}
use os_research_lab.Fs.{str_eq}
use os_research_lab.Firewall.{FirewallRule, Firewall, fw_out, rule_ok, fw_add}
use os_research_lab.Firewall.Prepare.{Programs}
use os_research_lab.Firewall.Policy.{fw_bpf_ready}
use os_research_lab.Shell.{cidr, action}
use os_research_lab.Shell.Rules.{and_then, rule_clauses, rule_service, rule_of}
use os_research_lab.Shell.Firewall.{
  rule_added, added, add_rule, fw_change, fw_run, fw_words, fw_command,
}
use os_research_lab.Shell.Shown.{rule_shown}
use os_research_lab.Shell.Printed.{made, Serves, direction_read, service_read}
use os_research_lab.Shell.Blocks.{IsBlock, block_reads, from_read, to_read}
use os_research_lab.Shell.Splitting.{action_shown, service_shown, words_shown, words-rule_shown}

-- What `fw_add` accepts of an ordinary rule, with blocks that `net_cidr` gives.
pub record IsOrdinary (r : FirewallRule) : Type 0 where
  pub no_block : r.block ≡ false
  pub sound : rule_ok r ≡ true
  pub port_fits : r.port < 65536
  pub source_block : IsBlock r.source r.source_mask
  pub destination_block : IsBlock r.destination r.destination_mask

rule_ok-Serves :
    (r : FirewallRule)
    → rule_ok r ≡ true
    → r.port < 65536
    → Serves r.protocol r.port × (r.direction ≤ fw_out)
rule_ok-Serves r ok small = ((ground arith, ground arith, small), ground arith)

clauses_read :
    (r : FirewallRule)
    → IsOrdinary r
    → rule_clauses false false
        (codes "from"
          ∷ cidr r.source r.source_mask
          ∷ codes "to"
          ∷ cidr r.destination r.destination_mask
          ∷ [])
        (made r.allow r.direction r.protocol r.port 0 0 0 0)
      ≡ some (
          made r.allow r.direction r.protocol r.port r.source r.source_mask r.destination
            r.destination_mask)
unfolding rule_clauses str_eq codes
clauses_read r v =
    let from =
      from_read r.allow r.direction r.protocol r.port r.source r.source_mask
        (block_reads r.source r.source_mask v.source_block) in
    let to =
      to_read r.allow r.direction r.protocol r.port r.source r.source_mask r.destination
        r.destination_mask (block_reads r.destination r.destination_mask v.destination_block) in
    ap
      (and_then (rule_clauses true false (codes "to" ∷ cidr r.destination r.destination_mask ∷ [])))
      from
    ∙ ap (and_then (rule_clauses true true [])) to

-- The rule that is read back from the words of a printed one.
rule_read :
    (r : FirewallRule)
    → IsOrdinary r
    → rule_of r.allow (words_shown r)
      ≡ some (
          made r.allow r.direction r.protocol r.port r.source r.source_mask r.destination
            r.destination_mask)
unfolding rule_service
rule_read r v =
    let (serves, directed) = rule_ok-Serves r v.sound v.port_fits in
    let after = words_after r in
    direction_read r.allow r.direction (service_shown r ∷ after) directed
    ∙ ap (and_then (rule_clauses false false after))
        (service_read r.allow r.direction r.protocol r.port serves)
    ∙ clauses_read r v
  where
    words_after : FirewallRule → List (List ℕ)
    words_after r =
        codes "from"
        ∷ cidr r.source r.source_mask
        ∷ codes "to"
        ∷ cidr r.destination r.destination_mask
        ∷ []

-- Seven words that start with an action are a rule.
fw_run-rule :
    (ready : Bool) (fw : Firewall) (allow : Bool) (a b c d e f : List ℕ)
    → fw_run ready fw (action_shown allow ∷ a ∷ b ∷ c ∷ d ∷ e ∷ f ∷ [])
      ≡ add_rule fw (rule_of allow (a ∷ b ∷ c ∷ d ∷ e ∷ f ∷ []))
unfolding fw_run fw_change action str_eq codes
fw_run-rule ready fw true a b c d e f = refl
fw_run-rule ready fw false a b c d e f = refl

fw_add-made :
    (fw : Firewall) (r : FirewallRule)
    → r.block ≡ false
    → fw_add fw (
        made r.allow r.direction r.protocol r.port r.source r.source_mask r.destination
          r.destination_mask)
      ≡ fw_add fw r
unfolding fw_add
fw_add-made fw r h = rw h refl

-- For every rule that `fw_add` accepts, that is no rule of a program's block, has a port of 16 bits
-- and has masked addresses or none as its blocks, the text that `status` shows of it between its
-- number and its hits is a command that adds this rule as `fw_add` does, and answers so.
pub fw_command-rule_shown :
    (programs : Programs) (fw : Firewall) (r : FirewallRule)
    → IsOrdinary r
    → fw_command programs fw (rule_shown r) ≡ added fw rule_added (fw_add fw r)
unfolding fw_command fw_words
fw_command-rule_shown programs fw r v = rw (words-rule_shown r) (
    fw_run-rule (fw_bpf_ready programs) fw r.allow _ _ _ _ _ _
    ∙ ap (add_rule fw) (rule_read r v)
    ∙ ap (added fw rule_added) (fw_add-made fw r v.no_block))
