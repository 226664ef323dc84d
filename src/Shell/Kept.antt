-- ===== src/Shell/Kept.antt =====
-- jordyOS/net/command.c: what a command does to the rule table, for every text.
use os_research_lab.Base.{
  leb, ℕ, ◌+◌, ◌-◌, ◌≤◌, ◌<◌, List, [], Option, some, none, Bool, true, false, ◌&&◌, ◌||◌, ltb,
  ◌==◌, length, get_or, set, length-replicate, Bool-cases, if-P, if-P_eq, codes, ◌≡◌, ◌⊎◌, inl, inr,
  refl, arith, if◌then◌else◌,
}
use os_research_lab.Base.Fault.{Each}
use os_research_lab.Fs.{str_eq}
use os_research_lab.Packet.Text.{net_number, net_cidr}
use os_research_lab.Firewall.{
  FirewallRule, Firewall, fw_rules, fw_in, fw_out, zero_rule, rule_ok, fw_reset, fw_add, shift_down,
  fw_delete,
}
use os_research_lab.Firewall.Table.{active, remove_at, IsTable, fw_add_lem, fw_delete_lem}
use os_research_lab.Firewall.Prepare.{Programs}
use os_research_lab.Firewall.Policy.{fw_bpf_ready}
use os_research_lab.Shell.{words, action}
use os_research_lab.Shell.Parsed.{Good, rule_of-Good}
use os_research_lab.Shell.Does.{SameSettings, Appends, action_name, Kept, words_of}
use os_research_lab.Shell.Rules.{rule_of}
use os_research_lab.Shell.Firewall.{
  Answer, helped, not_ready, now_enabled, now_disabled, status_asked, stats_asked, bpf_asked,
  doctor_asked, was_reset, says, asks_for, add_rule, block_source, set_default, rule_words,
  try_rule, rule_action, try_default, default_action, fw_change, delete_number, delete_rule,
  deleted_or, fw_run, fw_words, fw_command,
}

fw_add-SameSettings :
    (fw : Firewall) (rule : FirewallRule) → Each (SameSettings fw) (fw_add fw rule)
unfolding fw_add
fw_add-SameSettings fw rule =
    if-P (Each (SameSettings fw)) _ {x = none}
      {y = some (record fw {
        rules = set fw.rules fw.count (record rule { hits = 0 });
        count = fw.count + 1;
      })}
      tt (refl, refl, refl, refl)

fw_delete-SameSettings : (fw : Firewall) (number : ℕ) → Each (SameSettings fw) (fw_delete fw number)
unfolding fw_delete
fw_delete-SameSettings fw number =
    if-P (Each (SameSettings fw)) ((number == 0) || ltb fw.count number) {x = none}
      {y = some (record fw {
        rules = shift_down fw.rules number (fw.count - number);
        count = fw.count - 1;
      })}
      tt (refl, refl, refl, refl)

-- The word that an action was read from.
abbrev Named : List ℕ → Option Bool → Type 0
Named text = Each λ allow. str_eq text (action_name allow) ≡ true

action-Named : (text : List ℕ) → Named text (action text)
unfolding action
action-Named text =
    if-P_eq (Named text) (str_eq text (codes "allow")) (λ e. e)
      (λ other. if-P_eq (Named text) (str_eq text (codes "deny")) (λ e. e) (λ unknown. tt))

pub fw_reset-IsTable : IsTable fw_reset
unfolding fw_reset
fw_reset-IsTable = record {
  size = length-replicate {A = FirewallRule} fw_rules zero_rule;
  within = omega arith;
  sound = tt;
}

-- Of a full table `fw_add` refuses every rule.
fw_add-full : (fw : Firewall) (rule : FirewallRule) → fw.count ≡ fw_rules → fw_add fw rule ≡ none
unfolding fw_add
fw_add-full fw rule h = ground arith

-- A rule that the table accepts is added, unless the table is full.
added_lem :
    (fw : Firewall) (rule : FirewallRule)
    → IsTable fw
    → rule_ok rule ≡ true
    → (fw_add fw rule ≡ none) × (fw.count ≡ fw_rules)
      ⊎ ((fw' : Firewall) × (fw_add fw rule ≡ some fw') × Appends fw rule fw' × IsTable fw')
added_lem fw rule table good = elim (Bool-cases (ltb fw.count fw_rules)) [
  | inr full ↦
      let h : fw.count ≡ fw_rules = ground (arith, table.within) in inl (fw_add-full fw rule h, h)
  | inl room ↦ elim (fw_add_lem fw rule table (ground arith)) [
    | inl (bad, e) ↦ absurd (ground arith)
    | inr (fw', good', e, appended, table') ↦
        inr (fw', e, (appended, rw e at (fw_add-SameSettings fw rule)), table')
  ]
]

add_rule-Kept :
    (ready : Bool) (fw : Firewall) (w : List (List ℕ)) (allow : Bool) (o : Option FirewallRule)
    → IsTable fw
    → says w 0 (action_name allow) ≡ true
    → rule_of allow (rule_words w) ≡ o
    → Each Good o
    → Kept ready fw w (add_rule fw o)
add_rule-Kept ready fw w allow none table named is h = (refl, table)
add_rule-Kept ready fw w allow (some rule) table named is (good, block) =
    elim (added_lem fw rule table good) [
      | inl (e, full) ↦ rw e ((refl, full), table)
      | inr (fw', e, appended, table') ↦ rw e ((allow, rule, named, is, block, appended), table')
    ]

block_source-Kept :
    (ready : Bool) (fw : Firewall) (w : List (List ℕ)) (o : Option (ℕ × ℕ))
    → IsTable fw
    → says w 0 (codes "block") ≡ true
    → net_cidr (get_or w 2 []) ≡ o
    → Kept ready fw w (block_source fw o)
block_source-Kept ready fw w none table named is = (refl, table)
block_source-Kept ready fw w (some (ip, mask)) table named is =
    let rule : FirewallRule = record zero_rule { block = true; source = ip; source_mask = mask } in
    elim (added_lem fw rule table refl) [
      | inl (e, full) ↦ rw e ((refl, full), table)
      | inr (fw', e, appended, table') ↦ rw e ((ip, mask, named, is, appended), table')
    ]

set_default-Kept :
    (ready : Bool) (fw : Firewall) (w : List (List ℕ)) (allow : Bool)
    → IsTable fw
    → says w 1 (action_name allow) ≡ true
    → says w 0 (codes "default") ≡ true
    → Kept ready fw w (set_default fw allow (get_or w 2 []))
set_default-Kept ready fw w allow table named asked =
    let table' = λ (d : ℕ). the_table fw d allow table in
    if-P_eq (Kept ready fw w) (says w 2 (codes "incoming"))
      (λ e. ((allow, true, asked, named, e, refl), table' fw_in))
      (λ other.
        if-P_eq (Kept ready fw w) (says w 2 (codes "outgoing"))
          (λ e. ((allow, false, asked, named, e, refl), table' fw_out)) (λ unknown. (refl, table)))
  where
    the_table :
        (fw : Firewall) (d : ℕ) (allow : Bool)
        → IsTable fw
        → IsTable (record fw { defaults = set fw.defaults d allow })
    the_table fw d allow table = record {
      size = table.size;
      within = table.within;
      sound = table.sound;
    }

try_rule-Kept :
    (ready : Bool) (fw : Firewall) (w : List (List ℕ)) (o : Option Bool)
    → IsTable fw
    → Named (get_or w 0 []) o
    → Kept ready fw w (try_rule fw w o)
try_rule-Kept ready fw w none table named = (refl, table)
try_rule-Kept ready fw w (some allow) table named =
    add_rule-Kept ready fw w allow (rule_of allow (rule_words w)) table named refl
      (rule_of-Good allow (rule_words w))

-- The words of a default, with the action that was read.
abbrev Asked : List (List ℕ) → Option Bool → Type 0
Asked w = Each λ allow. (says w 1 (action_name allow) ≡ true) × (says w 0 (codes "default") ≡ true)

Named-Asked :
    (w : List (List ℕ)) (o : Option Bool)
    → Named (get_or w 1 []) o
    → says w 0 (codes "default") ≡ true
    → Asked w o
Named-Asked w none named asked = tt
Named-Asked w (some allow) named asked = (named, asked)

try_default-Kept :
    (ready : Bool) (fw : Firewall) (w : List (List ℕ)) (o : Option Bool)
    → IsTable fw
    → Asked w o
    → Kept ready fw w (try_default fw w o)
try_default-Kept ready fw w none table named =
    try_rule-Kept ready fw w (rule_action w) table
      (if-P (Named (get_or w 0 [])) (leb 2 (length w)) {y = none} (action-Named (get_or w 0 [])) tt)
try_default-Kept ready fw w (some allow) table named =
    set_default-Kept ready fw w allow table named.0 named.1

fw_change-Kept :
    (ready : Bool) (fw : Firewall) (w : List (List ℕ))
    → IsTable fw
    → Kept ready fw w (fw_change fw w)
unfolding fw_change
fw_change-Kept ready fw w table =
    if-P_eq (Kept ready fw w)
      ((length w == 3) && says w 0 (codes "block") && says w 1 (codes "from"))
      {x = block_source fw (net_cidr (get_or w 2 []))} {y = try_default fw w (default_action w)}
      (λ asked. block_source-Kept ready fw w (net_cidr (get_or w 2 [])) table (ground arith) refl)
      (λ other. try_default-Kept ready fw w (default_action w) table (
        if-P_eq (Asked w) ((length w == 3) && says w 0 (codes "default"))
          {x = action (get_or w 1 [])} {y = none}
          (λ asked.
            Named-Asked w (action (get_or w 1 [])) (action-Named (get_or w 1 [])) (ground arith))
          (λ no_default. tt)))

-- A deletion that the table allows, of the rule whose number is the second word.
abbrev Deleted : Firewall → List (List ℕ) → Option Firewall → Type 0
Deleted fw w = Each λ fw'.
    ((number : ℕ) × (says w 0 (codes "delete") ≡ true)
      × (net_number (get_or w 1 []) fw_rules ≡ some number)
      × (0 < number)
      × (number ≤ fw.count)
      × (active fw' ≡ remove_at (number - 1) (active fw))
      × SameSettings fw fw')
    × IsTable fw'

delete_number-Deleted :
    (fw : Firewall) (w : List (List ℕ)) (o : Option ℕ)
    → IsTable fw
    → says w 0 (codes "delete") ≡ true
    → net_number (get_or w 1 []) fw_rules ≡ o
    → Deleted fw w (delete_number fw o)
delete_number-Deleted fw w none table named is = tt
delete_number-Deleted fw w (some number) table named is = elim (fw_delete_lem fw number table) [
  | inl (why, e) ↦ rw e tt
  | inr (fw', positive, within, e, gone, table') ↦
      let same = rw e at (fw_delete-SameSettings fw number) in
      rw e ((number, named, is, positive, within, gone, same), table')
]

delete_rule-Deleted :
    (fw : Firewall) (w : List (List ℕ)) → IsTable fw → Deleted fw w (delete_rule fw w)
delete_rule-Deleted fw w table =
    if-P_eq (Deleted fw w) ((length w == 2) && says w 0 (codes "delete"))
      {x = delete_number fw (net_number (get_or w 1 []) fw_rules)} {y = none}
      (λ asked.
        delete_number-Deleted fw w (net_number (get_or w 1 []) fw_rules) table (ground arith) refl)
      (λ other. tt)

deleted_or-Kept :
    (ready : Bool) (fw : Firewall) (w : List (List ℕ)) (otherwise : Answer × Firewall)
    (o : Option Firewall)
    → Deleted fw w o
    → Kept ready fw w otherwise
    → Kept ready fw w (deleted_or otherwise o)
deleted_or-Kept ready fw w otherwise none gone h = h
deleted_or-Kept ready fw w otherwise (some fw') gone h = gone

-- `enable`, when the programs are valid or not.
enabled-Kept :
    (ready : Bool) (fw : Firewall) (w : List (List ℕ))
    → IsTable fw
    → asks_for w (codes "enable") ≡ true
    → Kept ready fw w
        (if ready then (now_enabled, record fw { enabled = true }) else (not_ready, fw))
enabled-Kept true fw w table asked =
    ((asked, refl, refl), record { size = table.size; within = table.within; sound = table.sound })
enabled-Kept false fw w table asked = ((refl, refl), table)

disabled-Kept :
    (ready : Bool) (fw : Firewall) (w : List (List ℕ))
    → IsTable fw
    → asks_for w (codes "disable") ≡ true
    → Kept ready fw w (now_disabled, record fw { enabled = false })
disabled-Kept ready fw w table asked =
    ((asked, refl), record { size = table.size; within = table.within; sound = table.sound })

fw_run-Kept :
    (ready : Bool) (fw : Firewall) (w : List (List ℕ))
    → IsTable fw
    → Kept ready fw w (fw_run ready fw w)
unfolding fw_run
fw_run-Kept ready fw w table =
    let asks = λ (name : List ℕ). asks_for w name in
    let P = Kept ready fw w in
    if-P P ((length w == 0) || asks (codes "help")) {x = (helped, fw)} (refl, table)
      (if-P_eq P (asks (codes "enable")) (enabled-Kept ready fw w table) λ no_enable.
        if-P_eq P (asks (codes "disable")) (disabled-Kept ready fw w table) λ no_disable.
          if-P P
            (((length w == 1) || (length w == 2) && says w 1 (codes "numbered"))
              && says w 0 (codes "status"))
            {x = (status_asked, fw)} (refl, table)
            (if-P P (asks (codes "stats")) {x = (stats_asked, fw)} (refl, table)
              (if-P P (asks (codes "bpf")) {x = (bpf_asked, fw)} (refl, table)
                (if-P P (asks (codes "doctor")) {x = (doctor_asked, fw)} (refl, table)
                  (if-P_eq P (asks (codes "reset")) {x = (was_reset, fw_reset)}
                    (λ asked. ((asked, refl), fw_reset-IsTable))
                    λ no_reset.
                      deleted_or-Kept ready fw w (fw_change fw w) (delete_rule fw w)
                        (delete_rule-Deleted fw w table) (fw_change-Kept ready fw w table))))))

fw_words-Kept :
    (ready : Bool) (fw : Firewall) (o : Option (List (List ℕ)))
    → IsTable fw
    → Kept ready fw (words_of o) (fw_words ready fw o)
unfolding fw_words
fw_words-Kept ready fw none table = (refl, table)
fw_words-Kept ready fw (some w) table = fw_run-Kept ready fw w table

-- Whatever its text is, a command on a well-formed table keeps it well formed and does what it
-- answers: one that is refused, also for a full table or for programs that are not valid, leaves
-- the whole firewall as it was; a rule that was read from the words, or the block of the third
-- word, is appended behind the others, and the rule of the number in the second word is taken out,
-- both with all other settings as they were; a default takes the action of the second word in the
-- direction of the third; and `enable`, `disable` and `reset` change that alone.
pub fw_command-Kept :
    (programs : Programs) (fw : Firewall) (arguments : List ℕ)
    → IsTable fw
    → Kept
        (fw_bpf_ready programs)
        fw
        (words_of (words arguments 10))
        (fw_command programs fw arguments)
unfolding fw_command
fw_command-Kept programs fw arguments table =
    fw_words-Kept (fw_bpf_ready programs) fw (words arguments 10) table
