-- ===== src/Shell/Printed.antt =====
-- jordyOS/net/command.c: the direction and the service of a rule, printed and read.
use os_research_lab.Base.{
  ℕ, zero, suc, ◌≤◌, ◌<◌, List, [], ◌∷◌, ◌++◌, some, none, Bool, true, false, ◌||◌, ◌==◌, ◌!=◌,
  length, u16, Bool-cases, ◌≡◌, ◌≢◌, ◌⊎◌, inl, inr, refl, ap, ◌∙◌, arith, codes, if◌then◌else◌,
}
use mathlib.Core.List.{append_assoc}
use os_research_lab.Fs.{str_eq}
use os_research_lab.Packet.{net_icmp, net_tcp, net_udp}
use os_research_lab.Packet.Text.{is_digit}
use os_research_lab.Packet.Text.Laws.{all_digits}
use os_research_lab.Firewall.{FirewallRule, fw_out}
use os_research_lab.Shell.{net_print_number, protocol}
use os_research_lab.Shell.Rules.{split_slash, service, rule_service, rule_of}
use os_research_lab.Shell.Numbers.{
  net_print_number-all_digits, net_print_number-ne-nil, net_number-net_print_number,
}
use os_research_lab.Shell.Splitting.{direction_shown}

-- A rule that is no block, with no hits.
abbrev pub made : Bool → ℕ → ℕ → ℕ → ℕ → ℕ → ℕ → ℕ → FirewallRule
made allow direction protocol port source source_mask destination destination_mask = record {
  source = source;
  source_mask = source_mask;
  destination = destination;
  destination_mask = destination_mask;
  hits = 0;
  port = port;
  protocol = protocol;
  direction = direction;
  allow = allow;
  block = false;
}

pub direction_read :
    (allow : Bool) (direction : ℕ) (ws : List (List ℕ))
    → direction ≤ fw_out
    → rule_of allow (direction_shown direction ∷ ws)
      ≡ rule_service ws (made allow direction 0 0 0 0 0 0)
unfolding rule_of str_eq codes
direction_read allow zero ws h = refl
direction_read allow (suc zero) ws h = refl
direction_read allow (suc (suc direction)) ws h = absurd (omega arith)

-- Text that starts with a digit is none of the words.
pub starts_with_digit :
    (s t w : List ℕ) (c : ℕ)
    → all_digits s ≡ true
    → 0 < length s
    → is_digit c ≡ false
    → str_eq (s ++ t) (c ∷ w) ≡ false
unfolding str_eq
starts_with_digit [] t w c d some_digit h = absurd (omega arith)
starts_with_digit (x ∷ s) t w c d some_digit h = let e : x == c ≡ false = ground arith in rw e refl

split_slash-append :
    (s rest : List ℕ) → all_digits s ≡ true → split_slash (s ++ 47 ∷ rest) ≡ some (s, rest)
unfolding split_slash
split_slash-append [] rest d = refl
split_slash-append (c ∷ s) rest d =
    let e : c == 47 ≡ false = ground arith in
    let ih = split_slash-append s rest (ground arith) in rw (e, ih) refl

-- The protocols that have ports.
abbrev pub HasPorts : ℕ → Type 0
HasPorts p = (p ≡ net_tcp) ⊎ (p ≡ net_udp)

-- What `service` reads of a port and the text behind its slash.
port_service_read :
    (rule : FirewallRule) (port : ℕ) (after : List ℕ)
    → port ≢ 0
    → port < 65536
    → service (net_print_number port ++ 47 ∷ after) rule ≡ (
        if str_eq after (codes "tcp")
        then some (record rule { protocol = net_tcp; port = port })
        else if str_eq after (codes "udp")
        then some (record rule { protocol = net_udp; port = port })
        else none)
unfolding service codes
port_service_read rule port after some_port h =
    let digits = net_print_number-all_digits port in
    let more = net_print_number-ne-nil port in
    let text = net_print_number port in
    let split = split_slash-append text after digits in
    let number = net_number-net_print_number port 65535 (omega arith) (omega arith) in
    let is_zero : port == 0 ≡ false = ground arith in
    let word : u16 port ≡ port = omega arith in
    rw
      (
        starts_with_digit text (47 ∷ after) (108 ∷ 108 ∷ []) 97 digits more refl,
        starts_with_digit text (47 ∷ after) (99 ∷ 109 ∷ 112 ∷ []) 105 digits more refl,
        starts_with_digit text (47 ∷ after) (99 ∷ 112 ∷ []) 116 digits more refl,
        starts_with_digit text (47 ∷ after) (100 ∷ 112 ∷ []) 117 digits more refl,
        split,
      )
      (rw number (rw (is_zero, word) refl))

after_slash :
    (allow : Bool) (direction p port : ℕ)
    → HasPorts p
    → (if str_eq (protocol p) (codes "tcp")
        then some (made allow direction net_tcp port 0 0 0 0)
        else if str_eq (protocol p) (codes "udp")
        then some (made allow direction net_udp port 0 0 0 0)
        else none)
      ≡ some (made allow direction p port 0 0 0 0)
unfolding protocol str_eq codes
after_slash allow direction p port (inl e) = rw e refl
after_slash allow direction p port (inr e) = rw e refl

port_read :
    (allow : Bool) (direction p port : ℕ)
    → HasPorts p
    → port ≢ 0
    → port < 65536
    → service
        ((net_print_number port ++ codes "/") ++ protocol p)
        (made allow direction 0 0 0 0 0 0)
      ≡ some (made allow direction p port 0 0 0 0)
unfolding codes
port_read allow direction p port has some_port h =
    let rule = made allow direction 0 0 0 0 0 0 in
    ap (λ s. service s rule) (append_assoc (net_print_number port) (47 ∷ []) (protocol p))
    ∙ port_service_read rule port (protocol p) some_port h
    ∙ after_slash allow direction p port has

protocol_read :
    (allow : Bool) (direction p : ℕ)
    → ((p == 0) || (p == net_icmp) || (p == net_tcp) || (p == net_udp)) ≡ true
    → service (protocol p) (made allow direction 0 0 0 0 0 0)
      ≡ some (made allow direction p 0 0 0 0 0)
unfolding service protocol str_eq codes
protocol_read allow direction p h = elim (Bool-cases (p == 0)) [
  | inl e ↦ let at : p ≡ 0 = ground arith in rw at refl
  | inr a ↦ elim (Bool-cases (p == net_icmp)) [
    | inl e ↦ let at : p ≡ net_icmp = ground arith in rw at refl
    | inr b ↦ elim (Bool-cases (p == net_tcp)) [
      | inl e ↦ let at : p ≡ net_tcp = ground arith in rw at refl
      | inr c ↦ let at : p ≡ net_udp = ground arith in rw at refl
    ]
  ]
]

-- What a rule has as its protocol and its port.
abbrev pub Serves : ℕ → ℕ → Type 0
Serves p port =
    (((p == 0) || (p == net_icmp) || (p == net_tcp) || (p == net_udp)) ≡ true)
    × ((port ≡ 0) ⊎ HasPorts p)
    × (port < 65536)

pub service_read :
    (allow : Bool) (direction p port : ℕ)
    → Serves p port
    → service
        ((if port != 0 then net_print_number port ++ codes "/" else []) ++ protocol p)
        (made allow direction 0 0 0 0 0 0)
      ≡ some (made allow direction p port 0 0 0 0)
service_read allow direction p port (known, ports, small) = elim (Bool-cases (port != 0)) [
  | inr none_given ↦ let e : port ≡ 0 = ground arith in rw e (protocol_read allow direction p known)
  | inl given ↦
      rw given
        (port_read allow direction p port (ground (arith, ports, given)) (ground arith) small)
]
