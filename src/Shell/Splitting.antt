-- ===== src/Shell/Splitting.antt =====
-- jordyOS/net/command.c: the words of a printed rule.
use os_research_lab.Base.{
  ℕ, zero, suc, ◌<◌, List, [], ◌∷◌, ◌++◌, some, none, Bool, true, false, not, ◌&&◌, ◌==◌, ◌!=◌,
  length, length-append, Bool-cases, ◌≡◌, inl, inr, refl, ap, sym, ◌∙◌, arith, codes, if◌then◌else◌,
}
use mathlib.Core.List.{append-nil, append_assoc}
use os_research_lab.Firewall.{FirewallRule, fw_in}
use os_research_lab.Packet.Text.Laws.{all_digits}
use os_research_lab.Shell.{
  is_blank, with_word, words_from, words, net_print_number, net_print_ip, octet, cidr, protocol,
  prefix_loop, prefix_rounds,
}
use os_research_lab.Shell.Shown.{rule_shown}
use os_research_lab.Shell.Numbers.{net_print_number-all_digits}

-- Text with no blank in it.
abbrev pub plain : List ℕ → Bool
plain [] = true
plain (c ∷ s) = not (is_blank c) && plain s

plain-append : (s t : List ℕ) → plain s ≡ true → plain t ≡ true → plain (s ++ t) ≡ true
plain-append [] t h k = k
plain-append (c ∷ s) t h k = ground (arith, plain-append s t)

all_digits-plain : (s : List ℕ) → all_digits s ≡ true → plain s ≡ true
all_digits-plain [] h = refl
all_digits-plain (c ∷ s) h = ground (arith, all_digits-plain s)

plain-net_print_number : (n : ℕ) → plain (net_print_number n) ≡ true
plain-net_print_number n = all_digits-plain (net_print_number n) (net_print_number-all_digits n)

plain-net_print_ip : (ip : ℕ) → plain (net_print_ip ip) ≡ true
unfolding net_print_ip codes
plain-net_print_ip ip =
    plain-append (net_print_number (octet ip 0)) _ (plain-net_print_number (octet ip 0)) (
      plain-append (net_print_number (octet ip 1)) _ (plain-net_print_number (octet ip 1)) (
        plain-append (net_print_number (octet ip 2)) _ (plain-net_print_number (octet ip 2))
          (plain-net_print_number (octet ip 3))))

pub plain-cidr : (ip mask : ℕ) → plain (cidr ip mask) ≡ true
unfolding cidr codes
plain-cidr ip mask = elim (Bool-cases (mask == 0)) [
  | inl everywhere ↦ rw everywhere refl
  | inr some_mask ↦ rw some_mask (
      plain-append (net_print_ip ip) _ (plain-net_print_ip ip)
        (plain-net_print_number (prefix_loop prefix_rounds mask 0)))
]

-- A word that was begun ends at a blank or with the text.
words_from-begun :
    (room : ℕ) (v w : List ℕ) (c : ℕ) (rest : List ℕ)
    → plain w ≡ true
    → is_blank c ≡ true
    → words_from room (some v) (w ++ c ∷ rest) ≡ with_word (v ++ w) (words_from room none rest)
unfolding words_from
words_from-begun zero v [] c rest h k =
    rw k (ap (λ l. with_word l (words_from 0 none rest)) (sym (append-nil v)))
words_from-begun (suc room) v [] c rest h k =
    rw k (ap (λ l. with_word l (words_from (suc room) none rest)) (sym (append-nil v)))
words_from-begun zero v (d ∷ w) c rest h k =
    let e : is_blank d ≡ false = ground arith in
    rw e (
      words_from-begun zero (v ++ d ∷ []) w c rest (ground arith) k
      ∙ ap (λ l. with_word l (words_from 0 none rest)) (append_assoc v (d ∷ []) w))
words_from-begun (suc room) v (d ∷ w) c rest h k =
    let e : is_blank d ≡ false = ground arith in
    rw e (
      words_from-begun (suc room) (v ++ d ∷ []) w c rest (ground arith) k
      ∙ ap (λ l. with_word l (words_from (suc room) none rest)) (append_assoc v (d ∷ []) w))

words_from-last :
    (room : ℕ) (v w : List ℕ) → plain w ≡ true → words_from room (some v) w ≡ some ((v ++ w) ∷ [])
unfolding words_from
words_from-last zero v [] h = ap (λ l. some (l ∷ [])) (sym (append-nil v))
words_from-last (suc room) v [] h = ap (λ l. some (l ∷ [])) (sym (append-nil v))
words_from-last zero v (d ∷ w) h =
    let e : is_blank d ≡ false = ground arith in
    rw e (
      words_from-last zero (v ++ d ∷ []) w (ground arith)
      ∙ ap (λ l. some (l ∷ [])) (append_assoc v (d ∷ []) w))
words_from-last (suc room) v (d ∷ w) h =
    let e : is_blank d ≡ false = ground arith in
    rw e (
      words_from-last (suc room) (v ++ d ∷ []) w (ground arith)
      ∙ ap (λ l. some (l ∷ [])) (append_assoc v (d ∷ []) w))

pub words_from-word :
    (room : ℕ) (w : List ℕ) (c : ℕ) (rest : List ℕ)
    → 0 < length w
    → plain w ≡ true
    → is_blank c ≡ true
    → words_from (suc room) none (w ++ c ∷ rest) ≡ with_word w (words_from room none rest)
unfolding words_from
words_from-word room [] c rest some_byte h k = absurd (omega arith)
words_from-word room (d ∷ w) c rest some_byte h k =
    let e : is_blank d ≡ false = ground arith in
    rw e (words_from-begun room (d ∷ []) w c rest (ground arith) k)

pub words_from-end :
    (room : ℕ) (w : List ℕ)
    → 0 < length w
    → plain w ≡ true
    → words_from (suc room) none w ≡ some (w ∷ [])
unfolding words_from
words_from-end room [] some_byte h = absurd (omega arith)
words_from-end room (d ∷ w) some_byte h =
    let e : is_blank d ≡ false = ground arith in
    rw e (words_from-last room (d ∷ []) w (ground arith))

-- The service of a rule as it is printed.
abbrev pub service_shown : FirewallRule → List ℕ
service_shown r =
    (if r.port != 0 then net_print_number r.port ++ codes "/" else []) ++ protocol r.protocol

plain-protocol : (p : ℕ) → (plain (protocol p) ≡ true) × (0 < length (protocol p))
unfolding protocol codes
plain-protocol p = ground arith

plain-service_shown :
    (r : FirewallRule) → (plain (service_shown r) ≡ true) × (0 < length (service_shown r))
unfolding codes
plain-service_shown r = elim (Bool-cases (r.port != 0)) [
  | inr no_port ↦ rw no_port (plain-protocol r.protocol)
  | inl port ↦ rw port (
    plain-append (net_print_number r.port ++ 47 ∷ []) (protocol r.protocol)
        (plain-append (net_print_number r.port) (47 ∷ []) (plain-net_print_number r.port) refl)
        (plain-protocol r.protocol).0,
    omega (
      arith,
      length-append (net_print_number r.port ++ 47 ∷ []) (protocol r.protocol),
      length-append (net_print_number r.port) (47 ∷ []),
    ),
  )
]

some-cidr : (ip mask : ℕ) → 0 < length (cidr ip mask)
unfolding cidr codes
some-cidr ip mask = elim (Bool-cases (mask == 0)) [
  | inl everywhere ↦ rw everywhere (omega arith)
  | inr some_mask ↦ rw some_mask (
      omega (
        arith,
        length-append (net_print_ip ip) (47 ∷ net_print_number (prefix_loop prefix_rounds mask 0)),
      ))
]

abbrev pub action_shown : Bool → List ℕ
action_shown allow = if allow then codes "allow" else codes "deny"

abbrev pub direction_shown : ℕ → List ℕ
direction_shown direction = if direction == fw_in then codes "in" else codes "out"

-- The words of a rule behind its action.
abbrev pub words_shown : FirewallRule → List (List ℕ)
words_shown r =
    direction_shown r.direction
    ∷ service_shown r
    ∷ codes "from"
    ∷ cidr r.source r.source_mask
    ∷ codes "to"
    ∷ cidr r.destination r.destination_mask
    ∷ []

blocks_shown :
    (r : FirewallRule)
    → words_from 7 none (
        codes "from "
        ++ (cidr r.source r.source_mask ++ (codes " to " ++ cidr r.destination r.destination_mask)))
      ≡ some (
          codes "from"
          ∷ cidr r.source r.source_mask
          ∷ codes "to"
          ∷ cidr r.destination r.destination_mask
          ∷ [])
unfolding words_from codes
blocks_shown r =
    let from = cidr r.source r.source_mask in
    let to = cidr r.destination r.destination_mask in
    let first =
      words_from-word 5 from 32 (116 ∷ 111 ∷ 32 ∷ to) (some-cidr r.source r.source_mask)
        (plain-cidr r.source r.source_mask) refl in
    let last =
      words_from-end 3 to (some-cidr r.destination r.destination_mask)
        (plain-cidr r.destination r.destination_mask) in
    ap (with_word (102 ∷ 114 ∷ 111 ∷ 109 ∷ []))
      (first ∙ ap (λ o. with_word from (with_word (116 ∷ 111 ∷ []) o)) last)

action_split :
    (allow : Bool) (text : List ℕ)
    → words_from 10 none ((if allow then codes " allow " else codes " deny ") ++ text)
      ≡ with_word (action_shown allow) (words_from 9 none text)
unfolding words_from codes
action_split true text = refl
action_split false text = refl

direction_split :
    (inwards : Bool) (text : List ℕ)
    → words_from 9 none ((if inwards then codes "in " else codes "out ") ++ text)
      ≡ with_word (if inwards then codes "in" else codes "out") (words_from 8 none text)
unfolding words_from codes
direction_split true text = refl
direction_split false text = refl

-- The words of the text that `status` shows of a rule.
pub words-rule_shown :
    (r : FirewallRule) → words (rule_shown r) 10 ≡ some (action_shown r.allow ∷ words_shown r)
unfolding words rule_shown codes
words-rule_shown r =
    let blocks =
      102
      ∷ 114
      ∷ 111
      ∷ 109
      ∷ 32
      ∷ (cidr r.source r.source_mask
          ++ (32 ∷ 116 ∷ 111 ∷ 32 ∷ cidr r.destination r.destination_mask)) in
    let port = if r.port != 0 then net_print_number r.port ++ codes "/" else [] in
    let (whole, some_byte) = plain-service_shown r in
    action_split r.allow _
    ∙ ap (with_word (action_shown r.allow)) (
        direction_split (r.direction == fw_in) _
        ∙ ap (with_word (direction_shown r.direction)) (
            ap (words_from 8 none) (sym (append_assoc port (protocol r.protocol) (32 ∷ blocks)))
            ∙ words_from-word 7 (service_shown r) 32 blocks some_byte whole refl
            ∙ ap (with_word (service_shown r)) (blocks_shown r)))
