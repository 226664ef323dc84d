-- ===== src/Packet/Text.antt =====
-- jordyOS/net/packet.c: `net_number` and `net_cidr`, which read numbers and CIDR blocks from C text.
-- A C string is the list of its bytes before the terminating zero.
pub mod Laws
use os_research_lab.Base.{
  ℕ, zero, suc, ◌+◌, ◌-◌, ◌*◌, ◌/◌, bit_and, bit_or, List, [], ◌∷◌, ◌++◌, Option, some, none, Bool,
  leb, ltb, ◌==◌, not, ◌&&◌, ◌||◌, u32, ◌<<<◌, if◌then◌else◌,
}

abbrev pub is_digit : ℕ → Bool
is_digit c = leb b'0' c && leb c b'9'

-- The loop of `net_number` with the value read so far.
unfoldable pub number_from : List ℕ → ℕ → ℕ → Option ℕ
number_from [] maximum n = some n
number_from (c ∷ text) maximum n =
    let digit = c - b'0' in
    let rest = number_from text maximum (u32 (n * 10 + digit)) in
    if not (is_digit c)
    then none
    else if ltb maximum digit || ltb ((maximum - digit) / 10) n
    then none
    else rest

unfoldable pub net_number : List ℕ → ℕ → Option ℕ
net_number [] maximum = none
net_number (c ∷ text) maximum = number_from (c ∷ text) maximum 0

-- `while (*text >= '0' && *text <= '9')`: at most three digits, or none. Gives the digits and the
-- text behind them.
unfoldable pub take_part : ℕ → List ℕ → List ℕ → Option (List ℕ × List ℕ)
take_part room [] part = some (part, [])
take_part room (c ∷ text) part = elim room [
  | zero ↦ if is_digit c then none else some (part, c ∷ text)
  | suc room ↦
      let rest = take_part room text (part ++ c ∷ []) in
      if is_digit c then rest else some (part, c ∷ text)
]

-- The four octets, `left` of them to read, into the address read so far.
unfoldable pub cidr_octets : ℕ → List ℕ → ℕ → Option (ℕ × List ℕ)
cidr_octets zero text ip = some (ip, text)
cidr_octets (suc left) text ip = elim (take_part 3 text []) [
  | none ↦ none
  | some (part, rest) ↦ elim (net_number part 255) [
    | none ↦ none
    | some value ↦
        let ip' = u32 (bit_or (ip <<< 8) value) in
        if left == 0 then cidr_octets left rest ip' else elim rest [
          | [] ↦ none
          | c ∷ rest' ↦ if c == b'.' then cidr_octets left rest' ip' else none
        ]
  ]
]

-- What follows the octets: the end of the text, or `/` and the prefix length.
unfoldable pub cidr_prefix : List ℕ → Option ℕ
cidr_prefix [] = some 32
cidr_prefix (c ∷ text) = if c == b'/' then net_number text 32 else none

unfoldable pub prefix_mask : ℕ → ℕ
prefix_mask prefix = if prefix == 0 then 0 else u32 (0xffffffff <<< (32 - prefix))

-- The address and the mask.
unfoldable pub net_cidr : List ℕ → Option (ℕ × ℕ)
net_cidr text = elim (cidr_octets 4 text 0) [
  | none ↦ none
  | some (ip, rest) ↦ elim (cidr_prefix rest) [
    | none ↦ none
    | some prefix ↦ let mask = prefix_mask prefix in some (bit_and ip mask, mask)
  ]
]
