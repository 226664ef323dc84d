-- ===== src/Shell/Addresses.antt =====
-- jordyOS/net/command.c and packet.c: address blocks, printed and read.
use os_research_lab.Base.{
  ℕ, zero, suc, ◌+◌, ◌*◌, ◌^◌, ◌≤◌, ◌<◌, bit_and, bit_or, List, [], ◌∷◌, ◌++◌, some, Bool, true,
  false, ◌&&◌, ◌||◌, ◌==◌, ◌!=◌, length, u32, ◌<<<◌, codes, Bool-cases, ◌≡◌, inl, inr, refl, ap,
  sym, ◌∙◌, arith,
}
use mathlib.Core.List.{append-nil, append_assoc}
use os_research_lab.Base.Bits.{bit_or_fields}
use os_research_lab.Packet.Text.{
  is_digit, take_part, cidr_octets, cidr_prefix, prefix_mask, net_cidr,
}
use os_research_lab.Packet.Text.Laws.{all_digits}
use os_research_lab.Shell.{octet, net_print_number, net_print_ip, prefix_loop, prefix_rounds, cidr}
use os_research_lab.Shell.Numbers.{
  net_print_number-all_digits, length-net_print_number, net_number-net_print_number,
}

-- The digits end where a byte that is none of them stands, or the text ends.
abbrev EndsDigits : List ℕ → Type 0
EndsDigits [] = Unit {0}
EndsDigits (c ∷ rest) = is_digit c ≡ false

take_part-append :
    (s rest part : List ℕ) (room : ℕ)
    → all_digits s ≡ true
    → length s ≤ room
    → EndsDigits rest
    → take_part room (s ++ rest) part ≡ some (part ++ s, rest)
unfolding take_part
take_part-append [] [] part room d fits e = ap (λ l. some (l, [])) (sym (append-nil part))
take_part-append [] (c ∷ rest) part zero d fits e =
    rw e (ap (λ l. some (l, c ∷ rest)) (sym (append-nil part)))
take_part-append [] (c ∷ rest) part (suc room) d fits e =
    rw e (ap (λ l. some (l, c ∷ rest)) (sym (append-nil part)))
take_part-append (c ∷ s) rest part zero d fits e = absurd (omega arith)
take_part-append (c ∷ s) rest part (suc room) d fits e =
    let digit : is_digit c ≡ true = ground arith in
    rw digit (
      take_part-append s rest (part ++ c ∷ []) room (ground arith) (omega arith) e
      ∙ ap (λ l. some (l, rest)) (append_assoc part (c ∷ []) s))

-- One octet, with the address read so far in front of it.
abbrev joined : ℕ → ℕ → ℕ
joined ip value = ip * 256 + value

joined_lem :
    (ip value : ℕ) → ip < 2 ^ 24 → value < 256 → u32 (bit_or (ip <<< 8) value) ≡ joined ip value
joined_lem ip value h k = rw (bit_or_fields 8 ip value k) (omega arith)

last_octet :
    (value ip : ℕ) (rest : List ℕ)
    → value < 256
    → ip < 2 ^ 24
    → EndsDigits rest
    → cidr_octets 1 (net_print_number value ++ rest) ip ≡ some (joined ip value, rest)
unfolding cidr_octets
last_octet value ip rest h k e =
    let part =
      take_part-append (net_print_number value) rest [] 3 (net_print_number-all_digits value)
        (length-net_print_number value h) e in
    let number = net_number-net_print_number value 255 (omega arith) (omega arith) in
    rw (cidr_octets, part) (rw number (ap (λ n. some (n, rest)) (joined_lem ip value k h)))

next_octet :
    (left value ip : ℕ) (rest : List ℕ)
    → value < 256
    → ip < 2 ^ 24
    → cidr_octets (suc (suc left)) (net_print_number value ++ 46 ∷ rest) ip
      ≡ cidr_octets (suc left) rest (joined ip value)
unfolding cidr_octets
next_octet left value ip rest h k =
    let part =
      take_part-append (net_print_number value) (46 ∷ rest) [] 3 (net_print_number-all_digits value)
        (length-net_print_number value h) refl in
    let more : suc left == 0 ≡ false = ground arith in
    let number = net_number-net_print_number value 255 (omega arith) (omega arith) in
    rw (cidr_octets, part)
      (rw number (rw more (ap (cidr_octets (suc left) rest) (joined_lem ip value k h))))

-- The four octets of an address.
net_print_ip_lem :
    (ip : ℕ) (rest : List ℕ)
    → ip < 2 ^ 32
    → EndsDigits rest
    → cidr_octets 4 (net_print_ip ip ++ rest) 0 ≡ some (ip, rest)
unfolding net_print_ip codes
net_print_ip_lem ip rest h e =
    let a = octet ip 0 in
    let b = octet ip 1 in
    let c = octet ip 2 in
    let d = octet ip 3 in
    ap (λ t. cidr_octets 4 t 0)
      (regroup (net_print_number a) (net_print_number b) (net_print_number c) (net_print_number d)
        rest)
    ∙ next_octet 2 a 0 _ (omega arith) (omega arith)
    ∙ next_octet 1 b (joined 0 a) _ (omega arith) (omega arith)
    ∙ next_octet 0 c (joined (joined 0 a) b) _ (omega arith) (omega arith)
    ∙ last_octet d (joined (joined (joined 0 a) b) c) rest (omega arith) (omega arith) e
    ∙ ap (λ n. some (n, rest)) (omega arith)
  where
    regroup :
        (a b c d rest : List ℕ)
        → (a ++ 46 ∷ (b ++ 46 ∷ (c ++ 46 ∷ d))) ++ rest
          ≡ a ++ 46 ∷ (b ++ 46 ∷ (c ++ 46 ∷ (d ++ rest)))
    regroup a b c d rest = simp append_assoc

-- What holds of every number below `n` when it holds where it is evaluated.
abbrev all_below : (ℕ → Bool) → ℕ → Bool
all_below f zero = true
all_below f (suc n) = f n && all_below f n

all_below_lem : (f : ℕ → Bool) (n k : ℕ) → all_below f n ≡ true → k < n → f k ≡ true
all_below_lem f zero k h l = absurd (omega arith)
all_below_lem f (suc n) k h l = elim (Bool-cases (k == n)) [
  | inl here ↦ let e : k ≡ n = ground arith in rw e (ground arith)
  | inr below ↦ all_below_lem f n k (ground arith) (ground arith)
]

-- The mask of a prefix length, but 0, is not 0 and its bits are counted back.
abbrev counts : ℕ → Bool
counts prefix =
    (prefix == 0)
    || (prefix_loop prefix_rounds (prefix_mask prefix) 0 == prefix) && (prefix_mask prefix != 0)

counts_all : all_below counts 33 ≡ true
unfolding prefix_loop prefix_mask
counts_all = refl

pub counts_lem :
    (prefix : ℕ)
    → 0 < prefix
    → prefix ≤ 32
    → (prefix_loop prefix_rounds (prefix_mask prefix) 0 ≡ prefix)
      × (prefix_mask prefix == 0 ≡ false)
counts_lem prefix h k =
    let e = all_below_lem counts 33 prefix counts_all (omega arith) in (ground arith, ground arith)

-- Of every address and every prefix length but 0, `net_cidr` reads from what `cidr` prints for its mask
-- the masked address and the mask.
pub net_cidr-cidr :
    (ip prefix : ℕ)
    → ip < 2 ^ 32
    → 0 < prefix
    → prefix ≤ 32
    → net_cidr (cidr ip (prefix_mask prefix))
      ≡ some (bit_and ip (prefix_mask prefix), prefix_mask prefix)
unfolding net_cidr cidr cidr_prefix codes
net_cidr-cidr ip prefix h k l =
    let (counted, some_mask) = counts_lem prefix k l in
    let octets = net_print_ip_lem ip (47 ∷ net_print_number prefix) h refl in
    let number = net_number-net_print_number prefix 32 l (omega arith) in
    rw (some_mask, counted) (rw (net_cidr, octets) (rw number refl))
