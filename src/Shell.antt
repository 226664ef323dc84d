-- ===== src/Shell.antt =====
-- jordyOS/net/command.c: the network commands of the shell. A C string is the list of its bytes before
-- the zero byte; what a command prints is collected.
pub mod Rules
pub mod Firewall
pub mod Shown
pub mod Network
pub mod Parsed
pub mod Does
pub mod Kept
pub mod Numbers
pub mod Addresses
pub mod Splitting
pub mod Printed
pub mod Blocks
pub mod Status
mod Tests
use os_research_lab.Base.{
  ℕ, zero, suc, ◌+◌, ◌-◌, ◌*◌, ◌/◌, ◌%◌, List, [], ◌∷◌, ◌++◌, Option, some, none, Bool, true, false,
  ◌||◌, ltb, ◌==◌, u32, ◌>>>◌, ◌<<<◌, codes, if◌then◌else◌,
}
use os_research_lab.Fs.{str_eq}
use os_research_lab.Packet.{net_icmp, net_tcp, net_udp}

-- The loop of `net_print_number`, on the digits that stand in the buffer; a uint32_t has ten.
unfoldable pub number_loop : ℕ → ℕ → List ℕ → List ℕ
number_loop zero n text = text
number_loop (suc rounds) n text =
    let rest = number_loop rounds (n / 10) ((b'0' + n % 10) ∷ text) in
    if n / 10 == 0 then (b'0' + n % 10) ∷ text else rest

abbrev pub number_rounds : ℕ
number_rounds = 10

unfoldable pub net_print_number : ℕ → List ℕ
net_print_number n = number_loop number_rounds n []

-- The octet `i` of an address, counted from the left.
abbrev pub octet : ℕ → ℕ → ℕ
octet ip i = (ip >>> (24 - i * 8)) % 256

unfoldable pub net_print_ip : ℕ → List ℕ
net_print_ip ip =
    net_print_number (octet ip 0)
    ++ (codes "."
        ++ (net_print_number (octet ip 1)
            ++ (codes "."
                ++ (net_print_number (octet ip 2)
                    ++ (codes "." ++ net_print_number (octet ip 3))))))

-- `for (; mask; mask <<= 1) prefix++`; a mask of 32 bits is gone after 32 rounds.
unfoldable pub prefix_loop : ℕ → ℕ → ℕ → ℕ
prefix_loop zero mask prefix = prefix
prefix_loop (suc rounds) mask prefix =
    let rest = prefix_loop rounds (u32 (mask <<< 1)) (prefix + 1) in
    if mask == 0 then prefix else rest

abbrev pub prefix_rounds : ℕ
prefix_rounds = 33

unfoldable pub cidr : ℕ → ℕ → List ℕ
cidr ip mask =
    if mask == 0
    then codes "any"
    else net_print_ip ip ++ (codes "/" ++ net_print_number (prefix_loop prefix_rounds mask 0))

abbrev pub is_blank : ℕ → Bool
is_blank c = (c == b' ') || (c == b'\t')

abbrev pub with_word : List ℕ → Option (List (List ℕ)) → Option (List (List ℕ))
with_word w none = none
with_word w (some ws) = some (w ∷ ws)

-- `words` with room for so many more, in a word that was begun or before the next one. `none` is -1.
unfoldable pub words_from : ℕ → Option (List ℕ) → List ℕ → Option (List (List ℕ))
words_from room none [] = some []
words_from room (some w) [] = some (w ∷ [])
words_from zero none (c ∷ text) = if is_blank c then words_from zero none text else none
words_from (suc room) none (c ∷ text) =
    let skipped = words_from (suc room) none text in
    let begun = words_from room (some (c ∷ [])) text in if is_blank c then skipped else begun
words_from room (some w) (c ∷ text) =
    let ended = with_word w (words_from room none text) in
    let longer = words_from room (some (w ++ c ∷ [])) text in if is_blank c then ended else longer

unfoldable pub words : List ℕ → ℕ → Option (List (List ℕ))
words text maximum = words_from maximum none text

unfoldable pub action : List ℕ → Option Bool
action text =
    if str_eq text (codes "allow")
    then some true
    else if str_eq text (codes "deny")
    then some false
    else none

unfoldable pub protocol : ℕ → List ℕ
protocol p =
    if p == net_icmp
    then codes "icmp"
    else if p == net_tcp
    then codes "tcp"
    else if p == net_udp
    then codes "udp"
    else codes "all"

abbrev pub selftest_shown : Option (List ℕ) → List ℕ
selftest_shown none =
    codes
      "LARP core self-test: PASS\nLaunch, growth, loss/ECN, RTT probe, recovery, arithmetic checked.\n"
selftest_shown (some text) = codes "LARP core self-test: FAIL: " ++ text ++ codes "\n"

-- `larp_command`; `larp_selftest` answers with the check that failed, if one did.
unfoldable pub larp_command : Option (List ℕ) → List ℕ → List ℕ
larp_command failure arguments =
    if str_eq arguments (codes "test")
    then selftest_shown failure ++ codes "Synthetic feedback only; no TCP packets were sent.\n"
    else if str_eq arguments [] || str_eq arguments (codes "status")
    then codes
        "LARP: upstream portable core compiled natively into the kernel.\nSource: pinned vendor/tcplarp/larp_core.h (GPL-2.0-only).\nLARP is the default TCP sender controller; type tcp for transfer status.\nType larp test for synthetic feedback checks; tcp demo IP PORT for real traffic.\n"
    else codes "larp status | test\n"
