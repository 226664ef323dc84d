-- ===== src/Shell/Blocks.antt =====
-- jordyOS/net/command.c: the blocks of a rule, printed and read.
use os_research_lab.Base.{
  ℕ, zero, suc, ◌^◌, ◌≤◌, ◌<◌, bit_and, [], ◌∷◌, some, Bool, false, ◌==◌, ◌≡◌, ◌⊎◌, inl, inr, refl,
  ap, ◌∙◌, arith, codes,
}
use mathlib.Core.List.{append_assoc}
use os_research_lab.Base.Bits.{bit_and_mask}
use os_research_lab.Fs.{str_eq}
use os_research_lab.Packet.Text.{net_cidr, prefix_mask}
use os_research_lab.Shell.{net_print_number, net_print_ip, octet, cidr}
use os_research_lab.Shell.Rules.{from_block, to_block}
use os_research_lab.Shell.Numbers.{net_print_number-all_digits, net_print_number-ne-nil}
use os_research_lab.Shell.Addresses.{counts_lem, net_cidr-cidr}
use os_research_lab.Shell.Printed.{made, starts_with_digit}

-- A block that `cidr` prints: a mask of a prefix length, and an address that keeps to it.
abbrev pub IsBlock : ℕ → ℕ → Type 0
IsBlock ip mask =
    (prefix : ℕ) × (prefix ≤ 32)
    × (mask ≡ prefix_mask prefix)
    × (ip < 2 ^ 32)
    × (bit_and ip mask ≡ ip)

-- A masked address is printed as text that is not `any` and reads back.
abbrev pub ReadsBack : ℕ → ℕ → Type 0
ReadsBack ip mask =
    (ip ≡ 0) × (mask ≡ 0)
    ⊎ (str_eq (cidr ip mask) (codes "any") ≡ false) × (net_cidr (cidr ip mask) ≡ some (ip, mask))

not_any : (ip mask : ℕ) → mask == 0 ≡ false → str_eq (cidr ip mask) (codes "any") ≡ false
unfolding cidr net_print_ip codes
not_any ip mask some_mask =
    let first = net_print_number (octet ip 0) in
    rw some_mask (
      ap (λ s. str_eq s (97 ∷ 110 ∷ 121 ∷ [])) (append_assoc first _ _)
      ∙ starts_with_digit first _ (110 ∷ 121 ∷ []) 97 (net_print_number-all_digits (octet ip 0))
          (net_print_number-ne-nil (octet ip 0)) refl)

pub block_reads : (ip mask : ℕ) → IsBlock ip mask → ReadsBack ip mask
unfolding prefix_mask
block_reads ip mask (zero, within, e, h, keeps) =
    let none_left = bit_and_mask 0 ip in
    let kept : bit_and ip 0 ≡ ip = rw e at keeps in inl (omega (arith, none_left, kept), e)
block_reads ip mask (suc k, within, e, h, keeps) =
    let (counted, some_mask) = counts_lem (suc k) (omega arith) within in
    let kept : bit_and ip (prefix_mask (suc k)) ≡ ip = rw e at keeps in
    let read = net_cidr-cidr ip (suc k) h (omega arith) within in
    rw e (
      inr (
        not_any ip (prefix_mask (suc k)) some_mask,
        read ∙ ap (λ n. some (n, prefix_mask (suc k))) kept,
      ))

pub from_read :
    (allow : Bool) (direction p port ip mask : ℕ)
    → ReadsBack ip mask
    → from_block (made allow direction p port 0 0 0 0) (cidr ip mask)
      ≡ some (made allow direction p port ip mask 0 0)
unfolding cidr str_eq codes
from_read allow direction p port ip mask (inl (e, f)) = rw (e, f) refl
from_read allow direction p port ip mask (inr (named, read)) = rw named (rw read refl)

pub to_read :
    (allow : Bool) (direction p port source source_mask ip mask : ℕ)
    → ReadsBack ip mask
    → to_block (made allow direction p port source source_mask 0 0) (cidr ip mask)
      ≡ some (made allow direction p port source source_mask ip mask)
unfolding cidr str_eq codes
to_read allow direction p port source source_mask ip mask (inl (e, f)) = rw (e, f) refl
to_read allow direction p port source source_mask ip mask (inr (named, read)) =
    rw named (rw read refl)
