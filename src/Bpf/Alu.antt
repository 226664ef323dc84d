-- ===== src/Bpf/Alu.antt =====
-- jordyOS/net/bpf_vm.c: the arithmetic of `bpf_execute`, its byte swaps and its conditions.
use os_research_lab.Base.{
  ℕ, zero, suc, ◌+◌, ◌-◌, ◌*◌, ◌/◌, ◌%◌, ◌^◌, bit_and, bit_or, bit_xor, Bool, true, false, ltb, leb,
  ◌==◌, ◌!=◌, u64, ◌<<<◌, ◌>>>◌, if◌then◌else◌,
}
use os_research_lab.Base.Fault.{Outcome, reject, done}
use os_research_lab.Bpf.Divide.{divide}

-- `(int64_t)a >> shift` rounds towards minus infinity; so does `(int32_t)a >> shift`.
abbrev pub asr : ℕ → ℕ → ℕ → ℕ
asr width a shift =
    if ltb a (2 ^ (width - 1))
    then a >>> shift
    else 2 ^ width - (2 ^ width - a + 2 ^ shift - 1) / 2 ^ shift

-- The switch on `op` but for the byte swaps. The operands are 32-bit words where not `wide`.
unfoldable pub alu : Bool → ℕ → ℕ → ℕ → Outcome ℕ
alu wide op a b =
    let shift = b % (if wide then 64 else 32) in
    if op == 0x00
    then done (u64 (a + b))
    else if op == 0x10
    then done (u64 (a + 2 ^ 64 - b))
    else if op == 0x20
    then done (u64 (a * b))
    else if op == 0x30
    then done (divide a b false)
    else if op == 0x40
    then done (bit_or a b)
    else if op == 0x50
    then done (bit_and a b)
    else if op == 0x60
    then done (u64 (a <<< shift))
    else if op == 0x70
    then done (a >>> shift)
    else if op == 0x80
    then done (u64 (2 ^ 64 - a))
    else if op == 0x90
    then done (divide a b true)
    else if op == 0xa0
    then done (bit_xor a b)
    else if op == 0xb0
    then done b
    else if op == 0xc0
    then done (if wide then asr 64 a shift else asr 32 a shift)
    else reject

-- The loop of the byte swap, with `left` bytes to go.
unfoldable pub swap_bytes : ℕ → ℕ → ℕ → ℕ
swap_bytes zero a swapped = swapped
swap_bytes (suc left) a swapped =
    swap_bytes left (a >>> 8) (bit_or (u64 (swapped <<< 8)) (bit_and a 255))

-- `case 0xd0` on a whole register.
unfoldable pub convert : Bool → ℕ → ℕ → ℕ
unfolding swap_bytes
convert swaps bits value =
    let a = if ltb bits 64 then bit_and value (2 ^ bits - 1) else value in
    if swaps then swap_bytes (bits / 8) a 0 else a

-- The switch of the conditional jumps. `short` is `cls == 6`: then the operands are words of 32
-- bits, and their signed values compare as those of the words.
unfoldable pub condition : Bool → ℕ → ℕ → ℕ → Outcome Bool
condition short op a b =
    let bias = if short then 2 ^ 31 else 2 ^ 63 in
    let size = if short then 2 ^ 32 else 2 ^ 64 in
    let sa = (a + bias) % size in
    let sb = (b + bias) % size in
    if op == 0x00
    then done true
    else if op == 0x10
    then done (a == b)
    else if op == 0x20
    then done (ltb b a)
    else if op == 0x30
    then done (leb b a)
    else if op == 0x40
    then done (bit_and a b != 0)
    else if op == 0x50
    then done (a != b)
    else if op == 0x60
    then done (ltb sb sa)
    else if op == 0x70
    then done (leb sb sa)
    else if op == 0xa0
    then done (ltb a b)
    else if op == 0xb0
    then done (leb a b)
    else if op == 0xc0
    then done (ltb sa sb)
    else if op == 0xd0
    then done (leb sa sb)
    else reject
