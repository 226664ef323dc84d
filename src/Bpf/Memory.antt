-- ===== src/Bpf/Memory.antt =====
-- jordyOS/net/bpf_vm.c: `read_le`, the byte stores of the interpreter, and `memory`, which turns an
-- address of the program into a place of the environment or refuses it.
pub mod Bounds
use os_research_lab.Base.{
  ℕ, zero, suc, ◌+◌, ◌-◌, ◌*◌, ◌/◌, ◌%◌, ◌^◌, bit_or, List, [], Option, some, none, Bool, true,
  false, not, ◌&&◌, ◌||◌, ltb, leb, drop, get_elem?, get_or, set, u8, u64, ◌<<<◌, ◌>>>◌,
  if◌then◌else◌,
}
use os_research_lab.Base.Fault.{Outcome, fault, reject, done, load, ◌>>=◌}
use os_research_lab.Bpf.{BpfMap, Environment, bpf_maps, bpf_ctx, bpf_data, bpf_stack, bpf_values}

-- The loop of `read_le` at index `i`, with `left` bytes to read.
unfoldable pub read_from : List ℕ → ℕ → ℕ → ℕ → Outcome ℕ
read_from p zero i n = done n
read_from p (suc left) i n = do
  b ← load (get_elem? p i)
  read_from p left (i + 1) (bit_or n (u64 (b <<< (i * 8))))

unfoldable pub read_le : List ℕ → ℕ → Outcome ℕ
unfolding read_from
read_le p size = read_from p size 0 0

-- `for (byte = 0; byte < size; byte++) p[byte] = value >> (byte * 8)` with `p` at `start`.
unfoldable pub store_from : List ℕ → ℕ → ℕ → ℕ → ℕ → Outcome (List ℕ)
store_from region start zero byte value = done region
store_from region start (suc left) byte value = do
  old ← load (get_elem? region (start + byte))
  store_from (set region (start + byte) (u8 (value >>> (byte * 8)))) start left (byte + 1) value

-- What a pointer that `memory` returns points into, and the offset there.
pub data Place : Type 0 where
  stack_at : ℕ → Place
  context_at : ℕ → Place
  packet_at : ℕ → Place
  value_at : ℕ → ℕ → Place

abbrev pub null_map : BpfMap
null_map = record {
  type = 0;
  key_size = 0;
  value_size = 0;
  capacity = 0;
  entries = 0;
  values = none;
  keys = none;
  writable = false;
}

-- `&e->maps[id]`
abbrev pub map_at : Environment → ℕ → BpfMap
map_at e id = get_or e.maps id null_map

abbrev pub is_null : Option (List ℕ) → Bool
is_null none = true
is_null (some p) = false

-- `address >= base && address - base <= extent && size <= extent - (address - base)`
abbrev pub within_region : ℕ → ℕ → ℕ → ℕ → Bool
within_region base extent address size =
    leb base address && leb (address - base) extent && leb size (extent - (address - base))

-- The last part of `memory`, in the map `id`.
unfoldable pub value_place : Environment → ℕ → ℕ → ℕ → Bool → Option Place
value_place e id offset size write =
    let index = offset >>> 8 in
    let within = offset % 2 ^ 8 in
    let m = map_at e id in
    if is_null m.values
      || ltb 256 m.value_size
      || leb m.capacity index
      || ltb m.value_size within
      || ltb (m.value_size - within) size
      || write && not m.writable
    then none
    else some (value_at id (index * m.value_size + within))

-- `none` is the NULL of the source.
unfoldable pub memory : Environment → ℕ → ℕ → Bool → Option Place
memory e address size write =
    if within_region bpf_stack 512 address size
    then some (stack_at (address - bpf_stack))
    else if not write && within_region bpf_ctx e.context_size address size
    then some (context_at (address - bpf_ctx))
    else if not write && within_region bpf_data e.packet_size address size
    then some (packet_at (address - bpf_data))
    else if ltb address bpf_values || leb (bpf_values + bpf_maps * 0x100000) address
    then none
    else value_place e ((address - bpf_values) >>> 20) ((address - bpf_values) % 2 ^ 20) size write

abbrev pub bytes_of : Option (List ℕ) → List ℕ
bytes_of none = []
bytes_of (some v) = v

-- The bytes of the region that a place lies in; a null pointer has none.
abbrev pub region : Environment → List ℕ → Place → List ℕ
region e stack (stack_at offset) = stack
region e stack (context_at offset) = e.context
region e stack (packet_at offset) = e.packet
region e stack (value_at id offset) = bytes_of (map_at e id).values

abbrev pub offset_of : Place → ℕ
offset_of (stack_at offset) = offset
offset_of (context_at offset) = offset
offset_of (packet_at offset) = offset
offset_of (value_at id offset) = offset

-- The pointer that `memory` returns, as the bytes from it on.
abbrev pub pointer : Environment → List ℕ → Place → List ℕ
pointer e stack place = drop (offset_of place) (region e stack place)

-- `if (!p) return false;` and `if (!p) return result;`
abbrev pub allowed : Option Place → Outcome Place
allowed none = reject
allowed (some place) = done place

-- The stack and the environment after a store into the region of a place. `memory` with `write`
-- gives no place in the context or in the packet.
unfoldable pub write_back : Environment → List ℕ → Place → List ℕ → List ℕ × Environment
write_back e stack (stack_at offset) bytes = (bytes, e)
write_back e stack (context_at offset) bytes = (stack, record e { context = bytes })
write_back e stack (packet_at offset) bytes = (stack, record e { packet = bytes })
write_back e stack (value_at id offset) bytes =
    (stack, record e { maps = set e.maps id (record (map_at e id) { values = some bytes }) })
