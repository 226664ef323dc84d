-- ===== src/Bpf/Memory/Bounds.antt =====
-- jordyOS/net/bpf_vm.c: the bounds of the places that `memory` gives.
use native.Mathlib.Nat.{mul-le-mul_right}
use os_research_lab.Base.{
  ℕ, zero, suc, ◌+◌, ◌-◌, ◌*◌, ◌/◌, ◌%◌, ◌^◌, ◌≤◌, ◌<◌, List, some, Bool, false, length, get_elem?,
  get_elem?-ne-none, length-set, ◌≡◌, refl, ◌∙◌, set, u8, ◌>>>◌, arith,
}
use os_research_lab.Base.Fault.{Ensures, load-Ensures}
use os_research_lab.Bpf.{BpfMap, Environment, bpf_values}
use os_research_lab.Bpf.Memory.{
  Place, value_at, read_from, read_le, store_from, memory, value_place, region, offset_of, map_at,
  is_null, bytes_of,
}

-- The arrays behind the pointers are as long as the sizes beside them say.
pub record IsMap (m : BpfMap) : Type 0 where
  pub values_fit : is_null m.values ≡ false → m.capacity * m.value_size ≤ length (bytes_of m.values)
  pub keys_fit : is_null m.keys ≡ false → m.entries * 20 ≤ length (bytes_of m.keys)

pub record IsEnvironment (e : Environment) : Type 0 where
  pub context_fits : e.context_size ≤ length e.context
  pub packet_fits : e.packet_size ≤ length e.packet
  pub each_map : (id : ℕ) → IsMap (map_at e id)

pub read_from-Ensures :
    (p : List ℕ) (left i n : ℕ)
    → i + left ≤ length p
    → Ensures (λ _. Unit {0}) (read_from p left i n)
unfolding read_from
read_from-Ensures p zero i n h = tt
read_from-Ensures p (suc left) i n h =
    load-Ensures _ (get_elem? p i) _ (get_elem?-ne-none p i (omega arith))
      λ b e. read_from-Ensures p left (i + 1) _ (omega arith)

-- A read of bytes that are there is defined.
pub read_le-Ensures :
    (p : List ℕ) (size : ℕ) → size ≤ length p → Ensures (λ _. Unit {0}) (read_le p size)
unfolding read_le
read_le-Ensures p size h = read_from-Ensures p size 0 0 (omega arith)

store_from-Ensures_length :
    (n : ℕ) (p : List ℕ) (start left byte value : ℕ)
    → length p ≡ n
    → start + byte + left ≤ n
    → Ensures (λ q. length q ≡ n) (store_from p start left byte value)
unfolding store_from
store_from-Ensures_length n p start zero byte value e h = e
store_from-Ensures_length n p start (suc left) byte value e h =
    load-Ensures _ (get_elem? p (start + byte)) _ (get_elem?-ne-none p (start + byte) (omega arith))
      λ b _.
        store_from-Ensures_length n (set p (start + byte) (u8 (value >>> (byte * 8)))) start left
          (byte + 1) value (length-set p (start + byte) _ ∙ e) (omega arith)

-- A store over bytes that are there is defined and keeps the array's length.
pub store_from-Ensures :
    (p : List ℕ) (start size value : ℕ)
    → start + size ≤ length p
    → Ensures (λ q. length q ≡ length p) (store_from p start size 0 value)
store_from-Ensures p start size value h =
    store_from-Ensures_length (length p) p start size 0 value refl (omega arith)

record InMap (e : Environment) (id offset size : ℕ) (place : Place) : Type 0 where
  at : place ≡ value_at id (offset / 256 * (map_at e id).value_size + offset % 256)
  live : is_null (map_at e id).values ≡ false
  index : offset / 256 < (map_at e id).capacity
  inside : offset % 256 + size ≤ (map_at e id).value_size

value_place-InMap :
    (e : Environment) (id offset size : ℕ) (write : Bool) (place : Place)
    → value_place e id offset size write ≡ some place
    → InMap e id offset size place
unfolding value_place
value_place-InMap e id offset size write place h = ground arith

value_place-fits :
    (e : Environment) (stack : List ℕ) (id offset size : ℕ) (write : Bool) (place : Place)
    → IsEnvironment e
    → value_place e id offset size write ≡ some place
    → offset_of place + size ≤ length (region e stack place)
value_place-fits e stack id offset size write place valid h =
    let there = value_place-InMap e id offset size write place h in
    let m = map_at e id in
    rw there.at (
      omega (
        arith,
        (valid.each_map id).values_fit there.live,
        mul-le-mul_right m.value_size there.index,
        there.inside,
      ))

-- In an environment whose arrays are as long as its sizes say, and with the stack of 512 bytes, a
-- place that `memory` allows holds all the bytes of the access.
pub memory-fits :
    (e : Environment) (stack : List ℕ) (address size : ℕ) (write : Bool) (place : Place)
    → IsEnvironment e
    → length stack ≡ 512
    → memory e address size write ≡ some place
    → offset_of place + size ≤ length (region e stack place)
unfolding memory
memory-fits e stack address size write place valid full h = ground (
  arith,
  full,
  valid.context_fits,
  valid.packet_fits,
  value_place-fits e stack ((address - bpf_values) / 2 ^ 20) ((address - bpf_values) % 2 ^ 20) size
      write place valid,
)
