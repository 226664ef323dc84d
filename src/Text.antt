-- ===== src/Text.antt =====
-- jordyOS/kernel.c: the keyboard, the line editor, and the functions on strings and numbers. A string
-- is the list of the bytes from its pointer to the end of its array; a read or a write outside the
-- array, and a signed overflow, are a `fault`. An int32_t is given by its bit pattern.
pub mod Digits
pub mod Line
pub mod Copy
mod Tests
use os_research_lab.Base.{
  ℕ, zero, suc, ◌+◌, ◌-◌, ◌*◌, ◌/◌, ◌^◌, ◌%◌, List, [], ◌∷◌, ◌++◌, Option, some, none, Bool, true,
  false, not, ◌&&◌, ◌||◌, leb, ltb, ◌==◌, ◌!=◌, length, set, get_or, get_elem?, take, drop, u8, u32,
  bit_and, ap, if◌then◌else◌,
}
use os_research_lab.Base.Fault.{Outcome, fault, reject, done, load, ◌>>=◌, ◌>>◌}

-- The scan codes of the keyboard without and with a shift key.
abbrev pub key_map : List ℕ
key_map =
    0 ∷ 27 ∷ 49 ∷ 50 ∷ 51 ∷ 52 ∷ 53 ∷ 54 ∷ 55 ∷ 56 ∷ 57 ∷ 48 ∷ 45 ∷ 61 ∷ 8 ∷ 9 ∷ 113 ∷ 119 ∷ 101
    ∷ 114 ∷ 116 ∷ 121 ∷ 117 ∷ 105 ∷ 111 ∷ 112 ∷ 91 ∷ 93 ∷ 10 ∷ 0 ∷ 97 ∷ 115 ∷ 100 ∷ 102 ∷ 103 ∷ 104
    ∷ 106 ∷ 107 ∷ 108 ∷ 59 ∷ 39 ∷ 96 ∷ 0 ∷ 92 ∷ 122 ∷ 120 ∷ 99 ∷ 118 ∷ 98 ∷ 110 ∷ 109 ∷ 44 ∷ 46 ∷ 47
    ∷ 0 ∷ 42 ∷ 0 ∷ 32 ∷ []

abbrev pub shifted : List ℕ
shifted =
    0 ∷ 0 ∷ 33 ∷ 64 ∷ 35 ∷ 36 ∷ 37 ∷ 94 ∷ 38 ∷ 42 ∷ 40 ∷ 41 ∷ 95 ∷ 43 ∷ 0 ∷ 0 ∷ 0 ∷ 0 ∷ 0 ∷ 0 ∷ 0
    ∷ 0 ∷ 0 ∷ 0 ∷ 0 ∷ 0 ∷ 123 ∷ 125 ∷ 0 ∷ 0 ∷ 0 ∷ 0 ∷ 0 ∷ 0 ∷ 0 ∷ 0 ∷ 0 ∷ 0 ∷ 0 ∷ 58 ∷ 34 ∷ 126 ∷ 0
    ∷ 124 ∷ 0 ∷ 0 ∷ 0 ∷ 0 ∷ 0 ∷ 0 ∷ 0 ∷ 60 ∷ 62 ∷ 63 ∷ 0 ∷ 0 ∷ 0 ∷ 0 ∷ []

-- `left_shift` and `right_shift`
pub record Shift : Type 0 where
  pub left : Bool
  pub right : Bool

abbrev pub upper : Shift → ℕ → ℕ → ℕ
upper shift code c =
    if shift.left || shift.right
    then (if leb 97 c && leb c 122
        then c - 32
        else if get_or shifted code 0 != 0
        then get_or shifted code 0
        else c)
    else c

-- A scan code.
unfoldable pub key : Shift → ℕ → ℕ × Shift
key shift code =
    if (code == 42) || (code == 0xaa)
    then (0, record { left = code == 42; right = shift.right })
    else if (code == 54) || (code == 0xb6)
    then (0, record { left = shift.left; right = code == 54 })
    else if bit_and code 0x80 != 0
    then (0, shift)
    else if code == 0x4b
    then (0x11, shift)
    else if code == 0x4d
    then (0x12, shift)
    else if code == 0x48
    then (0x13, shift)
    else if code == 0x50
    then (0x14, shift)
    else if ltb code 0x3a && (get_or key_map code 0 != 0)
    then (upper shift code (get_or key_map code 0), shift)
    else (0, shift)

-- `poll_ch`, with the byte that the serial port holds and the one that the keyboard holds.
unfoldable pub poll_ch : Option ℕ → Option ℕ → Shift → ℕ × Shift
unfolding key
poll_ch (some c) code shift = (if c == 13 then 10 else c, shift)
poll_ch none (some code) shift = key shift code
poll_ch none none shift = (0, shift)

-- What `read_line` leaves: the buffer, what it printed, and the keys after the line.
pub record Typed : Type 0 where
  pub buf : List ℕ
  pub shown : List ℕ
  pub rest : List ℕ

-- `buf[i] = c`
abbrev pub store : List ℕ → ℕ → ℕ → Outcome (List ℕ)
store buf i c = if ltb i (length buf) then done (set buf i c) else fault

abbrev pub is_erase : ℕ → Bool
is_erase c = (c == 8) || (c == 127)

abbrev pub is_printable : ℕ → Bool
is_printable c = leb 32 c && ltb c 127

abbrev pub with_shown : List ℕ → Outcome (Option Typed) → Outcome (Option Typed)
with_shown shown fault = fault
with_shown shown reject = reject
with_shown shown (done none) = done none
with_shown shown (done (some l)) = done (some (record l { shown = shown ++ l.shown }))

-- The loop of `read_line` on the characters that `get_ch` gives; `none` when it waits for more.
unfoldable pub read_loop : List ℕ → List ℕ → ℕ → ℕ → Outcome (Option Typed)
read_loop [] buf max len = done none
read_loop (c ∷ keys) buf max len =
    let erased = read_loop keys buf max (len - 1) in
    let same = read_loop keys buf max len in
    let typed = read_loop keys (set buf len c) max (len + 1) in
    if c == 10
    then (do
      buf' ← store buf len 0
      done (some (record { buf = buf'; shown = 10 ∷ []; rest = keys })))
    else if is_erase c && ltb 0 len
    then with_shown (8 ∷ 32 ∷ 8 ∷ []) erased
    else if is_printable c && ltb (len + 1) max
    then (if ltb len (length buf) then with_shown (c ∷ []) typed else fault)
    else same

-- `read_line`; a null buffer is `none`.
unfoldable pub read_line : List ℕ → Option (List ℕ) → ℕ → Outcome (Option Typed)
unfolding read_loop
read_line keys none max = reject
read_line keys (some buf) max = if max == 0 then reject else read_loop keys buf max 0

unfoldable pub strlen : List ℕ → Outcome ℕ
strlen [] = fault
strlen (c ∷ s) = if c == 0 then done 0 else (do n ← strlen s; done (suc n))

-- `*dst++ = *src++`, the written part of the destination and the rest of it.
unfoldable pub strcpy : List ℕ → List ℕ → Outcome (List ℕ)
strcpy [] s = fault
strcpy (d ∷ dst) [] = fault
strcpy (d ∷ dst) (c ∷ s) =
    let rest = strcpy dst s in if c == 0 then done (0 ∷ dst) else (do t ← rest; done (c ∷ t))

-- The second loop of `strncpy`, and of `memset`.
unfoldable pub memset : List ℕ → ℕ → ℕ → Outcome (List ℕ)
memset s c zero = done s
memset [] c (suc n) = fault
memset (b ∷ s) c (suc n) = do t ← memset s c n; done (u8 c ∷ t)

unfoldable pub strncpy : List ℕ → List ℕ → ℕ → Outcome (List ℕ)
unfolding memset
strncpy dst s zero = done dst
strncpy dst [] (suc n) = fault
strncpy [] (c ∷ s) (suc n) = fault
strncpy (d ∷ dst) (c ∷ s) (suc n) =
    let copied = strncpy dst s n in
    if c == 0 then memset (d ∷ dst) 0 (suc n) else (do t ← copied; done (c ∷ t))

unfoldable pub memcpy : List ℕ → List ℕ → ℕ → Outcome (List ℕ)
memcpy dst s zero = done dst
memcpy dst [] (suc n) = fault
memcpy [] (c ∷ s) (suc n) = fault
memcpy (d ∷ dst) (c ∷ s) (suc n) = do t ← memcpy dst s n; done (c ∷ t)

abbrev pub is_digit : ℕ → Bool
is_digit c = leb 48 c && leb c 57

-- The loop of `atoi`; a value beyond an int32_t is an overflow.
unfoldable pub atoi_loop : ℕ → List ℕ → Outcome ℕ
atoi_loop v [] = fault
atoi_loop v (c ∷ s) =
    let next = v * 10 + (c - 48) in
    let rest = atoi_loop next s in
    if is_digit c then (if ltb next (2 ^ 31) then rest else fault) else done v

-- `-v` of a number that is not negative.
abbrev pub negated : ℕ → ℕ
negated v = u32 (2 ^ 32 - v)

unfoldable pub atoi : List ℕ → Outcome ℕ
unfolding atoi_loop
atoi [] = fault
atoi (c ∷ s) = if c == 45 then (do v ← atoi_loop 0 s; done (negated v)) else atoi_loop 0 (c ∷ s)

-- The digits that the loop of `itoa` puts on `t`, the last one first; a uint32_t has ten at most.
unfoldable pub itoa_loop : ℕ → ℕ → List ℕ → List ℕ
itoa_loop zero magnitude t = t
itoa_loop (suc fuel) magnitude t =
    let t' = (48 + magnitude % 10) ∷ t in
    let rest = itoa_loop fuel (magnitude / 10) t' in if ltb 0 (magnitude / 10) then rest else t'

abbrev pub itoa_rounds : ℕ
itoa_rounds = 10

abbrev pub is_negative : ℕ → Bool
is_negative n = leb (2 ^ 31) n

abbrev pub magnitude : ℕ → ℕ
magnitude n = if is_negative n then u32 (2 ^ 32 - n) else n

unfoldable pub itoa_digits : ℕ → List ℕ
unfolding itoa_loop
itoa_digits m = itoa_loop itoa_rounds m []

-- The string that `itoa` writes, without its zero byte.
unfoldable pub itoa : ℕ → List ℕ
itoa n = if is_negative n then 45 ∷ itoa_digits (magnitude n) else itoa_digits (magnitude n)
