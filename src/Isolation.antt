-- ===== src/Isolation.antt =====
-- jordyOS/isolation.c and user/abi.h: what a ring-3 process may reach, and its system calls. The page
-- tables are the five tables of 512 entries behind USER_BASE; the bytes of the process are given by
-- their addresses. Console characters come from a list, and calls of the graphics are listed.
pub mod Range
pub mod Copies
pub mod Calls
pub mod Same
pub mod Reads
mod Tests
use os_research_lab.Base.{
  ℕ, zero, suc, ◌+◌, ◌-◌, ◌*◌, ◌/◌, ◌^◌, ◌%◌, List, [], ◌∷◌, ◌++◌, Option, some, none, Bool, true,
  false, not, ◌&&◌, ◌||◌, leb, ltb, ◌==◌, ◌!=◌, length, replicate, set, get_elem?, get_or, take,
  drop, bit_and, bit_or, u32, lts64, ◌>>>◌, if◌then◌else◌,
}
use os_research_lab.Base.Fault.{Outcome, fault, reject, done, require, load, ◌>>=◌, ◌>>◌}
use os_research_lab.Fs.{
  File, Status, ok, failed, max_files, max_filename_len, max_file_size, sys_list_files,
  sys_read_file, sys_write_file, sys_delete_file,
}
use os_research_lab.Text.{Typed, read_line, strlen}

abbrev pub user_base : ℕ
user_base = 0x40000000

abbrev pub user_image_limit : ℕ
user_image_limit = 8 * 1024 * 1024

abbrev pub user_startup : ℕ
user_startup = user_base + user_image_limit

abbrev pub user_stack_bottom : ℕ
user_stack_bottom = user_startup + 8192

abbrev pub user_stack_size : ℕ
user_stack_size = 256 * 1024

abbrev pub user_stack_top : ℕ
user_stack_top = user_stack_bottom + user_stack_size

-- PAGE, P, W and U.
abbrev pub page_size : ℕ
page_size = 4096

abbrev pub present : ℕ
present = 1

abbrev pub writable : ℕ
writable = 2

abbrev pub user : ℕ
user = 4

-- The store of `map_page`.
abbrev pub set_entry : List (List ℕ) → ℕ → ℕ → ℕ → Outcome (List (List ℕ))
set_entry pt i j entry = do
  table ← load (get_elem? pt i)
  old ← load (get_elem? table j)
  done (set pt i (set table j entry))

unfoldable pub map_page : List (List ℕ) → ℕ → ℕ → ℕ → Outcome (List (List ℕ))
map_page pt address physical flags =
    let offset = address - user_base in
    set_entry pt (offset >>> 21) ((offset >>> 12) % 512)
      (bit_or (bit_or (bit_or physical present) user) flags)

-- `active->tables.pt[offset>>21][offset>>12 & 511]`
abbrev pub entry_at : List (List ℕ) → ℕ → Outcome ℕ
entry_at pt page = do
  table ← load (get_elem? pt ((page - user_base) >>> 21))
  load (get_elem? table (((page - user_base) >>> 12) % 512))

-- The entry lets a process read, or write.
abbrev pub lets : ℕ → Bool → Bool
lets entry write =
    (bit_and entry (present + user) == present + user)
    && (not write || (bit_and entry writable != 0))

-- The loop of `user_range` from the page on, with fuel.
unfoldable pub range_loop : ℕ → List (List ℕ) → ℕ → ℕ → Bool → Outcome Bool
range_loop zero pt page last write = done true
range_loop (suc left) pt page last write =
    let rest = range_loop left pt (page + page_size) last write in
    if leb page last
    then (do entry ← entry_at pt page; if lets entry write then rest else done false)
    else done true

-- `user_range`; no active process is `none`. A range of `size` bytes takes one page more than it has
-- whole pages, and one when it crosses.
unfoldable pub user_range : Option (List (List ℕ)) → ℕ → ℕ → Bool → Outcome Bool
unfolding range_loop
user_range none address size write = done (size == 0)
user_range (some pt) address size write =
    if size == 0
    then done true
    else if ltb address user_base
        || leb user_stack_top address
        || ltb (user_stack_top - address) size
    then done false
    else range_loop (size / page_size + 2) pt (address / page_size * page_size) (address + size - 1)
        write

-- `user_string` from the byte `i` on: the text before the zero byte, or a refusal.
unfoldable pub string_loop : ℕ → Option (List (List ℕ)) → (ℕ → ℕ) → ℕ → ℕ → Outcome (List ℕ)
unfolding user_range
string_loop zero active memory source i = reject
string_loop (suc left) active memory source i =
    let rest = string_loop left active memory source (i + 1) in
    if ltb (2 ^ 64 - 1 - i) source then reject else (do
      allowed ← user_range active (source + i) 1 false
      require allowed
      if memory (source + i) == 0 then done [] else (do s ← rest; done (memory (source + i) ∷ s)))

abbrev pub user_string : Option (List (List ℕ)) → (ℕ → ℕ) → ℕ → ℕ → Outcome (List ℕ)
user_string active memory source capacity = string_loop capacity active memory source 0

-- What a system call prints and asks of the console, the graphics and the clock.
pub data Call : Type 0 where
  print : List ℕ → Call
  poll clear : Call
  paint : ℕ → ℕ → ℕ → ℕ → ℕ → Call
  draw_text : ℕ → ℕ → List ℕ → ℕ → Call
  terminal : List ℕ → Call
  wait : ℕ → Call

-- The kernel as the system calls see it: the files, the bytes of the process by their addresses, the
-- characters that the console will give, what was asked of the devices, `pid` and `rejected`.
pub record Kernel : Type 0 where
  pub files : List File
  pub memory : ℕ → ℕ
  pub keys : List ℕ
  pub calls : List Call
  pub pid : ℕ
  pub rejected : ℕ

-- A call returns, or waits for the console.
pub data Reply : Type 0 where
  returns : Status → Kernel → Reply
  waits : Reply

-- `memcpy` to an address of the process.
abbrev pub copied : (ℕ → ℕ) → ℕ → List ℕ → ℕ → ℕ
copied memory address bytes x =
    if leb address x && ltb x (address + length bytes)
    then get_or bytes (x - address) 0
    else memory x

abbrev pub asked : Kernel → Call → Outcome Reply
asked k c = done (returns (ok 0) (record k { calls = k.calls ++ c ∷ [] }))

abbrev pub text_size : ℕ
text_size = 2048

-- `read_line` gave the line, or waits.
unfoldable pub give_line : Kernel → ℕ → Option Typed → Outcome Reply
give_line k a none = done waits
give_line k a (some t) = do
  n ← strlen t.buf
  done (
      returns (ok 0) (record k {
        memory = copied k.memory a (take (n + 1) t.buf);
        keys = t.rest;
        calls = k.calls ++ print t.shown ∷ [];
      }))

unfoldable pub sys_readline : Option (List (List ℕ)) → Kernel → ℕ → ℕ → Outcome Reply
unfolding user_range give_line
sys_readline active k a b = do
  require (b != 0 && leb b text_size)
  allowed ← user_range active a b true
  require allowed
  line ← read_line k.keys (some (replicate text_size 0)) b
  give_line k a line

-- `sys_getc` waits for a character.
abbrev pub get_char : Kernel → List ℕ → Reply
get_char k [] = waits
get_char k (c ∷ keys) = returns (ok c) (record k { keys = keys })

-- `sys_pollc` gives 0 when no character is there.
abbrev pub poll_char : Kernel → List ℕ → Reply
poll_char k [] = returns (ok 0) k
poll_char k (c ∷ keys) = returns (ok c) (record k { keys = keys })

-- The bytes of a status that is not an error, at the address.
unfoldable pub give : Kernel → ℕ → Status → List ℕ → Reply
give k a (ok n) bytes = returns (ok n) (record k { memory = copied k.memory a bytes })
give k a (failed n) bytes = returns (failed n) k

unfoldable pub list_files : Option (List (List ℕ)) → Kernel → ℕ → ℕ → Outcome Reply
unfolding user_range give
list_files active k a b = do
  require (b != 0 && leb b (max_files * (max_filename_len + 1)))
  allowed ← user_range active a b true
  require allowed
  let (n, text) = sys_list_files k.files b
  done (give k a n (text ++ 0 ∷ []))

unfoldable pub read_file : Option (List (List ℕ)) → Kernel → ℕ → ℕ → ℕ → Outcome Reply
unfolding user_range string_loop give
read_file active k a b c = do
  require (leb c max_file_size)
  name ← user_string active k.memory a max_filename_len
  allowed ← user_range active b c true
  require allowed
  let (n, bytes) = sys_read_file k.files (some name) c
  done (give k b n bytes)

-- The `n` bytes from an address on.
abbrev pub bytes_at : (ℕ → ℕ) → ℕ → ℕ → List ℕ
bytes_at memory address zero = []
bytes_at memory address (suc n) = memory address ∷ bytes_at memory (address + 1) n

unfoldable pub write_file : Option (List (List ℕ)) → Kernel → ℕ → ℕ → ℕ → Outcome Reply
unfolding user_range string_loop
write_file active k a b c = do
  require (leb c max_file_size)
  name ← user_string active k.memory a max_filename_len
  allowed ← user_range active b c false
  require allowed
  let (status, files) = sys_write_file k.files (some name) (some (bytes_at k.memory b c))
  done (returns status (record k { files = files }))

unfoldable pub delete_file : Option (List (List ℕ)) → Kernel → ℕ → Outcome Reply
unfolding string_loop
delete_file active k a = do
  name ← user_string active k.memory a max_filename_len
  let (status, files) = sys_delete_file k.files (some name)
  done (returns status (record k { files = files }))

-- `(int64_t)n < -m` and `(int64_t)n > m`
abbrev pub outside : ℕ → ℕ → Bool
outside n m = lts64 n (2 ^ 64 - m) || lts64 m n

unfoldable pub sys_paint : Kernel → ℕ → ℕ → ℕ → ℕ → ℕ → Outcome Reply
sys_paint k a b c d e = do
  require (not (outside a 320 || outside b 200 || ltb 640 c || ltb 400 d || ltb 9 e))
  asked k (paint a b c d e)

unfoldable pub sys_drawtext : Option (List (List ℕ)) → Kernel → ℕ → ℕ → ℕ → ℕ → Outcome Reply
unfolding string_loop
sys_drawtext active k a b c d = do
  require (not (outside a 320 || lts64 b 0 || ltb 192 b || ltb 9 d))
  text ← user_string active k.memory c text_size
  asked k (draw_text a b text d)

-- The switch on the number of the call; `reject` is a `break`.
unfoldable pub dispatch : Option (List (List ℕ)) → Kernel → ℕ → ℕ → ℕ → ℕ → ℕ → ℕ → Outcome Reply
unfolding string_loop sys_readline list_files read_file write_file delete_file sys_paint
    sys_drawtext
dispatch active k n a b c d e =
    if n == 1
    then (do text ← user_string active k.memory a text_size; asked k (print text))
    else if n == 2
    then sys_readline active k a b
    else if n == 3
    then done (get_char k k.keys)
    else if n == 4
    then done (poll_char k k.keys)
    else if n == 5
    then asked k poll
    else if n == 6
    then asked k clear
    else if n == 7
    then list_files active k a b
    else if n == 8
    then read_file active k a b c
    else if n == 9
    then write_file active k a b c
    else if n == 10
    then delete_file active k a
    else if n == 11
    then sys_paint k a b c d e
    else if n == 12
    then sys_drawtext active k a b c d
    else if n == 13
    then (do text ← user_string active k.memory a 38; asked k (terminal text))
    else if n == 14
    then (do require (not ((a == 0) || ltb 1000 a)); asked k (wait a))
    else if n == 15
    then done (returns (ok k.pid) k)
    else reject

-- `rejected++; return -1;` behind the switch.
abbrev pub or_rejected : Kernel → Outcome Reply → Outcome Reply
or_rejected k fault = fault
or_rejected k reject = done (returns (failed 1) (record k { rejected = u32 (k.rejected + 1) }))
or_rejected k (done r) = done r

-- `syscall` on the number and the five arguments.
unfoldable pub syscall : Option (List (List ℕ)) → Kernel → ℕ → ℕ → ℕ → ℕ → ℕ → ℕ → Outcome Reply
unfolding dispatch
syscall active k n a b c d e = or_rejected k (dispatch active k n a b c d e)
