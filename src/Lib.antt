-- ===== src/Lib.antt =====
-- Verification of the C code of JordyOS: its packet decoder, its eBPF interpreter, its firewall,
-- the path of a received frame through them, its TCP endpoint, its RAM file system, its scheduler,
-- its line editor, its calculator and its text editor, its drawing and its terminal, the commands
-- that set its firewall, the system calls of its isolated programs, and the heap of its language
-- runtime.
--
-- A frame that arrives is copied out of the ring of the network card, run through the eBPF program
-- of the early path, decoded, and judged by the eBPF policy program on the firewall's rule table.
-- The interpreter runs with no native pointers: every address of a program goes through one
-- function that turns it into a place of the environment. The commands of the shell change that
-- table. The editor and the other applications keep their files in sixteen slots of RAM, and the
-- Apelang runtime allocates from an arena of 4 MiB.
--
-- The files and the code:
-- - Base: shared names, and Base/Arrays, Tests, Words, Bits and Fault: arrays as lists over the
--   native numbers, Boolean tests, machine words as remainders, bit fields, and the outcome of code
--   that may read out of bounds.
-- - Packet: jordyOS/net/packet.c and packet.h, `net_read16` to `net_decode`; Packet/Text:
--   `net_number` and `net_cidr`. Packet/Sum, Packet/Decode and Packet/Text/Laws hold the proofs.
-- - Bpf: jordyOS/net/bpf_vm.h; Bpf/Validate `bpf_validate`, Bpf/Memory `memory` and `read_le`,
--   Bpf/Lookup `lookup`, Bpf/Divide `divide`, Bpf/Alu the switches on the operation, Bpf/Execute
--   `bpf_execute`. Bpf/Memory/Bounds and Bpf/Execute/Safety hold the proofs.
-- - Firewall: jordyOS/net/firewall.c and firewall.h; Firewall/Entries and Firewall/Prepare: `bits`
--   and `prepare` of jordyOS/net/fw_bpf.c; Firewall/Policy: the rest of it and `fw_accept`.
--   Firewall/Table, Firewall/Entries/Order and, under Firewall/Policy, Verdict and Early hold the
--   proofs.
-- - Receive: jordyOS/net/network.c, `net_receive`: the early program, the decoder and the firewall
--   composed as the code does, with the calls of `rtl_send`, `tcp_net_arp` and `tcp_net_input`
--   listed; Receive/Frame and Receive/Safety hold the proofs.
-- - Driver: jordyOS/net/rtl8139.c, `rtl_send`; Driver/Up `rtl_up` and `rtl_down`, Driver/Poll
--   `rtl_poll`, whose frames are those that Receive is given. Driver/Ring, Restart and Safe hold
--   the proofs.
-- - Tcp: jordyOS/net/tcp.h and the state of jordyOS/net/tcp.c with `output`; Tcp/Send `tcp_start`,
--   `transmit`, `rtt_sample` and `loss`, Tcp/Ack `ack`, Tcp/Input `tcp_input`, Tcp/Tick `tcp_tick`.
--   Tcp/Frame, Invariant, Resend, Retire, Options, Accept, Timer, Order, Window, Proceed, Ticked
--   and Reach hold the proofs.
-- - Heap: the allocator of jordyOS/ape/platform.c, `malloc`, `free` and `calloc`; Heap/Laws holds
--   the proofs. A pointer that `free` is given where no block starts is a fault.
-- - Tasks: the scheduler of jordyOS/kernel.c, `yield`, `task_create` and `sys_exit_task`;
--   Tasks/Laws holds the proofs of one operation, Tasks/Fair those of many yields.
-- - Text: the keyboard, `read_line` and the functions on strings and numbers of jordyOS/kernel.c;
--   Text/Digits, Text/Line and Text/Copy hold the proofs.
-- - Calc: jordyOS/app_calc.c, `parse` and a round of `app_calc`; Calc/Parse and Calc/Answer hold
--   the proofs.
-- - Isolation: `map_page`, `user_range`, `user_string` and `syscall` of jordyOS/isolation.c with
--   the addresses of jordyOS/user/abi.h; Isolation/Range, Copies, Calls, Same and Reads hold the
--   proofs. The bytes of the process are a function of their addresses, the console gives its
--   characters from a list, and what is asked of the graphics and the clock is listed.
-- - Editor: jordyOS/app_edit.c, `enter_text_edit_mode`; Editor/Commands its commands on the files
--   of Fs, Editor/Session the cutting of a line and the loop. Editor/Column, Typing, Mode, Valid,
--   Files, Safety, Returns and Saved hold the proofs.
-- - Shell: jordyOS/net/command.c, its printing and `words`; Shell/Rules the rule parser,
--   Shell/Firewall `fw_command` on the table of Firewall, Shell/Shown what it prints, Shell/Network
--   `net_command`. Shell/Does says what each answer means; Shell/Parsed, Kept, Numbers, Addresses,
--   Splitting, Printed, Blocks and Status hold the proofs.
-- - Graphics: jordyOS/gui.c, `rect` to `gui_drawtext`; Graphics/Console `gui_clear`, `gui_terminal`
--   and `gui_putc`, Graphics/Desktop `gui_init`, `icon` and `gui_desktop`. Graphics/Clipped,
--   Painted, Picture, Rows and Printed hold the proofs, Graphics/Called joins the painting to the
--   system call of Isolation.
-- - Fs: the file system of jordyOS/kernel.c, `fs_init` to `sys_delete_file`, with `sys_list_files`;
--   Fs/View, Fs/Invariant and Fs/Laws hold the proofs.
--
-- Conventions. A pointer into an array is the list of the bytes from there to the end of the array,
-- and a read past the end is the outcome `fault`, which the safety theorems exclude; `reject` is an
-- early return of failure. Words are numbers with `% 2 ^ w` where the code wraps; signed fields are
-- given by their bit patterns. Static variables are passed as state.
--
-- Bounds. The interpreter's fuel of 65536 rounds is the code's own limit. Folding the carries of a
-- checksum has three rounds, of which a 32-bit sum takes at most two. Counting the bits of a mask
-- has 33, since 32 shifts empty it. Division has the 64 rounds of the code, and the search of the
-- scheduler six for six slots. The options of a SYN/ACK have as many rounds as the header has
-- bytes, `itoa` ten for ten digits, and `user_range` two more than its range has whole pages. In
-- what the shell prints, a printed number ten rounds for ten digits, and a prefix length 33 as
-- above. The network card is polled eight times and its reset is tried 100000 times, as the code
-- does. The loop of the editor has a round more than there are keys, of which each round reads one
-- at least.
--
-- Parameters. The compiled eBPF programs and the layout of their structures come from the ebpfw
-- submodule: `Programs` and `Layout` of Firewall/Prepare, with the sizes that the code asserts as
-- laws. The congestion controller of the TCP endpoint is vendored: `Larp` of Tcp, of which only the
-- greater and the lesser of two words are assumed; the callback that sends a segment is
-- `Ports.emit`, which may fail at any time. What `larp_selftest` answers and whether `rtl_up` finds
-- a card are arguments of the shell's commands. What the network card shows in its registers, on
-- the PCI bus and in its ring is an argument of the driver: `Card` and `Look`. The font that the
-- boot loader leaves is an argument of what draws text.
--
-- Not modelled: the TCP file transfers, the loop of the shell, the start of isolated programs, and
-- the start-up code.
pub mod Base
pub mod Packet
pub mod Bpf
pub mod Firewall
pub mod Fs
pub mod Heap
pub mod Tasks
pub mod Tcp
pub mod Text
pub mod Calc
pub mod Isolation
pub mod Receive
pub mod Editor
pub mod Shell
pub mod Graphics
pub mod Driver
