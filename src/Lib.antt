-- ===== src/Lib.antt =====
-- A verification library for elise, an x86_64 kernel and its bootloader in Rust.
--
-- The repository has a bootloader (bootloader/), a kernel (kernel/) and crates that both use
-- (shared/). Physical and virtual memory is handed out from sets of address ranges
-- (shared/rangeset), packets are written through cursors that track how much of a buffer is filled
-- (shared/cursor), pages are mapped by walking and extending page tables (shared/page_table), the
-- kernel's allocator keeps freed blocks in free lists (kernel/src/mm.rs), shared state stands
-- behind ticket locks (shared/spinlock), and the network stack (kernel/src/net) parses received
-- packets layer by layer and writes packets through the cursor of a packet buffer. The library
-- models these parts.
--
-- Files and code:
-- - Range, RangeSet: shared/rangeset/src/lib.rs. RangeSet is the array of 256 ranges with the
--   count in use; a method is a function from the set to an Outcome, which is a value, an Err, a
--   panic, or the end of the fuel, with the set it leaves for the first two. insert, remove,
--   delete and split_entry are RangeSet.insert and so on; allocate_prefer and allocate stand in
--   RangeSet/Allocate. RangeSet/Layout, Shift, Entries, Pieces, Insert, Remove, Placed and Visit
--   are lemmas; Valid, Inserted, Removed, Spared, Allocated, Found and Length are about the
--   methods, Gathered and Refine about sequences of their calls.
-- - Cursor: shared/cursor/src/lib.rs, over a list with the position, the total position over all
--   splits, and the limit; a panic is a value of Run. Cursor/Position, Write and Split are about
--   its methods.
-- - Elf: shared/elf_parser/src/lib.rs. Elf.parse is Elf::parse, whose answer is a value, an error
--   or a panic; next is the iterator's next, given the index it keeps. Elf/Header and Elf/Bounds
--   are about them.
-- - Net/Packet: kernel/src/net/packet.rs, with Packet, PacketCursor, and the parsing helpers; a
--   parser returns a value of Parse, which is a result or a ParseError. Net/Packet/Writes has its
--   writes in a row. Net/Checksum is about Packet::checksum.
-- - Net/Eth, Net/Ip, Net/Udp, Net/Arp, Net/Dhcp: the files of kernel/src/net/protocols. Net/Ip has
--   the parsers of ip/v4.rs and ip/v6.rs, Net/Dhcp the options of dhcp.rs. Net/Ip/RoundTrip,
--   Net/Arp/Built and Net/Dhcp/RoundTrip are about them. Net/Lease is parse_dhcp_reply and
--   get_lease of dhcp.rs, over the datagrams that arrive in time; Net/Lease/Options, Replies,
--   Heard and Granted are about them.
-- - Net/Builder: the packet builders. Net/Builder/V4 and Net/Builder/V6 are those of ip/v4.rs and
--   ip/v6.rs, Net/Builder/Ip those of eth.rs and ip/ip.rs, Net/Builder/Udp that of udp.rs up to
--   its drop. A slice that a split hands out is a list of its own; the packet is put together
--   again when the builder is dropped. Net/Builder/Region is about a cursor in the memory behind a
--   split, the modules Written, Sent, Carries, RoundTrip, TooLong, Crc and Verified about what the
--   builders write, and Net/Checksum/Parts about checksums of parts. Net/Lease/Request is
--   create_dhcp_request of dhcp.rs.
-- - Net/Device: recv_udp and discard_udp of udp.rs, arp and discard_arp of arp.rs, and discard of
--   kernel/src/net/net.rs. The driver is the packets it receives and allocates, and the clock is
--   the number of packets that arrive in each retry of arp, at most N_RETRIES lists, and the
--   number of polls in a call of recv_timeout; a VecDeque's capacity is a parameter, of which the
--   proofs use that a new one has none. Net/Device/Quiet, Unbound, Receive and Resolve are about
--   them. Net/Device/Steps has the calls as steps of the device; it leaves out the packets that
--   unbind_udp gives back, and send_udp, which touches no bind. Net/Device/Address is
--   NetAddress::resolve of net.rs, Net/Device/Timeout recv_timeout of udp.rs, and Net/Device/Lease
--   get_lease of dhcp.rs on a device, of which Sent, Cases and Refine say what it sends and
--   returns.
-- - Net/Registry: NetDevice::register, lock_in and get of kernel/src/net/net.rs, over the two
--   statics and the counter of IDs as a record; what a device hears from a DHCP server is a
--   parameter. Net/Registry/Locked and Net/Registry/Least are about them.
-- - Net/Ports: Port::next_free of kernel/src/net/net.rs and the binds of protocols/udp.rs;
--   Net/Ports/Bind is about bind_udp.
-- - PageTable: shared/page_table/src/lib.rs, over any PhysMem: a record with a state, reads,
--   writes and the allocator. PageTable/Walk is components, PageTable/Map is map_raw and map; a
--   panic is a value of their Outcome. PageTable/Laws says what they rely on of the memory.
--   Entries, Path, Create, Tables, Finds, Written and Canonical are lemmas; Mapped, Frame, Errors,
--   VirtBase and Flags are about map_raw, components, virt_base and Permissions::bits.
-- - FreeList: FreeList::push and pop of kernel/src/mm.rs, over the blocks by their addresses.
--   FreeList/Holds, Pushed and Popped relate a list to the addresses in it; Runs and Blocks are
--   about sequences of calls and the refill.
-- - Vmem: receive_vaddr_4k of kernel/src/mm.rs.
-- - SpinLock: shared/spinlock/src/lib.rs with the interrupt requests of kernel/src/core_locals.rs,
--   as a step relation over the cores. SpinLock/Queue, Steps and Served order the cores by their
--   tickets; Exclusion is about the states that are reached.
-- - OnceLock: shared/oncelock/src/lib.rs, with set as two steps of a thread; OnceLock/Kept is
--   about its value.
-- - Acpi: parse_table_entries of kernel/src/acpi/acpi.rs and Madt::parse of madt.rs, over memory
--   as bytes from the table's header on. Acpi/Entries is about the loop over the entries,
--   Acpi/Apics about the MADT, Acpi/Laid about entries of known lengths. Acpi/Srat is Srat::parse
--   of srat.rs, over the range sets; Acpi/Srat/Gathered says what a table describes,
--   Acpi/Srat/Saved and Acpi/Srat/Parsed are about it.
-- - Base: shared helpers, lists with native indices, Boolean tests and bits of words.
-- - Bootloader: memory_map_exit of bootloader/src/efi/memory.rs, over the range sets; what the
--   firmware returns is a parameter. Bootloader/Free is about the set of free memory.
--   Bootloader/Tables is get_sdt_table of bootloader/src/efi/acpi/acpi.rs, over memory as bytes;
--   Bootloader/Tables/Checked is about it.
--
-- Bounds and fuel: integers are natural numbers with the width of the source written out, and
-- usize has 64 bits. The loops of insert and remove run on one more round of fuel than there are
-- entries in use, since every round deletes an entry or moves behind one. The loop over DHCP
-- options runs on the length of the message, since every option takes at least a byte. The
-- iterator over ELF segments recurses on the number of program headers left. The loop of bind_udp
-- runs on fuel, and there are 16384 ports to try; with all of them bound the source loops for
-- ever. The walk of a page table recurses on the four indices of an address, map on the number of
-- its pages, the refill of a free list on the number of blocks in a page, and the entry loop of an
-- ACPI table on the table's length, since every entry takes two bytes at least.
--
-- Not modelled: the bootloader's other calls of the firmware, the device drivers, the serial port,
-- the interrupt tables, the APIC and the PCI bus, which are device input and output or assembly;
-- the clock, whose uses are counts here; the kernel's mapping of several pages with its NUMA
-- allocator, PacketLease, the core locals and the reference counts of shared/autorefcount, which
-- wait for a model of memory that cores share. TCP is left out of the repository's own build.
pub mod Base
pub mod Range
pub mod RangeSet
pub mod Cursor
pub mod Elf
pub mod Net
pub mod PageTable
pub mod FreeList
pub mod Vmem
pub mod SpinLock
pub mod OnceLock
pub mod Acpi
pub mod Bootloader
