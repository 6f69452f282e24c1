-- ===== src/Elf.antt =====
-- shared/elf_parser/src/lib.rs: the parser of an ELF file's header and the iterator over its segments.
pub mod Header
pub mod Bounds
mod Tests
use elise.Base.{
  ℕ, zero, suc, ◌+◌, ◌-◌, ◌*◌, ◌/◌, ◌%◌, ◌^◌, Bool, true, false, ◌&&◌, not, Option, none, some,
  List, [], ◌∷◌, length, leb, ltb, ◌==◌, if◌then◌else◌, take, drop, bit_and, u64_max,
}
use elise.Range.{checked_add}

pub data Error : Type 0 where
  parse_failure not_enough_bytes : Error
  wrong_magic : List ℕ → Error
  wrong_bitness wrong_endian : Error
  wrong_version wrong_type wrong_machine : ℕ → Error
  wrong_alignment raw_size_too_large segments_closure_failed : Error

-- `Result<A, Error>`, or a panic
pub data Answer {ℓ} (A : Type ℓ) : Type ℓ where
  value : A → Answer A
  error : Error → Answer A
  panics : Answer A

-- What `next` returns: `None`, `Some(Err(e))` or `Some(Ok(a))`
pub data Item {ℓ} (A : Type ℓ) : Type ℓ where
  ended : Item A
  failed : Error → Item A
  got : A → Item A

unfoldable pub answer_then : {A B : Type 0} → Answer A → (A → Answer B) → Answer B
answer_then (value a) f = f a
answer_then (error e) f = error e
answer_then panics f = panics

unfoldable pub item_then : {A B : Type 0} → Item A → (A → Item B) → Item B
item_then ended f = ended
item_then (failed e) f = failed e
item_then (got a) f = f a

pub record Permissions : Type 0 where
  pub read : Bool
  pub write : Bool
  pub execute : Bool

-- `Permissions::from_flags`
unfoldable pub from_flags : ℕ → Permissions
from_flags flags = record {
  read = not (bit_and flags 4 == 0);
  write = not (bit_and flags 2 == 0);
  execute = not (bit_and flags 1 == 0);
}

pub record Segment : Type 0 where
  pub vaddr : ℕ
  pub offset : ℕ
  pub vsize : ℕ
  pub bytes : List ℕ
  pub permissions : Permissions

pub record Elf : Type 0 where
  pub bytes : List ℕ
  pub ph_offset : ℕ
  pub ph_entry_size : ℕ
  pub ph_num : ℕ
  pub entry : ℕ

-- `from_le_bytes`
abbrev pub from_le : List ℕ → ℕ
from_le [] = 0
from_le (b ∷ bs) = b + 2 ^ 8 * from_le bs

-- The two macros `get_bytes`: the range is tested before the bytes are read.
unfoldable pub get_bytes : List ℕ → ℕ → ℕ → Option ℕ
get_bytes bytes offset size = elim (checked_add offset size) [
  | none ↦ none
  | some stop ↦
      if leb stop (length bytes) then some (from_le (take size (drop offset bytes))) else none
]

abbrev pub get_or_error : List ℕ → ℕ → ℕ → Answer ℕ
get_or_error bytes offset size = elim (get_bytes bytes offset size) [
  | none ↦ error parse_failure
  | some n ↦ value n
]

abbrev pub check : Bool → Error → Answer (Unit {0})
check true e = value tt
check false e = error e

abbrev pub checked : Option ℕ → Answer ℕ
checked none = error parse_failure
checked (some n) = value n

abbrev pub checked_mul : ℕ → ℕ → Option ℕ
checked_mul a b = if ltb (a * b) (2 ^ 64) then some (a * b) else none

abbrev pub same_bytes : List ℕ → List ℕ → Bool
same_bytes [] [] = true
same_bytes (a ∷ xs) (b ∷ ys) = a == b && same_bytes xs ys
same_bytes _ _ = false

abbrev pub magic : List ℕ
magic = 0x7F ∷ 0x45 ∷ 0x4C ∷ 0x46 ∷ []

-- A file without the magic bytes is an error that shows its first four bytes; there may be fewer.
abbrev pub check_magic : List ℕ → Answer (Unit {0})
check_magic bytes =
    if leb 4 (length bytes)
    then check (same_bytes (take 4 bytes) magic) (wrong_magic (take 4 bytes))
    else panics

-- The table of program headers: where it is, the size of an entry and their number.
unfoldable pub parse_table : List ℕ → ℕ → Answer Elf
unfolding get_bytes
parse_table bytes entry = answer_then (get_or_error bytes 0x20 8) λ ph_offset.
    answer_then (get_or_error bytes 0x36 2) λ ph_entry_size.
      answer_then (get_or_error bytes 0x38 2) λ ph_num.
        answer_then (checked (checked_mul ph_num ph_entry_size)) λ entries_size.
          answer_then (checked (checked_add ph_offset entries_size)) λ table_size.
            answer_then (check (leb table_size (length bytes)) not_enough_bytes) λ _.
              value (record {
                bytes = bytes;
                ph_offset = ph_offset;
                ph_entry_size = ph_entry_size;
                ph_num = ph_num;
                entry = entry;
              })

unfoldable pub parse : List ℕ → Answer Elf
unfolding get_bytes parse_table
parse bytes = answer_then (check_magic bytes) λ _.
    answer_then (get_or_error bytes 0x04 1) λ bitness.
      answer_then (check (bitness == 2) wrong_bitness) λ _.
        answer_then (get_or_error bytes 0x05 1) λ endian.
          answer_then (check (endian == 1) wrong_endian) λ _.
            answer_then (get_or_error bytes 0x06 1) λ version.
              answer_then (check (version == 1) (wrong_version version)) λ _.
                answer_then (get_or_error bytes 0x10 2) λ elf_type.
                  answer_then (check (elf_type == 2) (wrong_type elf_type)) λ _.
                    answer_then (get_or_error bytes 0x12 2) λ machine.
                      answer_then (check (machine == 0x3E) (wrong_machine machine)) λ _.
                        answer_then (get_or_error bytes 0x18 8) λ entry. parse_table bytes entry

abbrev pub get_or_end : List ℕ → ℕ → ℕ → Item ℕ
get_or_end bytes offset size = elim (get_bytes bytes offset size) [ none ↦ ended | some n ↦ got n ]

abbrev pub check_item : Bool → Error → Item (Unit {0})
check_item true e = got tt
check_item false e = failed e

abbrev pub checked_or_end : Option ℕ → Item ℕ
checked_or_end none = ended
checked_or_end (some n) = got n

-- `offset + 0x04` on `usize`
abbrev pub field : ℕ → ℕ → ℕ
field offset k = (offset + k) % 2 ^ 64

-- `align - 1` on `u64`, which wraps at 0 in a release build
abbrev pub mask_of : ℕ → ℕ
mask_of align = (align + u64_max) % 2 ^ 64

-- The segment, once its fields are read and tested; the mask is 0xFFF here.
unfoldable pub segment_of : List ℕ → ℕ → ℕ → ℕ → ℕ → ℕ → ℕ → Segment
segment_of bytes flags raw_offset vaddr raw_size vsize align_mask =
    let aligned_vaddr = bit_and vaddr (u64_max - align_mask) in
    record {
      vaddr = aligned_vaddr;
      offset = vaddr - aligned_vaddr;
      vsize = vsize;
      bytes = take raw_size (drop raw_offset bytes);
      permissions = from_flags flags;
    }

-- `next` behind the test that the segment is loadable
unfoldable pub load : List ℕ → ℕ → Item Segment
unfolding get_bytes
load bytes offset = item_then (get_or_end bytes (field offset 0x04) 4) λ flags.
    item_then (get_or_end bytes (field offset 0x08) 8) λ raw_offset.
      item_then (get_or_end bytes (field offset 0x10) 8) λ vaddr.
        item_then (get_or_end bytes (field offset 0x20) 8) λ raw_size.
          item_then (get_or_end bytes (field offset 0x28) 8) λ vsize.
            item_then (check_item (leb raw_size vsize) raw_size_too_large) λ _.
              item_then (checked_or_end (checked_add raw_offset raw_size)) λ raw_end.
                item_then (check_item (leb raw_end (length bytes)) not_enough_bytes) λ _.
                  item_then (get_or_end bytes (field offset 0x30) 8) λ align.
                    item_then (check_item (mask_of align == 0xFFF) wrong_alignment) λ _.
                      got (segment_of bytes flags raw_offset vaddr raw_size vsize (mask_of align))

-- `next`, with the number of program headers left, `ph_num - index`: the item and the new index. A
-- header that is not loadable is skipped by the recursive call.
unfoldable pub next_of : ℕ → Elf → ℕ → Item Segment × ℕ
unfolding load get_bytes
next_of zero elf index = (ended, index)
next_of (suc left) elf index =
    let rest = next_of left elf (index + 1) in
    let offset = (elf.ph_offset + index * elf.ph_entry_size) % 2 ^ 64 in
    elim (get_bytes elf.bytes (field offset 0x00) 4) [
      | none ↦ (ended, index + 1)
      | some kind ↦ if kind == 1 then (load elf.bytes offset, index + 1) else rest
    ]

unfoldable pub next : Elf → ℕ → Item Segment × ℕ
unfolding next_of
next elf index = next_of (elf.ph_num - index) elf index
