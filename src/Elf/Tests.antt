-- ===== src/Elf/Tests.antt =====
-- The parser of shared/elf_parser/src/lib.rs on a small file, and its laws at that file.
use elise.Base.{ℕ, ◌<◌, ◌≤◌, ◌≡◌, refl, arith, true, false, List, ◌∷◌, ◌++◌, replicate}
use elise.Elf.{
  Elf, Segment, value, got, ended, magic, parse, parse_table, next, next_of, load, get_bytes,
  answer_then, item_then, segment_of, from_flags,
}
use elise.Elf.Bounds.{IsLoadable, next-IsLoadable}

-- A header, one program header behind it, and no data of its own: the segment loads the magic bytes.
abbrev file : List ℕ
file =
    magic
    ++ (2 ∷ 1 ∷ 1 ∷ replicate 9 0)
    ++ (2 ∷ 0 ∷ 0x3E ∷ 0 ∷ replicate 4 0)
    ++ (0x23 ∷ 0x01 ∷ 0x40 ∷ replicate 5 0)
    ++ (64 ∷ replicate 21 0)
    ++ (56 ∷ 0 ∷ 1 ∷ replicate 7 0)
    ++ (1 ∷ 0 ∷ 0 ∷ 0 ∷ 5 ∷ replicate 11 0)
    ++ (0x23 ∷ 0x01 ∷ 0x40 ∷ replicate 13 0)
    ++ (4 ∷ replicate 7 0)
    ++ (8 ∷ replicate 7 0)
    ++ (0 ∷ 0x10 ∷ replicate 6 0)

abbrev file_elf : Elf
file_elf = record { bytes = file; ph_offset = 64; ph_entry_size = 56; ph_num = 1; entry = 0x400123 }

abbrev file_segment : Segment
file_segment = record {
  vaddr = 0x400000;
  offset = 0x123;
  vsize = 8;
  bytes = magic;
  permissions = record { read = true; write = false; execute = true };
}

parse-file : parse file ≡ value file_elf
unfolding parse parse_table get_bytes answer_then
parse-file = refl

next-file : next file_elf 0 ≡ (got file_segment, 1)
unfolding next next_of load get_bytes item_then segment_of from_flags
next-file = refl

next_behind : next file_elf 1 ≡ (ended, 1)
unfolding next next_of
next_behind = refl

next-IsLoadable_example : IsLoadable file file_segment × (0 < 1) × (1 ≤ 1)
next-IsLoadable_example =
    next-IsLoadable file file_elf 0 1 file_segment (omega arith) parse-file next-file
