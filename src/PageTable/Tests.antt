-- ===== src/PageTable/Tests.antt =====
-- Runs of the page table code of shared/page_table/src/lib.rs over a memory of words.
use elise.Base.{
  ◌%◌, ℕ, suc, ◌+◌, ◌-◌, ◌*◌, ◌/◌, ◌^◌, ◌≤◌, ◌<◌, ◌≡◌, ◌≢◌, refl, sym, arith, true, false, ◌&&◌,
  ◌==◌, ==_iff, ltb, leb, if◌then◌else◌, none, some, inl, inr,
}
use elise.PageTable.{
  virt_base, size_of, page_type, Mapping, PageType, bit, page_4k, page_2m, invalid_page,
  smaller_pages_present, mapped_already, get_indices, Permissions, bits, new_permissions, uncached,
}
use elise.PageTable.Walk.{PhysMem, done, fail, components, walk}
use elise.PageTable.Map.{map_raw}
use elise.PageTable.Laws.{IsLawful}
use elise.PageTable.Finds.{IsUnmapped}
use elise.PageTable.Mapped.{way_to, Maps, map_raw-IsMapped}
use elise.PageTable.Frame.{IsInUse, IsPlaced, map_raw-IsPlaced}
use elise.PageTable.Flags.{bits-flags}
use elise.PageTable.VirtBase.{virt_base-components}
use elise.PageTable.Errors.{IsReason, map_raw-IsReason}

-- `next` is the number of pages that are handed out.
record Memory : Type 0 where
  words : ℕ → ℕ
  next : ℕ

abbrev word_memory : PhysMem
word_memory = record {
  State = Memory;
  translates = λ addr size. true;
  read = λ addr s. s.words addr;
  write = λ addr v s. record s { words = λ b. if b == addr then v else s.words b };
  write_bytes = λ addr size s. record s {
    words = λ b. if leb addr b && ltb b (addr + size) then 0 else s.words b;
  };
  alloc_phys = λ size align s.
      if size == 2 ^ 12 && ltb s.next (2 ^ 40)
      then some (s.next * 2 ^ 12, record s { next = suc s.next })
      else none;
}

word_memory-IsLawful : IsLawful word_memory
word_memory-IsLawful = record {
  IsUsed = λ s q. q < s.next;
  room = λ s. 2 ^ 40 - s.next;
  read-write = λ a v s. rw ((==_iff a a).1 refl);
  read-write_other = λ a b v s wa wb other. rw (apart_false b a (λ e. other (sym e)));
  write-IsUsed = λ a v s q u. u;
  room-write = λ a v s. refl;
  read-write_bytes = λ a page s h. rw (inside a page h);
  read-write_bytes_other = λ a page s h. rw (outside a page h);
  write_bytes-IsUsed = λ page s q u. u;
  room-write_bytes = λ page s. refl;
  used_translates = λ a s u. refl;
  page_translates = λ page s u. refl;
  alloc = λ s h. record {
    page = s.next;
    after = record s { next = suc s.next };
    allocated = rw (room_left s.next h);
    small = omega arith;
    was_free = λ u. omega arith;
    now_used = omega arith;
    keeps_used = λ q u. omega arith;
    keeps_words = λ a u. refl;
    one_less = omega arith;
  };
}
  where
    apart_false : (a b : ℕ) → a ≢ b → (a == b) ≡ false
    apart_false a b h = ground arith

    inside :
        (a page : ℕ)
        → a / 2 ^ 12 ≡ page
        → (leb (page * 2 ^ 12) a && ltb a (page * 2 ^ 12 + 2 ^ 12)) ≡ true
    inside a page h = ground arith

    outside :
        (a page : ℕ)
        → a / 2 ^ 12 ≢ page
        → (leb (page * 2 ^ 12) a && ltb a (page * 2 ^ 12 + 2 ^ 12)) ≡ false
    outside a page h = ground arith

    room_left : (n : ℕ) → 0 < 2 ^ 40 - n → ltb n (2 ^ 40) ≡ true
    room_left n h = ground arith

-- An empty table in the first page.
abbrev empty_memory : Memory
empty_memory = record { words = λ a. 0; next = 1 }

-- Three tables lead to the page at `0x5000`, which is mapped at the address 0.
abbrev small_memory : Memory
small_memory = record {
  words = λ a.
      if a == 0
      then 4103
      else if a == 4096
      then 8199
      else if a == 8192
      then 12295
      else if a == 12288
      then 20481
      else 0;
  next = 4;
}

map_raw-IsMapped_example :
    Maps word_memory word_memory-IsLawful empty_memory 0 305418240 page_4k 28673
unfolding word_memory-IsLawful
map_raw-IsMapped_example =
    map_raw-IsMapped word_memory word_memory-IsLawful empty_memory 0 305418240 page_4k 28673 refl
      refl refl (record { used = omega arith; whole = refl }, inl refl) (omega arith)

-- The way to the page behind the first.
second-IsUnmapped : IsUnmapped word_memory word_memory-IsLawful small_memory 0 (way_to page_4k 4096)
unfolding word_memory-IsLawful
second-IsUnmapped = (
  record { used = omega arith; whole = refl },
  inr (
    refl,
    refl,
    (
      record { used = omega arith; whole = refl },
      inr (
        refl,
        refl,
        (
          record { used = omega arith; whole = refl },
          inr (refl, refl, (record { used = omega arith; whole = refl }, inl refl)),
        ),
      ),
    ),
  ),
)

first_used : IsInUse word_memory word_memory-IsLawful small_memory 0 (get_indices 0)
unfolding word_memory-IsLawful
first_used = (
  record { used = omega arith; whole = refl },
  λ p q. (
    record { used = omega arith; whole = refl },
    λ p q. (
      record { used = omega arith; whole = refl },
      λ p q. (record { used = omega arith; whole = refl }, λ p q. tt),
    ),
  ),
)

small_room : 3 ≤ word_memory-IsLawful.room small_memory
unfolding word_memory-IsLawful
small_room = omega arith

second_map : Maps word_memory word_memory-IsLawful small_memory 0 4096 page_4k 28673
second_map =
    map_raw-IsMapped word_memory word_memory-IsLawful small_memory 0 4096 page_4k 28673 refl refl
      refl second-IsUnmapped small_room

first-IsPlaced : IsPlaced word_memory word_memory-IsLawful small_memory 0 0 (20480, 0)
unfolding components walk
first-IsPlaced = record { mapping = _; finds = refl; same = refl }

map_raw-IsPlaced_example :
    IsPlaced word_memory word_memory-IsLawful (second_map.after) 0 0 (20480, 0)
map_raw-IsPlaced_example =
    map_raw-IsPlaced word_memory word_memory-IsLawful small_memory second_map.after 0 4096 0 page_4k
      28673 (20480, 0) refl refl refl second-IsUnmapped small_room second_map.maps first_used
      first-IsPlaced

bits-flags_example :
    let p : Permissions = record { write = true; execute = false; user = false; cache = true } in
    (bit 1 (bits p) ≡ true)
    × (bit 2 (bits p) ≡ false)
    × (bit 63 (bits p) ≡ true)
    × (bit 4 (bits p) ≡ false)
    × (bit 4 (bits (new_permissions true false false)) ≡ true)
    × (bit 4 (bits (uncached true false false)) ≡ false)
bits-flags_example = bits-flags true false false true

mapped_again : map_raw word_memory 0 0 page_4k 28673 small_memory ≡ fail mapped_already small_memory
unfolding map_raw components walk
mapped_again = refl

map_raw-IsReason_example :
    (small_memory ≡ small_memory)
    × IsReason word_memory mapped_already small_memory 0 0 page_4k 28673
map_raw-IsReason_example =
    map_raw-IsReason word_memory small_memory small_memory 0 0 page_4k 28673 mapped_already
      mapped_again

abbrev first_mapping : Mapping
first_mapping = record {
  pml4e = some 0;
  pdpe = some 4096;
  pde = some 8192;
  pte = some 12288;
  page = some (20480, 5, 20481);
}

first_found : components word_memory 0 5 small_memory ≡ done first_mapping small_memory
unfolding components walk
first_found = refl

virt_base-components_example :
    (size : PageType) × (page_type first_mapping ≡ some size)
    × (◌≡◌ {A = ℕ} 5 (5 % size_of size))
    × (virt_base first_mapping ≡ some (5 - 5))
virt_base-components_example =
    virt_base-components word_memory 0 5 small_memory small_memory first_mapping 20480 5 20481 refl
      first_found refl

smaller_pages :
    map_raw word_memory 0 4096 page_2m 28801 small_memory ≡ fail smaller_pages_present small_memory
unfolding map_raw components walk
smaller_pages = refl

invalid : map_raw word_memory 0 4096 page_2m 28673 small_memory ≡ fail invalid_page small_memory
unfolding map_raw
invalid = refl
