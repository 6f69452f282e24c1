-- ===== src/FreeList.antt =====
-- The free lists of kernel/src/mm.rs: blocks of one size that are free, kept in the blocks themselves.
pub mod Holds
mod Pushed
mod Popped
mod Runs
mod Blocks
mod Tests
use elise.Base.{
  ℕ, zero, suc, ◌+◌, ◌-◌, ◌*◌, ◌/◌, ◌%◌, ◌^◌, Bool, true, false, ◌&&◌, ◌||◌, not, Option, none,
  some, ◌==◌, leb, ltb, if◌then◌else◌,
}
use elise.Range.{checked_add}

infixl 5 ◌>>=◌
abbrev ◌>>=◌ : {A B : Type 0} → Option A → (A → Option B) → Option B
o >>= f = elim o [ none ↦ none | some a ↦ f a ]

-- `size_of::<FreeListNode>()`, two words: the array has no element of its own.
abbrev pub node_size : ℕ
node_size = 16

-- The metadata in a block: `free_addrs` is read beyond its length 0, up to the end of the block.
pub record FreeListNode : Type 0 where
  pub next : ℕ
  pub free_slots : ℕ
  pub free_addrs : ℕ → ℕ

pub record FreeList : Type 0 where
  pub head : ℕ
  pub size : ℕ

-- The blocks by their addresses; blocks of one free list do not overlap.
abbrev pub Blocks : Type 0
Blocks = ℕ → FreeListNode

abbrev pub set_block : ℕ → FreeListNode → Blocks → Blocks
set_block addr node mem = λ a. if a == addr then node else mem a

abbrev pub set_slot : ℕ → ℕ → (ℕ → ℕ) → ℕ → ℕ
set_slot i v slots = λ k. if k == i then v else slots k

-- `FreeList::new` behind its assertions
abbrev pub new_list : ℕ → FreeList
new_list size = record { head = 0; size = size }

-- `self.size <= size_of::<FreeListNode>()`
abbrev pub is_linked : FreeList → Bool
is_linked l = leb (l.size) node_size

abbrev pub available_slots : FreeList → ℕ
available_slots l = l.size / 8 - node_size / 8

-- The case of `push` that makes a stack out of the block.
abbrev pub new_stack : ℕ → FreeList → Blocks → FreeList × Blocks
new_stack vaddr l mem = (
  record l { head = vaddr },
  set_block vaddr (record (mem vaddr) { free_slots = available_slots l; next = l.head }) mem,
)

-- The case of `push` that has room in the stack at the head.
abbrev pub push_slot : ℕ → FreeList → Blocks → FreeList × Blocks
push_slot vaddr l mem = (
  l,
  set_block l.head
      (record (mem l.head) {
        free_slots = (mem l.head).free_slots - 1;
        free_addrs = set_slot ((mem l.head).free_slots - 1) vaddr (mem l.head).free_addrs;
      })
      mem,
)

unfoldable pub push : ℕ → FreeList → Blocks → FreeList × Blocks
push vaddr l mem =
    if is_linked l
    then (record l { head = vaddr }, set_block vaddr (record (mem vaddr) { next = l.head }) mem)
    else if l.head == 0 || (mem l.head).free_slots == 0
    then new_stack vaddr l mem
    else push_slot vaddr l mem

-- `pop` at a list with a head: the block, the list and the blocks after it.
unfoldable pub pop_block : FreeList → Blocks → ℕ × FreeList × Blocks
pop_block l mem =
    if is_linked l
    then (l.head, record l { head = (mem l.head).next }, mem)
    else if ltb (mem l.head).free_slots (available_slots l)
    then (
      (mem l.head).free_addrs (mem l.head).free_slots,
      l,
      set_block l.head (record (mem l.head) { free_slots = suc (mem l.head).free_slots }) mem,
    )
    else (l.head, record l { head = (mem l.head).next }, mem)

-- `u64::checked_sub`
abbrev checked_sub : ℕ → ℕ → Option ℕ
checked_sub a b = if leb b a then some (a - b) else none

abbrev pub kernel_phys_window_size : ℕ
kernel_phys_window_size = 2 ^ 40

-- `slice_phys_mut`, given the base of the window: `none` is a panic.
unfoldable pub slice_phys_mut : ℕ → ℕ → ℕ → Option ℕ
slice_phys_mut window paddr size = do
  last ← checked_sub size 1
  end ← checked_add last paddr
  if ltb end kernel_phys_window_size then some (window + paddr) else none

-- The rounds of `allocate_page_for_blocks` from an offset on, for the allocation at a physical address.
unfoldable pub push_blocks : ℕ → ℕ → ℕ → ℕ → FreeList → Blocks → Option (FreeList × Blocks)
unfolding slice_phys_mut push
push_blocks zero window allocation offset l mem = some (l, mem)
push_blocks (suc rounds) window allocation offset l mem = do
  vaddr ← slice_phys_mut window (allocation + offset) l.size
  let next = push vaddr l mem
  push_blocks rounds window allocation (offset + l.size) next.0 next.1

module _ {S : Type 0}
    -- `allocate_prefer` of a page from the free memory, and `allocate_virt_block`
    (allocate_page : S → Option (ℕ × S)) (allocate_virt_block : ℕ → S → Option (ℕ × S))
    (window : ℕ) where
  -- `allocate_page_for_blocks`: `none` is a panic.
  unfoldable pub allocate_page_for_blocks : FreeList → Blocks → S → Option (FreeList × Blocks × S)
  unfolding push_blocks
  allocate_page_for_blocks l mem s =
      if leb l.size (2 ^ 12)
      then (do
        (allocation, s') ← allocate_page s
        (l', mem') ← push_blocks ((2 ^ 12 + l.size - 1) / l.size) window allocation 0 l mem
        some (l', mem', s'))
      else none

  abbrev popped : ℕ × FreeList × Blocks → S → ℕ × FreeList × Blocks × S
  popped (vaddr, l, mem) s = (vaddr, l, mem, s)

  unfoldable pub pop : FreeList → Blocks → S → Option (ℕ × FreeList × Blocks × S)
  unfolding allocate_page_for_blocks pop_block
  pop l mem s =
      if l.head == 0
      then (if leb l.size (2 ^ 12)
          then (do
            (l', mem', s') ← allocate_page_for_blocks l mem s
            some (popped (pop_block l' mem') s'))
          else (do (vaddr, s') ← allocate_virt_block l.size s; some (vaddr, l, mem, s')))
      else some (popped (pop_block l mem) s)
