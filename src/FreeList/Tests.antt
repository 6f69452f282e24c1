-- ===== src/FreeList/Tests.antt =====
-- Runs of the free list of kernel/src/mm.rs.
use elise.Base.{ℕ, ◌+◌, ◌*◌, ◌^◌, ◌≡◌, refl, arith, List, [], ◌∷◌, Option, none, some}
use elise.FreeList.{new_list, Blocks}
use elise.FreeList.Holds.{Holds}
use elise.FreeList.Runs.{IsLegal, Request, free_block, take_block, handed_out, handed_out-taken}
use elise.FreeList.Blocks.{Refilled, pop-Refilled}

abbrev no_blocks : Blocks
no_blocks = λ a. record { next = 0; free_slots = 0; free_addrs = λ i. 0 }

empty_list : Holds (new_list 32) no_blocks []
empty_list = record { nodes = []; chain = refl; same = refl }

-- Blocks of 32 bytes: the first makes a stack with room for two, the fourth makes another.
abbrev requests : List Request
requests =
    free_block 4096
    ∷ free_block 8192
    ∷ free_block 12288
    ∷ free_block 16384
    ∷ take_block
    ∷ take_block
    ∷ free_block 20480
    ∷ take_block
    ∷ take_block
    ∷ take_block
    ∷ []

requests-IsLegal : IsLegal requests []
requests-IsLegal = (
  omega arith,
  tt,
  (
    omega arith,
    (omega arith, tt),
    (
      omega arith,
      (omega arith, (omega arith, tt)),
      (
        omega arith,
        (omega arith, (omega arith, (omega arith, tt))),
        (omega arith, (omega arith, (omega arith, tt)), tt),
      ),
    ),
  ),
)

handed_out-taken_example :
    handed_out requests (new_list 32) no_blocks ≡ 16384 ∷ 12288 ∷ 20480 ∷ 8192 ∷ 4096 ∷ []
handed_out-taken_example =
    handed_out-taken requests (new_list 32) no_blocks [] empty_list requests-IsLegal

abbrev next_page : ℕ → Option (ℕ × ℕ)
next_page page = some (page * 2 ^ 12, page + 1)

abbrev no_virt_block : ℕ → ℕ → Option (ℕ × ℕ)
no_virt_block size s = none

pop-Refilled_example :
    Refilled next_page no_virt_block (2 ^ 45) (5 * 2 ^ 12) 127 (new_list 32) no_blocks 5 6
pop-Refilled_example =
    pop-Refilled next_page no_virt_block (2 ^ 45) (5 * 2 ^ 12) 32 127 no_blocks 5 6 (omega arith)
      refl refl (omega arith)
