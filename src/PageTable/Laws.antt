-- ===== src/PageTable/Laws.antt =====
-- What the page table code of shared/page_table/src/lib.rs relies on of its `PhysMem`: words are kept until
-- they are written, and the allocator hands out pages that are not in use.
use elise.Base.{ℕ, ◌+◌, ◌*◌, ◌/◌, ◌%◌, ◌^◌, ◌≤◌, ◌<◌, ◌≡◌, ◌≢◌, true, some}
use elise.PageTable.Walk.{PhysMem}

-- A 4-KiB page from the allocator; pages are named by their number.
pub record NewPage (m : PhysMem) (IsUsed : m.State → ℕ → Type 0) (room : m.State → ℕ) (s : m.State)
    : Type 0 where
  pub page : ℕ
  pub after : m.State
  pub allocated : m.alloc_phys (2 ^ 12) (2 ^ 12) s ≡ some (page * 2 ^ 12, after)
  pub small : page < 2 ^ 40
  pub was_free : IsUsed s page → ⊥
  pub now_used : IsUsed after page
  pub keeps_used : (q : ℕ) → IsUsed s q → IsUsed after q
  pub keeps_words : (a : ℕ) → IsUsed s (a / 2 ^ 12) → m.read a after ≡ m.read a s
  pub one_less : room s ≤ room after + 1

-- `room` is a number of pages that can still be allocated.
pub record IsLawful (m : PhysMem) : Type 1 where
  pub IsUsed : m.State → ℕ → Type 0
  pub room : m.State → ℕ
  pub read-write : (a v : ℕ) (s : m.State) → m.read a (m.write a v s) ≡ v
  pub read-write_other :
      (a b v : ℕ) (s : m.State)
      → a % 8 ≡ 0
      → b % 8 ≡ 0
      → a ≢ b
      → m.read b (m.write a v s) ≡ m.read b s
  pub write-IsUsed : (a v : ℕ) (s : m.State) (q : ℕ) → IsUsed s q → IsUsed (m.write a v s) q
  pub room-write : (a v : ℕ) (s : m.State) → room (m.write a v s) ≡ room s
  pub read-write_bytes :
      (a page : ℕ) (s : m.State)
      → a / 2 ^ 12 ≡ page
      → m.read a (m.write_bytes (page * 2 ^ 12) (2 ^ 12) s) ≡ 0
  pub read-write_bytes_other :
      (a page : ℕ) (s : m.State)
      → a / 2 ^ 12 ≢ page
      → m.read a (m.write_bytes (page * 2 ^ 12) (2 ^ 12) s) ≡ m.read a s
  pub write_bytes-IsUsed :
      (page : ℕ) (s : m.State) (q : ℕ)
      → IsUsed s q
      → IsUsed (m.write_bytes (page * 2 ^ 12) (2 ^ 12) s) q
  pub room-write_bytes :
      (page : ℕ) (s : m.State) → room (m.write_bytes (page * 2 ^ 12) (2 ^ 12) s) ≡ room s
  pub used_translates : (a : ℕ) (s : m.State) → IsUsed s (a / 2 ^ 12) → m.translates a 8 ≡ true
  pub page_translates :
      (page : ℕ) (s : m.State) → IsUsed s page → m.translates (page * 2 ^ 12) (2 ^ 12) ≡ true
  pub alloc : (s : m.State) → 0 < room s → NewPage m IsUsed room s
