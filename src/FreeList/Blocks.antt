-- ===== src/FreeList/Blocks.antt =====
-- The page that kernel/src/mm.rs splits into the blocks of an empty free list.
use elise.Base.{
  ℕ, zero, suc, ◌+◌, ◌-◌, ◌*◌, ◌/◌, ◌^◌, ◌≤◌, ◌<◌, ◌≡◌, refl, ap, ◌∙◌, subst, arith, true, leb, ltb,
  List, [], ◌∷◌, Option, some,
}
use native.Mathlib.Nat.{suc-mul, div-eq_of_lt-le, mul-le-mul_right}
use elise.FreeList.{
  FreeList, new_list, Blocks, push, pop_block, slice_phys_mut, push_blocks,
  allocate_page_for_blocks, pop, kernel_phys_window_size,
}
use elise.FreeList.Holds.{IsAbsent, Holds}
use elise.FreeList.Pushed.{push-Holds}
use elise.FreeList.Popped.{pop_block-Holds}

-- The first blocks from a base on, the last of them first.
abbrev pub blocks_from : ℕ → ℕ → ℕ → List ℕ
blocks_from base size zero = []
blocks_from base size (suc n) = (base + n * size) ∷ blocks_from base size n

IsAbsent-blocks :
    (a base size n : ℕ) → 0 < size → base + n * size ≤ a → IsAbsent a (blocks_from base size n)
IsAbsent-blocks a base size zero p h = tt
IsAbsent-blocks a base size (suc n) p h =
    let e = suc-mul n size in
    (λ same. omega (arith, e), IsAbsent-blocks a base size n p (omega (arith, e)))

push-size : (vaddr : ℕ) (l : FreeList) (mem : Blocks) → (push vaddr l mem).0.size ≡ l.size
unfolding push
push-size vaddr l mem = ground arith

-- The blocks that `push_blocks` has put into the list.
pub record Filled (rounds k window allocation size : ℕ) (l : FreeList) (mem : Blocks) : Type 0 where
  pub list : FreeList
  pub blocks : Blocks
  pub filled : push_blocks rounds window allocation (k * size) l mem ≡ some (list, blocks)
  pub holds : Holds list blocks (blocks_from (window + allocation) size (k + rounds))

slice_phys_mut-some :
    (window paddr size : ℕ)
    → 0 < size
    → paddr + size ≤ kernel_phys_window_size
    → slice_phys_mut window paddr size ≡ some (window + paddr)
unfolding slice_phys_mut
slice_phys_mut-some window paddr size p h =
    let one : leb 1 size ≡ true = ground arith in
    let fits : leb (size - 1 + paddr) (2 ^ 64 - 1) ≡ true = ground arith in
    let inside : ltb (size - 1 + paddr) kernel_phys_window_size ≡ true = ground arith in
    rw (slice_phys_mut, one, fits, inside)

push_blocks-Filled :
    (rounds k window allocation size : ℕ) (l : FreeList) (mem : Blocks)
    → l.size ≡ size
    → 0 < window
    → 0 < size
    → allocation + (k + rounds) * size ≤ kernel_phys_window_size
    → Holds l mem (blocks_from (window + allocation) size k)
    → Filled rounds k window allocation size l mem
unfolding push_blocks
push_blocks-Filled zero k window allocation size l mem es w p fits h =
    let e : k + 0 ≡ k = omega arith in
    record { list = l; blocks = mem; filled = refl; holds = rw e h }
push_blocks-Filled (suc rounds) k window allocation size l mem es w p fits h =
    let vaddr = window + (allocation + k * size) in
    let next = push vaddr l mem in
    let e : suc k + rounds ≡ k + suc rounds = omega arith in
    let same : vaddr ≡ window + allocation + k * size = omega arith in
    let offset : k * size + l.size ≡ suc k * size = omega (arith, suc-mul k size) in
    let inside : allocation + k * size + l.size ≤ kernel_phys_window_size =
      omega (arith, suc-mul k size, mono (suc k) (k + suc rounds) size (omega arith)) in
    let slice = slice_phys_mut-some window (allocation + k * size) l.size (omega arith) inside in
    let pushed =
      push-Holds l mem vaddr _ h (λ z. omega arith)
        (IsAbsent-blocks vaddr (window + allocation) size k p (omega arith)) in
    let later =
      push_blocks-Filled rounds (suc k) window allocation size next.0 next.1
        (push-size vaddr l mem ∙ es) w p (rw e fits)
        (subst (λ (a : ℕ). Holds next.0 next.1 (a ∷ blocks_from (window + allocation) size k)) same
          pushed) in
    record {
      list = later.list;
      blocks = later.blocks;
      filled = rw (push_blocks, slice, offset) later.filled;
      holds =
          subst
            (λ (n : ℕ). Holds later.list later.blocks (blocks_from (window + allocation) size n)) e
            later.holds;
    }
  where
    mono : (a b c : ℕ) → a ≤ b → a * c ≤ b * c
    mono a b c h = mul-le-mul_right c h

-- What `pop` returns at an empty list whose blocks fit into a page.
pub record Refilled {S : Type 0} (allocate_page : S → Option (ℕ × S))
    (allocate_virt_block : ℕ → S → Option (ℕ × S)) (window allocation n : ℕ) (l : FreeList)
    (mem : Blocks) (s s' : S) : Type 0 where
  pub list : FreeList
  pub blocks : Blocks
  pub pops :
      pop allocate_page allocate_virt_block window l mem s
      ≡ some (window + allocation + n * l.size, list, blocks, s')
  pub holds : Holds list blocks (blocks_from (window + allocation) l.size n)

size_positive : (size n : ℕ) → suc n * size ≡ 2 ^ 12 → 0 < size
size_positive zero n h = absurd (omega (arith, h))
size_positive (suc size) n h = omega arith

rounds_of : (size n : ℕ) → suc n * size ≡ 2 ^ 12 → (2 ^ 12 + size - 1) / size ≡ suc n
rounds_of size n h =
    div-eq_of_lt-le size (omega (arith, h, size_positive size n h))
      (omega (arith, h, suc-mul (suc n) size, next, size_positive size n h))
  where
    next : (suc n + 1) * size ≡ suc (suc n) * size
    next = let e : suc n + 1 ≡ suc (suc n) = omega arith in rw e

-- For a new list of blocks whose size divides a page into `n + 1`, a window that does not start at 0, and a page from
-- `allocate_page` that lies below the window's size: `pop` returns the last block of the page, and the list then
-- holds the other `n` blocks, the higher ones first.
pub pop-Refilled :
    {S : Type 0} (allocate_page : S → Option (ℕ × S)) (allocate_virt_block : ℕ → S → Option (ℕ × S))
    (window allocation size n : ℕ) (mem : Blocks) (s s' : S)
    → 0 < window
    → suc n * size ≡ 2 ^ 12
    → allocate_page s ≡ some (allocation, s')
    → allocation + 2 ^ 12 ≤ kernel_phys_window_size
    → Refilled allocate_page allocate_virt_block window allocation n (new_list size) mem s s'
unfolding pop allocate_page_for_blocks
pop-Refilled allocate_page allocate_virt_block window allocation size n mem s s' w whole found
      fits =
    let positive : 0 < size = size_positive size n whole in
    let small : leb size (2 ^ 12) ≡ true =
      let at_most : size ≤ 2 ^ 12 = omega (arith, suc-mul n size) in ground arith in
    let all : (0 + suc n) * size ≡ 2 ^ 12 =
      let e : 0 + suc n ≡ suc n = omega arith in ap (λ (k : ℕ). k * size) e ∙ whole in
    let f =
      push_blocks-Filled (suc n) 0 window allocation size (new_list size) mem refl w positive
        (omega (arith, all)) (record { nodes = []; chain = refl; same = refl }) in
    let count : 0 + suc n ≡ suc n = omega arith in
    let popped =
      pop_block-Holds f.list f.blocks (window + allocation + n * size)
        (blocks_from (window + allocation) size n)
        (subst (λ (k : ℕ). Holds f.list f.blocks (blocks_from (window + allocation) size k)) count
          f.holds) in
    let no_offset : 0 * size ≡ 0 = omega arith in
    let filled =
      subst
        (λ (o : ℕ).
          push_blocks (suc n) window allocation o (new_list size) mem ≡ some (f.list, f.blocks))
        no_offset f.filled in
    let rounds = rounds_of size n whole in
    record {
      list = (pop_block f.list f.blocks).1;
      blocks = (pop_block f.list f.blocks).2;
      pops = rw (pop, allocate_page_for_blocks, small, found, rounds, filled, popped.0);
      holds = popped.1;
    }
