-- ===== src/FreeList/Runs.antt =====
-- Runs of `push` and `pop` of kernel/src/mm.rs against a stack of addresses.
use elise.Base.{ℕ, ◌≡◌, ◌≢◌, refl, ap, ◌∙◌, List, [], ◌∷◌}
use elise.FreeList.{FreeList, Blocks, push, pop_block}
use elise.FreeList.Holds.{IsAbsent, Holds}
use elise.FreeList.Pushed.{push-Holds}
use elise.FreeList.Popped.{pop_block-Holds}

pub data Request : Type 0 where
  free_block : ℕ → Request
  take_block : Request

-- The addresses that a sequence of calls hands out.
abbrev pub handed_out : List Request → FreeList → Blocks → List ℕ
handed_out [] l mem = []
handed_out (free_block vaddr ∷ rs) l mem = handed_out rs (push vaddr l mem).0 (push vaddr l mem).1
handed_out (take_block ∷ rs) l mem =
    (pop_block l mem).0 ∷ handed_out rs (pop_block l mem).1 (pop_block l mem).2

-- The same for a stack.
abbrev pub taken : List Request → List ℕ → List ℕ
taken [] xs = []
taken (free_block vaddr ∷ rs) xs = taken rs (vaddr ∷ xs)
taken (take_block ∷ rs) [] = []
taken (take_block ∷ rs) (x ∷ xs) = x ∷ taken rs xs

-- What is freed is not 0 and not free already, and nothing is taken from an empty stack.
abbrev pub IsLegal : List Request → List ℕ → Type 0
IsLegal [] xs = Unit {0}
IsLegal (free_block vaddr ∷ rs) xs = (vaddr ≢ 0) × IsAbsent vaddr xs × IsLegal rs (vaddr ∷ xs)
IsLegal (take_block ∷ rs) [] = ⊥
IsLegal (take_block ∷ rs) (x ∷ xs) = IsLegal rs xs

-- For a free list of any block size that holds the addresses `xs`, and any legal sequence of frees and
-- allocations none of which meets an empty list: the addresses that `push` and `pop_block` hand out over the
-- sequence are those that a last-in first-out stack with the contents `xs` hands out.
pub handed_out-taken :
    (rs : List Request) (l : FreeList) (mem : Blocks) (xs : List ℕ)
    → Holds l mem xs
    → IsLegal rs xs
    → handed_out rs l mem ≡ taken rs xs
handed_out-taken [] l mem xs h legal = refl
handed_out-taken (free_block vaddr ∷ rs) l mem xs h legal =
    handed_out-taken rs (push vaddr l mem).0 (push vaddr l mem).1 (vaddr ∷ xs)
      (push-Holds l mem vaddr xs h legal.0 legal.1) legal.2
handed_out-taken (take_block ∷ rs) l mem [] h legal = absurd legal
handed_out-taken (take_block ∷ rs) l mem (x ∷ xs) h legal =
    let popped = pop_block-Holds l mem x xs h in
    ap (λ (y : ℕ). y ∷ handed_out rs (pop_block l mem).1 (pop_block l mem).2) popped.0
    ∙ ap (λ (ys : List ℕ). x ∷ ys)
        (handed_out-taken rs (pop_block l mem).1 (pop_block l mem).2 xs popped.1 legal)
