-- ===== src/Vmem.antt =====
-- kernel/src/mm.rs: the virtual addresses that are handed out once, and the window on physical memory.
mod Tests
use elise.Base.{
  ℕ, ◌+◌, ◌-◌, ◌*◌, ◌/◌, ◌%◌, ◌^◌, ◌≤◌, ◌<◌, ◌≡◌, refl, ap, ◌∙◌, subst, arith, Bool, true, false,
  ◌&&◌, Bool-cases, Option-cases, inl, inr, List, [], ◌∷◌, Option, none, some, ◌==◌, leb, ltb,
  if◌then◌else◌,
}
use elise.Range.{checked_add}

-- `REGION_PADDING` of shared/shared_data/src/constants.rs
abbrev pub guard_page : ℕ
guard_page = 8 * 4096

-- `receive_vaddr_4k` from the value of `NEXT_VADDR`: the address and the next value; `none` is a panic.
unfoldable pub receive_vaddr_4k : ℕ → ℕ → Option (ℕ × ℕ)
receive_vaddr_4k next_vaddr size =
    if ltb 0 size && size % 2 ^ 12 == 0
    then elim (checked_add guard_page size) [
      | none ↦ none
      | some reserve ↦ elim (checked_add next_vaddr reserve) [
        | none ↦ none
        | some _ ↦ some (next_vaddr, (next_vaddr + reserve) % 2 ^ 64)
      ]
    ]
    else none

-- The calls for several sizes, one after another.
abbrev pub receive_all : ℕ → List ℕ → Option (List ℕ)
receive_all next [] = some []
receive_all next (size ∷ sizes) = elim (receive_vaddr_4k next size) [
  | none ↦ none
  | some (vaddr, next') ↦ elim (receive_all next' sizes) [
    | none ↦ none
    | some vaddrs ↦ some (vaddr ∷ vaddrs)
  ]
]

-- The regions lie one after another from an address on, page aligned, each with the guard behind it, and
-- all end below `2 ^ 64`.
abbrev pub AreSpaced : ℕ → List ℕ → List ℕ → Type 0
AreSpaced from [] [] = from ≤ 2 ^ 64
AreSpaced from (size ∷ sizes) (vaddr ∷ vaddrs) =
    (from ≤ vaddr) × (vaddr % 2 ^ 12 ≡ 0) × AreSpaced (vaddr + size + guard_page) sizes vaddrs
AreSpaced from _ _ = ⊥

record Received (next size : ℕ) (r : ℕ × ℕ) : Type 0 where
  pub first : r.0 ≡ next
  pub next' : r.1 ≡ next + guard_page + size
  pub fits : next + guard_page + size < 2 ^ 64
  pub aligned : size % 2 ^ 12 ≡ 0

receive_vaddr_4k-Received :
    (next size : ℕ) (r : ℕ × ℕ) → receive_vaddr_4k next size ≡ some r → Received next size r
unfolding receive_vaddr_4k
receive_vaddr_4k-Received next size (vaddr, next') h = record {
  first = ground arith;
  next' = ground arith;
  fits = ground arith;
  aligned = ground arith;
}

-- For any sizes: where the calls of `receive_vaddr_4k` for them, one after another from a page aligned
-- `NEXT_VADDR` of at most `2 ^ 64`, all return, the addresses are page aligned, each region lies behind the one
-- before it with the guard between them, and the last guard ends at `2 ^ 64` or below.
pub receive_all-AreSpaced :
    (next : ℕ) (sizes vaddrs : List ℕ)
    → next ≤ 2 ^ 64
    → next % 2 ^ 12 ≡ 0
    → receive_all next sizes ≡ some vaddrs
    → AreSpaced next sizes vaddrs
receive_all-AreSpaced next [] [] small aligned h = small
receive_all-AreSpaced next [] (v ∷ vs) small aligned h = absurd (cc)
receive_all-AreSpaced next (size ∷ sizes) vaddrs small aligned h =
    go (λ n vs p q r. receive_all-AreSpaced n sizes vs p q r) (receive_vaddr_4k next size) refl h
  where
    go :
        ((n : ℕ) (vs : List ℕ)
          → n ≤ 2 ^ 64
          → n % 2 ^ 12 ≡ 0
          → receive_all n sizes ≡ some vs
          → AreSpaced n sizes vs)
        → (o : Option (ℕ × ℕ)) → receive_vaddr_4k next size ≡ o
        → elim o [
          | none ↦ none
          | some (vaddr, next') ↦ elim (receive_all next' sizes) [
            | none ↦ none
            | some vaddrs ↦ some (vaddr ∷ vaddrs)
          ]
        ]
          ≡ some vaddrs
        → AreSpaced next (size ∷ sizes) vaddrs
    go later none e h = absurd (cc)
    go later (some (vaddr, next')) e h =
        let r = receive_vaddr_4k-Received next size (vaddr, next') e in
        elim (Option-cases (receive_all next' sizes)) [
          | inl absent ↦ let no : none ≡ some vaddrs = rw absent at h in absurd (cc)
          | inr (vs, rest) ↦
              let same : some (vaddr ∷ vs) ≡ some vaddrs = rw rest at h in
              let all : vaddr ∷ vs ≡ vaddrs = cc in
              let first : vaddr ≡ next = r.first in
              let behind : next' ≡ vaddr + size + guard_page = omega (arith, r.next') in
              let tail =
                later next' vs (omega (arith, r.next', r.fits)) (omega (arith, r.next', r.aligned))
                  rest in
              subst (λ (ws : List ℕ). AreSpaced next (size ∷ sizes) ws) all
                (omega arith, omega arith, subst (λ (n : ℕ). AreSpaced n sizes vs) behind tail)
        ]
