-- ===== src/PageTable/Canonical.antt =====
-- The indices and the offset of a canonical address, for shared/page_table/src/lib.rs.
use elise.Base.{
  ℕ, ◌+◌, ◌-◌, ◌*◌, ◌/◌, ◌%◌, ◌^◌, ◌<◌, ◌≡◌, ap, ◌∙◌, arith, true, false, ◌==◌, bit_or,
  bit_or_apart, Bool-cases, inl, inr,
}
use elise.PageTable.{bit, canonicalize_address}

indices_or :
    (a b c d : ℕ)
    → a < 2 ^ 9
    → b < 2 ^ 9
    → c < 2 ^ 9
    → d < 2 ^ 9
    → bit_or (bit_or (bit_or (a * 2 ^ 39) (b * 2 ^ 30)) (c * 2 ^ 21)) (d * 2 ^ 12)
      ≡ a * 2 ^ 39 + b * 2 ^ 30 + c * 2 ^ 21 + d * 2 ^ 12
indices_or a b c d ha hb hc hd =
    let e1 = bit_or_apart 39 a (b * 2 ^ 30) (omega arith) in
    let s1 : a * 2 ^ 39 + b * 2 ^ 30 ≡ (a * 2 ^ 9 + b) * 2 ^ 30 = omega arith in
    let e2 = bit_or_apart 30 (a * 2 ^ 9 + b) (c * 2 ^ 21) (omega arith) in
    let s2 : (a * 2 ^ 9 + b) * 2 ^ 30 + c * 2 ^ 21 ≡ (a * 2 ^ 18 + b * 2 ^ 9 + c) * 2 ^ 21 =
      omega arith in
    let e3 = bit_or_apart 21 (a * 2 ^ 18 + b * 2 ^ 9 + c) (d * 2 ^ 12) (omega arith) in
    rw (e1, s1, e2, s2, e3) (omega arith)

-- A canonical address without its offset, from the indices above the offset.
canonical_base :
    (vaddr offset low : ℕ)
    → canonicalize_address 16 vaddr ≡ vaddr
    → low + offset ≡ vaddr % 2 ^ 48
    → offset < 2 ^ 47
    → low % 2 ^ 12 ≡ 0
    → bit 47 low ≡ bit 47 vaddr
    → canonicalize_address 16 low ≡ vaddr - offset
canonical_base vaddr offset low c e small whole sign = elim (Bool-cases (bit 47 vaddr)) [
  | inl b ↦
      let l : bit 47 low ≡ true = sign ∙ b in
      let v : vaddr % 2 ^ 48 + (2 ^ 64 - 2 ^ 48) ≡ vaddr = rw b at c in rw l (omega (arith, v, e))
  | inr b ↦
      let l : bit 47 low ≡ false = sign ∙ b in
      let v : vaddr % 2 ^ 48 ≡ vaddr = rw b at c in rw l (omega (arith, v, e))
]

pub entry_index : (table i : ℕ) → table % 2 ^ 12 ≡ 0 → i < 2 ^ 9 → (table + i * 8) % 2 ^ 12 / 8 ≡ i
entry_index table i h small = omega arith

pub based :
    (vaddr a b c d offset : ℕ)
    → canonicalize_address 16 vaddr ≡ vaddr
    → a ≡ vaddr / 2 ^ 39 % 2 ^ 9
    → b < 2 ^ 9
    → c < 2 ^ 9
    → d < 2 ^ 9
    → offset < 2 ^ 30
    → a * 2 ^ 39 + b * 2 ^ 30 + c * 2 ^ 21 + d * 2 ^ 12 + offset ≡ vaddr % 2 ^ 48
    → canonicalize_address 16
        (bit_or (bit_or (bit_or (a * 2 ^ 39) (b * 2 ^ 30)) (c * 2 ^ 21)) (d * 2 ^ 12))
      ≡ vaddr - offset
based vaddr a b c d offset canonical ha hb hc hd small whole =
    let low = a * 2 ^ 39 + b * 2 ^ 30 + c * 2 ^ 21 + d * 2 ^ 12 in
    let top : low / 2 ^ 39 ≡ a = omega arith in
    let high : low / 2 ^ 47 ≡ low / 2 ^ 39 / 2 ^ 8 = omega arith in
    let sign : low / 2 ^ 47 % 2 ≡ vaddr / 2 ^ 47 % 2 = omega arith in
    ap (canonicalize_address 16) (indices_or a b c d (omega arith) hb hc hd)
    ∙ canonical_base vaddr offset low canonical whole (omega arith) (omega arith)
        (ap (λ (n : ℕ). n == 1) sign)
