-- ===== src/PageTable/Entries.antt =====
-- The bits of a page table entry of shared/page_table/src/lib.rs.
use elise.Base.{
  ℕ, ◌+◌, ◌*◌, ◌/◌, ◌%◌, ◌^◌, ◌<◌, ◌≡◌, ap, arith, true, false, ◌==◌, bit_or_split, bit_or-zero,
  bit_or_apart,
}
use elise.PageTable.{is_present, is_large}
use elise.PageTable.Walk.{table_of}
use elise.PageTable.Map.{counted, table_entry}

-- The count changes no bit below 52.
pub low-counted : (ent : ℕ) → counted ent % 2 ^ 52 ≡ ent % 2 ^ 52
low-counted ent =
    let high : ℕ = ent / 2 ^ 62 * 2 ^ 10 in
    let n : ℕ = (ent / 2 ^ 52 % 2 ^ 10 + 1) in
    let low : ℕ = ent % 2 ^ 52 in
    let fits : low < 2 ^ 52 = omega arith in
    let ea : ent / 2 ^ 62 * 2 ^ 62 + ent % 2 ^ 52 ≡ high * 2 ^ 52 + low = omega arith in
    let eb : (ent / 2 ^ 52 % 2 ^ 10 + 1) * 2 ^ 52 % 2 ^ 64 ≡ n * 2 ^ 52 + 0 = omega arith in
    rw (ea, eb, bit_or_split 52 high low n 0 fits (omega arith), bit_or-zero low) (omega arith)

pub is_present-low : (a b : ℕ) → a % 2 ^ 52 ≡ b % 2 ^ 52 → is_present a ≡ is_present b
is_present-low a b h = let e : a / 2 ^ 0 % 2 ≡ b / 2 ^ 0 % 2 = omega arith in ap (λ n. n == 1) e

pub is_large-low : (a b : ℕ) → a % 2 ^ 52 ≡ b % 2 ^ 52 → is_large a ≡ is_large b
is_large-low a b h = let e : a / 2 ^ 7 % 2 ≡ b / 2 ^ 7 % 2 = omega arith in ap (λ n. n == 1) e

pub table_of-low : (a b : ℕ) → a % 2 ^ 52 ≡ b % 2 ^ 52 → table_of a ≡ table_of b
table_of-low a b h = omega arith

pub table_entry-eq : (page : ℕ) → table_entry (page * 2 ^ 12) ≡ page * 2 ^ 12 + 7
table_entry-eq page =
    let e4 : page * 2 ^ 12 ≡ page * 2 ^ 9 * 2 ^ 3 = omega arith in
    let e6 : page * 2 ^ 9 * 2 ^ 3 + 4 ≡ (page * 2 ^ 10 + 1) * 2 ^ 2 = omega arith in
    let e7 : (page * 2 ^ 10 + 1) * 2 ^ 2 + 2 ≡ (page * 2 ^ 11 + 3) * 2 ^ 1 = omega arith in
    rw
      (
        e4,
        bit_or_apart 3 (page * 2 ^ 9) 4 (omega arith),
        e6,
        bit_or_apart 2 (page * 2 ^ 10 + 1) 2 (omega arith),
        e7,
        bit_or_apart 1 (page * 2 ^ 11 + 3) 1 (omega arith),
      )
      (omega arith)

-- The entry of a new table is present and small, and leads to the table.
pub table_entry_links :
    (page : ℕ)
    → page < 2 ^ 40
    → (is_present (table_entry (page * 2 ^ 12)) ≡ true)
      × (is_large (table_entry (page * 2 ^ 12)) ≡ false)
      × (table_of (table_entry (page * 2 ^ 12)) ≡ page * 2 ^ 12)
table_entry_links page h = rw (table_entry-eq page) (ground arith, ground arith, omega arith)
