-- ===== src/Bootloader/Tables/Checked.antt =====
-- What `get_sdt_table` of bootloader/src/efi/acpi/acpi.rs has checked of a table that it returns.
use elise.Base.{
  ℕ, zero, suc, ◌+◌, ◌-◌, ◌*◌, ◌/◌, ◌%◌, ◌≤◌, ◌<◌, ◌≡◌, refl, subst, ◌∙◌, ◌⊎◌, inl, inr, arith,
  Bool-cases, none, some, List, [], ◌∷◌, if◌then◌else◌,
}
use elise.Acpi.{Memory, read_unaligned}
use elise.Bootloader.Tables.{
  Guid, same_guid, acpi_20_table_guid, Error, SdtTable, Outcome, ok, err, panicked, find_rsdp,
  sum_bytes, rsdp_signature, xsdt_signature, rsdp_size, sdt_header_size, from_system_table,
  xsdt_table, get_sdt_table,
}

-- The sum of the bytes, which does not wrap.
unfoldable pub total : Memory → ℕ → ℕ → ℕ
total mem ptr zero = 0
total mem ptr (suc n) = mem ptr + total mem (suc ptr) n

sum_bytes-total :
    (mem : Memory) (ptr n sum : ℕ) → sum_bytes mem ptr n (sum % 256) ≡ (sum + total mem ptr n) % 256
unfolding sum_bytes total
sum_bytes-total mem ptr zero sum = omega arith
sum_bytes-total mem ptr (suc n) sum =
    let rest = sum_bytes-total mem (suc ptr) n (sum % 256 + mem ptr) in rest ∙ omega arith

-- A table of the ACPI 2.0 kind among the configuration tables, none before it.
abbrev pub IsFirst : ℕ → List (Guid × ℕ) → Type 0
IsFirst ptr [] = ⊥
IsFirst ptr ((guid, table) ∷ tables) =
    if same_guid guid acpi_20_table_guid then (table ≡ ptr) else IsFirst ptr tables

-- The two tables have their signatures and sums of 0, and `t` is the array of the second one's entries, of
-- which there are as many as its length has room for.
pub record AreTables (mem : Memory) (ptr xsdt_ptr : ℕ) (t : SdtTable) : Type 0 where
  pub rsdp_signed : read_unaligned 8 mem ptr ≡ rsdp_signature
  pub rsdp_long : rsdp_size ≤ read_unaligned 4 mem (ptr + 20)
  pub rsdp_sum : total mem ptr (read_unaligned 4 mem (ptr + 20)) % 256 ≡ 0
  pub xsdt_signed : read_unaligned 4 mem xsdt_ptr ≡ xsdt_signature
  pub xsdt_sum : total mem xsdt_ptr (read_unaligned 4 mem (xsdt_ptr + 4)) % 256 ≡ 0
  pub entries_inside : sdt_header_size + 8 * t.n_entries ≤ read_unaligned 4 mem (xsdt_ptr + 4)
  pub all_entries : read_unaligned 4 mem (xsdt_ptr + 4) < sdt_header_size + 8 * t.n_entries + 8
  pub behind_header : t.base ≡ xsdt_ptr + sdt_header_size

find_rsdp-cases :
    (tables : List (Guid × ℕ))
    → (find_rsdp tables ≡ none) ⊎ ((ptr : ℕ) × (find_rsdp tables ≡ some ptr) × IsFirst ptr tables)
unfolding find_rsdp
find_rsdp-cases [] = inl refl
find_rsdp-cases ((guid, table) ∷ tables) = elim (Bool-cases (same_guid guid acpi_20_table_guid)) [
  | inl e ↦ inr (table, rw e refl, rw e refl)
  | inr e ↦ elim (find_rsdp-cases tables) [
    | inl r ↦ inl (rw e r)
    | inr (ptr, r, first) ↦ inr (ptr, rw e r, rw e first)
  ]
]

find_rsdp-IsFirst :
    (tables : List (Guid × ℕ)) (ptr : ℕ) → find_rsdp tables ≡ some ptr → IsFirst ptr tables
find_rsdp-IsFirst tables ptr e = elim (find_rsdp-cases tables) [
  | inl r ↦ ground arith
  | inr (found, r, first) ↦ subst (λ p. IsFirst p tables) (ground arith) first
]

from_system_table-checks :
    (mem : Memory) (tables : List (Guid × ℕ)) (ptr : ℕ)
    → from_system_table mem tables ≡ ok ptr
    → (find_rsdp tables ≡ some ptr)
      × (read_unaligned 8 mem ptr ≡ rsdp_signature)
      × (rsdp_size ≤ read_unaligned 4 mem (ptr + 20))
      × (sum_bytes mem ptr (read_unaligned 4 mem (ptr + 20)) 0 ≡ 0)
unfolding from_system_table
from_system_table-checks mem tables ptr e = elim (find_rsdp-cases tables) [
  | inl r ↦ ground arith
  | inr (found, r, first) ↦ (ground arith, ground arith, ground arith, ground arith)
]

xsdt_table-checks :
    (mem : Memory) (ptr : ℕ) (t : SdtTable)
    → xsdt_table mem ptr ≡ ok t
    → (read_unaligned 4 mem ptr ≡ xsdt_signature)
      × (sum_bytes mem ptr (read_unaligned 4 mem (ptr + 4)) 0 ≡ 0)
      × (sdt_header_size ≤ read_unaligned 4 mem (ptr + 4))
      × (t.n_entries ≡ (read_unaligned 4 mem (ptr + 4) - sdt_header_size) / 8)
      × (t.base ≡ ptr + sdt_header_size)
unfolding xsdt_table
xsdt_table-checks mem ptr t e =
    (ground arith, ground arith, ground arith, ground arith, ground arith)

Outcome-cases :
    {A : Type 0} (m : Outcome A)
    → ((a : A) × (m ≡ ok a)) ⊎ ((e : Error) × (m ≡ err e)) ⊎ (m ≡ panicked)
Outcome-cases (ok a) = inl (a, refl)
Outcome-cases (err e) = inr (inl (e, refl))
Outcome-cases panicked = inr (inr refl)

-- A table that `get_sdt_table` returns stands behind the header of an XSDT with its signature and a sum of
-- bytes of 0 mod 256, to which an RSDP points that is the first ACPI 2.0 table of the firmware, has its
-- signature and a sum of bytes of 0 mod 256, and is no shorter than the code's struct; it has as many
-- entries as the length of the XSDT has room for.
pub get_sdt_table-AreTables :
    (mem : Memory) (tables : List (Guid × ℕ)) (t : SdtTable)
    → get_sdt_table mem tables ≡ ok t
    → (ptr : ℕ) × IsFirst ptr tables × AreTables mem ptr (read_unaligned 8 mem (ptr + 24)) t
unfolding get_sdt_table
get_sdt_table-AreTables mem tables t e = elim (Outcome-cases (from_system_table mem tables)) [
  | inr (inl (_, r)) ↦ ground arith
  | inr (inr r) ↦ ground arith
  | inl (ptr, r) ↦
      let xsdt_ptr = read_unaligned 8 mem (ptr + 24) in
      let (found, signed, long, sums) = from_system_table-checks mem tables ptr r in
      let second : xsdt_table mem xsdt_ptr ≡ ok t = ground arith in
      let (signed', sums', long', count, base) = xsdt_table-checks mem xsdt_ptr t second in
      let all = sum_bytes-total mem ptr (read_unaligned 4 mem (ptr + 20)) 0 in
      let all' = sum_bytes-total mem xsdt_ptr (read_unaligned 4 mem (xsdt_ptr + 4)) 0 in
      (
        ptr,
        find_rsdp-IsFirst tables ptr found,
        record {
          rsdp_signed = signed;
          rsdp_long = long;
          rsdp_sum = omega (arith, all, sums);
          xsdt_signed = signed';
          xsdt_sum = omega (arith, all', sums');
          entries_inside = omega (arith, count, long');
          all_entries = omega (arith, count, long');
          behind_header = base;
        },
      )
]
