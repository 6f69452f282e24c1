-- ===== src/Acpi/Apics.antt =====
-- `Madt::parse` of kernel/src/acpi/madt.rs on the controllers that a table describes.
use elise.Base.{
  ℕ, zero, suc, ◌+◌, ◌-◌, ◌≤◌, ◌<◌, ◌≡◌, ◌≢◌, refl, arith, true, false, List, [], ◌∷◌, ◌==◌, ltb,
  if◌then◌else◌, Bool-cases, Bool, ◌||◌, ◌*◌, inl, inr,
}
use elise.Acpi.{
  Memory, read_unaligned, Table, from_sig, signature_of, length_of, ok, TableEntry, entries_loop,
  parse_table_entries, is_usable, with_id, apic_ids, parse_madt,
}

-- The flags of an APIC in the ACPI specification: bit 0, bit 1, and the reserved bits above.
pub record Flags : Type 0 where
  pub enabled : Bool
  pub online_capable : Bool
  pub reserved : ℕ

abbrev pub flag_bit : Bool → ℕ → ℕ
flag_bit true value = value
flag_bit false value = 0

abbrev pub flags_word : Flags → ℕ
flags_word f = flag_bit f.enabled 1 + flag_bit f.online_capable 2 + 4 * f.reserved

-- An entry of the MADT as the ACPI specification describes it, as far as the code reads it.
pub data Controller : Type 0 where
  local_apic x2apic : ℕ → Flags → Controller
  other : ℕ → ℕ → Controller

abbrev pub entry_len : Controller → ℕ
entry_len (local_apic id flags) = 8
entry_len (x2apic id flags) = 16
entry_len (other typ len) = len

abbrev pub IsLaid : Memory → ℕ → Controller → Type 0
IsLaid mem ptr (local_apic id flags) =
    (mem ptr ≡ 0) × (mem (ptr + 3) ≡ id) × (read_unaligned 4 mem (ptr + 4) ≡ flags_word flags)
IsLaid mem ptr (x2apic id flags) =
    (mem ptr ≡ 9)
    × (read_unaligned 4 mem (ptr + 4) ≡ id)
    × (read_unaligned 4 mem (ptr + 8) ≡ flags_word flags)
IsLaid mem ptr (other typ len) = (mem ptr ≡ typ) × (typ ≢ 0) × (typ ≢ 9)

-- The controllers from `ptr` to `end`.
abbrev pub AreLaid : Memory → ℕ → ℕ → List Controller → Type 0
AreLaid mem ptr end [] = ptr ≡ end
AreLaid mem ptr end (c ∷ cs) =
    (mem (ptr + 1) ≡ entry_len c)
    × (2 ≤ entry_len c)
    × IsLaid mem ptr c
    × AreLaid mem (ptr + entry_len c) end cs

-- The IDs of the controllers that are enabled or can be.
abbrev pub usable_ids : List Controller → List ℕ
usable_ids [] = []
usable_ids (local_apic id flags ∷ cs) =
    if flags.enabled || flags.online_capable then id ∷ usable_ids cs else usable_ids cs
usable_ids (x2apic id flags ∷ cs) =
    if flags.enabled || flags.online_capable then id ∷ usable_ids cs else usable_ids cs
usable_ids (other _ _ ∷ cs) = usable_ids cs

entries_at : Memory → ℕ → List Controller → List TableEntry
entries_at mem ptr [] = []
entries_at mem ptr (c ∷ cs) =
    record { typ = mem ptr; len = entry_len c; ptr = ptr } ∷ entries_at mem (ptr + entry_len c) cs

AreLaid-le :
    (mem : Memory) (ptr end : ℕ) (cs : List Controller) → AreLaid mem ptr end cs → ptr ≤ end
AreLaid-le mem ptr end [] h = omega (arith, h)
AreLaid-le mem ptr end (c ∷ cs) h = omega (arith, AreLaid-le mem (ptr + entry_len c) end cs h.3)

entries_loop-AreLaid :
    (fuel : ℕ) (mem : Memory) (table : Table) (ptr end : ℕ) (cs : List Controller)
    → end - ptr < fuel
    → AreLaid mem ptr end cs
    → entries_loop fuel mem table ptr end ≡ ok (entries_at mem ptr cs)
unfolding entries_loop entries_at
entries_loop-AreLaid zero mem table ptr end cs f h = absurd (omega arith)
entries_loop-AreLaid (suc fuel) mem table ptr end [] f h =
    let outside : ltb ptr end ≡ false = ground arith in rw (entries_loop, outside)
entries_loop-AreLaid (suc fuel) mem table ptr end (c ∷ cs) f h =
    let reach = AreLaid-le mem (ptr + entry_len c) end cs h.3 in
    let inside : ltb ptr end ≡ true =
      let small : ptr < end = omega (arith, reach, h.1) in ground arith in
    let long : ltb (entry_len c) 2 ≡ false = ground arith in
    let rest =
      entries_loop-AreLaid fuel mem table (ptr + entry_len c) end cs (omega (arith, reach, h.1))
        h.3 in
    rw (entries_loop, inside, h.0, long, rest)

is_usable-flag_bit :
    (enabled online_capable : Bool) (reserved : ℕ)
    → is_usable (flag_bit enabled 1 + flag_bit online_capable 2 + 4 * reserved)
      ≡ enabled || online_capable
is_usable-flag_bit true true reserved = ground arith
is_usable-flag_bit true false reserved = ground arith
is_usable-flag_bit false true reserved = ground arith
is_usable-flag_bit false false reserved = ground arith

with_id-if :
    (flags : Flags) (id : ℕ) (ids : List ℕ)
    → with_id (is_usable (flags_word flags)) id (ok ids)
      ≡ ok (if flags.enabled || flags.online_capable then id ∷ ids else ids)
with_id-if flags id ids =
    rw (is_usable-flag_bit flags.enabled flags.online_capable flags.reserved)
      (elim (Bool-cases (flags.enabled || flags.online_capable)) [ inl e ↦ rw e | inr e ↦ rw e ])

apic_ids-AreLaid :
    (mem : Memory) (ptr end : ℕ) (cs : List Controller)
    → AreLaid mem ptr end cs
    → apic_ids mem (entries_at mem ptr cs) ≡ ok (usable_ids cs)
unfolding entries_at
apic_ids-AreLaid mem ptr end [] h = refl
apic_ids-AreLaid mem ptr end (local_apic id flags ∷ cs) h =
    let rest = apic_ids-AreLaid mem (ptr + 8) end cs h.3 in
    rw ((h.2).0, (h.2).1, (h.2).2, rest) (with_id-if flags id (usable_ids cs))
apic_ids-AreLaid mem ptr end (x2apic id flags ∷ cs) h =
    let rest = apic_ids-AreLaid mem (ptr + 16) end cs h.3 in
    rw ((h.2).0, (h.2).1, (h.2).2, rest) (with_id-if flags id (usable_ids cs))
apic_ids-AreLaid mem ptr end (other typ len ∷ cs) h =
    let rest = apic_ids-AreLaid mem (ptr + len) end cs h.3 in
    let no_local : (typ == 0) ≡ false = ground arith in
    let no_x2apic : (typ == 9) ≡ false = ground arith in rw ((h.2).0, no_local, no_x2apic, rest)

-- For a table whose entries, from the offset 44 to its length, are those of a list of controllers, local APICs of 8
-- bytes, x2APICs of 16 and others of two bytes at least: `Madt::parse` returns the IDs of the APICs that are
-- enabled or online capable, in their order.
pub parse_madt-usable_ids :
    (mem : Memory) (cs : List Controller)
    → AreLaid mem 44 (length_of mem) cs
    → parse_madt mem ≡ ok (usable_ids cs)
unfolding parse_madt parse_table_entries
parse_madt-usable_ids mem cs h =
    let entries =
      entries_loop-AreLaid (suc (length_of mem)) mem (from_sig (signature_of mem)) 44
        (length_of mem) cs (omega arith) h in
    rw (parse_madt, parse_table_entries, entries) (apic_ids-AreLaid mem 44 (length_of mem) cs h)
