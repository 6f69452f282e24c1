-- ===== src/PageTable.antt =====
-- shared/page_table/src/lib.rs: addresses, page types, permissions and the components of a mapping. A
-- physical or virtual address is its `u64`.
pub mod Walk
pub mod Map
pub mod Laws
mod Entries
mod Path
mod Create
mod Tables
pub mod Finds
mod Written
pub mod Mapped
pub mod Frame
mod Errors
mod Flags
mod Canonical
mod VirtBase
mod Tests
use elise.Base.{
  ℕ, ◌+◌, ◌-◌, ◌*◌, ◌/◌, ◌%◌, ◌^◌, Bool, true, false, ◌&&◌, ◌||◌, Option, none, some, List, [], ◌∷◌,
  ◌==◌, if◌then◌else◌, bit_or, bit_and, u64_max,
}

-- `n & (1 << k) != 0`
abbrev pub bit : ℕ → ℕ → Bool
bit k n = n / 2 ^ k % 2 == 1

abbrev pub is_present : ℕ → Bool
is_present = bit 0

abbrev pub is_large : ℕ → Bool
is_large = bit 7

abbrev pub page_write : ℕ
page_write = 2 ^ 1

abbrev pub page_user : ℕ
page_user = 2 ^ 2

abbrev pub page_cache_disable : ℕ
page_cache_disable = 2 ^ 4

abbrev pub page_size_bit : ℕ
page_size_bit = 2 ^ 7

abbrev pub page_nxe : ℕ
page_nxe = 2 ^ 63

pub data Error : Type 0 where
  invalid_page mapped_already smaller_pages_present address_not_canonical address_unaligned : Error

pub data PageType : Type 0 where
  page_4k page_2m page_1g : PageType

-- The binary logarithm of the size.
abbrev pub shift_of : PageType → ℕ
shift_of page_4k = 12
shift_of page_2m = 21
shift_of page_1g = 30

abbrev pub size_of : PageType → ℕ
size_of t = 2 ^ shift_of t

abbrev pub is_4k : PageType → Bool
is_4k page_4k = true
is_4k _ = false

abbrev pub size_bit : PageType → ℕ
size_bit page_4k = 0
size_bit _ = page_size_bit

-- `is_aligned` of both address types; `val` is a power of two wherever it is called.
unfoldable pub is_aligned : ℕ → ℕ → Bool
is_aligned val addr = bit_and addr (u64_max - (val - 1)) == addr

pub record Permissions : Type 0 where
  pub write : Bool
  pub execute : Bool
  pub user : Bool
  pub cache : Bool

unfoldable pub new_permissions : Bool → Bool → Bool → Permissions
new_permissions write execute user = record {
  write = write;
  execute = execute;
  user = user;
  cache = false;
}

unfoldable pub uncached : Bool → Bool → Bool → Permissions
uncached write execute user = record { write = write; execute = execute; user = user; cache = true }

unfoldable pub bits : Permissions → ℕ
bits p =
    bit_or
      (bit_or (bit_or (if p.write then page_write else 0) (if p.user then page_user else 0))
        (if p.execute then 0 else page_nxe))
      (if p.cache then 0 else page_cache_disable)

pub record MapRequest : Type 0 where
  pub page_type : PageType
  pub vaddr : ℕ
  pub size : ℕ
  pub permissions : Permissions

pub data Result {ℓ} (A : Type ℓ) : Type ℓ where
  ok : A → Result A
  err : Error → Result A

unfoldable pub new_request : ℕ → PageType → ℕ → Permissions → Result MapRequest
unfolding is_aligned
new_request vaddr page_type size permissions =
    if is_aligned (size_of page_type) vaddr
    then ok
        (record { page_type = page_type; vaddr = vaddr; size = size; permissions = permissions })
    else err address_unaligned

-- `page` is the base of the page, the offset into it and the entry.
pub record Mapping : Type 0 where
  pub pml4e : Option ℕ
  pub pdpe : Option ℕ
  pub pde : Option ℕ
  pub pte : Option ℕ
  pub page : Option (ℕ × ℕ × ℕ)

abbrev pub no_mapping : Mapping
no_mapping = record { pml4e = none; pdpe = none; pde = none; pte = none; page = none }

-- `cpu::canonicalize_address`: the sign bit of the low `64 - high_bits` bits fills the high ones.
abbrev pub canonicalize_address : ℕ → ℕ → ℕ
canonicalize_address high_bits addr =
    let low = addr % 2 ^ (64 - high_bits) in
    if bit (63 - high_bits) addr then low + (2 ^ 64 - 2 ^ (64 - high_bits)) else low

-- `(entry.unwrap_or(PhysAddr(0)).0 & 0xFFF) / ES`
abbrev pub index_of : Option ℕ → ℕ
index_of none = 0
index_of (some entry) = entry % 2 ^ 12 / 8

abbrev pub is_some {ℓ} : {A : Type ℓ} → Option A → Bool
is_some none = false
is_some (some a) = true

unfoldable pub virt_base : Mapping → Option ℕ
virt_base m =
    if is_some m.page
    then some (
        canonicalize_address 16 (
          bit_or
            (bit_or (bit_or (index_of m.pml4e * 2 ^ 39) (index_of m.pdpe * 2 ^ 30))
              (index_of m.pde * 2 ^ 21))
            (index_of m.pte * 2 ^ 12)))
    else none

unfoldable pub page_type : Mapping → Option PageType
page_type m =
    if is_some m.page
    then some (if is_some m.pde then (if is_some m.pte then page_4k else page_2m) else page_1g)
    else none

abbrev pub get_indices : ℕ → List ℕ
get_indices vaddr =
    vaddr / 2 ^ 39 % 2 ^ 9
    ∷ vaddr / 2 ^ 30 % 2 ^ 9
    ∷ vaddr / 2 ^ 21 % 2 ^ 9
    ∷ vaddr / 2 ^ 12 % 2 ^ 9
    ∷ []
