-- ===== src/Elf/Bounds.antt =====
-- What shared/elf_parser/src/lib.rs hands out lies inside the file.
use elise.Base.{
  ◌⊎◌, inl, inr, ℕ, zero, suc, ◌+◌, ◌-◌, ◌*◌, ◌%◌, ◌^◌, ◌<◌, ◌≤◌, ◌≡◌, refl, sym, subst, ap, ◌∙◌,
  arith, Option, none, some, List, [], ◌∷◌, length, leb, ◌==◌, if◌then◌else◌, take, drop,
  bit_and_high64, pow-add, length-take, length-drop,
}
use elise.Range.{checked_add}
use native.Mathlib.Nat.{one-le-pow}
use elise.Net.Bytes.{AreBytes}
use elise.Elf.Header.{parse-IsParsed}
use elise.Elf.{
  Error, value, Item, ended, failed, got, item_then, Segment, Elf, get_bytes, get_or_end,
  check_item, checked_or_end, field, mask_of, segment_of, load, next_of, next, parse, from_le,
}

-- A predicate on the results that are handed out.
unfoldable pub IfGot : {A : Type 0} → (A → Type 0) → Item A → Type 0
IfGot P ended = Unit {0}
IfGot P (failed e) = Unit {0}
IfGot P (got a) = P a

IfGot-item_then :
    {A B : Type 0} (P : B → Type 0) (m : Item A) (f : A → Item B)
    → ((a : A) → m ≡ got a → IfGot P (f a))
    → IfGot P (item_then m f)
unfolding IfGot item_then
IfGot-item_then P ended f h = tt
IfGot-item_then P (failed e) f h = tt
IfGot-item_then P (got a) f h = h a refl

IfGot-got : {A : Type 0} (P : A → Type 0) {a : A} → P a → IfGot P (got a)
unfolding IfGot
IfGot-got P h = h

-- A segment with its data in the file, at a page boundary, and no larger in the file than in memory.
pub record IsLoadable (bytes : List ℕ) (seg : Segment) : Type 0 where
  pub start : ℕ
  pub in_file : start + length seg.bytes ≤ length bytes
  pub data_of_file : seg.bytes ≡ take (length seg.bytes) (drop start bytes)
  pub fits : length seg.bytes ≤ seg.vsize
  pub aligned : seg.vaddr % 2 ^ 12 ≡ 0
  pub in_page : seg.offset < 2 ^ 12

-- What the tests before a segment is made leave for it.
segment_of-IsLoadable :
    (bytes : List ℕ) (flags raw_offset vaddr raw_size vsize align_mask : ℕ)
    → vaddr < 2 ^ 64
    → raw_size ≤ vsize
    → raw_offset + raw_size ≤ length bytes
    → align_mask ≡ 0xFFF
    → IsLoadable bytes (segment_of bytes flags raw_offset vaddr raw_size vsize align_mask)
unfolding segment_of
segment_of-IsLoadable bytes flags raw_offset vaddr raw_size vsize align_mask small fits inside
      mask =
    rw mask (record {
      start = raw_offset;
      in_file = omega (arith, size, inside);
      data_of_file = ap (λ n. take n (drop raw_offset bytes)) (sym size);
      fits = omega (arith, size, fits);
      aligned = rw (bit_and_high64 12 vaddr (omega arith) small) (omega arith);
      in_page = rw (bit_and_high64 12 vaddr (omega arith) small) (omega arith);
    })
  where
    size : length (take raw_size (drop raw_offset bytes)) ≡ raw_size
    size =
        omega (
          arith,
          length-take raw_size (drop raw_offset bytes),
          length-drop raw_offset bytes,
          inside,
        )

AreBytes-drop : (n : ℕ) (xs : List ℕ) → AreBytes xs → AreBytes (drop n xs)
AreBytes-drop zero xs h = h
AreBytes-drop (suc n) [] h = tt
AreBytes-drop (suc n) (x ∷ xs) (h, hs) = AreBytes-drop n xs hs

more_digits : (n : ℕ) → 2 ^ (8 * suc n) ≡ 2 ^ 8 * 2 ^ (8 * n)
more_digits n = let e : 8 * suc n ≡ 8 + 8 * n = omega arith in ap (λ k. 2 ^ k) e ∙ pow-add 8 (8 * n)

from_le-lt : (n : ℕ) (xs : List ℕ) → AreBytes xs → from_le (take n xs) < 2 ^ (8 * n)
from_le-lt zero xs h = omega arith
from_le-lt (suc n) [] h = one-le-pow (8 * suc n) 2 (omega arith)
from_le-lt (suc n) (x ∷ xs) (h, hs) = omega (arith, more_digits n, from_le-lt n xs hs)

get_or_end-lt :
    (bytes : List ℕ) (offset size : ℕ) {n : ℕ}
    → AreBytes bytes
    → get_or_end bytes offset size ≡ got n
    → n < 2 ^ (8 * size)
unfolding get_bytes
get_or_end-lt bytes offset size h e =
    let small = from_le-lt size (drop offset bytes) (AreBytes-drop offset bytes h) in ground arith

check_item-leb : (a b : ℕ) (e : Error) {u : Unit {0}} → check_item (leb a b) e ≡ got u → a ≤ b
check_item-leb a b e h = ground arith

check_item-eq : (a b : ℕ) (e : Error) {u : Unit {0}} → check_item (a == b) e ≡ got u → a ≡ b
check_item-eq a b e h = ground arith

checked_or_end-add : (a b : ℕ) {n : ℕ} → checked_or_end (checked_add a b) ≡ got n → n ≡ a + b
checked_or_end-add a b h = ground arith

load-IsLoadable :
    (bytes : List ℕ) (offset : ℕ) → AreBytes bytes → IfGot (IsLoadable bytes) (load bytes offset)
unfolding load
load-IsLoadable bytes offset h = IfGot-item_then _ _ _ λ flags _.
    IfGot-item_then _ _ _ λ raw_offset _. IfGot-item_then _ _ _ λ vaddr at_vaddr.
      IfGot-item_then _ _ _ λ raw_size _. IfGot-item_then _ _ _ λ vsize _.
        IfGot-item_then _ _ _ λ _ small. IfGot-item_then _ _ _ λ raw_end sum.
          IfGot-item_then _ _ _ λ _ inside. IfGot-item_then _ _ _ λ align _.
            IfGot-item_then _ _ _ λ _ mask. IfGot-got _ (
              segment_of-IsLoadable bytes flags raw_offset vaddr raw_size vsize (mask_of align)
                (get_or_end-lt bytes (field offset 0x10) 8 h at_vaddr)
                (check_item-leb raw_size vsize _ small)
                (omega (
                  arith,
                  checked_or_end-add raw_offset raw_size sum,
                  check_item-leb raw_end (length bytes) _ inside,
                ))
                (check_item-eq (mask_of align) 0xFFF _ mask))

next_of-IsLoadable :
    (left : ℕ) (elf : Elf) (index : ℕ)
    → AreBytes elf.bytes
    → IfGot (IsLoadable elf.bytes) (next_of left elf index).0
unfolding next_of IfGot
next_of-IsLoadable zero elf index h = tt
next_of-IsLoadable (suc left) elf index h =
    let offset = (elf.ph_offset + index * elf.ph_entry_size) % 2 ^ 64 in
    let here = load-IsLoadable elf.bytes offset h in
    let rest = next_of-IsLoadable left elf (index + 1) h in ground arith

-- What a round returns: nothing, the segment at hand, or what the later rounds return.
round_cases :
    (kind : Option ℕ) (stop here rest result : Item Segment × ℕ)
    → elim kind as (λ _. Item Segment × ℕ) [ none ↦ stop | some k ↦ if k == 1 then here else rest ]
      ≡ result
    → (stop ≡ result) ⊎ (here ≡ result) ⊎ (rest ≡ result)
round_cases none stop here rest result e = inl e
round_cases (some k) stop here rest result e = ground arith

ended-ne-got : {seg : Segment} → ended ≡ got seg → ⊥
ended-ne-got e = cc

next_of-advances :
    (left : ℕ) (elf : Elf) (index index' : ℕ) (seg : Segment)
    → next_of left elf index ≡ (got seg, index')
    → (index < index') × (index' ≤ index + left)
unfolding next_of
next_of-advances zero elf index index' seg e = cc
next_of-advances (suc left) elf index index' seg e =
    let offset = (elf.ph_offset + index * elf.ph_entry_size) % 2 ^ 64 in
    elim (round_cases (get_bytes elf.bytes (field offset 0x00) 4) (ended, index + 1)
      (load elf.bytes offset, index + 1) (next_of left elf (index + 1)) (got seg, index') e) [
        | inl stop ↦ absurd (ended-ne-got (ap (λ r. r.0) stop))
        | inr (inl here) ↦ let one : index + 1 ≡ index' = ap (λ r. r.1) here in omega arith
        | inr (inr rest) ↦ omega (arith, next_of-advances left elf (index + 1) index' seg rest)
      ]

-- Every segment that the iterator hands out of a parsed file of bytes has its data inside the file, is no larger
-- there than in memory, and starts at a page boundary; the iterator moves forward, and never behind the
-- last program header.
pub next-IsLoadable :
    (bytes : List ℕ) (elf : Elf) (index index' : ℕ) (seg : Segment)
    → AreBytes bytes
    → parse bytes ≡ value elf
    → next elf index ≡ (got seg, index')
    → IsLoadable bytes seg × (index < index') × (index' ≤ elf.ph_num)
unfolding next IfGot
next-IsLoadable bytes elf index index' seg h p e =
    let parsed = parse-IsParsed bytes elf p in
    let left = elf.ph_num - index in
    let all_bytes = subst AreBytes (sym parsed.same_file) h in
    let (before, after) = next_of-advances left elf index index' seg e in
    (
      subst (λ b. IsLoadable b seg) parsed.same_file
          (subst (IfGot (IsLoadable elf.bytes)) (ap (λ r. r.0) e)
            (next_of-IsLoadable left elf index all_bytes)),
      before,
      omega (arith, before, after),
    )
