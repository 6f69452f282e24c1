-- ===== src/Elf/Header.antt =====
-- The header of an ELF file in shared/elf_parser/src/lib.rs and its table of program headers.
use elise.Base.{ℕ, ◌+◌, ◌*◌, ◌<◌, ◌≤◌, ◌≡◌, refl, subst, arith, List, length, leb}
use elise.Range.{checked_add}
use elise.Elf.{
  Error, check, checked, checked_mul, Answer, value, error, panics, answer_then, Elf, parse,
  parse_table,
}

-- A predicate on a result that is not an error.
unfoldable IfValue : {A : Type 0} → (A → Type 0) → Answer A → Type 0
IfValue P (value a) = P a
IfValue P (error e) = Unit {0}
IfValue P panics = Unit {0}

IfValue-answer_then :
    {A B : Type 0} (P : B → Type 0) (m : Answer A) (f : A → Answer B)
    → ((a : A) → m ≡ value a → IfValue P (f a))
    → IfValue P (answer_then m f)
unfolding IfValue answer_then
IfValue-answer_then P (value a) f h = h a refl
IfValue-answer_then P (error e) f h = tt
IfValue-answer_then P panics f h = tt

IfValue-value : {A : Type 0} (P : A → Type 0) {a : A} → P a → IfValue P (value a)
unfolding IfValue
IfValue-value P h = h

-- The table of program headers lies in the file.
pub record IsParsed (bytes : List ℕ) (elf : Elf) : Type 0 where
  pub same_file : elf.bytes ≡ bytes
  pub table_in_file : elf.ph_offset + elf.ph_num * elf.ph_entry_size ≤ length bytes

check-leb : (a b : ℕ) (e : Error) {u : Unit {0}} → check (leb a b) e ≡ value u → a ≤ b
check-leb a b e h = ground arith

checked-add : (a b : ℕ) {n : ℕ} → checked (checked_add a b) ≡ value n → n ≡ a + b
checked-add a b h = ground arith

checked-mul : (a b : ℕ) {n : ℕ} → checked (checked_mul a b) ≡ value n → n ≡ a * b
checked-mul a b h = ground arith

parse_table-IsParsed :
    (bytes : List ℕ) (entry : ℕ) → IfValue (IsParsed bytes) (parse_table bytes entry)
unfolding parse_table
parse_table-IsParsed bytes entry = IfValue-answer_then _ _ _ λ ph_offset _.
    IfValue-answer_then _ _ _ λ ph_entry_size _. IfValue-answer_then _ _ _ λ ph_num _.
      IfValue-answer_then _ _ _ λ entries_size product. IfValue-answer_then _ _ _ λ table_size sum.
        IfValue-answer_then _ _ _ λ _ inside. IfValue-value _ (record {
          same_file = refl;
          table_in_file = omega (
            arith,
            checked-mul ph_num ph_entry_size product,
            checked-add ph_offset entries_size sum,
            check-leb table_size (length bytes) _ inside,
          );
        })

IfValue-parse : (bytes : List ℕ) → IfValue (IsParsed bytes) (parse bytes)
unfolding parse
IfValue-parse bytes = IfValue-answer_then _ _ _ λ _ _. IfValue-answer_then _ _ _ λ _ _.
    IfValue-answer_then _ _ _ λ _ _. IfValue-answer_then _ _ _ λ _ _.
      IfValue-answer_then _ _ _ λ _ _. IfValue-answer_then _ _ _ λ _ _.
        IfValue-answer_then _ _ _ λ _ _. IfValue-answer_then _ _ _ λ _ _.
          IfValue-answer_then _ _ _ λ _ _. IfValue-answer_then _ _ _ λ _ _.
            IfValue-answer_then _ _ _
              λ _ _. IfValue-answer_then _ _ _ λ entry _. parse_table-IsParsed bytes entry

-- A parsed file is the file given, and its table of program headers lies in it.
pub parse-IsParsed : (bytes : List ℕ) (elf : Elf) → parse bytes ≡ value elf → IsParsed bytes elf
unfolding IfValue
parse-IsParsed bytes elf e = subst (IfValue (IsParsed bytes)) e (IfValue-parse bytes)

-- A file of less than four bytes makes the parser panic.
pub parse_short : (bytes : List ℕ) → length bytes < 4 → parse bytes ≡ panics
unfolding parse answer_then
parse_short bytes h = ground arith
