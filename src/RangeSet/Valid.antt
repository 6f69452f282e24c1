-- ===== src/RangeSet/Valid.antt =====
-- The invariant of `RangeSet` in shared/rangeset/src/lib.rs.
use elise.Base.{
  ◌+◌, ◌-◌, ◌≤◌, ◌≡◌, refl, sym, List, arith, length, drop, length-append, length-take, length-drop,
  take-append-drop, take_prefix, ap, ◌∙◌, [], ◌∷◌,
}
use elise.Range.{Range}
use elise.RangeSet.{RangeSet, entries, new_set}
use elise.RangeSet.Layout.{holding}
use elise.RangeSet.Entries.{Sorted}

-- The array has 256 slots, and those in use hold valid ranges in ascending order that share no
-- address.
pub record IsValid (s : RangeSet) : Type 0 where
  pub size : length s.ranges ≡ 256
  pub used : s.in_use ≤ 256
  pub sorted : Sorted 0 (entries s)

abbrev pub spare : RangeSet → List Range
spare s = drop s.in_use s.ranges

pub length-entries : {s : RangeSet} → IsValid s → length (entries s) ≡ s.in_use
length-entries {s} v = omega (arith, length-take s.in_use s.ranges, v.size, v.used)

pub length-spare : {s : RangeSet} → IsValid s → length (spare s) ≡ 256 - s.in_use
length-spare {s} v = omega (arith, length-drop s.in_use s.ranges, v.size)

-- A valid set in the form of its entries and the slots behind them.
pub holding-entries : {s : RangeSet} → IsValid s → s ≡ holding (entries s) (spare s)
holding-entries {s} v = λ i. record {
  ranges = sym (take-append-drop s.in_use s.ranges) i;
  in_use = sym (length-entries v) i;
}

pub entries-holding : (es slots : List Range) → entries (holding es slots) ≡ es
entries-holding es slots = take_prefix es slots

pub holding-IsValid :
    (es slots : List Range)
    → length es + length slots ≡ 256
    → Sorted 0 es
    → IsValid (holding es slots)
holding-IsValid es slots n s = record {
  size = omega (arith, length-append es slots);
  used = omega arith;
  sorted = rw (take_prefix es slots) s;
}

pub eq_nil : (slots : List Range) → length slots ≡ 0 → slots ≡ []
eq_nil [] h = refl
eq_nil (z ∷ zs) h = absurd (omega arith)

pub full-holding : {s : RangeSet} → IsValid s → s.in_use ≡ 256 → s ≡ holding (entries s) []
full-holding {s} v full =
    holding-entries v ∙ ap (holding (entries s)) (eq_nil (spare s) (omega (arith, length-spare v)))

-- The empty set is valid.
pub new_set-IsValid : IsValid new_set
unfolding new_set
new_set-IsValid = record { size = refl; used = omega arith; sorted = tt }
