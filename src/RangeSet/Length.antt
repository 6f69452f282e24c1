-- ===== src/RangeSet/Length.antt =====
-- `RangeSet::len` of shared/rangeset/src/lib.rs, and the number of addresses in a set.
use elise.Base.{
  ℕ, zero, suc, ◌+◌, ◌-◌, ◌≤◌, ◌<◌, ◌≡◌, ◌^◌, ◌%◌, refl, ap, sym, ◌∙◌, min, Bool, false, ◌&&◌, ◌||◌,
  List, [], ◌∷◌, some, arith, u64_max, if◌then◌else◌, dec_lt,
}
use elise.Range.{Range}
use elise.RangeSet.{RangeSet, len_from, len, entries}
use elise.RangeSet.Entries.{within, covers, Sorted}
use elise.RangeSet.Valid.{IsValid}

-- How many numbers below `n` are in the set.
unfoldable pub count : ℕ → (ℕ → Bool) → ℕ
count zero p = 0
count (suc n) p = (if p n then 1 else 0) + count n p

abbrev total : List Range → ℕ
total [] = 0
total (e ∷ es) = (e.end - e.start + 1) + total es

count-or :
    (n : ℕ) (p q : ℕ → Bool)
    → ((x : ℕ) → (p x && q x) ≡ false)
    → count n (λ x. p x || q x) ≡ count n p + count n q
unfolding count
count-or zero p q h = refl
count-or (suc n) p q h = ground (arith, count-or n p q h, h n)

count-within :
    (n : ℕ) (e : Range) → e.start ≤ e.end → count n (within e) ≡ min n (e.end + 1) - min n e.start
unfolding count
count-within zero e h = omega arith
count-within (suc n) e h = ground (arith, count-within n e h)

count_none : (n : ℕ) → count n (λ x. false) ≡ 0
unfolding count
count_none zero = refl
count_none (suc n) = omega (arith, count_none n)

covers_behind : (es : List Range) (b x : ℕ) → Sorted b es → x < b → covers es x ≡ false
covers_behind [] b x s h = refl
covers_behind (e ∷ es) b x s h =
    ground (arith, s.0, s.1, covers_behind es (e.end + 1) x s.3 (omega (arith, s.0, s.1, h)))

count-covers :
    (n b : ℕ) (es : List Range) → Sorted b es → u64_max < n → count n (covers es) ≡ total es
count-covers n b [] s h = count_none n
count-covers n b (e ∷ es) s h =
    count-or n (within e) (covers es) (λ x. apart x)
    ∙ omega (arith, count-within n e s.1, count-covers n (e.end + 1) es s.3 h, s.1, s.2)
  where
    apart : (x : ℕ) → (within e x && covers es x) ≡ false
    apart x = elim (dec_lt x (e.end + 1)) [
      | yes p ↦ ground (arith, covers_behind es (e.end + 1) x s.3 p)
      | no p ↦ ground arith
    ]

count-le : (n : ℕ) (p : ℕ → Bool) → count n p ≤ n
unfolding count
count-le zero p = omega arith
count-le (suc n) p = ground (arith, count-le n p)

count-lt : (n x : ℕ) (p : ℕ → Bool) → x < n → p x ≡ false → count n p < n
unfolding count
count-lt zero x p h e = absurd (omega arith)
count-lt (suc n) x p h e = elim (dec_lt x n) [
  | yes q ↦ ground (arith, count-lt n x p q e)
  | no q ↦
      let last : x ≡ n = omega arith in
      let out : p n ≡ false = ap p (sym last) ∙ e in ground (arith, out, count-le n p)
]

len_from-total :
    (acc b : ℕ) (es : List Range)
    → Sorted b es
    → acc + total es ≤ u64_max
    → len_from acc es ≡ some (acc + total es)
unfolding len_from
len_from-total acc b [] s h = ap some (omega arith)
len_from-total acc b (e ∷ es) s h =
    let next = (acc + (e.end - e.start + 1)) % 2 ^ 64 in
    let plain : next ≡ acc + (e.end - e.start + 1) = omega (arith, h) in
    let rest = len_from-total next (e.end + 1) es s.3 (omega (arith, plain, h)) in
    ground (arith, plain, rest, h)

-- On a valid set that lacks an address of `u64`, `len` returns the number of the addresses that it covers.
pub len-count :
    (s : RangeSet) (x : ℕ)
    → IsValid s
    → x ≤ u64_max
    → covers (entries s) x ≡ false
    → len s ≡ some (count (u64_max + 1) (covers (entries s)))
unfolding len
len-count s x v h out =
    let all = count-covers (u64_max + 1) 0 (entries s) v.sorted (omega arith) in
    let less = count-lt (u64_max + 1) x (covers (entries s)) (omega (arith, h)) out in
    len_from-total 0 0 (entries s) v.sorted (omega (arith, all, less))
    ∙ ap some (omega (arith, all))
