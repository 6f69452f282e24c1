-- ===== src/RangeSet/Refine.antt =====
-- Sequences of `insert` and `remove` of shared/rangeset/src/lib.rs, and the set of addresses that they
-- stand for.
use elise.Base.{
  ℕ, suc, ◌+◌, ◌≤◌, ◌<◌, ◌≡◌, refl, subst, Bool, true, false, ◌&&◌, ◌||◌, not, ◌⊎◌, inl, inr,
  dec_lt, max, List, [], ◌∷◌, length, arith, u64_max,
}
use mathlib.Core.Path.{fun_ext}
use elise.Range.{Range, overlaps}
use elise.RangeSet.{
  RangeSet, M, is_none, ◌>>◌, ◌>>=◌, return, done, insert, remove, new_set, entries,
}
use elise.RangeSet.Entries.{within, covers, EndsBelow, Sorted}
use elise.RangeSet.Valid.{IsValid}
use elise.RangeSet.Pieces.{touches}
use elise.RangeSet.Spared.{remove-covers_few}
use elise.RangeSet.Gathered.{IsOpen, new_set-IsOpen, insert-IsOpen}

pub data Op : Type 0 where
  inserts removes : Range → Op

-- The calls one after the other, with `?` behind each, and what the calls of `remove` return.
unfoldable pub run : List Op → M (List Bool)
run [] = return []
run (inserts r ∷ ops) = insert r >> run ops
run (removes r ∷ ops) = do any ← remove r; rest ← run ops; return (any ∷ rest)

-- The set of addresses that a call stands for.
abbrev pub apply_op : Op → (ℕ → Bool) → ℕ → Bool
apply_op (inserts r) p x = within r x || p x
apply_op (removes r) p x = p x && not (within r x)

abbrev pub addresses : List Op → (ℕ → Bool) → ℕ → Bool
addresses [] p = p
addresses (op ∷ ops) p = addresses ops (apply_op op p)

-- Whether an address of the range is in the set.
abbrev pub IsAnswer : Range → (ℕ → Bool) → Bool → Type 0
IsAnswer r p any =
    ((any ≡ true) × (x : ℕ) × (within r x ≡ true) × (p x ≡ true))
    ⊎ ((any ≡ false) × ((x : ℕ) → (within r x && p x) ≡ false))

abbrev pub AreAnswers : List Op → (ℕ → Bool) → List Bool → Type 0
AreAnswers [] p [] = Unit {0}
AreAnswers (inserts r ∷ ops) p answers = AreAnswers ops (apply_op (inserts r) p) answers
AreAnswers (removes r ∷ ops) p (any ∷ answers) =
    IsAnswer r p any × AreAnswers ops (apply_op (removes r) p) answers
AreAnswers _ _ _ = ⊥

-- Ranges that end below the last address.
abbrev pub AreRanges : List Op → Type 0
AreRanges [] = Unit {0}
AreRanges (inserts r ∷ ops) = (r.start ≤ r.end) × (r.end < u64_max) × AreRanges ops
AreRanges (removes r ∷ ops) = (r.start ≤ r.end) × (r.end < u64_max) × AreRanges ops

covers_last : (es : List Range) → EndsBelow es → covers es u64_max ≡ false
covers_last [] h = refl
covers_last (e ∷ es) (h, hs) = ground (arith, covers_last es hs)

EndsBelow-covers :
    (es : List Range) (b : ℕ) → Sorted b es → covers es u64_max ≡ false → EndsBelow es
EndsBelow-covers [] b s h = tt
EndsBelow-covers (e ∷ es) b s h =
    (ground (arith, s.1, s.2), EndsBelow-covers es (e.end + 1) s.3 (ground arith))

-- `remove` keeps an open set open.
remove-IsOpen :
    (n : ℕ) (r : Range) (s : RangeSet)
    → IsOpen n s
    → n < 256
    → r.start ≤ r.end
    → (s' : RangeSet) × (remove r s ≡ done (touches r (entries s)) s')
      × IsOpen (suc n) s'
      × ((x : ℕ) → covers (entries s') x ≡ covers (entries s) x && not (within r x))
remove-IsOpen n r s o room ordered =
    let (s', returns, valid, few, same) =
      remove-covers_few r s o.valid ordered (omega (arith, o.few, room)) in
    let last = covers_last (entries s) o.below in
    (
      s',
      returns,
      record {
        valid = valid;
        below = EndsBelow-covers (entries s') 0 valid.sorted (ground (arith, same u64_max, last));
        few = omega (arith, few, o.few);
      },
      same,
    )

-- An entry that shares no address with the range does not change the answer.
IsAnswer-skip :
    (r e : Range) (es : List Range)
    → is_none (overlaps e r) ≡ true
    → ((x : ℕ) → (within r x && within e x) ≡ false)
    → IsAnswer r (covers es) (touches r es)
    → IsAnswer r (covers (e ∷ es)) (touches r (e ∷ es))
IsAnswer-skip r e es apart none_shared (inl (yes_any, x, w, c)) =
    inl (rw apart yes_any, x, w, ground arith)
IsAnswer-skip r e es apart none_shared (inr (no_any, h)) =
    inr (rw apart no_any, λ x. ground (arith, h x, none_shared x))

touches-IsAnswer :
    (r : Range) (es : List Range) (b : ℕ)
    → r.start ≤ r.end
    → Sorted b es
    → IsAnswer r (covers es) (touches r es)
touches-IsAnswer r [] b v s = inr (refl, λ x. ground arith)
touches-IsAnswer r (e ∷ es) b v s =
    let rest = touches-IsAnswer r es (e.end + 1) v s.3 in
    elim (dec_lt r.end e.start) [
      | yes p ↦ IsAnswer-skip r e es (ground arith) (λ x. ground arith) rest
      | no p ↦ elim (dec_lt e.end r.start) [
        | yes q ↦ IsAnswer-skip r e es (ground arith) (λ x. ground arith) rest
        | no q ↦ inl (ground arith, max e.start r.start, ground (arith, s.1), ground (arith, s.1))
      ]
    ]

-- What a sequence of calls returns and leaves behind.
pub record Refines (ops : List Op) (n : ℕ) (p : ℕ → Bool) (s : RangeSet) : Type 0 where
  pub after : RangeSet
  pub answers : List Bool
  pub returns : run ops s ≡ done answers after
  pub open_set : IsOpen (n + length ops) after
  pub same : (x : ℕ) → covers (entries after) x ≡ addresses ops p x
  pub answered : AreAnswers ops p answers

run-insert :
    (r : Range) (ops : List Op) (answers : List Bool) (s s₁ s₂ : RangeSet)
    → insert r s ≡ done tt s₁
    → run ops s₁ ≡ done answers s₂
    → run (inserts r ∷ ops) s ≡ done answers s₂
unfolding run
run-insert r ops answers s s₁ s₂ e f = rw (e, f) refl

run-remove :
    (r : Range) (ops : List Op) (any : Bool) (answers : List Bool) (s s₁ s₂ : RangeSet)
    → remove r s ≡ done any s₁
    → run ops s₁ ≡ done answers s₂
    → run (removes r ∷ ops) s ≡ done (any ∷ answers) s₂
unfolding run
run-remove r ops any answers s s₁ s₂ e f = rw (e, f) refl

run-Refines :
    (ops : List Op) (n : ℕ) (s : RangeSet)
    → AreRanges ops
    → IsOpen n s
    → n + length ops ≤ 256
    → Refines ops n (covers (entries s)) s
unfolding run
run-Refines [] n s h o room = record {
  after = s;
  answers = [];
  returns = refl;
  open_set = record { valid = o.valid; below = o.below; few = omega (arith, o.few) };
  same = λ x. refl;
  answered = tt;
}
run-Refines (inserts r ∷ ops) n s (ordered, top, h) o room =
    let (s₁, returns, o₁, more) = insert-IsOpen n r s o (omega (arith, room)) ordered top in
    let view : covers (entries s₁) ≡ apply_op (inserts r) (covers (entries s)) = fun_ext more in
    let rest : Refines ops (suc n) (apply_op (inserts r) (covers (entries s))) s₁ =
      subst (λ p. Refines ops (suc n) p s₁) view
        (run-Refines ops (suc n) s₁ h o₁ (omega (arith, room))) in
    record {
      after = rest.after;
      answers = rest.answers;
      returns = run-insert r ops rest.answers s s₁ rest.after returns rest.returns;
      open_set = record {
        valid = rest.open_set.valid;
        below = rest.open_set.below;
        few = omega (arith, rest.open_set.few);
      };
      same = rest.same;
      answered = rest.answered;
    }
run-Refines (removes r ∷ ops) n s (ordered, top, h) o room =
    let (s₁, returns, o₁, less) = remove-IsOpen n r s o (omega (arith, room)) ordered in
    let view : covers (entries s₁) ≡ apply_op (removes r) (covers (entries s)) = fun_ext less in
    let rest : Refines ops (suc n) (apply_op (removes r) (covers (entries s))) s₁ =
      subst (λ p. Refines ops (suc n) p s₁) view
        (run-Refines ops (suc n) s₁ h o₁ (omega (arith, room))) in
    record {
      after = rest.after;
      answers = touches r (entries s) ∷ rest.answers;
      returns =
          run-remove r ops (touches r (entries s)) rest.answers s s₁ rest.after returns
            rest.returns;
      open_set = record {
        valid = rest.open_set.valid;
        below = rest.open_set.below;
        few = omega (arith, rest.open_set.few);
      };
      same = rest.same;
      answered = (touches-IsAnswer r (entries s) 0 ordered o.valid.sorted, rest.answered);
    }

-- At most 256 calls of `insert` and `remove` on a new set, with ranges that end below the last address,
-- return without an error: the set stays valid and covers the addresses that the calls stand for, and each
-- call of `remove` returns whether the set had an address of its range.
pub run-addresses :
    (ops : List Op)
    → AreRanges ops
    → length ops ≤ 256
    → (answers : List Bool) × (s : RangeSet) × (run ops new_set ≡ done answers s)
      × IsValid s
      × ((x : ℕ) → covers (entries s) x ≡ addresses ops (λ x. false) x)
      × AreAnswers ops (λ x. false) answers
unfolding new_set
run-addresses ops h room =
    let r = run-Refines ops 0 new_set h new_set-IsOpen (omega (arith, room)) in
    (r.answers, r.after, r.returns, r.open_set.valid, r.same, r.answered)
