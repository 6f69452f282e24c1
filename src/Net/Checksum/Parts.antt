-- ===== src/Net/Checksum/Parts.antt =====
-- Checksums of bytes in parts: the sums of kernel/src/net/packet.rs, as
-- kernel/src/net/protocols/udp.rs adds them up.
use elise.Base.{ℕ, ◌+◌, ◌-◌, ◌*◌, ◌^◌, ◌≤◌, ◌<◌, ◌≡◌, arith, List, [], ◌∷◌, ◌++◌, length}
use elise.Net.Bytes.{AreBytes}
use elise.Net.Packet.{checksum}
use elise.Net.Checksum.{ones_sum, folded, add_around-folded, checksum-ones_sum}

-- The sum of the words, which never wraps.
unfoldable pub word_sum : List ℕ → ℕ
word_sum [] = 0
word_sum (last ∷ []) = last * 2 ^ 8
word_sum (a ∷ b ∷ bytes) = a * 2 ^ 8 + b + word_sum bytes

ones_sum-word_sum :
    (sum : ℕ) (bytes : List ℕ)
    → AreBytes bytes
    → ones_sum (folded sum) bytes ≡ folded (sum + word_sum bytes)
unfolding ones_sum word_sum
ones_sum-word_sum sum [] h = let e : sum + 0 ≡ sum = omega arith in rw e
ones_sum-word_sum sum (last ∷ []) (h, _) = add_around-folded sum (last * 2 ^ 8) (omega arith)
ones_sum-word_sum sum (a ∷ b ∷ bytes) (h, (k, hs)) =
    let e : sum + (a * 2 ^ 8 + b) + word_sum bytes ≡ sum + (a * 2 ^ 8 + b + word_sum bytes) =
      omega arith in
    rw (add_around-folded sum (a * 2 ^ 8 + b) (omega arith), ← e)
      (ones_sum-word_sum (sum + (a * 2 ^ 8 + b)) bytes hs)

pub ones_sum-folded : (bytes : List ℕ) → AreBytes bytes → ones_sum 0 bytes ≡ folded (word_sum bytes)
unfolding folded
ones_sum-folded bytes h =
    let e : 0 + word_sum bytes ≡ word_sum bytes = omega arith in
    rw e at (ones_sum-word_sum 0 bytes h)

pub checksum-folded :
    (bytes : List ℕ)
    → AreBytes bytes
    → length bytes ≤ 2 ^ 16
    → checksum bytes ≡ folded (word_sum bytes)
checksum-folded bytes h n = rw (checksum-ones_sum bytes h n) (ones_sum-folded bytes h)

pub folded-lt : (n : ℕ) → folded n < 2 ^ 16
unfolding folded
folded-lt n = ground arith

pub folded_add :
    (a b c d : ℕ) → folded (folded a + folded b + folded c + d) ≡ folded (a + b + c + d)
unfolding folded
folded_add a b c d = ground arith

-- The words of a part of even length are summed on their own.
pub word_sum-append :
    (n : ℕ) (xs ys : List ℕ) → length xs ≡ 2 * n → word_sum (xs ++ ys) ≡ word_sum xs + word_sum ys
unfolding word_sum
word_sum-append n [] ys h = omega arith
word_sum-append n (x ∷ []) ys h = absurd (omega arith)
word_sum-append n (a ∷ b ∷ xs) ys h = omega (arith, word_sum-append (n - 1) xs ys (omega arith))
