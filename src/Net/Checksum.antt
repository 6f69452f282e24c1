-- ===== src/Net/Checksum.antt =====
-- `Packet::checksum` of kernel/src/net/packet.rs against the sum of RFC 1071.
pub mod Parts
use elise.Base.{
  ℕ, ◌+◌, ◌-◌, ◌*◌, ◌%◌, ◌^◌, ◌≤◌, ◌<◌, ◌≡◌, refl, ap, sym, ◌∙◌, arith, List, [], ◌∷◌, length, ltb,
  ◌==◌, if◌then◌else◌,
}
use elise.Net.Bytes.{AreBytes}
use elise.Net.Packet.{checksum_words, fold_carry, checksum}

-- Addition of 16-bit words in ones' complement: a carry out of the word is added at its low end.
unfoldable pub add_around : ℕ → ℕ → ℕ
add_around a b = if ltb (a + b) (2 ^ 16) then a + b else a + b - 65535

-- The sum in ones' complement of the big-endian words, an odd byte at the end padded with a zero.
unfoldable pub ones_sum : ℕ → List ℕ → ℕ
unfolding add_around
ones_sum sum [] = sum
ones_sum sum (last ∷ []) = add_around sum (last * 2 ^ 8)
ones_sum sum (a ∷ b ∷ bytes) = ones_sum (add_around sum (a * 2 ^ 8 + b)) bytes

-- The word that a wide sum folds to.
unfoldable pub folded : ℕ → ℕ
folded sum = if sum == 0 then 0 else (sum - 1) % 65535 + 1

pub add_around-folded :
    (sum word : ℕ) → word < 2 ^ 16 → add_around (folded sum) word ≡ folded (sum + word)
unfolding add_around folded
add_around-folded sum word h = ground arith

pub fold_carry-folded : (sum : ℕ) → sum < 2 ^ 32 → fold_carry (fold_carry sum) % 2 ^ 16 ≡ folded sum
unfolding folded
fold_carry-folded sum h = ground arith

checksum_words-ones_sum :
    (sum : ℕ) (bytes : List ℕ)
    → AreBytes bytes
    → sum + (length bytes + 1) * 2 ^ 15 < 2 ^ 32
    → (folded (checksum_words sum bytes) ≡ ones_sum (folded sum) bytes)
      × (checksum_words sum bytes < 2 ^ 32)
unfolding checksum_words ones_sum
checksum_words-ones_sum sum [] h n = (refl, omega arith)
checksum_words-ones_sum sum (last ∷ []) (h, _) n =
    let small : (sum + last * 2 ^ 8) % 2 ^ 32 ≡ sum + last * 2 ^ 8 = omega arith in
    (ap folded small ∙ sym (add_around-folded sum (last * 2 ^ 8) (omega arith)), omega arith)
checksum_words-ones_sum sum (a ∷ b ∷ bytes) (h, (k, hs)) n =
    let small : (sum + (a * 2 ^ 8 + b)) % 2 ^ 32 ≡ sum + (a * 2 ^ 8 + b) = omega arith in
    let rest = checksum_words-ones_sum ((sum + (a * 2 ^ 8 + b)) % 2 ^ 32) bytes hs (omega arith) in
    (
      rest.0
          ∙ ap (λ s. ones_sum s bytes)
              (ap folded small ∙ sym (add_around-folded sum (a * 2 ^ 8 + b) (omega arith))),
      rest.1,
    )

-- The checksum of at most 2^16 bytes is their sum in ones' complement: the wide accumulator loses no
-- carry, and two folds are enough.
pub checksum-ones_sum :
    (bytes : List ℕ) → AreBytes bytes → length bytes ≤ 2 ^ 16 → checksum bytes ≡ ones_sum 0 bytes
unfolding checksum folded
checksum-ones_sum bytes h n =
    let words = checksum_words-ones_sum 0 bytes h (omega arith) in
    fold_carry-folded (checksum_words 0 bytes) words.1 ∙ words.0
