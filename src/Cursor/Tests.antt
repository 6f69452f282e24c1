-- ===== src/Cursor/Tests.antt =====
-- `Cursor` of shared/cursor/src/lib.rs on a buffer of six bytes.
use elise.Base.{ℕ, ◌≡◌, refl, arith, some, [], ◌∷◌, length, drop}
use elise.Cursor.{Cursor, returns, new_with_limit, try_set_position, write, get, split_at_checked}
use elise.Cursor.Position.{IsValid, new_with_limit-IsValid}
use elise.Cursor.Write.{after_write, write-appends}

-- Two of six bytes are written, and the limit leaves room for three more.
abbrev half : Cursor ℕ
half = record { inner = 1 ∷ 2 ∷ 0 ∷ 0 ∷ 0 ∷ 0 ∷ []; limit = 5; pos = 2; total_pos = 2 }

half-IsValid : IsValid half
half-IsValid = omega arith

abbrev wide : Cursor ℕ
wide = record half { limit = 100 }

wide-IsValid : IsValid wide
wide-IsValid = omega arith

write_two :
    write (7 ∷ 8 ∷ []) half
    ≡ returns (
      some (2, 4),
      record { inner = 1 ∷ 2 ∷ 7 ∷ 8 ∷ 0 ∷ 0 ∷ []; limit = 5; pos = 4; total_pos = 4 },
    )
unfolding write try_set_position
write_two = refl

split_ahead :
    split_at_checked 3 half
    ≡ some (1 ∷ 2 ∷ 0 ∷ [], record { inner = 0 ∷ 0 ∷ 0 ∷ []; limit = 5; pos = 0; total_pos = 3 })
unfolding split_at_checked
split_ahead = refl

new_with_limit-IsValid_example : IsValid {A = ℕ} (new_with_limit (1 ∷ 2 ∷ []) 5)
new_with_limit-IsValid_example = new_with_limit-IsValid (1 ∷ 2 ∷ []) 5 (omega arith) (omega arith)

write-appends_example :
    (write (7 ∷ 8 ∷ []) half ≡ returns (some (2, 4), after_write (7 ∷ 8 ∷ []) half half-IsValid))
    × IsValid (after_write (7 ∷ 8 ∷ []) half half-IsValid)
    × (get (after_write (7 ∷ 8 ∷ []) half half-IsValid) ≡ returns (1 ∷ 2 ∷ 7 ∷ 8 ∷ []))
    × (drop 4 (after_write (7 ∷ 8 ∷ []) half half-IsValid).inner ≡ 0 ∷ 0 ∷ [])
    × (length (after_write (7 ∷ 8 ∷ []) half half-IsValid).inner ≡ 6)
write-appends_example = write-appends (7 ∷ 8 ∷ []) half half-IsValid (omega arith) (omega arith)
