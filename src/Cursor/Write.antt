-- ===== src/Cursor/Write.antt =====
-- `Cursor::write` of shared/cursor/src/lib.rs.
use elise.Base.{
  ◌+◌, ◌^◌, ◌≤◌, ◌<◌, ◌≡◌, arith, none, some, List, ◌++◌, length, take, drop, le→leb, gt→leb,
  length-append, length-take, length-drop, take-append, drop-append, append_assoc, u64_max, sym,
}
use elise.Cursor.{Cursor, returns, panics, try_set_position, get, write, write_copy}
use elise.Cursor.Position.{IsValid}

module _ {A : Type 0} (buf : List A) (c : Cursor A) (v : IsValid c) where
  -- The buffer after the write.
  abbrev pub written : List A
  written = take c.pos c.inner ++ (buf ++ drop (c.pos + length buf) c.inner)

  abbrev pub after_write : Cursor A
  after_write = record c {
    inner = written;
    pos = c.pos + length buf;
    total_pos = c.total_pos + length buf;
  }

  length-before : length (take c.pos c.inner) ≡ c.pos
  length-before = omega (arith, length-take c.pos c.inner, v.in_buffer)

  try_set_position-forward :
      c.total_pos + length buf ≤ c.limit
      → length buf < 2 ^ 63
      → try_set_position (c.pos + length buf) c ≡ (
        some (c.total_pos + length buf),
        record c { pos = c.pos + length buf; total_pos = c.total_pos + length buf },
      )
  unfolding try_set_position
  try_set_position-forward fits short =
      ground (arith, v.in_buffer, v.counted, v.addressable, v.whole)

  length-written : c.pos + length buf ≤ length c.inner → length written ≡ length c.inner
  length-written room = omega (
    arith,
    length-append (take c.pos c.inner) (buf ++ drop (c.pos + length buf) c.inner),
    length-append buf (drop (c.pos + length buf) c.inner),
    length-drop (c.pos + length buf) c.inner,
    length-before,
  )

  -- A write that fits the limit and the buffer returns the positions around it. It appends its bytes to
  -- what was written, keeps the rest of the buffer, counts its bytes, and keeps the invariant.
  pub write-appends :
      c.total_pos + length buf ≤ c.limit
      → c.pos + length buf ≤ length c.inner
      → (write buf c ≡ returns (some (c.pos, c.pos + length buf), after_write))
        × IsValid after_write
        × (get after_write ≡ returns (take c.pos c.inner ++ buf))
        × (drop after_write.pos after_write.inner ≡ drop (c.pos + length buf) c.inner)
        × (length after_write.inner ≡ length c.inner)
  unfolding write get
  write-appends fits room = (
    rw (
      write,
      le→leb (c.pos + length buf) u64_max (omega (arith, v.whole, v.in_buffer, v.counted)),
      try_set_position-forward fits (omega (arith, v.whole, v.in_buffer, v.counted)),
      write_copy,
      le→leb (c.pos + length buf) (length c.inner) room,
    ),
    record {
      in_buffer = omega (arith, length-written room);
      counted = omega (arith, v.counted);
      in_limit = fits;
      addressable = v.addressable;
      whole = omega (arith, v.whole, length-written room, v.in_buffer);
    },
    rw (
      get,
      length-written room,
      le→leb (c.pos + length buf) (length c.inner) room,
      regrouped,
      take-append (take c.pos c.inner ++ buf) (drop (c.pos + length buf) c.inner)
          (c.pos + length buf) size,
    ),
    rw (
      regrouped,
      drop-append (take c.pos c.inner ++ buf) (drop (c.pos + length buf) c.inner)
          (c.pos + length buf) size,
    ),
    length-written room,
  )
    where
      regrouped : written ≡ (take c.pos c.inner ++ buf) ++ drop (c.pos + length buf) c.inner
      regrouped = sym (append_assoc (take c.pos c.inner) buf (drop (c.pos + length buf) c.inner))

      size : length (take c.pos c.inner ++ buf) ≡ c.pos + length buf
      size = omega (arith, length-append (take c.pos c.inner) buf, length-before)

  -- A write that would go over the limit writes nothing and leaves the cursor as it was.
  pub write_over_limit :
      length buf < 2 ^ 63 → c.limit < c.total_pos + length buf → write buf c ≡ returns (none, c)
  unfolding write try_set_position
  write_over_limit short over = ground (arith, v.in_buffer, v.counted, v.addressable, v.whole)

  -- A write within the limit but past the end of the buffer panics.
  pub write_past_end :
      length buf < 2 ^ 63
      → c.total_pos + length buf ≤ c.limit
      → length c.inner < c.pos + length buf
      → write buf c ≡ panics
  unfolding write
  write_past_end short fits past = rw (
    write,
    le→leb (c.pos + length buf) u64_max (omega (arith, v.whole, v.in_buffer, v.counted)),
    try_set_position-forward fits short,
    write_copy,
    gt→leb (c.pos + length buf) (length c.inner) past,
  )
