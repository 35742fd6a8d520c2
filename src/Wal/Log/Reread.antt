-- ===== src/Wal/Log/Reread.antt =====
-- src/wal.rs: a reader of the frames of a log file, and that it gives back what was written. The
-- program has no such reader: the reader is the description of the format.
use skvs.Prelude.{
  ℕ, zero, suc, ◌+◌, ◌*◌, ◌/◌, ◌%◌, ◌^◌, ◌<◌, Bool, true, ◌≡◌, refl, ap, ◌∙◌, Option, none, some,
  List, [], ◌∷◌, ◌++◌, length, take, drop, leb, ltb, all, nat_eq, arith, if◌then◌else◌,
}
use skvs.Prelude.Map.{Map}
use skvs.State.{Bytes}
use skvs.Wal.Batch.{Operation}
use skvs.Wal.Log.{LogIo, to_le_bytes, write_batch}
use skvs.Wal.Log.Framed.{frames, encoded, for_db, file_of, Accepting, file_of-write_batch}

abbrev cons_some : Bytes → Option (List Bytes) → Option (List Bytes)
cons_some b none = none
cons_some b (some bs) = some (b ∷ bs)

-- At most that many frames; `none` is a file that ends within a frame or holds more of them.
unfoldable pub read_frames : ℕ → Bytes → Option (List Bytes)
read_frames zero [] = some []
read_frames zero (b ∷ bs) = none
read_frames (suc n) (a ∷ b ∷ c ∷ d ∷ rest) =
    let len : ℕ = a + 256 * b + 65536 * c + 16777216 * d in
    let others = read_frames n (drop len rest) in
    if leb len (length rest) then cons_some (take len rest) others else none
read_frames (suc n) _ = none

take-append : (b r : Bytes) → take (length b) (b ++ r) ≡ b
take-append [] r = refl
take-append (x ∷ b) r = ap (λ l. x ∷ l) (take-append b r)

drop-append : (b r : Bytes) → drop (length b) (b ++ r) ≡ r
drop-append [] r = refl
drop-append (x ∷ b) r = drop-append b r

length-append : (b r : Bytes) → length (b ++ r) ≡ length b + length r
length-append [] r = omega arith
length-append (x ∷ b) r = ground (arith, length-append b r)

of_le_bytes :
    (n : ℕ)
    → n < 2 ^ 32
    → n % 256
        + 256 * ((n / 256) % 256)
        + 65536 * ((n / 65536) % 256)
        + 16777216 * ((n / 16777216) % 256)
      ≡ n
of_le_bytes n h = omega arith

-- The lengths of the frames fit in four bytes.
abbrev pub fit_frames : List Bytes → Bool
fit_frames bs = all (λ b. ltb (length b) (2 ^ 32)) bs

read_frames-frames :
    (bs : List Bytes) → fit_frames bs ≡ true → read_frames (length bs) (frames bs) ≡ some bs
unfolding read_frames to_le_bytes
read_frames-frames [] h = refl
read_frames-frames (b ∷ bs) h =
    let r = frames bs in
    rw (of_le_bytes (length b) (ground (arith, h))) (
      rw (take-append b r, drop-append b r, read_frames-frames bs (ground (arith, h)))
        (ground (arith, length-append b r)))

-- The log file of a database that a batch is written to, empty before, reads back frame by frame
-- as the serialized operations of that database in their order, if the file system takes all
-- bytes, and the bytes of each operation have a length below 2 ^ 32.
pub read_frames-write_batch :
    (io : LogIo) (db : ℕ) (batch : List Operation) (files : Map ℕ Bytes)
    → Accepting io db
    → file_of io db files ≡ []
    → fit_frames (encoded io (for_db db batch)) ≡ true
    → let bs = encoded io (for_db db batch) in
      read_frames (length bs) (file_of io db (write_batch io batch files)) ≡ some bs
read_frames-write_batch io db batch files good e h =
    let bs = encoded io (for_db db batch) in
    ap (read_frames (length bs))
      (file_of-write_batch io db batch files good ∙ ap (λ f. f ++ frames bs) e)
    ∙ read_frames-frames bs h
