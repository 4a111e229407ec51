-- ===== src/Socket/Stream.antt =====
-- However a stream is cut and interrupted, socket_read gathers it and socket_write sends it.
use logstats.Base.{
  append-nil, append_assoc, ℕ, zero, suc, ◌+◌, ◌-◌, ◌≡◌, refl, ap, ◌∙◌, false, pos, some, List, [],
  ◌∷◌, ◌++◌, length, length-append, take, ◌==◌, arith,
}
use logstats.Socket.{
  ReadAnswer, bytes_read, interrupted, closed, read_loop, socket_read, WriteAnswer, written,
  write_interrupted, drop_bytes, write_loop, socket_write,
}

-- The answers bring these bytes, in pieces, with interruptions in front of some.
pub data Delivers : List ReadAnswer → List ℕ → Type 0 where
  complete : Delivers [] []
  piece :
      {answers : List ReadAnswer} {more : List ℕ} (b : ℕ) (bs : List ℕ)
      → Delivers answers more
      → Delivers (bytes_read (b ∷ bs) ∷ answers) (b ∷ bs ++ more)
  delay :
      {answers : List ReadAnswer} {b : ℕ} {more : List ℕ}
      → Delivers answers (b ∷ more)
      → Delivers (interrupted ∷ answers) (b ∷ more)

read_loop-Delivers :
    {answers : List ReadAnswer} {stream : List ℕ} (rest : List ReadAnswer) (buffer : List ℕ)
    → Delivers answers stream
    → read_loop (answers ++ rest) (length stream) buffer
      ≡ some (pos (length (buffer ++ stream)), buffer ++ stream, rest)
unfolding read_loop
read_loop-Delivers rest buffer complete = rw (append-nil buffer) refl
read_loop-Delivers rest buffer (piece {answers = answers} {more = more} b bs d) =
    let left : suc (length (bs ++ more)) - suc (length bs) ≡ length more =
      omega (arith, length-append bs more) in
    let some_bytes : (suc (length bs) == 0) ≡ false = ground arith in
    rw
      (
        some_bytes,
        left,
        read_loop-Delivers rest (buffer ++ b ∷ bs) d,
        append_assoc buffer (b ∷ bs) more,
      )
      refl
read_loop-Delivers rest buffer (delay d) = read_loop-Delivers rest buffer d

-- Where the answers of read bring a stream, cut into pieces and interrupted anywhere, socket_read for its
-- length returns that length and the bytes of the stream in order, and asks for nothing more.
pub socket_read-Delivers :
    (answers : List ReadAnswer) (stream : List ℕ) (rest : List ReadAnswer)
    → Delivers answers stream
    → socket_read (answers ++ rest) (length stream) ≡ some (pos (length stream), stream, rest)
unfolding socket_read
socket_read-Delivers answers stream rest d = read_loop-Delivers rest [] d

-- At the end of the stream socket_read returns 0.
pub socket_read-closed :
    (rest : List ReadAnswer) (len : ℕ)
    → socket_read (closed ∷ rest) (suc len) ≡ some (pos 0, [], rest)
unfolding socket_read read_loop
socket_read-closed rest len = refl

-- The answers take this many bytes, a part of the buffer at a time, with interruptions.
pub data Takes : List WriteAnswer → ℕ → Type 0 where
  all_taken : Takes [] 0
  part :
      {answers : List WriteAnswer} {more : ℕ} (n : ℕ)
      → Takes answers more
      → Takes (written (suc n) ∷ answers) (suc n + more)
  pause :
      {answers : List WriteAnswer} {more : ℕ}
      → Takes answers (suc more)
      → Takes (write_interrupted ∷ answers) (suc more)

length-drop_bytes : (n : ℕ) (bs : List ℕ) → length (drop_bytes n bs) ≡ length bs - n
unfolding drop_bytes
length-drop_bytes zero bs = omega arith
length-drop_bytes (suc n) [] = omega arith
length-drop_bytes (suc n) (b ∷ bs) = omega (arith, length-drop_bytes n bs)

take-drop_bytes : (n : ℕ) (bs : List ℕ) → take n bs ++ drop_bytes n bs ≡ bs
unfolding drop_bytes
take-drop_bytes zero bs = refl
take-drop_bytes (suc n) [] = refl
take-drop_bytes (suc n) (b ∷ bs) = ap (λ us. b ∷ us) (take-drop_bytes n bs)

write_loop-Takes :
    {answers : List WriteAnswer} {n : ℕ} (len : ℕ) (rest : List WriteAnswer) (left sent : List ℕ)
    → Takes answers n
    → length left ≡ n
    → write_loop len (answers ++ rest) left sent ≡ some (pos len, sent ++ left, rest)
unfolding write_loop
write_loop-Takes len rest [] sent all_taken e = rw (append-nil sent) refl
write_loop-Takes len rest (b ∷ left) sent all_taken e = absurd (omega (arith, e))
write_loop-Takes len rest [] sent (part n t) e = absurd (omega (arith, e))
write_loop-Takes len rest (b ∷ left) sent (part {more = more} n t) e =
    let some_bytes : (suc n == 0) ≡ false = ground arith in
    let now = sent ++ take (suc n) (b ∷ left) in
    let ih =
      write_loop-Takes len rest (drop_bytes (suc n) (b ∷ left)) now t
        (omega (arith, e, length-drop_bytes (suc n) (b ∷ left))) in
    rw (some_bytes) (
      ih
      ∙ rw
          (
            append_assoc sent (take (suc n) (b ∷ left)) (drop_bytes (suc n) (b ∷ left)),
            take-drop_bytes (suc n) (b ∷ left),
          )
          refl)
write_loop-Takes len rest [] sent (pause t) e = absurd (omega (arith, e))
write_loop-Takes len rest (b ∷ left) sent (pause t) e =
    write_loop-Takes len rest (b ∷ left) sent t e

-- Where the answers of write take a buffer in parts, interrupted anywhere, socket_write sends every byte
-- once and in order and returns the length, and asks for nothing more.
pub socket_write-Takes :
    (answers : List WriteAnswer) (buffer : List ℕ) (rest : List WriteAnswer)
    → Takes answers (length buffer)
    → socket_write (answers ++ rest) buffer ≡ some (pos (length buffer), buffer, rest)
unfolding socket_write
socket_write-Takes answers buffer rest t = write_loop-Takes (length buffer) rest buffer [] t refl
