-- ===== src/Socket.antt =====
-- The loops of src/zip_socket.c that read and write a stream. What the kernel answers to each call of
-- read or write is an argument; `none` as an outcome is a call that is still waiting. A return value of
-- the source is `pos n`, or -1 for an error.
pub mod Stream
use logstats.Base.{
  ℕ, zero, suc, ◌+◌, ◌-◌, ℤ, pos, negsuc, Option, none, some, List, [], ◌∷◌, ◌++◌, length, take,
  ltb, leb, ◌==◌, if◌then◌else◌,
}

-- An answer of read: some bytes, EINTR, EAGAIN, another error, or 0 at the end of the stream.
pub data ReadAnswer : Type 0 where
  bytes_read : List ℕ → ReadAnswer
  interrupted again failed closed : ReadAnswer

-- The loop of socket_read with `left` bytes to go: the return value, the buffer and the answers that
-- were not asked for.
pub read_loop : List ReadAnswer → ℕ → List ℕ → Option (ℤ × List ℕ × List ReadAnswer)
read_loop answers zero buffer = some (pos (length buffer), buffer, answers)
read_loop [] (suc left) buffer = none
read_loop (bytes_read bs ∷ answers) (suc left) buffer =
    if length bs == 0
    then some (pos (length buffer), buffer, answers)
    else read_loop answers (suc left - length bs) (buffer ++ bs)
read_loop (interrupted ∷ answers) (suc left) buffer = read_loop answers (suc left) buffer
read_loop (again ∷ answers) (suc left) buffer = some (pos (length buffer), buffer, answers)
read_loop (failed ∷ answers) (suc left) buffer = some (negsuc 0, buffer, answers)
read_loop (closed ∷ answers) (suc left) buffer = some (pos (length buffer), buffer, answers)

pub socket_read : List ReadAnswer → ℕ → Option (ℤ × List ℕ × List ReadAnswer)
unfolding read_loop
socket_read answers len = read_loop answers len []

-- An answer of write: how many bytes it took, EINTR, or another error.
pub data WriteAnswer : Type 0 where
  written : ℕ → WriteAnswer
  write_interrupted write_failed : WriteAnswer

pub drop_bytes : ℕ → List ℕ → List ℕ
drop_bytes zero bs = bs
drop_bytes (suc n) [] = []
drop_bytes (suc n) (b ∷ bs) = drop_bytes n bs

-- The loop of socket_write with the bytes that are left: the return value, what was written and the
-- answers that were not asked for. `len` is the length of the whole buffer.
pub write_loop : ℕ → List WriteAnswer → List ℕ → List ℕ → Option (ℤ × List ℕ × List WriteAnswer)
unfolding drop_bytes
write_loop len answers [] sent = some (pos len, sent, answers)
write_loop len [] (b ∷ left) sent = none
write_loop len (written n ∷ answers) (b ∷ left) sent =
    if n == 0
    then some (negsuc 0, sent, answers)
    else write_loop len answers (drop_bytes n (b ∷ left)) (sent ++ take n (b ∷ left))
write_loop len (write_interrupted ∷ answers) (b ∷ left) sent =
    write_loop len answers (b ∷ left) sent
write_loop len (write_failed ∷ answers) (b ∷ left) sent = some (negsuc 0, sent, answers)

pub socket_write : List WriteAnswer → List ℕ → Option (ℤ × List ℕ × List WriteAnswer)
unfolding write_loop
socket_write answers buffer = write_loop (length buffer) answers buffer []
