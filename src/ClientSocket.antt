-- ===== src/ClientSocket.antt =====
-- 3rd/src-c/lua-clientsocket.c: the blocking loops over send, write, recv and read. What the
-- kernel answers to the calls of a run is a list; a run that uses it up is still waiting.
pub mod Sending
pub mod Reading
use skynet_slg.Prelude.{
  ℕ, zero, suc, ◌+◌, ◌-◌, List, [], ◌∷◌, ◌++◌, take, drop, length, get_or, Bool, true, false, ◌==◌,
  if◌then◌else◌, Option, none, some,
}

-- What send or write answers: how many bytes it took, EAGAIN or EINTR, or another errno.
pub data Sent : Type 0 where
  took : ℕ → Sent
  send_again : Sent
  send_failed : ℕ → Sent

-- A run: the bytes that the kernel took, and how it ended. `waiting` has the bytes that are left.
pub data SendOutcome : Type 0 where
  finished : List ℕ → SendOutcome
  socket_error : List ℕ → ℕ → SendOutcome
  waiting : List ℕ → List ℕ → SendOutcome

-- The loop of block_send: `sent` is what the kernel has, `buffer` what is left (`sz` bytes).
unfoldable pub block_send : List Sent → List ℕ → List ℕ → SendOutcome
block_send answers sent [] = finished sent
block_send [] sent (b ∷ buffer) = waiting sent (b ∷ buffer)
block_send (took r ∷ answers) sent (b ∷ buffer) =
    block_send answers (sent ++ take r (b ∷ buffer)) (drop r (b ∷ buffer))
block_send (send_again ∷ answers) sent (b ∷ buffer) = block_send answers sent (b ∷ buffer)
block_send (send_failed e ∷ answers) sent (b ∷ buffer) = socket_error sent e

-- lsend.
unfoldable pub send_message : List Sent → List ℕ → SendOutcome
send_message answers msg = block_send answers [] msg

-- The loop of write_sz, which is the same over write.
unfoldable pub write_loop : List Sent → List ℕ → List ℕ → SendOutcome
write_loop answers sent [] = finished sent
write_loop [] sent (b ∷ buf) = waiting sent (b ∷ buf)
write_loop (took n ∷ answers) sent (b ∷ buf) =
    write_loop answers (sent ++ take n (b ∷ buf)) (drop n (b ∷ buf))
write_loop (send_again ∷ answers) sent (b ∷ buf) = write_loop answers sent (b ∷ buf)
write_loop (send_failed e ∷ answers) sent (b ∷ buf) = socket_error sent e

unfoldable pub write_sz : List Sent → List ℕ → SendOutcome
write_sz answers buf = write_loop answers [] buf

-- What recv or read answers: the bytes that it stored (none at the end of the stream), EAGAIN or
-- EINTR, or another errno.
pub data Received : Type 0 where
  stored : List ℕ → Received
  read_again : Received
  read_failed : ℕ → Received

-- What a reading function returns to Lua: a string, no value, an error, or it is still waiting.
pub data ReadOutcome : Type 0 where
  string : List ℕ → ReadOutcome
  nothing : ReadOutcome
  read_error : ℕ → ReadOutcome
  read_waiting : ReadOutcome
  undefined : ReadOutcome

-- lrecv: the empty string is the end of the stream.
unfoldable pub receive : Received → ReadOutcome
receive (stored bytes) = if length bytes == 0 then string [] else string bytes
receive read_again = nothing
receive (read_failed e) = read_error e

-- read_2 and read_8: the first answer that is no EAGAIN or EINTR.
unfoldable pub read_once : List Received → ReadOutcome
read_once [] = read_waiting
read_once (stored bytes ∷ answers) = string bytes
read_once (read_again ∷ answers) = read_once answers
read_once (read_failed e ∷ answers) = read_error e

-- read(fd, s, n) stores its bytes at the start of the array `s`.
abbrev pub overwrite : List ℕ → List ℕ → List ℕ
overwrite s bytes = bytes ++ drop (length bytes) s

-- The loop of read_n: `left` bytes are still wanted; the array after it, or none of the three.
pub data Filled : Type 0 where
  filled : List ℕ → Filled
  fill_error : ℕ → Filled
  fill_waiting : Filled

unfoldable pub read_n_loop : List Received → ℕ → List ℕ → Filled
read_n_loop answers zero s = filled s
read_n_loop [] (suc left) s = fill_waiting
read_n_loop (stored bytes ∷ answers) (suc left) s =
    read_n_loop answers (suc left - length bytes) (overwrite s bytes)
read_n_loop (read_again ∷ answers) (suc left) s = read_n_loop answers (suc left) s
read_n_loop (read_failed e ∷ answers) (suc left) s = fill_error e

-- read_n: `s` is the array `char s[n]` as it was found. When the loop ends without an error,
-- `s[sz] = 0` with sz = n stores behind the array, which the C language leaves undefined.
unfoldable pub read_n : List Received → ℕ → List ℕ → ReadOutcome
read_n answers n s = elim (read_n_loop answers n s) [
  | filled s' ↦ undefined
  | fill_error e ↦ read_error e
  | fill_waiting ↦ read_waiting
]
