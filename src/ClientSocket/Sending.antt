-- ===== src/ClientSocket/Sending.antt =====
-- block_send and write_sz: every byte is handed over once and in order.
use mathlib.Core.List.{append_assoc, append-nil}
use skynet_slg.Prelude.{
  ℕ, zero, suc, ◌≤◌, ◌≡◌, refl, sym, ap, ◌∙◌, arith, List, [], ◌∷◌, ◌++◌, take, drop, length,
  length-drop, take-append-drop,
}
use skynet_slg.ClientSocket.{
  Sent, took, send_again, send_failed, SendOutcome, finished, socket_error, waiting, block_send,
  send_message, write_loop,
}

-- What was taken and what is left, put together; of an error nothing is said of what is left.
pub data Accounts (msg : List ℕ) : SendOutcome → Type 0 where
  all_sent : (sent : List ℕ) → sent ≡ msg → Accounts msg (finished sent)
  some_sent : (sent left : List ℕ) → sent ++ left ≡ msg → Accounts msg (waiting sent left)
  error_sent :
      (sent left : List ℕ) (e : ℕ) → sent ++ left ≡ msg → Accounts msg (socket_error sent e)

block_send-Accounts :
    (answers : List Sent) (msg sent buffer : List ℕ)
    → sent ++ buffer ≡ msg
    → Accounts msg (block_send answers sent buffer)
unfolding block_send
block_send-Accounts answers msg sent [] e = all_sent sent (sym (append-nil sent) ∙ e)
block_send-Accounts [] msg sent (b ∷ buffer) e = some_sent sent (b ∷ buffer) e
block_send-Accounts (took r ∷ answers) msg sent (b ∷ buffer) e =
    block_send-Accounts answers msg (sent ++ take r (b ∷ buffer)) (drop r (b ∷ buffer)) (
      append_assoc sent (take r (b ∷ buffer)) (drop r (b ∷ buffer))
      ∙ ap (λ l. sent ++ l) (take-append-drop r (b ∷ buffer))
      ∙ e)
block_send-Accounts (send_again ∷ answers) msg sent (b ∷ buffer) e =
    block_send-Accounts answers msg sent (b ∷ buffer) e
block_send-Accounts (send_failed n ∷ answers) msg sent (b ∷ buffer) e =
    error_sent sent (b ∷ buffer) n e

-- Whatever the kernel answers, what it took is a beginning of the message; when lsend returns, it
-- took the whole message, and while it waits the rest is what it still holds.
pub send_message-Accounts :
    (answers : List Sent) (msg : List ℕ) → Accounts msg (send_message answers msg)
unfolding send_message
send_message-Accounts answers msg = block_send-Accounts answers msg [] msg refl

-- How many answers take at least one byte; none of them is an error.
pub data Serves : ℕ → List Sent → Type 0 where
  served : (answers : List Sent) → Serves zero answers
  takes :
      {n : ℕ} {answers : List Sent} (r : ℕ)
      → Serves n answers
      → Serves (suc n) (took (suc r) ∷ answers)
  again : {n : ℕ} {answers : List Sent} → Serves n answers → Serves n (send_again ∷ answers)

block_send-finishes :
    (n : ℕ) (answers : List Sent) (sent buffer : List ℕ)
    → Serves n answers
    → length buffer ≤ n
    → (all : List ℕ) × (block_send answers sent buffer ≡ finished all)
unfolding block_send
block_send-finishes n answers sent [] s h = (sent, refl)
block_send-finishes n answers sent (b ∷ buffer) (served a) h = absurd (omega arith)
block_send-finishes n answers sent (b ∷ buffer) (takes {n = k} {answers = rest} r s) h =
    block_send-finishes k rest (sent ++ b ∷ take r buffer) (drop r buffer) s
      (omega (arith, length-drop r buffer))
block_send-finishes n answers sent (b ∷ buffer) (again {answers = rest} s) h =
    block_send-finishes n rest sent (b ∷ buffer) s h

-- lsend returns, having sent all, once as many answers as the message has bytes have taken at
-- least one byte each, and no error came before.
pub send_message-finishes :
    (answers : List Sent) (msg : List ℕ)
    → Serves (length msg) answers
    → send_message answers msg ≡ finished msg
unfolding send_message
send_message-finishes answers msg s =
    let (all, run) = block_send-finishes (length msg) answers [] msg s (omega arith) in
    run ∙ ap finished (whole all (rw run at (block_send-Accounts answers msg [] msg refl)))
  where
    whole : (all : List ℕ) → Accounts msg (finished all) → all ≡ msg
    whole all (all_sent sent e) = e

-- write_sz is the same loop.
pub write_loop-block_send :
    (answers : List Sent) (sent buf : List ℕ)
    → write_loop answers sent buf ≡ block_send answers sent buf
unfolding write_loop block_send
write_loop-block_send answers sent [] = refl
write_loop-block_send [] sent (b ∷ buf) = refl
write_loop-block_send (took n ∷ answers) sent (b ∷ buf) =
    write_loop-block_send answers (sent ++ take n (b ∷ buf)) (drop n (b ∷ buf))
write_loop-block_send (send_again ∷ answers) sent (b ∷ buf) =
    write_loop-block_send answers sent (b ∷ buf)
write_loop-block_send (send_failed e ∷ answers) sent (b ∷ buf) = refl
