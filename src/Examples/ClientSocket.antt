-- ===== src/Examples/ClientSocket.antt =====
-- lua-clientsocket.c: runs of its loops, and its theorems at concrete answers of the kernel.
use skynet_slg.Prelude.{ℕ, ◌≡◌, refl, arith, List, [], ◌∷◌, ◌++◌, drop, length, replicate}
use skynet_slg.ClientSocket.{
  Sent, took, send_again, finished, waiting, send_message, block_send, stored, read_waiting, read_n,
  read_n_loop, filled, undefined,
}
use skynet_slg.ClientSocket.Sending.{
  Accounts, send_message-Accounts, served, takes, again, send_message-finishes,
}
use skynet_slg.ClientSocket.Reading.{read_n_split, read_n_eof}

abbrev text : List ℕ
text = 1 ∷ 2 ∷ 3 ∷ []

abbrev answers : List Sent
answers = took 2 ∷ send_again ∷ took 1 ∷ took 1 ∷ []

sent_in_parts : send_message answers text ≡ finished text
unfolding send_message block_send
sent_in_parts = refl

still_waiting : send_message (took 2 ∷ []) text ≡ waiting (1 ∷ 2 ∷ []) (3 ∷ [])
unfolding send_message block_send
still_waiting = refl

send_message-Accounts_example : Accounts text (send_message answers text)
send_message-Accounts_example = send_message-Accounts answers text

send_message-finishes_example : send_message answers text ≡ finished text
send_message-finishes_example =
    send_message-finishes answers text (takes 1 (again (takes 0 (takes 0 (served [])))))

abbrev first_part : List ℕ
first_part = 1 ∷ 2 ∷ []

abbrev second_part : List ℕ
second_part = 3 ∷ []

abbrev array : List ℕ
array = 9 ∷ 9 ∷ 9 ∷ []

read_n_split_example :
    read_n_loop (stored first_part ∷ stored second_part ∷ []) (length array) array
    ≡ filled
        (second_part ++ drop (length second_part) (first_part ++ drop (length first_part) array))
read_n_split_example = read_n_split first_part second_part array [] (omega arith) refl

-- The store behind the array, even when one read delivers all.
store_behind : read_n (stored text ∷ []) (length text) array ≡ undefined
unfolding read_n read_n_loop
store_behind = refl

read_n_eof_example : read_n (replicate 5 (stored [])) 2 (9 ∷ 9 ∷ []) ≡ read_waiting
read_n_eof_example = read_n_eof 5 2 (9 ∷ 9 ∷ []) (omega arith)
