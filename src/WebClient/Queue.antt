-- ===== src/WebClient/Queue.antt =====
-- webclient_query: which finished request it reports, and that it loses none.
use skynet_slg.Prelude.{ℕ, ◌≡◌, ◌⊎◌, inl, inr, refl, List, [], ◌∷◌, Bool, true, false, none, some}
use skynet_slg.WebClient.{
  Message, done, other, real_query, Query, ready, nothing, failed, query, after_perform,
}

-- The finished requests among the messages, in order.
unfoldable pub dones : List Message → List (ℕ × ℕ)
dones [] = []
dones (done handle result ∷ queue) = (handle, result) ∷ dones queue
dones (other ∷ queue) = dones queue

-- What a query does, by the finished requests that were queued: the first is reported and the others
-- stay in order; with none, curl_multi_perform runs, and the first of what it finished is reported.
pub data Queried (perform : List Message → Bool × List Message)
    : List (ℕ × ℕ) → Query × List Message → Type 0 where
  at_once :
      (handle result : ℕ) (queue : List Message)
      → Queried perform ((handle, result) ∷ dones queue) (ready handle result, queue)
  performed :
      (handle result : ℕ) (left queue : List Message)
      → perform [] ≡ (true, left)
      → dones left ≡ (handle, result) ∷ dones queue
      → Queried perform [] (ready handle result, queue)
  idle :
      (left : List Message)
      → perform [] ≡ (true, left)
      → dones left ≡ []
      → Queried perform [] (nothing, [])
  broken : (left : List Message) → perform [] ≡ (false, left) → Queried perform [] (failed, left)

abbrev Split : List Message → Type 0
Split queue =
    ((dones queue ≡ []) × (real_query queue ≡ (none, [])))
    ⊎ ((handle : ℕ) × (result : ℕ) × (rest : List Message) × (dones queue
          ≡ (handle, result) ∷ dones rest)
        × (real_query queue ≡ (some (handle, result), rest)))

real_query-Split : (queue : List Message) → Split queue
unfolding dones real_query
real_query-Split [] = inl (refl, refl)
real_query-Split (done handle result ∷ queue) = inr (handle, result, queue, refl, refl)
real_query-Split (other ∷ queue) = real_query-Split queue

-- Which request a query reports, on every branch; no finished request is lost.
pub query-Queried :
    (perform : List Message → Bool × List Message) (queue : List Message)
    → Queried perform (dones queue) (query perform queue)
unfolding query
query-Queried perform queue = elim (real_query-Split queue) [
  | inr (handle, result, rest, d, q) ↦ rw (query, q, d) (at_once handle result rest)
  | inl (d, q) ↦ rw (query, q, d) (performs (perform []) refl)
]
  where
    performs : (p : Bool × List Message) → perform [] ≡ p → Queried perform [] (after_perform p)
    performs (false, left) e = broken left e
    performs (true, left) e = elim (real_query-Split left) [
      | inr (handle, result, rest, d, q) ↦ rw q (performed handle result left rest e d)
      | inl (d, q) ↦ rw q (idle left e d)
    ]
