-- ===== src/Examples/WebClient.antt =====
-- webclient.c: a transfer that runs, and its theorems with a realloc that has a limit.
use mathlib.Core.Option.{some-injective}
use skynet_slg.Prelude.{
  ℕ, zero, suc, ap, sym, ◌∙◌, ◌-◌, ◌≤◌, ◌≡◌, refl, arith, List, [], ◌∷◌, ◌++◌, take, length,
  length-append, replicate, length-replicate, Bool, true, false, leb, if◌then◌else◌, Option, none,
  some, Bool-cases, inl, inr,
}
use skynet_slg.Prelude.Int.{pos}
use skynet_slg.WebClient.{
  zeroed, Live, table, Reply, request, arg_error, no_values, undefined, append_headers, web_request,
  set_httpheader, remove_request, WebRequest, Message, done, other, query, real_request,
  send_request, check_timeout,
}
use skynet_slg.WebClient.Respond.{
  Reallocates, Chunk, all_bytes, download, Responds, respond-download,
}
use skynet_slg.WebClient.Form.{name, contents, file, unknown, Field, FormOption}
use skynet_slg.WebClient.Client.{Globals, webclient_create, Balanced, webclient_create-Balanced}
use skynet_slg.WebClient.Lifetime.{Accounted, web_request-Accounted, remove-web_request}
use skynet_slg.WebClient.Queue.{Queried, dones, query-Queried}

-- A realloc that grows a block with zeros, up to 2000 bytes.
abbrev realloc : List ℕ → ℕ → Option (List ℕ)
realloc c n = if leb n 2000 then some (c ++ replicate (n - length c) 0) else none

take-front : (k : ℕ) (c more : List ℕ) → k ≤ length c → take k (c ++ more) ≡ take k c
take-front zero c more h = refl
take-front (suc k) [] more h = absurd (omega arith)
take-front (suc k) (b ∷ c) more h = ap (λ l. b ∷ l) (take-front k c more (omega arith))

realloc-Reallocates : Reallocates realloc
realloc-Reallocates c c' n e h = elim (Bool-cases (leb n 2000)) [
  | inl fits ↦
      let grown : some (c ++ replicate (n - length c) 0) ≡ some c' = rw fits at e in
      let same : c ++ replicate (n - length c) 0 ≡ c' = some-injective _ _ grown in
      (
        omega (
          arith,
          ap length same,
          length-append c (replicate (n - length c) 0),
          length-replicate {A = ℕ} (n - length c) 0,
        ),
        λ k le. ap (take k) (sym same) ∙ take-front k c (replicate (n - length c) 0) le,
      )
  | inr too_large ↦ let never : none ≡ some c' = rw too_large at e in cc
]

abbrev chunk : ℕ → Chunk
chunk n = record { buffer = replicate 3 n; block_size = 1; count = 3; sizes = refl }

abbrev chunks : List Chunk
chunks = chunk 5 ∷ chunk 6 ∷ []

abbrev nothing_live : Live
nothing_live = record { requests = 0; handles = 0; forms = 0; headers = 0 }

abbrev page : List ℕ
page = 104 ∷ 116 ∷ 116 ∷ 112 ∷ []

respond-download_example : Responds realloc (all_bytes chunks) (download realloc zeroed chunks)
unfolding all_bytes
respond-download_example = respond-download realloc realloc-Reallocates chunks (omega arith)

handed_out : Reply → WebRequest
handed_out (request r) = r
handed_out (arg_error n) = zeroed
handed_out no_values = zeroed
handed_out undefined = zeroed

abbrev made : Reply × Live
made = web_request true true true nothing_live (some page) (table true) none

made-request : made ≡ (request (handed_out made.0), made.1)
unfolding web_request check_timeout send_request real_request handed_out
made-request = refl

abbrev appends : List (List ℕ) → List ℕ → Bool
appends header str = true

-- The second string of a list that can have one only.
abbrev appends_one : List (List ℕ) → List ℕ → Bool
appends_one header str = leb (length header) 0

-- The list with the first string is lost: nothing frees it.
header_lost :
    remove_request
      (set_httpheader appends_one made.1 (handed_out made.0) (page ∷ page ∷ [])).1
      (set_httpheader appends_one made.1 (handed_out made.0) (page ∷ page ∷ [])).0
    ≡ record nothing_live { headers = 1 }
unfolding remove_request set_httpheader append_headers web_request check_timeout send_request
    real_request handed_out zeroed
header_lost = refl

remove-web_request_example :
    remove_request
      (set_httpheader appends made.1 (handed_out made.0) (page ∷ page ∷ [])).1
      (set_httpheader appends made.1 (handed_out made.0) (page ∷ page ∷ [])).0
    ≡ nothing_live
remove-web_request_example =
    remove-web_request appends (λ header str. refl) true true true nothing_live made.1 (some page)
      (table true) none (handed_out made.0) (page ∷ page ∷ []) made-request

web_request-Accounted_example :
    Accounted true true false nothing_live
      (some page)
      (table true)
      (some (pos 3000))
      (web_request true true false nothing_live (some page) (table true) (some (pos 3000)))
web_request-Accounted_example =
    web_request-Accounted true true false nothing_live (some page) (table true) (some (pos 3000))

abbrev perform : List Message → Bool × List Message
perform queue = (true, queue ++ other ∷ done 2 0 ∷ [])

query-Queried_example :
    Queried perform (dones (other ∷ done 1 0 ∷ [])) (query perform (other ∷ done 1 0 ∷ []))
query-Queried_example = query-Queried perform (other ∷ done 1 0 ∷ [])

abbrev upload : List Field
upload =
    record { key = name; value = 1 ∷ [] }
    ∷ record { key = contents; value = page }
    ∷ record { key = unknown; value = [] }
    ∷ []

abbrev attachment : List Field
attachment = record { key = name; value = 2 ∷ [] } ∷ record { key = file; value = page } ∷ []

abbrev takes_all : List FormOption → Bool
takes_all forms = true

abbrev globals : Globals
globals = record { inits = 3; multis = 1; easies = 0; strings = 0 }

abbrev no_escape : List ℕ → Option (List ℕ)
no_escape str = none

webclient_create-Balanced_example :
    Balanced globals no_escape
      ((true, page) ∷ (false, page) ∷ [])
      (webclient_create true true globals)
webclient_create-Balanced_example =
    webclient_create-Balanced true true globals no_escape ((true, page) ∷ (false, page) ∷ [])
