-- ===== src/WebClient/Lifetime.antt =====
-- What webclient_request allocates, and what of it webclient_removerequest frees.
use mathlib.Core.List.{append_assoc, append-nil}
use skynet_slg.Prelude.{
  ℕ, suc, ◌+◌, ◌-◌, ◌≡◌, refl, sym, ap, ◌∙◌, arith, List, [], ◌∷◌, ◌++◌, ◌&&◌, length,
  length-append, Bool, true, false, Option, none, some,
}
use skynet_slg.Prelude.Int.{ℤ, pos, negsuc}
use skynet_slg.WebClient.{
  WebRequest, zeroed, Live, Post, no_post, table, string, has_form, plus, Reply, arg_error,
  no_values, undefined, request, append_headers, real_request, send_request, check_timeout,
  web_request, set_httpheader, remove_request,
}

-- What `live` becomes by what the request holds.
pub record Owns (before after : Live) (r : WebRequest) : Type 0 where
  pub requests : after.requests ≡ suc before.requests
  pub handles : after.handles ≡ suc before.handles
  pub forms : after.forms ≡ plus r.http_post before.forms
  pub headers : after.headers ≡ before.headers + length r.header

-- How webclient_request ends, by what it was given and what malloc, curl_easy_init and
-- curl_multi_add_handle answer. A returned request holds what was allocated. Otherwise nothing stays
-- allocated, but for the form that was made of the post, which nobody frees.
pub data Accounted (malloc easy_init add_handle : Bool) (before : Live)
    : Option (List ℕ) → Post → Option ℤ → Reply × Live → Type 0 where
  no_address :
      {post : Post} {timeout : Option ℤ}
      → Accounted malloc easy_init add_handle before none post timeout (arg_error 2, before)
  no_form :
      {url : List ℕ} {timeout : Option ℤ}
      → Accounted malloc easy_init add_handle before
          (some url)
          (table false)
          timeout
          (arg_error 3, before)
  refused :
      {url : List ℕ} {post : Post} (t : ℕ)
      → has_form post ≡ false
      → Accounted malloc easy_init add_handle before
          (some url)
          post
          (some (negsuc t))
          (arg_error 4, before)
  leaked_refused :
      {url : List ℕ} (t : ℕ)
      → Accounted malloc easy_init add_handle before
          (some url)
          (table true)
          (some (negsuc t))
          (arg_error 4, record before { forms = suc before.forms })
  none_made :
      {url : List ℕ} {post : Post} {timeout : Option ℤ}
      → (easy_init && add_handle) ≡ false
      → has_form post ≡ false
      → Accounted malloc easy_init add_handle before (some url) post timeout (no_values, before)
  leaked :
      {url : List ℕ} {timeout : Option ℤ}
      → (easy_init && add_handle) ≡ false
      → Accounted malloc easy_init add_handle before
          (some url)
          (table true)
          timeout
          (no_values, record before { forms = suc before.forms })
  no_block :
      {url : List ℕ} {post : Post} {timeout : Option ℤ} (after : Live)
      → malloc ≡ false
      → Accounted malloc easy_init add_handle before (some url) post timeout (undefined, after)
  returned :
      {url : List ℕ} {post : Post} {timeout : Option ℤ} (r : WebRequest) (after : Live)
      → (malloc && (easy_init && add_handle)) ≡ true
      → Owns before after r
      → Accounted malloc easy_init add_handle before (some url) post timeout (request r, after)

Live-ext :
    {a b : Live}
    → a.requests ≡ b.requests
    → a.handles ≡ b.handles
    → a.forms ≡ b.forms
    → a.headers ≡ b.headers
    → a ≡ b
Live-ext p q r s = λ i. record { requests = p i; handles = q i; forms = r i; headers = s i }

-- The failing path of webclient_realrequest frees what was allocated before it.
request_freed : (live : Live) → record live { requests = suc live.requests - 1 } ≡ live
request_freed live = Live-ext (omega arith) refl refl refl

both_freed :
    (live : Live)
    → record live { requests = suc live.requests - 1; handles = suc live.handles - 1 } ≡ live
both_freed live = Live-ext (omega arith) (omega arith) refl refl

-- After a form was made.
send_request-made :
    (malloc easy_init add_handle : Bool) (live : Live) (address : List ℕ) (given : Option ℤ)
    (timeout : ℕ)
    → Accounted malloc easy_init add_handle live (some address) (table true) given (
        send_request malloc easy_init add_handle
          (record live { forms = suc live.forms })
          address
          (table true)
          timeout)
unfolding send_request real_request zeroed
send_request-made false easy_init add_handle live address given timeout = no_block _ refl
send_request-made true false add_handle live address given timeout =
    rw (request_freed (record live { forms = suc live.forms })) (leaked refl)
send_request-made true true false live address given timeout =
    rw (both_freed (record live { forms = suc live.forms })) (leaked refl)
send_request-made true true true live address given timeout =
    returned _ _ refl
      (record { requests = refl; handles = refl; forms = refl; headers = omega arith })

send_request-formless :
    (malloc easy_init add_handle : Bool) (live : Live) (address : List ℕ) (post : Post)
    (given : Option ℤ) (timeout : ℕ)
    → has_form post ≡ false
    → Accounted malloc easy_init add_handle live
        (some address)
        post
        given
        (send_request malloc easy_init add_handle live address post timeout)
unfolding send_request real_request zeroed
send_request-formless false easy_init add_handle live address post given timeout e = no_block _ refl
send_request-formless true false add_handle live address post given timeout e =
    rw (request_freed live) (none_made refl e)
send_request-formless true true false live address post given timeout e =
    rw (both_freed live) (none_made refl e)
send_request-formless true true true live address post given timeout e =
    returned _ _ refl
      (record { requests = refl; handles = refl; forms = rw e refl; headers = omega arith })

module _ (malloc easy_init add_handle : Bool) (live : Live) where
  check_timeout-formless :
      (address : List ℕ) (post : Post) (timeout : Option ℤ)
      → has_form post ≡ false
      → Accounted malloc easy_init add_handle live
          (some address)
          post
          timeout
          (check_timeout malloc easy_init add_handle live address post timeout)
  unfolding check_timeout
  check_timeout-formless address post none e =
      send_request-formless malloc easy_init add_handle live address post none 5000 e
  check_timeout-formless address post (some (pos t)) e =
      send_request-formless malloc easy_init add_handle live address post (some (pos t)) t e
  check_timeout-formless address post (some (negsuc t)) e = refused t e

  check_timeout-made :
      (address : List ℕ) (timeout : Option ℤ)
      → Accounted malloc easy_init add_handle live (some address) (table true) timeout (
          check_timeout malloc easy_init add_handle
            (record live { forms = suc live.forms })
            address
            (table true)
            timeout)
  unfolding check_timeout
  check_timeout-made address none =
      send_request-made malloc easy_init add_handle live address none 5000
  check_timeout-made address (some (pos t)) =
      send_request-made malloc easy_init add_handle live address (some (pos t)) t
  check_timeout-made address (some (negsuc t)) = leaked_refused t

  -- On every branch of webclient_request: a request that is returned holds all that was allocated.
  -- When none is, nothing stays allocated but a form that was made of the post, which is left both
  -- when the timeout is refused and when the request cannot be made. Only without a block from
  -- malloc the behaviour is undefined.
  pub web_request-Accounted :
      (address : Option (List ℕ)) (post : Post) (timeout : Option ℤ)
      → Accounted malloc easy_init add_handle live address post timeout
          (web_request malloc easy_init add_handle live address post timeout)
  unfolding web_request
  web_request-Accounted none post timeout = no_address
  web_request-Accounted (some address) (table false) timeout = no_form
  web_request-Accounted (some address) (table true) timeout = check_timeout-made address timeout
  web_request-Accounted (some address) no_post timeout =
      check_timeout-formless address no_post timeout refl
  web_request-Accounted (some address) (string s) timeout =
      check_timeout-formless address (string s) timeout refl

plus-undone : (b : Bool) (n : ℕ) → plus b n - plus b 0 ≡ n
plus-undone true n = omega arith
plus-undone false n = omega arith

module _ {malloc easy_init add_handle : Bool} {before after : Live} {r : WebRequest} where
  -- The request that webclient_request hands out owns what is live beyond `before`.
  owned :
      {address : Option (List ℕ)} {post : Post} {timeout : Option ℤ}
      → Accounted malloc easy_init add_handle before address post timeout (request r, after)
      → Owns before after r
  owned (returned r after run o) = o

module _ (append : List (List ℕ) → List ℕ → Bool)
    (appends : (header : List (List ℕ)) (str : List ℕ) → append header str ≡ true) where
  append_headers-all :
      (live : Live) (header strs : List (List ℕ))
      → append_headers append live header strs
        ≡ (header ++ strs, record live { headers = live.headers + length strs })
  unfolding append_headers
  append_headers-all live header [] =
      ap (λ h. (h, live)) (sym (append-nil header))
      ∙ ap (λ l. (header ++ [], l)) (Live-ext refl refl refl (omega arith))
  append_headers-all live header (str ∷ strs) =
      rw (append_headers, appends header str)
        (append_headers-all (record live { headers = suc live.headers }) (header ++ str ∷ []) strs
          ∙ ap (λ h. (h, record live { headers = suc live.headers + length strs }))
              (append_assoc header (str ∷ []) strs)
          ∙ ap (λ l. (header ++ str ∷ strs, l)) (Live-ext refl refl refl (omega arith)))

  -- Whatever headers are set on a request, if curl_slist_append takes each of them,
  -- webclient_removerequest frees all that was allocated for it: what is live is again what was
  -- before webclient_request.
  pub remove-web_request :
      (malloc easy_init add_handle : Bool) (before after : Live) (address : Option (List ℕ))
      (post : Post) (timeout : Option ℤ) (r : WebRequest) (strs : List (List ℕ))
      → web_request malloc easy_init add_handle before address post timeout ≡ (request r, after)
      → remove_request (set_httpheader append after r strs).1 (set_httpheader append after r strs).0
        ≡ before
  unfolding remove_request set_httpheader
  remove-web_request m i a before after address post timeout r strs e =
      let o : Owns before after r =
        owned (rw e at (web_request-Accounted m i a before address post timeout)) in
      rw (append_headers-all after r.header strs) (
        Live-ext (omega (arith, o.requests)) (omega (arith, o.handles))
          (ap (λ n. n - plus r.http_post 0) o.forms ∙ plus-undone r.http_post before.forms)
          (omega (arith, o.headers, length-append r.header strs)))
