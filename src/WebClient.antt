-- ===== src/WebClient.antt =====
-- 3rd/src-c/webclient.c: web requests over libcurl. What libcurl and realloc answer are parameters.
pub mod Respond
pub mod Lifetime
pub mod Queue
pub mod Form
pub mod Client
use skynet_slg.Prelude.{
  ℕ, zero, suc, ◌+◌, ◌-◌, ◌*◌, List, [], ◌∷◌, ◌++◌, take, drop, length, Bool, true, false, not, ltb,
  leb, if◌then◌else◌, Option, none, some,
}
use skynet_slg.Prelude.Int.{ℤ, pos, negsuc}
use skynet_slg.Prelude.Word.{u64}

-- What is set of a request's handle with curl_easy_setopt, by option.
pub data Setting : Type 0 where
  no_signal no_verify_peer no_verify_host follow_location : Setting
  write_function write_data error_buffer : Setting
  connect_timeout_ms : ℕ → Setting
  url : List ℕ → Setting
  form_post : Setting
  post_fields : List ℕ → Setting
  http_header : List (List ℕ) → Setting

-- struct webrequest: `content` is the allocated block ([] for NULL), `error` the C string in the
-- error buffer, `settings` what its handle was given, the first setting first.
pub record WebRequest : Type 0 where
  pub settings : List Setting
  pub header : List (List ℕ)
  pub http_post : Bool
  pub error : List ℕ
  pub content : List ℕ
  pub content_length : ℕ
  pub content_maxlength : ℕ
  pub content_realloc_failed : Bool

-- After the memset to zero.
unfoldable pub zeroed : WebRequest
zeroed = record {
  settings = [];
  header = [];
  http_post = false;
  error = [];
  content = [];
  content_length = 0;
  content_maxlength = 0;
  content_realloc_failed = false;
}

abbrev max : ℕ → ℕ → ℕ
max a b = if ltb b a then a else b

-- The three assignments to content_maxlength.
unfoldable pub grown : WebRequest → ℕ → ℕ
grown r len = u64 (2 * max (max r.content_maxlength (u64 (r.content_length + len))) 512)

-- The memcpy; `none` is a copy beyond the block. With the function's result.
unfoldable pub store : WebRequest → List ℕ → ℕ → Option (WebRequest × ℕ)
store r buffer len =
    let at = r.content_length in
    if leb (at + len) (length r.content)
    then some (
      record r {
        content = take at r.content ++ (take len buffer ++ drop (at + len) r.content);
        content_length = u64 (at + len);
      },
      len,
    )
    else none

module _ (realloc : List ℕ → ℕ → Option (List ℕ)) where
  -- write_callback, its `length` given.
  unfoldable pub receive : WebRequest → List ℕ → ℕ → Option (WebRequest × ℕ)
  receive r buffer len =
      if r.content_realloc_failed
      then some (r, len)
      else if ltb r.content_maxlength (u64 (r.content_length + len))
      then elim (realloc r.content (grown r len)) [
        | none ↦
            some (record r { content_maxlength = grown r len; content_realloc_failed = true }, len)
        | some new_content ↦
            store (record r { content_maxlength = grown r len; content = new_content }) buffer len
      ]
      else store r buffer len

  -- The buffer, block_size and count.
  unfoldable pub write_callback : WebRequest → List ℕ → ℕ → ℕ → Option (WebRequest × ℕ)
  write_callback r buffer block_size count = receive r buffer (u64 (block_size * count))

-- "not enough memory."
abbrev pub no_memory : List ℕ
no_memory =
    b'n' ∷ b'o' ∷ b't' ∷ b' ' ∷ b'e' ∷ b'n' ∷ b'o' ∷ b'u' ∷ b'g' ∷ b'h' ∷ b' ' ∷ b'm' ∷ b'e' ∷ b'm'
    ∷ b'o' ∷ b'r' ∷ b'y' ∷ b'.' ∷ []

-- webclient_getrespond: the content, and the error if there is one.
unfoldable pub get_respond : WebRequest → List ℕ × Option (List ℕ)
get_respond r =
    let error = if r.content_realloc_failed then no_memory else r.error in
    (take r.content_length r.content, elim error [ [] ↦ none | e ∷ es ↦ some (e ∷ es) ])

-- How much of each kind was allocated and not freed.
pub record Live : Type 0 where
  pub requests : ℕ
  pub handles : ℕ
  pub forms : ℕ
  pub headers : ℕ

-- The third argument of webclient_request: a table with the form that webclient_tohttppost made of
-- it (`none` if that failed, and freed what there was), a string, or neither.
pub data Post : Type 0 where
  no_post : Post
  table : Bool → Post
  string : List ℕ → Post

pub data Reply : Type 0 where
  arg_error : ℕ → Reply
  no_values : Reply
  undefined : Reply
  request : WebRequest → Reply

-- Whether the post is a form that was made.
abbrev pub has_form : Post → Bool
has_form (table made) = made
has_form no_post = false
has_form (string s) = false

-- `n` more of what `b` says is there.
abbrev pub plus : Bool → ℕ → ℕ
plus true n = suc n
plus false n = n

abbrev post_settings : Post → List Setting
post_settings no_post = []
post_settings (table made) = if made then form_post ∷ [] else []
post_settings (string s) = post_fields s ∷ []

-- How webclient_realrequest ends: with a request, with NULL, or in the memset of a block that malloc
-- did not give.
pub data Made : Type 0 where
  made_request : WebRequest → Made
  null_request : Made
  memset_null : Made

abbrev free_request : Live → Live
free_request live = record live { requests = live.requests - 1 }

abbrev easy_cleanup : Live → Live
easy_cleanup live = record live { handles = live.handles - 1 }

-- What malloc, curl_easy_init and curl_multi_add_handle answer.
module _ (malloc easy_init add_handle : Bool) where
  -- webclient_realrequest.
  unfoldable pub real_request : Live → List ℕ → Post → ℕ → Made × Live
  real_request live address post timeout =
      if not malloc
      then (memset_null, live)
      else (let allocated : Live = record live { requests = suc live.requests } in
          if not easy_init
          then (null_request, free_request allocated)
          else (let with_handle : Live = record allocated { handles = suc allocated.handles } in
              if add_handle
              then (
                made_request (record zeroed {
                  settings =
                      no_signal
                      ∷ no_verify_peer
                      ∷ no_verify_host
                      ∷ follow_location
                      ∷ write_function
                      ∷ write_data
                      ∷ error_buffer
                      ∷ connect_timeout_ms timeout
                      ∷ url address
                      ∷ post_settings post;
                  http_post = has_form post;
                }),
                with_handle,
              )
              else (null_request, free_request (easy_cleanup with_handle))))

  -- The call of webclient_realrequest at the end of webclient_request.
  unfoldable pub send_request : Live → List ℕ → Post → ℕ → Reply × Live
  send_request live address post timeout =
      let (made, live') = real_request live address post timeout in
      (
        elim made [
          | null_request ↦ no_values
          | memset_null ↦ undefined
          | made_request r ↦ request r
        ],
        live',
      )

  -- The fourth argument, if it is a number.
  unfoldable pub check_timeout : Live → List ℕ → Post → Option ℤ → Reply × Live
  check_timeout live address post none = send_request live address post 5000
  check_timeout live address post (some (pos t)) = send_request live address post t
  check_timeout live address post (some (negsuc t)) = (arg_error 4, live)

  -- webclient_request: the url, the post and the timeout.
  unfoldable pub web_request : Live → Option (List ℕ) → Post → Option ℤ → Reply × Live
  web_request live none post timeout = (arg_error 2, live)
  web_request live (some address) (table false) timeout = (arg_error 3, live)
  web_request live (some address) (table true) timeout =
      check_timeout (record live { forms = suc live.forms }) address (table true) timeout
  web_request live (some address) no_post timeout = check_timeout live address no_post timeout
  web_request live (some address) (string s) timeout = check_timeout live address (string s) timeout

-- The setting for a list that is not NULL.
abbrev header_setting : List (List ℕ) → List Setting
header_setting [] = []
header_setting (h ∷ hs) = http_header (h ∷ hs) ∷ []

-- The loop of webclient_sethttpheader over its arguments, which are strings. `append` says whether
-- curl_slist_append gives a list with the string; else its NULL takes the place of the list.
unfoldable pub append_headers :
    (List (List ℕ) → List ℕ → Bool) → Live → List (List ℕ) → List (List ℕ) → List (List ℕ) × Live
append_headers append live header [] = (header, live)
append_headers append live header (str ∷ strs) = elim (append header str) [
  | true ↦
      append_headers append (record live { headers = suc live.headers }) (header ++ str ∷ []) strs
  | false ↦ append_headers append live [] strs
]

-- webclient_sethttpheader.
unfoldable pub set_httpheader :
    (List (List ℕ) → List ℕ → Bool) → Live → WebRequest → List (List ℕ) → WebRequest × Live
set_httpheader append live r strs =
    let (header, live') = append_headers append live r.header strs in
    (record r { header = header; settings = r.settings ++ header_setting header }, live')

-- webclient_removerequest.
unfoldable pub remove_request : Live → WebRequest → Live
remove_request live r = record {
  requests = live.requests - 1;
  handles = live.handles - 1;
  forms = live.forms - plus r.http_post 0;
  headers = live.headers - length r.header;
}

-- A message of curl_multi_info_read: CURLMSG_DONE with its handle and result, or another.
pub data Message : Type 0 where
  done : ℕ → ℕ → Message
  other : Message

-- webclient_realquery on the messages that are queued: the handle and its result, and the queue.
unfoldable pub real_query : List Message → Option (ℕ × ℕ) × List Message
real_query [] = (none, [])
real_query (done handle result ∷ queue) = (some (handle, result), queue)
real_query (other ∷ queue) = real_query queue

-- webclient_query: a finished request, none, or the error "webclient query failed".
pub data Query : Type 0 where
  ready : ℕ → ℕ → Query
  nothing : Query
  failed : Query

-- The second call of webclient_realquery.
abbrev after_perform : Bool × List Message → Query × List Message
after_perform (false, queue) = (failed, queue)
after_perform (true, queue) =
    let (found, rest) = real_query queue in
    (elim found [ none ↦ nothing | some (handle, result) ↦ ready handle result ], rest)

module _ (perform : List Message → Bool × List Message) where
  -- What the first call of webclient_realquery leads to.
  abbrev found_or_perform : Option (ℕ × ℕ) × List Message → Query × List Message
  found_or_perform (some (handle, result), rest) = (ready handle result, rest)
  found_or_perform (none, rest) = after_perform (perform rest)

  -- `perform` is curl_multi_perform: whether its code is CURLM_OK or CURLM_CALL_MULTI_PERFORM, and
  -- the queue that it leaves.
  unfoldable pub query : List Message → Query × List Message
  query queue = found_or_perform (real_query queue)
