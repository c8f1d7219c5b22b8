-- ===== src/WebClient/Client.antt =====
-- webclient_create, url_encoding and webclient_destory of 3rd/src-c/webclient.c: what of libcurl a
-- client holds.
use skynet_slg.Prelude.{
  ℕ, suc, ◌+◌, ◌-◌, ◌≡◌, ◌≢◌, refl, arith, List, [], ◌∷◌, Bool, true, false, ◌||◌, not,
  if◌then◌else◌, Option, none, some, Option-cases, inl, inr,
}

-- How often curl_global_init was called without curl_global_cleanup, how many multi and easy handles
-- there are, and how many strings that curl_easy_escape gave and curl_free did not free.
pub record Globals : Type 0 where
  pub inits : ℕ
  pub multis : ℕ
  pub easies : ℕ
  pub strings : ℕ

-- struct webclient: whether encoding_curl is a handle; curlm is one until the client is destroyed.
pub record Client : Type 0 where
  pub encoding_curl : Bool

pub data Created : Type 0 where
  too_old create_failed : Created
  client : Client → Created

abbrev count : Bool → ℕ
count true = 1
count false = 0

-- `version_num` is libcurl's version; `multi_init` says whether curl_multi_init gives a handle.
unfoldable pub webclient_create : Bool → Bool → Globals → Created × Globals
webclient_create new_enough multi_init g =
    if not new_enough
    then (too_old, g)
    else (let g1 : Globals = record g { inits = suc g.inits } in
        if multi_init
        then (client (record { encoding_curl = false }), record g1 { multis = suc g1.multis })
        else (create_failed, record g1 { inits = g1.inits - 1 }))

unfoldable pub webclient_destory : Client → Globals → Globals
webclient_destory c g = record g {
  inits = g.inits - 1;
  multis = g.multis - 1;
  easies = g.easies - count c.encoding_curl;
}

abbrev curl_free : Globals → Globals
curl_free g = record g { strings = g.strings - 1 }

-- `easy_init` says whether curl_easy_init gives a handle at this call, `escape` is curl_easy_escape,
-- which may fail: the string is then returned as it is. What it gives is freed once Lua has it.
unfoldable pub url_encoding :
    (List ℕ → Option (List ℕ)) → Bool → List ℕ → Client × Globals → List ℕ × (Client × Globals)
url_encoding escape easy_init str (c, g) =
    let made : Bool = if c.encoding_curl then false else easy_init in
    let c1 : Client = record { encoding_curl = c.encoding_curl || made } in
    let g1 : Globals = record g { easies = count made + g.easies } in
    elim (escape str) [
      | none ↦ (str, (c1, g1))
      | some ret ↦ (ret, (c1, curl_free (record g1 { strings = suc g1.strings })))
    ]

-- The calls of a script, with what curl_easy_init answers.
unfoldable pub encode_each :
    (List ℕ → Option (List ℕ)) → List (Bool × List ℕ) → Client × Globals → Client × Globals
encode_each escape [] s = s
encode_each escape ((easy_init, str) ∷ calls) s =
    encode_each escape calls (url_encoding escape easy_init str s).1

-- What a client holds beyond `g`.
record Holds (g : Globals) (s : Client × Globals) : Type 0 where
  inits : s.1.inits ≡ suc g.inits
  multis : s.1.multis ≡ suc g.multis
  easies : s.1.easies ≡ count s.0.encoding_curl + g.easies
  strings : s.1.strings ≡ g.strings

handle_count :
    (b m : Bool) (n k : ℕ)
    → n ≡ count b + k
    → count (if b then false else m) + n ≡ count (b || (if b then false else m)) + k
handle_count true m n k e = omega (arith, e)
handle_count false true n k e = omega (arith, e)
handle_count false false n k e = omega (arith, e)

url_encoding-Holds :
    (escape : List ℕ → Option (List ℕ)) (easy_init : Bool) (str : List ℕ) (g : Globals) (c : Client)
    (now : Globals)
    → Holds g (c, now)
    → Holds g (url_encoding escape easy_init str (c, now)).1
unfolding url_encoding
url_encoding-Holds escape easy_init str g c now h = elim (Option-cases (escape str)) [
  | inl e ↦
      rw (url_encoding, e)
        (record {
          inits = h.inits;
          multis = h.multis;
          easies = handle_count c.encoding_curl easy_init now.easies g.easies h.easies;
          strings = h.strings;
        })
  | inr (ret, e) ↦
      rw (url_encoding, e)
        (record {
          inits = h.inits;
          multis = h.multis;
          easies = handle_count c.encoding_curl easy_init now.easies g.easies h.easies;
          strings = omega (arith, h.strings);
        })
]

encode_each-Holds :
    (escape : List ℕ → Option (List ℕ)) (calls : List (Bool × List ℕ)) (g : Globals)
    (s : Client × Globals)
    → Holds g s
    → Holds g (encode_each escape calls s)
unfolding encode_each
encode_each-Holds escape [] g s h = h
encode_each-Holds escape ((easy_init, str) ∷ calls) g (c, now) h =
    encode_each-Holds escape calls g (url_encoding escape easy_init str (c, now)).1
      (url_encoding-Holds escape easy_init str g c now h)

created-Holds :
    (g : Globals)
    → Holds g
        (record { encoding_curl = false }, record g { inits = suc g.inits; multis = suc g.multis })
created-Holds g = record { inits = refl; multis = refl; easies = omega arith; strings = refl }

Globals-ext :
    {a b : Globals}
    → a.inits ≡ b.inits
    → a.multis ≡ b.multis
    → a.easies ≡ b.easies
    → a.strings ≡ b.strings
    → a ≡ b
Globals-ext p q r s = λ i. record { inits = p i; multis = q i; easies = r i; strings = s i }

destroyed : (g : Globals) (s : Client × Globals) → Holds g s → webclient_destory s.0 s.1 ≡ g
unfolding webclient_destory
destroyed g s h =
    Globals-ext (omega (arith, h.inits)) (omega (arith, h.multis)) (omega (arith, h.easies))
      h.strings

-- How webclient_create may end, and what follows.
pub data Balanced (g : Globals) (escape : List ℕ → Option (List ℕ)) (calls : List (Bool × List ℕ))
    : Created × Globals → Type 0 where
  not_made : (r : Created) → ((c : Client) → r ≢ client c) → Balanced g escape calls (r, g)
  made :
      (c : Client) (now : Globals)
      → webclient_destory
          (encode_each escape calls (c, now)).0
          (encode_each escape calls (c, now)).1
        ≡ g
      → Balanced g escape calls (client c, now)

-- When webclient_create fails, libcurl is left as it was; otherwise webclient_destory leaves it as
-- it was before webclient_create, whatever url_encoding was called on in between.
pub webclient_create-Balanced :
    (new_enough multi_init : Bool) (g : Globals) (escape : List ℕ → Option (List ℕ))
    (calls : List (Bool × List ℕ))
    → Balanced g escape calls (webclient_create new_enough multi_init g)
unfolding webclient_create
webclient_create-Balanced false multi_init g escape calls = not_made too_old (λ c e. cc)
webclient_create-Balanced true false g escape calls =
    let same : record g { inits = suc g.inits - 1 } ≡ g =
      Globals-ext (omega arith) refl refl refl in
    rw same (not_made create_failed (λ c e. cc))
webclient_create-Balanced true true g escape calls =
    made _ _ (destroyed g _ (encode_each-Holds escape calls g _ (created-Holds g)))
