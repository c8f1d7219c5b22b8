-- ===== src/WebClient/Respond.antt =====
-- The buffer of a response: write_callback keeps what it is given, in order.
use mathlib.Core.List.{append_assoc, append-nil}
use mathlib.Core.Path.{subst}
use skynet_slg.Prelude.{
  ℕ, ◌+◌, ◌*◌, ◌^◌, ◌≤◌, ◌<◌, ◌≡◌, ◌⊎◌, inl, inr, refl, sym, ap, ◌∙◌, arith, List, [], ◌∷◌, ◌++◌,
  take, drop, length, length-append, length-take, length-drop, true, false, ltb, if◌then◌else◌,
  Option, none, some, Option-cases, le→leb, ◌==◌, ==_iff,
}
use skynet_slg.Prelude.Slices.{take-eq_self, take-append}
use native.Mathlib.Decide.{dec_lt}
use skynet_slg.Prelude.Word.{u64}
use skynet_slg.WebClient.{
  WebRequest, zeroed, grown, store, receive, write_callback, no_memory, get_respond,
}

-- The request holds exactly `bs`, in a block of content_maxlength bytes.
pub record Stored (r : WebRequest) (bs : List ℕ) : Type 0 where
  pub size : length r.content ≡ r.content_maxlength
  pub len : r.content_length ≡ length bs
  pub bytes : take (length bs) r.content ≡ bs
  pub going_on : r.content_realloc_failed ≡ false
  pub error : r.error ≡ []

-- A realloc failed: the request holds a beginning of `bs`, and had no space for the buffer `next`
-- that came then; the block that was asked for would have had it. Later buffers were dropped.
pub record Cut (realloc : List ℕ → ℕ → Option (List ℕ)) (r : WebRequest) (bs : List ℕ)
    : Type 0 where
  pub failed : r.content_realloc_failed ≡ true
  pub refused : realloc r.content r.content_maxlength ≡ none
  pub next : List ℕ
  pub later : List ℕ
  pub held : r.content_length ≤ length r.content
  pub needed : length r.content < r.content_length + length next
  pub enough : r.content_length + length next ≤ r.content_maxlength
  pub bytes : take r.content_length r.content ++ (next ++ later) ≡ bs

abbrev Kept : (List ℕ → ℕ → Option (List ℕ)) → WebRequest → List ℕ → Type 0
Kept realloc r bs = Stored r bs ⊎ Cut realloc r bs

fits_block : {r : WebRequest} {bs : List ℕ} → Stored r bs → length bs ≤ length r.content
fits_block {r} {bs} s = omega (arith, length-take (length bs) r.content, ap length s.bytes)

-- Numbers below 2^62 do not wrap.
grown-enough :
    (r : WebRequest) (len : ℕ)
    → r.content_length + len < 2 ^ 62
    → r.content_maxlength < r.content_length + len
    → r.content_length + len ≤ grown r len
unfolding grown
grown-enough r len small more = ground arith

-- A block with `buffer` copied over it behind its first `k` bytes.
abbrev splice : ℕ → List ℕ → List ℕ → List ℕ
splice k c buffer = take k c ++ (take (length buffer) buffer ++ drop (k + length buffer) c)

module _ (k : ℕ) (c buffer : List ℕ) (space : k + length buffer ≤ length c) where
  length-splice : length (splice k c buffer) ≡ length c
  length-splice = omega (
    arith,
    length-append (take k c) (take (length buffer) buffer ++ drop (k + length buffer) c),
    length-append (take (length buffer) buffer) (drop (k + length buffer) c),
    length-take k c,
    length-take (length buffer) buffer,
    length-drop (k + length buffer) c,
  )

  take-splice : take (k + length buffer) (splice k c buffer) ≡ take k c ++ buffer
  take-splice =
      rw
        (
          take-eq_self (length buffer) buffer (omega arith),
          ← append_assoc (take k c) buffer (drop (k + length buffer) c),
        )
        (take-append (k + length buffer) (take k c ++ buffer) (drop (k + length buffer) c)
          (omega (arith, length-append (take k c) buffer, length-take k c)))

store-runs :
    (r : WebRequest) (buffer : List ℕ)
    → r.content_length + length buffer ≤ length r.content
    → store r buffer (length buffer)
      ≡ some (
        record r {
          content = splice r.content_length r.content buffer;
          content_length = u64 (r.content_length + length buffer);
        },
        length buffer,
      )
unfolding store
store-runs r buffer space = rw (le→leb (r.content_length + length buffer) (length r.content) space)

-- The copy goes behind the bytes that are there when the block has the space.
store-Stored :
    (r : WebRequest) (bs buffer : List ℕ)
    → Stored r bs
    → length bs + length buffer < 2 ^ 62
    → length bs + length buffer ≤ length r.content
    → (r' : WebRequest) × (store r buffer (length buffer) ≡ some (r', length buffer))
      × Stored r' (bs ++ buffer)
store-Stored r bs buffer s small space =
    let fits : r.content_length + length buffer ≤ length r.content = omega (arith, s.len) in
    let whole : take r.content_length r.content ≡ bs = rw s.len s.bytes in
    let total : r.content_length + length buffer ≡ length (bs ++ buffer) =
      omega (arith, s.len, length-append bs buffer) in
    (
      record r {
        content = splice r.content_length r.content buffer;
        content_length = u64 (r.content_length + length buffer);
      },
      store-runs r buffer fits,
      record {
        size = length-splice r.content_length r.content buffer fits ∙ s.size;
        len = ground (arith, total, s.len);
        bytes =
            ap (λ n. take n (splice r.content_length r.content buffer)) (sym total)
            ∙ take-splice r.content_length r.content buffer fits
            ∙ ap (λ l. l ++ buffer) whole;
        going_on = s.going_on;
        error = s.error;
      },
    )

-- What the C library documents of realloc: the new block has the size that was asked for, and
-- begins with the bytes of the old one.
abbrev pub Reallocates : (List ℕ → ℕ → Option (List ℕ)) → Type 0
Reallocates realloc =
    (c c' : List ℕ) (n : ℕ)
    → realloc c n ≡ some c'
    → length c ≤ n
    → (length c' ≡ n) × ((k : ℕ) → k ≤ length c → take k c' ≡ take k c)

module _ (realloc : List ℕ → ℕ → Option (List ℕ)) (r : WebRequest) (bs buffer : List ℕ) where
  receive-cut :
      r.content_realloc_failed ≡ true
      → receive realloc r buffer (length buffer) ≡ some (r, length buffer)
  unfolding receive
  receive-cut e = rw e

  module _ (s : Stored r bs) (small : length bs + length buffer < 2 ^ 62) where
    receive-fits :
        length bs + length buffer ≤ r.content_maxlength
        → receive realloc r buffer (length buffer) ≡ store r buffer (length buffer)
    unfolding receive
    receive-fits fits =
        let no : ltb r.content_maxlength (u64 (r.content_length + length buffer)) ≡ false =
          ground (arith, s.len) in
        rw (no, s.going_on)

    module _ (more : r.content_maxlength < length bs + length buffer) where
      too_small : ltb r.content_maxlength (u64 (r.content_length + length buffer)) ≡ true
      too_small = ground (arith, s.len)

      receive-grows :
          (c : List ℕ)
          → realloc r.content (grown r (length buffer)) ≡ some c
          → receive realloc r buffer (length buffer)
            ≡ store
                (record r { content_maxlength = grown r (length buffer); content = c })
                buffer
                (length buffer)
      unfolding receive
      receive-grows c e = rw (e, too_small, s.going_on)

      receive-fails :
          realloc r.content (grown r (length buffer)) ≡ none
          → receive realloc r buffer (length buffer)
            ≡ some (
              record r {
                content_maxlength = grown r (length buffer);
                content_realloc_failed = true;
              },
              length buffer,
            )
      unfolding receive
      receive-fails e = rw (e, too_small, s.going_on)

module _ (realloc : List ℕ → ℕ → Option (List ℕ)) (reallocates : Reallocates realloc) where
  module _ (r : WebRequest) (bs buffer : List ℕ) (small : length bs + length buffer < 2 ^ 62) where
    abbrev KeepsOn : Type 0
    KeepsOn =
        (r' : WebRequest) × (receive realloc r buffer (length buffer) ≡ some (r', length buffer))
        × Kept realloc r' (bs ++ buffer)

    grown-KeepsOn :
        (s : Stored r bs)
        → r.content_maxlength < length bs + length buffer
        → (c : List ℕ) → realloc r.content (grown r (length buffer)) ≡ some c
        → KeepsOn
    grown-KeepsOn s more c e =
        let enough : length bs + length buffer ≤ grown r (length buffer) = omega (
          arith,
          s.len,
          grown-enough r (length buffer) (omega (arith, s.len)) (omega (arith, s.len)),
        ) in
        let (size, same) =
          reallocates r.content c (grown r (length buffer)) e (omega (arith, s.size)) in
        let r1 : WebRequest = record r {
          content_maxlength = grown r (length buffer);
          content = c;
        } in
        let s1 : Stored r1 bs = record {
          size = size;
          len = s.len;
          bytes = same (length bs) (fits_block s) ∙ s.bytes;
          going_on = s.going_on;
          error = s.error;
        } in
        let (r', run, s') = store-Stored r1 bs buffer s1 small (omega (arith, size)) in
        (r', receive-grows realloc r bs buffer s small more c e ∙ run, inl s')

    receive-KeepsOn : Kept realloc r bs → KeepsOn
    receive-KeepsOn (inr cut) = (
      r,
      receive-cut realloc r bs buffer cut.failed,
      inr (record {
        failed = cut.failed;
        refused = cut.refused;
        next = cut.next;
        later = cut.later ++ buffer;
        held = cut.held;
        needed = cut.needed;
        enough = cut.enough;
        bytes =
            ap (λ l. take r.content_length r.content ++ l)
              (sym (append_assoc cut.next cut.later buffer))
            ∙ sym (append_assoc (take r.content_length r.content) (cut.next ++ cut.later) buffer)
            ∙ ap (λ l. l ++ buffer) cut.bytes;
      }),
    )
    receive-KeepsOn (inl s) = elim (dec_lt r.content_maxlength (length bs + length buffer)) [
      | no fits ↦
          let (r', run, s') = store-Stored r bs buffer s small (omega (arith, s.size)) in
          (r', receive-fits realloc r bs buffer s small (omega arith) ∙ run, inl s')
      | yes more ↦ elim (Option-cases (realloc r.content (grown r (length buffer)))) [
        | inr (c, e) ↦ grown-KeepsOn s more c e
        | inl e ↦ (
          record r { content_maxlength = grown r (length buffer); content_realloc_failed = true },
          receive-fails realloc r bs buffer s small more e,
          inr (record {
            failed = refl;
            refused = e;
            next = buffer;
            later = [];
            held = omega (arith, s.len, fits_block s);
            needed = omega (arith, s.len, s.size, more);
            enough = grown-enough r (length buffer) (omega (arith, s.len)) (omega (arith, s.len));
            bytes = rw (s.len, append-nil buffer) (ap (λ l. l ++ buffer) s.bytes);
          }),
        )
      ]
    ]

-- A call of write_callback by libcurl: `block_size * count` bytes.
pub record Chunk : Type 0 where
  pub buffer : List ℕ
  pub block_size : ℕ
  pub count : ℕ
  pub sizes : block_size * count ≡ length buffer

unfoldable pub all_bytes : List Chunk → List ℕ
all_bytes [] = []
all_bytes (chunk ∷ chunks) = chunk.buffer ++ all_bytes chunks

-- The calls of a transfer; libcurl ends it when a result is not the number of the bytes.
unfoldable pub download :
    (List ℕ → ℕ → Option (List ℕ)) → WebRequest → List Chunk → Option WebRequest
download realloc r [] = some r
download realloc r (chunk ∷ chunks) =
    elim (write_callback realloc r chunk.buffer chunk.block_size chunk.count) [
      | none ↦ none
      | some (r', len) ↦ if len == length chunk.buffer then download realloc r' chunks else some r'
    ]

-- The response of a request that received `bs`.
abbrev pub Responds : (List ℕ → ℕ → Option (List ℕ)) → List ℕ → Option WebRequest → Type 0
Responds realloc bs run =
    (r : WebRequest) × (run ≡ some r)
    × ((get_respond r ≡ (bs, none))
        ⊎ (Cut realloc r bs × (get_respond r ≡ (take r.content_length r.content, some no_memory))))

module _ (r : WebRequest) (bs : List ℕ) where
  Stored-respond : Stored r bs → get_respond r ≡ (bs, none)
  unfolding get_respond
  Stored-respond s = rw (get_respond, s.going_on, s.error, s.len, s.bytes)

  Cut-respond :
      r.content_realloc_failed ≡ true
      → get_respond r ≡ (take r.content_length r.content, some no_memory)
  unfolding get_respond
  Cut-respond e = rw (get_respond, e)

module _ (realloc : List ℕ → ℕ → Option (List ℕ)) (reallocates : Reallocates realloc) where
  callback-receive :
      (r : WebRequest) (chunk : Chunk)
      → length chunk.buffer < 2 ^ 62
      → write_callback realloc r chunk.buffer chunk.block_size chunk.count
        ≡ receive realloc r chunk.buffer (length chunk.buffer)
  unfolding write_callback
  callback-receive r chunk small =
      ap (receive realloc r chunk.buffer) (rw chunk.sizes (ground arith))

  download-goes_on :
      (r r' : WebRequest) (chunk : Chunk) (chunks : List Chunk)
      → write_callback realloc r chunk.buffer chunk.block_size chunk.count
        ≡ some (r', length chunk.buffer)
      → download realloc r (chunk ∷ chunks) ≡ download realloc r' chunks
  unfolding download
  download-goes_on r r' chunk chunks e =
      rw (download, e, (==_iff (length chunk.buffer) (length chunk.buffer)).1 refl)

  download-Responds :
      (r : WebRequest) (bs : List ℕ) (chunks : List Chunk)
      → length bs + length (all_bytes chunks) < 2 ^ 62
      → Kept realloc r bs
      → Responds realloc (bs ++ all_bytes chunks) (download realloc r chunks)
  unfolding all_bytes
  download-Responds r bs [] small (inl s) = (
    r,
    unfold download in refl,
    inl (Stored-respond r bs s ∙ ap (λ l. (l, none)) (sym (append-nil bs))),
  )
  download-Responds r bs [] small (inr c) = (
    r,
    unfold download in refl,
    inr (subst (Cut realloc r) (sym (append-nil bs)) c, Cut-respond r bs c.failed),
  )
  download-Responds r bs (chunk ∷ chunks) small k =
      let total = length-append chunk.buffer (all_bytes chunks) in
      let (r', run, k') =
        receive-KeepsOn realloc reallocates r bs chunk.buffer (omega (arith, total)) k in
      rw
        (
          download-goes_on r r' chunk chunks
              (callback-receive r chunk (omega (arith, total)) ∙ run),
          ← append_assoc bs chunk.buffer (all_bytes chunks),
        )
        (download-Responds r' (bs ++ chunk.buffer) chunks
          (omega (arith, total, length-append bs chunk.buffer)) k')

  -- A response is what was received; or a realloc failed for want of which a buffer that came did
  -- not fit, and the response is what came before it, with the error "not enough memory.". No copy is
  -- outside the block. Fewer than 2^62 bytes are received.
  pub respond-download :
      (chunks : List Chunk)
      → length (all_bytes chunks) < 2 ^ 62
      → Responds realloc (all_bytes chunks) (download realloc zeroed chunks)
  unfolding zeroed
  respond-download chunks small =
      download-Responds zeroed [] chunks (omega arith)
        (inl (record { size = refl; len = refl; bytes = refl; going_on = refl; error = refl }))
