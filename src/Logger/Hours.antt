-- ===== src/Logger/Hours.antt =====
-- Which file a line is written to.
use skynet_slg.Prelude.{
  ℕ, ◌≡◌, ◌≢◌, refl, sym, ap, List, [], ◌∷◌, ◌++◌, Bool, true, false, some, ==_iff, ==-eq_false,
}
use mathlib.Core.List.{reverse, reverse-cons, append_assoc, append-nil}
use mathlib.Core.Path.{subst}
use native.Mathlib.Decide.{ℕ_discrete}
use skynet_slg.Prelude.Int.{pos}
use skynet_slg.Logger.{
  Hour, Handle, stdout, file, Logger, Event, closed, wrote, State, running, crashed, logger_create,
  new_file, fopen, log_message, logger_init, log_all,
}

-- Every line stands in a file of the hour of the day at which it was logged.
abbrev pub InHour : List Event → Type 0
InHour [] = Unit
InHour (closed h ∷ events) = InHour events
InHour (wrote stdout t msg ∷ events) = ⊥
InHour (wrote (file f) t msg ∷ events) = (f.hour ≡ t.hour) × InHour events

-- The lines that were written, the last first.
unfoldable pub lines : List Event → List (Hour × List ℕ)
lines [] = []
lines (closed h ∷ events) = lines events
lines (wrote h t msg ∷ events) = (t, msg) ∷ lines events

-- The state of a service that writes to the file of `f`.
abbrev pub file_logger : Hour → Logger
file_logger f = record { handle = some (file f); close = true; time = pos f.hour }

-- A service that writes to a file, and wrote the messages `logged`, the last first.
pub data IsFileLogger : List (Hour × List ℕ) → State → Type 0 where
  ready :
      (f : Hour) (events : List Event)
      → InHour events
      → IsFileLogger (lines events) (running (file_logger f) events)

module _ (opens : Hour → Bool) where
  new_file-same :
      (f t : Hour) (events : List Event)
      → t.hour ≡ f.hour
      → new_file opens (file_logger f) t events ≡ (file_logger f, events)
  unfolding new_file
  new_file-same f t events e = rw ((==_iff t.hour f.hour).1 e)

  new_file-other :
      (f t : Hour) (events : List Event)
      → t.hour ≢ f.hour
      → new_file opens (file_logger f) t events ≡ (
        record (file_logger f) { handle = fopen opens t; time = pos t.hour },
        closed (file f) ∷ events,
      )
  unfolding new_file
  new_file-other f t events ne = rw (==-eq_false t.hour f.hour ne)

  same_hour :
      (f t : Hour) (events : List Event) (msg : List ℕ)
      → t.hour ≡ f.hour
      → log_message opens (running (file_logger f) events) t msg
        ≡ running (file_logger f) (wrote (file f) t msg ∷ events)
  unfolding log_message
  same_hour f t events msg e = rw (new_file-same f t events e)

  -- Only the hour of the day is compared: a line logged on another day at the hour of the open
  -- file goes to that file, and not to one of its own day.
  pub day_ignored :
      (f t : Hour) (events : List Event) (msg : List ℕ)
      → t.hour ≡ f.hour
      → t.day ≢ f.day
      → (log_message opens (running (file_logger f) events) t msg
          ≡ running (file_logger f) (wrote (file f) t msg ∷ events))
        × (file f ≢ file t)
  day_ignored f t events msg e ne = (same_hour f t events msg e, λ p. ne (ap day_of (sym p)))
    where
      day_of : Handle → ℕ
      day_of stdout = 0
      day_of (file h) = h.day

module _ (opens : Hour → Bool) (all_open : (t : Hour) → opens t ≡ true) where
  another_hour :
      (f t : Hour) (events : List Event) (msg : List ℕ)
      → t.hour ≢ f.hour
      → log_message opens (running (file_logger f) events) t msg
        ≡ running (file_logger t) (wrote (file t) t msg ∷ closed (file f) ∷ events)
  unfolding log_message
  another_hour f t events msg ne = rw (new_file-other opens f t events ne, all_open t)

  started : (now : Hour) → logger_init opens true now ≡ (running (file_logger now) [], 0)
  unfolding logger_init new_file logger_create
  started now = rw (all_open now)

  log_message-IsFileLogger :
      {logged : List (Hour × List ℕ)} {s : State} (t : Hour) (msg : List ℕ)
      → IsFileLogger logged s
      → IsFileLogger ((t, msg) ∷ logged) (log_message opens s t msg)
  unfolding lines
  log_message-IsFileLogger t msg (ready f events i) = elim (ℕ_discrete t.hour f.hour) [
    | yes same ↦
        rw (same_hour opens f t events msg same)
          (ready f (wrote (file f) t msg ∷ events) (sym same, i))
    | no other ↦
        rw (another_hour f t events msg other)
          (ready t (wrote (file t) t msg ∷ closed (file f) ∷ events) (refl, i))
  ]

  log_all-IsFileLogger :
      (messages : List (Hour × List ℕ)) {logged : List (Hour × List ℕ)} {s : State}
      → IsFileLogger logged s
      → IsFileLogger (reverse messages ++ logged) (log_all opens s messages)
  unfolding log_all
  log_all-IsFileLogger [] h = h
  log_all-IsFileLogger ((t, msg) ∷ messages) {logged} h =
      rw (reverse-cons (t, msg) messages, append_assoc (reverse messages) ((t, msg) ∷ []) logged)
        (log_all-IsFileLogger messages (log_message-IsFileLogger t msg h))

  started_empty : (now : Hour) → IsFileLogger [] (running (file_logger now) [])
  unfolding lines
  started_empty now = ready now [] tt

  -- If every file can be opened, a service that was started with a parameter never uses a null
  -- handle; it writes each message once and in order, as a line with the message's time, to a file
  -- of the hour of the day at which it was logged.
  pub lines_in_hour :
      (now : Hour) (messages : List (Hour × List ℕ))
      → ((logger_init opens true now).1 ≡ 0)
        × IsFileLogger (reverse messages) (log_all opens (logger_init opens true now).0 messages)
  lines_in_hour now messages = rw (started now) (
    refl,
    subst (λ logged. IsFileLogger logged (log_all opens (running (file_logger now) []) messages))
        (append-nil (reverse messages)) (log_all-IsFileLogger messages (started_empty now)),
  )

-- A file that cannot be opened leaves a null handle, which the message that asked for it uses.
pub unopened_crash :
    (opens : Hour → Bool) (f t : Hour) (events : List Event) (msg : List ℕ)
    → opens t ≡ false
    → t.hour ≢ f.hour
    → log_message opens (running (file_logger f) events) t msg ≡ crashed
unfolding log_message
unopened_crash opens f t events msg shut ne = rw (new_file-other opens f t events ne, shut)
