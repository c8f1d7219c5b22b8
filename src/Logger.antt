-- ===== src/Logger.antt =====
-- 3rd/src-c/service_mylog.c: the log service that starts a file for each hour. fopen is the
-- parameter `opens`, which says whether a file can be opened; the clock is an argument.
pub mod Hours
use skynet_slg.Prelude.{
  ℕ, suc, List, [], ◌∷◌, Bool, true, false, not, ◌==◌, if◌then◌else◌, Option, none, some,
}
use skynet_slg.Prelude.Int.{ℤ, pos, negsuc}

-- The fields of `struct tm` that name a file: "%04d_%02d_%02d_%02d_game.log".
pub record Hour : Type 0 where
  pub year : ℕ
  pub month : ℕ
  pub day : ℕ
  pub hour : ℕ

pub data Handle : Type 0 where
  stdout : Handle
  file : Hour → Handle

-- `handle` is `none` for NULL, and `time` the hour of the file, -1 at first.
pub record Logger : Type 0 where
  pub handle : Option Handle
  pub close : Bool
  pub time : ℤ

-- What the service does to the outside.
pub data Event : Type 0 where
  closed : Handle → Event
  wrote : Handle → Hour → List ℕ → Event

-- The service with what it did, the last first; `crashed` is the use of a null FILE pointer.
pub data State : Type 0 where
  running : Logger → List Event → State
  crashed : State

unfoldable pub logger_create : Logger
logger_create = record { handle = none; close = false; time = negsuc 0 }

-- `tm_hour != inst->time`.
abbrev pub other_hour : ℕ → ℤ → Bool
other_hour h (pos t) = not (h == t)
other_hour h (negsuc t) = true

abbrev close_handle : Option Handle → List Event → List Event
close_handle none events = events
close_handle (some h) events = closed h ∷ events

-- The fprintf calls and fflush of _logger.
abbrev write_line : Logger × List Event → Hour → List ℕ → State
write_line (inst, events) t msg = elim inst.handle [
  | none ↦ crashed
  | some h ↦ running inst (wrote h t msg ∷ events)
]

module _ (opens : Hour → Bool) where
  abbrev pub fopen : Hour → Option Handle
  fopen t = if opens t then some (file t) else none

  unfoldable pub new_file : Logger → Hour → List Event → Logger × List Event
  new_file inst t events =
      if not inst.close
      then (inst, events)
      else if other_hour t.hour inst.time
      then (record inst { handle = fopen t; time = pos t.hour }, close_handle inst.handle events)
      else (inst, events)

  -- _logger: a message at a time.
  unfoldable pub log_message : State → Hour → List ℕ → State
  log_message crashed t msg = crashed
  log_message (running inst events) t msg = write_line (new_file inst t events) t msg

  -- logger_init: `parm` says whether the service got a parameter. The result is 0 or 1.
  unfoldable pub logger_init : Bool → Hour → State × ℕ
  logger_init parm now =
      let (inst, events) : Logger × List Event =
        if parm
        then new_file (record logger_create { close = true }) now []
        else (record logger_create { handle = some stdout }, []) in
      (running inst events, elim inst.handle [ none ↦ 1 | some h ↦ 0 ])

  -- Messages one after the other.
  unfoldable pub log_all : State → List (Hour × List ℕ) → State
  log_all s [] = s
  log_all s ((t, msg) ∷ messages) = log_all (log_message s t msg) messages

-- logger_release.
unfoldable pub logger_release : State → State
logger_release crashed = crashed
logger_release (running inst events) =
    if inst.close
    then elim inst.handle [ none ↦ crashed | some h ↦ running inst (closed h ∷ events) ]
    else running inst events
