-- ===== src/Polling.antt =====
-- core/polling/pollingHandler.go: one goroutine calls an executor again and again, until it is closed.
-- A section under `mutState`, a call of the executor and a `select` are each one step, so the steps
-- of the callers and of the goroutine interleave in any order. Durations are in nanoseconds.
pub mod Loops
pub mod Examples
use mx_sdk_erdgo.Prelude.{
  ◌≡◌, ℕ, ◌+◌, Bool, true, false, ◌||◌, Option, none, some, List, [], ◌∷◌, ◌++◌, ltb, ◌==◌, nat_eq,
  if◌then◌else◌,
}

pub data PollingError : Type 0 where
  nil_logger nil_executor loop_already_started : PollingError
  invalid_polling_interval invalid_polling_when_error : PollingError

pub record ArgsPollingHandler : Type 0 where
  pub has_logger : Bool
  pub polling_interval : ℕ
  pub polling_when_error : ℕ
  pub has_executor : Bool

-- A millisecond.
abbrev pub minimum_polling_interval : ℕ
minimum_polling_interval = 1000000

unfoldable pub check_args : ArgsPollingHandler → Option PollingError
check_args args =
    if args.has_logger
    then if ltb args.polling_interval minimum_polling_interval
      then some invalid_polling_interval
      else if ltb args.polling_when_error minimum_polling_interval
      then some invalid_polling_when_error
      else if args.has_executor
      then none
      else some nil_executor
    else some nil_logger

-- Where the goroutine stands: in front of the executor, in the `select` with its timer set, or in front
-- of the deferred clean-up.
pub data Position : Type 0 where
  at_executor at_cleanup : Position
  at_select : ℕ → Position

-- A goroutine in `processLoop`, with the context that it was started with.
pub record Loop : Type 0 where
  pub context : ℕ
  pub position : Position

-- `cancel` is nil, or cancels a context. Contexts are numbered in the order of their creation.
pub record PollingHandler : Type 0 where
  pub polling_interval : ℕ
  pub polling_when_error : ℕ
  pub cancel : Option ℕ
  pub contexts : ℕ
  pub cancelled : List ℕ
  pub loops : List Loop

unfoldable pub new_polling_handler : ArgsPollingHandler → PollingHandler
new_polling_handler args = record {
  polling_interval = args.polling_interval;
  polling_when_error = args.polling_when_error;
  cancel = none;
  contexts = 0;
  cancelled = [];
  loops = [];
}

unfoldable pub start_processing_loop : PollingHandler → Option PollingError × PollingHandler
start_processing_loop ph = elim (ph.cancel) [
  | some context ↦ (some loop_already_started, ph)
  | none ↦ (
    none,
    record ph {
      cancel = some ph.contexts;
      contexts = ph.contexts + 1;
      loops = record { context = ph.contexts; position = at_executor } ∷ ph.loops;
    },
  )
]

unfoldable pub cleanup : PollingHandler → PollingHandler
cleanup ph = record ph { cancel = none }

unfoldable pub is_running : PollingHandler → Bool
is_running ph = elim (ph.cancel) [ none ↦ false | some context ↦ true ]

unfoldable pub close : PollingHandler → PollingHandler
close ph = elim (ph.cancel) [
  | none ↦ ph
  | some context ↦ record ph { cancelled = context ∷ ph.cancelled }
]

-- The position behind a call of the executor, which has failed or not.
unfoldable pub after_execute : Bool → PollingHandler → Position
after_execute fails ph = at_select (if fails then ph.polling_when_error else ph.polling_interval)

abbrev pub is_cancelled : ℕ → List ℕ → Bool
is_cancelled context [] = false
is_cancelled context (c ∷ cs) = (c == context) || is_cancelled context cs

-- A step of a goroutine to another position. Both cases of the `select` may be ready, and Go takes
-- either.
pub data Move (ph : PollingHandler) : Loop → Loop → Type 0 where
  executes :
      (context : ℕ) (fails : Bool)
      → Move ph
          (record { context = context; position = at_executor })
          (record { context = context; position = after_execute fails ph })
  fires :
      (context interval : ℕ)
      → Move ph
          (record { context = context; position = at_select interval })
          (record { context = context; position = at_executor })
  is_done :
      (context interval : ℕ)
      → is_cancelled context ph.cancelled ≡ true
      → Move ph
          (record { context = context; position = at_select interval })
          (record { context = context; position = at_cleanup })

-- A step of a caller or of one of the goroutines.
pub data Step : PollingHandler → PollingHandler → Type 0 where
  starts : (ph : PollingHandler) → Step ph (start_processing_loop ph).1
  closes : (ph : PollingHandler) → Step ph (close ph)
  moves :
      (ph : PollingHandler) (others more : List Loop) (l l' : Loop)
      → ph.loops ≡ others ++ (l ∷ more)
      → Move ph l l'
      → Step ph (record ph { loops = others ++ (l' ∷ more) })
  ends :
      (ph : PollingHandler) (others more : List Loop) (context : ℕ)
      → ph.loops ≡ others ++ (record { context = context; position = at_cleanup } ∷ more)
      → Step ph (cleanup (record ph { loops = others ++ more }))

pub data Reachable (args : ArgsPollingHandler) : PollingHandler → Type 0 where
  made : Reachable args (new_polling_handler args)
  further : (ph ph' : PollingHandler) → Reachable args ph → Step ph ph' → Reachable args ph'
