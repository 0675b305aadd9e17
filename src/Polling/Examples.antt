-- ===== src/Polling/Examples.antt =====
-- The theorem on the polling handler at a concrete run, and tests.
use mx_sdk_erdgo.Prelude.{◌≡◌, refl, true, some, length}
use mx_sdk_erdgo.Polling.{
  ArgsPollingHandler, PollingHandler, invalid_polling_when_error, loop_already_started, check_args,
  new_polling_handler, start_processing_loop, close, is_running, starts, closes, made, further,
}
use mx_sdk_erdgo.Polling.Loops.{Reachable-IsSound}

abbrev args : ArgsPollingHandler
args = record {
  has_logger = true;
  polling_interval = 2000000;
  polling_when_error = 5000000;
  has_executor = true;
}

-- Started and closed: the goroutine has not ended yet.
abbrev closing : PollingHandler
closing = close (start_processing_loop (new_polling_handler args)).1

Reachable-IsSound_example :
    (length closing.loops ≡ 1) × ((start_processing_loop closing).0 ≡ some loop_already_started)
unfolding new_polling_handler start_processing_loop close is_running
Reachable-IsSound_example = Reachable-IsSound args closing (
    further _ closing (further _ _ made (starts (new_polling_handler args)))
      (closes (start_processing_loop (new_polling_handler args)).1))

short_interval :
    check_args (record args { polling_when_error = 3 }) ≡ some invalid_polling_when_error
unfolding check_args
short_interval = refl
