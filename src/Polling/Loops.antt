-- ===== src/Polling/Loops.antt =====
-- At most one goroutine runs, whatever the callers do.
use mx_sdk_erdgo.Prelude.{
  ℕ, ◌≤◌, ◌≡◌, refl, sym, ap, ◌∙◌, inl, inr, Option, none, some, Option-cases, ◌∷◌, arith, length,
  length-append, if◌then◌else◌,
}
use mx_sdk_erdgo.Polling.{
  ArgsPollingHandler, PollingHandler, new_polling_handler, start_processing_loop, cleanup, close,
  is_running, Step, Reachable, starts, closes, moves, ends, made, further, loop_already_started,
}

abbrev pub count_running : Option ℕ → ℕ
count_running none = 0
count_running (some context) = 1

-- The number of goroutines is 1 if `cancel` is set, and 0 otherwise.
abbrev pub IsSound : PollingHandler → Type 0
IsSound ph = length ph.loops ≡ count_running ph.cancel

Step-IsSound : (ph ph' : PollingHandler) → Step ph ph' → IsSound ph → IsSound ph'
unfolding start_processing_loop close cleanup
Step-IsSound ph _ (starts _) sound = elim (Option-cases ph.cancel) [
  | inl idle ↦
      let none_runs : length ph.loops ≡ 0 = sound ∙ ap count_running idle in
      rw idle (omega (arith, none_runs))
  | inr (context, busy) ↦
      let one_runs : length ph.loops ≡ 1 = sound ∙ ap count_running busy in rw busy one_runs
]
Step-IsSound ph _ (closes _) sound = elim (Option-cases ph.cancel) [
  | inl idle ↦
      let none_runs : length ph.loops ≡ 0 = sound ∙ ap count_running idle in rw idle none_runs
  | inr (context, busy) ↦
      let one_runs : length ph.loops ≡ 1 = sound ∙ ap count_running busy in rw busy one_runs
]
Step-IsSound ph _ (moves _ others more l l' e m) sound =
    length-append others (l' ∷ more)
    ∙ sym (length-append others (l ∷ more))
    ∙ sym (ap length e)
    ∙ sound
Step-IsSound ph _ (ends _ others more context e) sound =
    let few : count_running ph.cancel ≤ 1 = at_most_one ph.cancel in
    let before = sym (length-append others (_ ∷ more)) ∙ sym (ap length e) ∙ sound in
    let after = length-append others more in omega arith
  where
    at_most_one : (o : Option ℕ) → count_running o ≤ 1
    at_most_one none = omega arith
    at_most_one (some c) = omega arith

-- Whatever steps the callers and the goroutines take, in any order: `IsRunning` is true exactly where
-- one goroutine runs, and where it is false none does, so there never are two of them. A start fails
-- exactly while one runs.
pub Reachable-IsSound :
    (args : ArgsPollingHandler) (ph : PollingHandler)
    → Reachable args ph
    → (length ph.loops ≡ (if is_running ph then 1 else 0))
      × ((start_processing_loop ph).0 ≡ (if is_running ph then some loop_already_started else none))
unfolding is_running new_polling_handler start_processing_loop
Reachable-IsSound args ph r = (counted ph (sound r), refused ph)
  where
    sound : {ph : PollingHandler} → Reachable args ph → IsSound ph
    sound made = refl
    sound (further ph ph' r step) = Step-IsSound ph ph' step (sound r)

    counted :
        (ph : PollingHandler) → IsSound ph → length ph.loops ≡ (if is_running ph then 1 else 0)
    counted ph s = elim (Option-cases ph.cancel) [
      | inl idle ↦ let runs : length ph.loops ≡ 0 = s ∙ ap count_running idle in rw idle runs
      | inr (context, busy) ↦
          let runs : length ph.loops ≡ 1 = s ∙ ap count_running busy in rw busy runs
    ]

    refused :
        (ph : PollingHandler)
        → (start_processing_loop ph).0 ≡ (if is_running ph then some loop_already_started else none)
    refused ph = elim (Option-cases ph.cancel) [
      | inl idle ↦ rw idle refl
      | inr (context, busy) ↦ rw busy refl
    ]
