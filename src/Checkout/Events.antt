-- ===== src/Checkout/Events.antt =====
-- The histories of the table of intents: calls on a row, clean-ups, the stall check and new
-- requests, in any order. A call that raises leaves the table as it was.
use enterprise_access.Prelude.{All, Bool, List, Result, [], err, ok, ℕ, ◌&&◌, ◌==◌, ◌||◌, ◌∷◌, ◌≢◌}
use enterprise_access.Checkout.Types.{
  Intent, IntentError, IntentState, Intents, is_failure, is_success,
}
use enterprise_access.Checkout.Marks.{Mark, apply_mark}
use enterprise_access.Checkout.Table.{
  Details, cleanup_expired, create_intent, mark_stalled_fulfillment_intents, on_row,
}

pub data Event : Type 0 where
  mark : (now pk : ℕ) → Mark → Event
  cleanup : (now : ℕ) → Event
  stall : (now threshold : ℕ) → Event
  request : (now user : ℕ) → Details → Event

abbrev pub kept : Intent → Result IntentError Intent → Intent
kept i (ok j) = j
kept i (err e) = i

abbrev pub table_after : Intents → Result IntentError (Intent × Intents) → Intents
table_after t (ok r) = r.1
table_after t (err e) = t

unfoldable pub apply_event : Event → Intents → Intents
apply_event (mark now pk m) t = on_row pk (λ i. kept i (apply_mark now m i)) t
apply_event (cleanup now) t = cleanup_expired now t
apply_event (stall now threshold) t = (mark_stalled_fulfillment_intents now threshold t).1
apply_event (request now user d) t = table_after t (create_intent now user d t)

unfoldable pub run : List Event → Intents → Intents
run [] t = t
run (e ∷ es) t = run es (apply_event e t)

-- The primary keys are distinct.
abbrev pub IsKeyed : Intents → Type 0
IsKeyed [] = Unit {0}
IsKeyed (i ∷ t) = All (λ j. j.pk ≢ i.pk) t × IsKeyed t

-- Paid, fulfilled or errored: the purchase was paid for.
abbrev pub is_settled : IntentState → Bool
is_settled s = is_success s || is_failure s

abbrev pub settled_row : ℕ → Intent → Bool
settled_row k i = i.pk == k && is_settled i.state
