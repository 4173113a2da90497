-- ===== src/Checkout/Examples.antt =====
-- Two users and their intents, and the theorems on them at concrete calls.
use enterprise_access.Prelude.{
  [], any, arith, false, filter, inr, none, ok, refl, some, true, ℕ, ◌==◌, ◌∷◌, ◌≡◌, ◌≢◌,
}
use enterprise_access.Checkout.Types.{
  Intent, Intents, created, expired, is_valid_state_transition, paid,
}
use enterprise_access.Checkout.Marks.{apply_mark, as_paid, mark_as_paid}
use enterprise_access.Checkout.Table.{
  Details, can_reserve, cleanup_expired, create_intent, create_or_update, filter_by_name_and_slug,
  is_stalled, mark_stalled_fulfillment_intents, new_intent, revive,
}
use enterprise_access.Checkout.Transitions.{Answers, apply_mark_total}
use enterprise_access.Checkout.Events.{IsKeyed, cleanup, request, run, settled_row, stall}
use enterprise_access.Checkout.Payments.{run-keeps_payment}
use enterprise_access.Checkout.Graph.{RefinesGraph}
use enterprise_access.Checkout.Refinement.{run-RefinesGraph}
use enterprise_access.Checkout.Requests.{
  Granted, create_intent-Granted, create_intent-exclusive, create_intent-revives_unchecked,
  held_by_other,
}
use enterprise_access.Checkout.Stalls.{has_key, mark_stalled-none_left}

-- The intent of user 7 on slug 100, which is over at time 50.
abbrev cart : Intent
cart = record {
  pk = 1;
  user = 7;
  state = created;
  enterprise_name = some 200;
  enterprise_slug = some 100;
  stripe_customer_id = none;
  expires_at = 50;
  stripe_checkout_session_id = none;
  quantity = 5;
  country = none;
  last_provisioning_error = none;
  workflow = none;
  enterprise_uuid = none;
  terms_metadata = none;
  modified = 10;
}

-- The intent of user 8 on the same slug.
abbrev rival : Intent
rival = record cart { pk = 2; user = 8; expires_at = 100000 }

abbrev pub bought : Intent
bought = record cart { state = paid; stripe_checkout_session_id = some 9; modified = 20 }

abbrev order : Details
order = record {
  requested_quantity = 6;
  slug = some 100;
  name = some 200;
  requested_country = none;
  terms = none;
}

paid_run : mark_as_paid 20 (some 9) none cart ≡ ok bought
unfolding mark_as_paid is_valid_state_transition
paid_run = refl

applied : apply_mark 20 (as_paid (some 9) none) cart ≡ ok bought
unfolding apply_mark
applied = paid_run

not_yet : created ≢ paid
not_yet e = cc

apply_mark_total_example : Answers 20 (as_paid (some 9) none) cart
apply_mark_total_example = apply_mark_total 20 (as_paid (some 9) none) cart (inr not_yet)

two_one : rival.pk ≢ cart.pk
two_one e = omega (arith, e)

run-keeps_payment_example :
    (IsKeyed (run (cleanup 60 ∷ stall 5000 100 ∷ request 6000 7 order ∷ []) (bought ∷ rival ∷ [])))
    × (any (settled_row 1) (bought ∷ rival ∷ []) ≡ true
        → any
            (settled_row 1)
            (run (cleanup 60 ∷ stall 5000 100 ∷ request 6000 7 order ∷ []) (bought ∷ rival ∷ []))
          ≡ true)
run-keeps_payment_example =
    run-keeps_payment 1 (cleanup 60 ∷ stall 5000 100 ∷ request 6000 7 order ∷ [])
      (bought ∷ rival ∷ []) ((two_one, tt), (tt, tt))

run-RefinesGraph_example :
    RefinesGraph
      (bought ∷ rival ∷ [])
      (run (cleanup 60 ∷ stall 5000 100 ∷ request 200000 8 order ∷ []) (bought ∷ rival ∷ []))
run-RefinesGraph_example =
    run-RefinesGraph (cleanup 60 ∷ stall 5000 100 ∷ request 200000 8 order ∷ [])
      (bought ∷ rival ∷ []) ((two_one, tt), (tt, tt))

abbrev lapsed : Intent
lapsed = record cart { state = expired }

abbrev fresh : Intent
fresh = record cart { quantity = 6; expires_at = 86460; terms_metadata = some []; modified = 60 }

cleaned : cleanup_expired 60 (cart ∷ rival ∷ []) ≡ lapsed ∷ rival ∷ []
unfolding cleanup_expired
cleaned = refl

request_run : create_intent 60 7 order (cart ∷ rival ∷ []) ≡ ok (fresh, fresh ∷ rival ∷ [])
unfolding create_intent create_or_update revive cleanup_expired
request_run = refl

create_intent-Granted_example : (fresh.user ≡ 7) × Granted 60 order fresh
create_intent-Granted_example =
    create_intent-Granted 60 7 order (cart ∷ rival ∷ []) fresh (fresh ∷ rival ∷ []) request_run

create_intent-revives_unchecked_example :
    (r : Intent × Intents) × (create_intent 60 7 order (cart ∷ rival ∷ []) ≡ ok r)
    × (r.0.state ≡ created)
    × (r.0.enterprise_slug ≡ some 100)
    × (r.0.enterprise_name ≡ some 200)
    × (any (held_by_other order 7) r.1 ≡ true)
unfolding cleanup_expired
create_intent-revives_unchecked_example =
    create_intent-revives_unchecked 60 7 order (cart ∷ rival ∷ []) lapsed ((two_one, tt), (tt, tt))
      refl refl refl refl refl refl refl

free_run :
    create_intent 60 9 order (lapsed ∷ [])
    ≡ ok (new_intent 60 2 9 order, lapsed ∷ new_intent 60 2 9 order ∷ [])
unfolding create_intent create_or_update cleanup_expired can_reserve filter_by_name_and_slug
free_run = refl

create_intent-exclusive_example :
    any (held_by_other order 9) (cleanup_expired 60 (lapsed ∷ [])) ≡ false
unfolding cleanup_expired
create_intent-exclusive_example =
    create_intent-exclusive 60 9 order (lapsed ∷ [])
      (new_intent 60 2 9 order, lapsed ∷ new_intent 60 2 9 order ∷ []) refl refl free_run

mark_stalled-none_left_example :
    (any (is_stalled 5000 100) (mark_stalled_fulfillment_intents 5000 100 (bought ∷ rival ∷ [])).1
      ≡ false)
    × ((pk : ℕ)
        → any (λ k. k == pk) (mark_stalled_fulfillment_intents 5000 100 (bought ∷ rival ∷ [])).0
          ≡ has_key pk (filter (is_stalled 5000 100) (bought ∷ rival ∷ [])))
mark_stalled-none_left_example = mark_stalled-none_left 5000 100 (bought ∷ rival ∷ [])
