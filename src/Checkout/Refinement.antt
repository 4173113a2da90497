-- ===== src/Checkout/Refinement.antt =====
-- The histories of the table of intents against the graph of allowed transitions.
use mathlib.Core.Path.{subst}
use enterprise_access.Prelude.{
  All, All-map, Bool, Bool-cases, List, Option, Result, Result-cases, [], arith, err, false, filter,
  find, inl, inr, is_present, leb, none, not, ok, refl, some, sym, true, ℕ, ◌||◌, ◌∷◌, ◌≡◌, ◌≢◌,
}
use enterprise_access.Checkout.Types.{
  Intent, IntentError, IntentState, Intents, created, errored_backoffice,
  errored_fulfillment_stalled, errored_provisioning, expired, fulfilled, is_failure, is_success,
  paid, same_state,
}
use enterprise_access.Checkout.Table.{
  Details, cleanup_expired, create_intent, create_or_update, find_stalled_fulfillment_intents,
  insert_by_modified, is_stalled, mark_stalled_fulfillment_intents, of_user, on_row,
  order_by_modified, reserve, revive, same_bool, save_stalled, should_reserve_new_slug, stall_row,
}
use enterprise_access.Checkout.Events.{
  Event, IsKeyed, apply_event, cleanup, is_settled, kept, mark, request, run, stall, table_after,
}
use enterprise_access.Checkout.Rows.{All-on_row, OnlyRow, everywhere, find-OnlyRow}
use enterprise_access.Checkout.Payments.{event-Keeps}
use enterprise_access.Checkout.Marks.{apply_mark}
use enterprise_access.Checkout.Graph.{
  Reaches, stays, moves, Moved, RefinesGraph, RefinesGraph-refl, RefinesGraph-trans,
  RefinesGraph-snoc, RefinesGraph-on_row, kept-Moved, cleanup-RefinesGraph,
}

-- The states in which a found row may be when the stall check writes it.
abbrev may_stall : IntentState → Bool
may_stall s = same_state s paid || same_state s errored_fulfillment_stalled

abbrev StallableAt : Intents → Intent → Type 0
StallableAt t i = All (λ j. j.pk ≡ i.pk → may_stall j.state ≡ true) t

may_stall-Reaches : (s : IntentState) → may_stall s ≡ true → Reaches s errored_fulfillment_stalled
may_stall-Reaches paid h = moves refl stays
may_stall-Reaches errored_fulfillment_stalled h = stays
may_stall-Reaches created h = cc
may_stall-Reaches fulfilled h = cc
may_stall-Reaches errored_backoffice h = cc
may_stall-Reaches errored_provisioning h = cc
may_stall-Reaches expired h = cc

filter-All : (P : Intent → Type 0) (q : Intent → Bool) (t : Intents) → All P t → All P (filter q t)
filter-All P q [] h = tt
filter-All P q (b ∷ t) h = elim (Bool-cases (q b)) [
  | inl here ↦ rw here (h.0, filter-All P q t h.1)
  | inr there ↦ rw there (filter-All P q t h.1)
]

paid_stalls :
    (now threshold : ℕ) (i : Intent) → is_stalled now threshold i ≡ true → may_stall i.state ≡ true
paid_stalls now threshold i h = ground (arith, h)

-- One more row in front, with another key.
StallableAt-more :
    (b : Intent) (t rows : Intents)
    → All (λ i. i.pk ≢ b.pk) rows
    → All (StallableAt t) rows
    → All (StallableAt (b ∷ t)) rows
StallableAt-more b t [] apart h = tt
StallableAt-more b t (i ∷ rows) apart h =
    (((λ clash. absurd (apart.0 (sym clash))), h.0), StallableAt-more b t rows apart.1 h.1)

found-StallableAt :
    (now threshold : ℕ) (t : Intents)
    → IsKeyed t
    → All (StallableAt t) (filter (is_stalled now threshold) t)
found-StallableAt now threshold [] keyed = tt
found-StallableAt now threshold (b ∷ t) keyed =
    let later =
      StallableAt-more b t (filter (is_stalled now threshold) t)
        (filter-All (λ i. i.pk ≢ b.pk) (is_stalled now threshold) t keyed.0)
        (found-StallableAt now threshold t keyed.1) in
    elim (Bool-cases (is_stalled now threshold b)) [
      | inl here ↦ rw here (
        (
          (λ _. paid_stalls now threshold b here),
          All-map (λ j. j.pk ≢ b.pk) (λ j. j.pk ≡ b.pk → may_stall j.state ≡ true)
              (λ j apart clash. absurd (apart clash)) t keyed.0,
        ),
        later,
      )
      | inr there ↦ rw there later
    ]

insert-All :
    (P : Intent → Type 0) (i : Intent) (t : Intents)
    → P i
    → All P t
    → All P (insert_by_modified i t)
unfolding insert_by_modified
insert-All P i [] hi h = (hi, tt)
insert-All P i (j ∷ t) hi h = elim (Bool-cases (leb i.modified j.modified)) [
  | inl first ↦ rw first (hi, h)
  | inr later ↦ rw later (h.0, insert-All P i t hi h.1)
]

order-All : (P : Intent → Type 0) (t : Intents) → All P t → All P (order_by_modified t)
unfolding order_by_modified
order-All P [] h = tt
order-All P (i ∷ t) h = insert-All P i (order_by_modified t) h.0 (order-All P t h.1)

stalled-Moved :
    (now threshold : ℕ) (i b : Intent)
    → b.pk ≡ i.pk
    → may_stall b.state ≡ true
    → Moved b (stall_row now threshold i)
unfolding stall_row
stalled-Moved now threshold i b key may = (sym key, may_stall-Reaches b.state may)

stalled_state :
    (now threshold : ℕ) (i : Intent) → may_stall (stall_row now threshold i).state ≡ true
unfolding stall_row
stalled_state now threshold i = refl

save_stalled-RefinesGraph :
    (now threshold : ℕ) (rows t : Intents)
    → All (StallableAt t) rows
    → RefinesGraph t (save_stalled now threshold rows t)
unfolding save_stalled
save_stalled-RefinesGraph now threshold [] t h = RefinesGraph-refl t
save_stalled-RefinesGraph now threshold (i ∷ rows) t h =
    let u = on_row i.pk (λ _. stall_row now threshold i) t in
    let first =
      RefinesGraph-on_row i.pk (λ _. stall_row now threshold i) t
        (All-map (λ j. j.pk ≡ i.pk → may_stall j.state ≡ true)
          (λ j. j.pk ≡ i.pk → Moved j (stall_row now threshold i))
          (λ j may key. stalled-Moved now threshold i j key (may key)) t h.0) in
    let others =
      All-map (StallableAt t) (StallableAt u)
        (λ k at.
          All-on_row (λ j. j.pk ≡ k.pk → may_stall j.state ≡ true) i.pk _ t
            (λ j _ _. stalled_state now threshold i) at)
        rows h.1 in
    RefinesGraph-trans t u (save_stalled now threshold rows u) first
      (save_stalled-RefinesGraph now threshold rows u others)

revive-Moved :
    (now : ℕ) (d : Details) (i : Intent) → is_settled i.state ≡ false → Moved i (revive now d i)
unfolding revive
revive-Moved now d i h = (refl, unsettled i.state h)
  where
    unsettled : (s : IntentState) → is_settled s ≡ false → Reaches s created
    unsettled created e = stays
    unsettled expired e = moves refl stays
    unsettled paid e = cc
    unsettled fulfilled e = cc
    unsettled errored_backoffice e = cc
    unsettled errored_fulfillment_stalled e = cc
    unsettled errored_provisioning e = cc

request-RefinesGraph :
    (now user : ℕ) (d : Details) (t : Intents) (found : Option Intent)
    → ((i : Intent) → found ≡ some i → OnlyRow i t)
    → RefinesGraph t (table_after t (create_or_update now user d found t))
unfolding create_or_update
request-RefinesGraph now user d t none only =
    elim (Result-cases (reserve (should_reserve_new_slug none d) d user t)) [
      | inl (u, e) ↦ rw e (RefinesGraph-snoc t _)
      | inr (x, e) ↦ rw e (RefinesGraph-refl t)
    ]
request-RefinesGraph now user d t (some i) only = elim (Bool-cases (is_success i.state)) [
  | inl won ↦ rw won (RefinesGraph-refl t)
  | inr other ↦ elim (Bool-cases (is_failure i.state)) [
    | inl failing ↦ rw other (rw failing (RefinesGraph-refl t))
    | inr neither ↦ rw other (
        rw neither (elim (Result-cases (reserve (should_reserve_new_slug (some i) d) d user t)) [
          | inl (u, e) ↦ rw e (
              RefinesGraph-on_row i.pk (λ _. revive now d i) t
                (All-map (λ j. j.pk ≡ i.pk → j ≡ i) (λ j. j.pk ≡ i.pk → Moved j (revive now d i))
                  (λ j same key.
                    subst (λ k. Moved k (revive now d i)) (sym (same key))
                      (revive-Moved now d i (ground (arith, other, neither))))
                  t (only i refl)))
          | inr (x, e) ↦ rw e (RefinesGraph-refl t)
        ]))
  ]
]

-- An error keeps the table from before the clean-up.
cleaned-RefinesGraph :
    (now : ℕ) (t : Intents) (r : Result IntentError (Intent × Intents))
    → RefinesGraph (cleanup_expired now t) (table_after (cleanup_expired now t) r)
    → RefinesGraph t (table_after t r)
cleaned-RefinesGraph now t (err e) step = RefinesGraph-refl t
cleaned-RefinesGraph now t (ok r) step =
    RefinesGraph-trans t (cleanup_expired now t) r.1 (cleanup-RefinesGraph now t) step

event-RefinesGraph : (e : Event) (t : Intents) → IsKeyed t → RefinesGraph t (apply_event e t)
unfolding apply_event mark_stalled_fulfillment_intents find_stalled_fulfillment_intents
    create_intent
event-RefinesGraph (mark now pk m) t keyed =
    RefinesGraph-on_row pk (λ i. kept i (apply_mark now m i)) t
      (everywhere _ t (λ i _. kept-Moved now m i))
event-RefinesGraph (cleanup now) t keyed = cleanup-RefinesGraph now t
event-RefinesGraph (stall now threshold) t keyed =
    save_stalled-RefinesGraph now threshold
      (order_by_modified (filter (is_stalled now threshold) t)) t
      (order-All (StallableAt t) (filter (is_stalled now threshold) t)
        (found-StallableAt now threshold t keyed))
event-RefinesGraph (request now user d) t keyed =
    elim (Bool-cases (not (same_bool (is_present d.slug) (is_present d.name)))) [
      | inl bad ↦ rw bad (RefinesGraph-refl t)
      | inr good ↦ rw good (
          cleaned-RefinesGraph now t
            (create_or_update now user d (find (of_user user) (cleanup_expired now t))
              (cleanup_expired now t))
            (request-RefinesGraph now user d (cleanup_expired now t) _ (λ i e.
              find-OnlyRow (of_user user) (cleanup_expired now t) i
                (event-Keeps 0 (cleanup now) t keyed).0 e)))
    ]

-- Through every history of calls, clean-ups, stall checks and requests, the table refines the graph
-- of allowed transitions: each row that was there at the start is still in its place, with its key,
-- and has followed a path of allowed transitions.
pub run-RefinesGraph : (es : List Event) (t : Intents) → IsKeyed t → RefinesGraph t (run es t)
unfolding run
run-RefinesGraph [] t keyed = RefinesGraph-refl t
run-RefinesGraph (e ∷ es) t keyed =
    RefinesGraph-trans t (apply_event e t) (run es (apply_event e t)) (event-RefinesGraph e t keyed)
      (run-RefinesGraph es (apply_event e t) (event-Keeps 0 e t keyed).0)
