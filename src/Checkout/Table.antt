-- ===== src/Checkout/Table.antt =====
-- The class methods of CheckoutIntent, on the table of intents.
use enterprise_access.Prelude.{
  Bool, Dict, List, Option, Result, [], any, err, false, filter, find, if◌then◌else◌, is_present,
  leb, ltb, map, none, not, ok, opt_eq, or_else, raise_if, some, true, update, ℕ, ◌&&◌, ◌*◌, ◌++◌,
  ◌+◌, ◌-◌, ◌==◌, ◌>>=◌, ◌>>◌, ◌||◌, ◌∷◌,
}
use enterprise_access.Checkout.Types.{
  Intent, IntentError, Intents, created, errored_fulfillment_stalled, expired,
  failed_checkout_intent_conflict, is_failure, is_non_expired, is_success, name_invalid, paid,
  same_state, slug_invalid, slug_reservation_conflict, stalled, user_invalid, value_error,
}

-- Load the row with a primary key, change it, and save it.
abbrev pub on_row : ℕ → (Intent → Intent) → Intents → Intents
on_row pk f [] = []
on_row pk f (i ∷ t) = (if i.pk == pk then f i else i) ∷ on_row pk f t

abbrev pub timed_out : ℕ → Intent → Bool
timed_out now i = same_state i.state created && leb i.expires_at now

abbrev pub expire_row : ℕ → Intent → Intent
expire_row now i = if timed_out now i then (record i { state = expired }) else i

-- `cleanup_expired`: the bulk update writes the state, and `modified` as it was.
unfoldable pub cleanup_expired : ℕ → Intents → Intents
cleanup_expired now t = map (expire_row now) t

abbrev pub is_stalled : ℕ → ℕ → Intent → Bool
is_stalled now threshold i = same_state i.state paid && leb (i.modified + threshold) now

-- `order_by('modified')`
unfoldable pub insert_by_modified : Intent → Intents → Intents
insert_by_modified i [] = i ∷ []
insert_by_modified i (j ∷ t) =
    if leb i.modified j.modified then i ∷ j ∷ t else j ∷ insert_by_modified i t

unfoldable pub order_by_modified : Intents → Intents
order_by_modified [] = []
order_by_modified (i ∷ t) = insert_by_modified i (order_by_modified t)

-- `find_stalled_fulfillment_intents`, whose two reads of the clock are one here.
unfoldable pub find_stalled_fulfillment_intents : ℕ → ℕ → Intents → Intents
find_stalled_fulfillment_intents now threshold t =
    order_by_modified (filter (is_stalled now threshold) t)

unfoldable pub stall_row : ℕ → ℕ → Intent → Intent
stall_row now threshold i = record i {
  state = errored_fulfillment_stalled;
  last_provisioning_error = some (stalled (now - i.modified) threshold i.modified);
  modified = now;
}

-- The loop of `mark_stalled_fulfillment_intents` over the records found: each is saved.
unfoldable pub save_stalled : ℕ → ℕ → Intents → Intents → Intents
save_stalled now threshold [] t = t
save_stalled now threshold (i ∷ found) t =
    save_stalled now threshold found (on_row i.pk (λ _. stall_row now threshold i) t)

-- `mark_stalled_fulfillment_intents`: the keys of the intents, and the table after.
unfoldable pub mark_stalled_fulfillment_intents : ℕ → ℕ → Intents → List ℕ × Intents
mark_stalled_fulfillment_intents now threshold t =
    let found = find_stalled_fulfillment_intents now threshold t in
    (map (λ i. i.pk) found, save_stalled now threshold found t)

abbrev pub has_slug : Option ℕ → Intent → Bool
has_slug slug i = is_present slug && opt_eq i.enterprise_slug slug

abbrev pub has_name : Option ℕ → Intent → Bool
has_name name i = is_present name && opt_eq i.enterprise_name name

-- `filter_by_name_and_slug`
unfoldable pub filter_by_name_and_slug : Option ℕ → Option ℕ → Intents → Result IntentError Intents
filter_by_name_and_slug slug name t =
    if is_present slug || is_present name
    then ok (filter (λ i. has_slug slug i || has_name name i) t)
    else err value_error

-- `can_reserve` with a user to exclude.
unfoldable pub can_reserve : Option ℕ → Option ℕ → ℕ → Intents → Result IntentError Bool
can_reserve slug name exclude_user t = filter_by_name_and_slug slug name t >>= λ rows.
    ok (not (any (λ i. is_non_expired i.state && not (i.user == exclude_user)) rows))

abbrev pub merged_terms : Option (Dict ℕ) → Option (Dict ℕ) → Dict ℕ
merged_terms none none = []
merged_terms none (some new) = update [] new
merged_terms (some old) none = old
merged_terms (some old) (some new) = update old new

-- What a checkout request gives.
pub record Details : Type 0 where
  pub requested_quantity : ℕ
  pub slug : Option ℕ
  pub name : Option ℕ
  pub requested_country : Option ℕ
  pub terms : Option (Dict ℕ)

-- INTENT_RESERVATION_DURATION_MINUTES, in seconds.
abbrev pub reservation_duration : ℕ
reservation_duration = 24 * 60 * 60

-- The update of an existing intent, created or expired.
unfoldable pub revive : ℕ → Details → Intent → Intent
revive now d i = record i {
  state = created;
  quantity = d.requested_quantity;
  expires_at = now + reservation_duration;
  enterprise_slug = or_else d.slug i.enterprise_slug;
  enterprise_name = or_else d.name i.enterprise_name;
  country = or_else d.requested_country i.country;
  terms_metadata = some (merged_terms i.terms_metadata d.terms);
  modified = now;
}

unfoldable pub new_intent : ℕ → ℕ → ℕ → Details → Intent
new_intent now fresh user d = record {
  pk = fresh;
  user = user;
  state = created;
  enterprise_name = d.name;
  enterprise_slug = d.slug;
  stripe_customer_id = none;
  expires_at = now + reservation_duration;
  stripe_checkout_session_id = none;
  quantity = d.requested_quantity;
  country = d.requested_country;
  last_provisioning_error = none;
  workflow = none;
  enterprise_uuid = none;
  terms_metadata = d.terms;
  modified = now;
}

-- The database gives a new row a primary key above all others.
abbrev pub next_key : Intents → ℕ
next_key [] = 1
next_key (i ∷ t) = if ltb i.pk (next_key t) then next_key t else i.pk + 1

abbrev pub of_user : ℕ → Intent → Bool
of_user u i = i.user == u

-- `should_reserve_new_slug`, the table of seven cases.
abbrev pub should_reserve_new_slug : Option Intent → Details → Bool
should_reserve_new_slug none d = is_present d.slug
should_reserve_new_slug (some i) d =
    is_present d.slug
    && (not (opt_eq d.slug i.enterprise_slug) || not (opt_eq d.name i.enterprise_name))

abbrev pub reserve : Bool → Details → ℕ → Intents → Result IntentError (Unit {0})
reserve false d user t = ok tt
reserve true d user t =
    can_reserve d.slug d.name user t >>= λ free. raise_if (not free) slug_reservation_conflict

-- `create_intent` after the clean-up, by the user's intent, if there is one.
unfoldable pub create_or_update :
    ℕ → ℕ → Details → Option Intent → Intents → Result IntentError (Intent × Intents)
create_or_update now user d none t =
    reserve (should_reserve_new_slug none d) d user t
    >> ok (new_intent now (next_key t) user d, t ++ new_intent now (next_key t) user d ∷ [])
create_or_update now user d (some i) t =
    if is_success i.state
    then ok (i, t)
    else if is_failure i.state
    then err failed_checkout_intent_conflict
    else (reserve (should_reserve_new_slug (some i) d) d user t
        >> ok (revive now d i, on_row i.pk (λ _. revive now d i) t))

abbrev pub same_bool : Bool → Bool → Bool
same_bool true b = b
same_bool false b = not b

-- `create_intent`, in one transaction: an error leaves the table as it was.
unfoldable pub create_intent : ℕ → ℕ → Details → Intents → Result IntentError (Intent × Intents)
create_intent now user d t =
    let clean = cleanup_expired now t in
    raise_if (not (same_bool (is_present d.slug) (is_present d.name))) value_error
    >> create_or_update now user d (find (of_user user) clean) clean

-- `clean` of an intent; `is_new` says that it has no primary key yet.
unfoldable pub clean : Bool → Intent → Intents → Result IntentError (Unit {0})
clean is_new i t =
    raise_if (is_new && any (λ j. of_user i.user j && is_non_expired j.state) t) user_invalid
    >> (filter_by_name_and_slug i.enterprise_slug i.enterprise_name t >>= λ rows.
        let conflicts =
          filter (λ j. is_non_expired j.state && (is_new || not (j.pk == i.pk))) rows in
        raise_if (any (λ j. opt_eq j.enterprise_name i.enterprise_name) conflicts) name_invalid
        >> raise_if (any (λ j. opt_eq j.enterprise_slug i.enterprise_slug) conflicts) slug_invalid)
