-- ===== src/Checkout/Graph.antt =====
-- Paths in the graph ALLOWED_CHECKOUT_INTENT_STATE_TRANSITIONS, and tables whose rows follow them.
use mathlib.Core.Path.{subst}
use enterprise_access.Prelude.{
  ==_iff, All, Bool-cases, Result-cases, [], any, arith, inl, inr, map, refl, true, ℕ, ◌++◌, ◌==◌,
  ◌∙◌, ◌∷◌, ◌≡◌,
}
use enterprise_access.Checkout.Types.{
  Intent, IntentState, Intents, allowed_transitions, created, expired, is_valid_state_transition,
  same_state,
}
use enterprise_access.Checkout.Marks.{Mark, apply_mark}
use enterprise_access.Checkout.Table.{cleanup_expired, expire_row, on_row, timed_out}
use enterprise_access.Checkout.Events.{kept}
use enterprise_access.Checkout.Transitions.{apply_mark-valid}

-- A path of allowed transitions: what an intent may do, of its state alone.
pub data Reaches : IntentState → IntentState → Type 0 where
  stays : {s : IntentState} → Reaches s s
  moves :
      {s u v : IntentState}
      → any (same_state u) (allowed_transitions s) ≡ true
      → Reaches u v
      → Reaches s v

Reaches-trans : {s u v : IntentState} → Reaches s u → Reaches u v → Reaches s v
Reaches-trans stays r = r
Reaches-trans (moves a p) r = moves a (Reaches-trans p r)

same_state_lem : (s u : IntentState) → same_state s u ≡ true → s ≡ u
same_state_lem s u h = ground arith

valid-Reaches : (s u : IntentState) → is_valid_state_transition s u ≡ true → Reaches s u
unfolding is_valid_state_transition
valid-Reaches s u h = elim (Bool-cases (same_state s u)) [
  | inl same ↦ subst (λ v. Reaches s v) (same_state_lem s u same) stays
  | inr other ↦ moves (rw other at h) stays
]

-- The same row, on a path of allowed transitions.
abbrev pub Moved : Intent → Intent → Type 0
Moved i j = (j.pk ≡ i.pk) × Reaches i.state j.state

-- Row by row; new rows come after the old ones.
abbrev pub RefinesGraph : Intents → Intents → Type 0
RefinesGraph [] u = Unit {0}
RefinesGraph (i ∷ t) [] = ⊥
RefinesGraph (i ∷ t) (j ∷ u) = Moved i j × RefinesGraph t u

pub RefinesGraph-refl : (t : Intents) → RefinesGraph t t
RefinesGraph-refl [] = tt
RefinesGraph-refl (i ∷ t) = ((refl, stays), RefinesGraph-refl t)

pub RefinesGraph-trans : (t u v : Intents) → RefinesGraph t u → RefinesGraph u v → RefinesGraph t v
RefinesGraph-trans [] u v f g = tt
RefinesGraph-trans (i ∷ t) [] v f g = elim f [ ]
RefinesGraph-trans (i ∷ t) (j ∷ u) [] f g = elim g [ ]
RefinesGraph-trans (i ∷ t) (j ∷ u) (k ∷ v) f g =
    ((g.0.0 ∙ f.0.0, Reaches-trans f.0.1 g.0.1), RefinesGraph-trans t u v f.1 g.1)

pub RefinesGraph-snoc : (t : Intents) (n : Intent) → RefinesGraph t (t ++ n ∷ [])
RefinesGraph-snoc [] n = tt
RefinesGraph-snoc (i ∷ t) n = ((refl, stays), RefinesGraph-snoc t n)

RefinesGraph-map :
    (f : Intent → Intent) (t : Intents) → ((i : Intent) → Moved i (f i)) → RefinesGraph t (map f t)
RefinesGraph-map f [] h = tt
RefinesGraph-map f (i ∷ t) h = (h i, RefinesGraph-map f t h)

pub RefinesGraph-on_row :
    (pk : ℕ) (f : Intent → Intent) (t : Intents)
    → All (λ b. b.pk ≡ pk → Moved b (f b)) t
    → RefinesGraph t (on_row pk f t)
RefinesGraph-on_row pk f [] h = tt
RefinesGraph-on_row pk f (b ∷ t) h = elim (Bool-cases (b.pk == pk)) [
  | inl here ↦ rw here (h.0 ((==_iff b.pk pk).0 here), RefinesGraph-on_row pk f t h.1)
  | inr away ↦ rw away ((refl, stays), RefinesGraph-on_row pk f t h.1)
]

pub kept-Moved : (now : ℕ) (m : Mark) (i : Intent) → Moved i (kept i (apply_mark now m i))
kept-Moved now m i = elim (Result-cases (apply_mark now m i)) [
  | inl (j, e) ↦
      let (valid, moved, same) = apply_mark-valid now m i j e in
      rw e (same.same_pk, valid-Reaches i.state j.state valid)
  | inr (x, e) ↦ rw e (refl, stays)
]

expire-Moved : (now : ℕ) (i : Intent) → Moved i (expire_row now i)
expire-Moved now i = elim (Bool-cases (timed_out now i)) [
  | inl late ↦
      let fresh : created ≡ i.state = same_state_lem created i.state (ground (arith, late)) in
      rw late (refl, subst (λ s. Reaches s expired) fresh (moves refl stays))
  | inr early ↦ rw early (refl, stays)
]

pub cleanup-RefinesGraph : (now : ℕ) (t : Intents) → RefinesGraph t (cleanup_expired now t)
unfolding cleanup_expired
cleanup-RefinesGraph now t = RefinesGraph-map (expire_row now) t (expire-Moved now)
