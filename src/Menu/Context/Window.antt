-- ===== src/Menu/Context/Window.antt =====
-- The window of `_effective_context` and the agreement of channels and periods.
use first_helios.Base.{
  ℕ, Bool, true, false, Option, some, List, [], ◌∷◌, ◌&&◌, arith, ◌≡◌, refl, all, inl, inr, In,
  In-all, Option-cases,
}
use first_helios.Base.Text.{Text, text_eq, text_eq_iff}
use first_helios.Menu.Model.{MenuApplicability, same_channel, same_channel_iff}
use first_helios.Menu.Context.{
  Effective, one_channel, periods, one_period, first_period, latest_start, earliest_end,
  empty_window, intersection, from_ok, to_ok, contains_instant,
}

-- One restriction on its own holds at an instant.
abbrev pub row_holds : ℕ → MenuApplicability → Bool
row_holds instant r = from_ok r.valid_from instant && to_ok r.valid_to instant

latest_start_lem :
    (rows : List MenuApplicability) (e : ℕ)
    → from_ok (latest_start rows) e ≡ all (λ r. from_ok r.valid_from e) rows
unfolding latest_start from_ok all
latest_start_lem [] e = refl
latest_start_lem (r ∷ rs) e = ground (arith, latest_start_lem rs e)

earliest_end_lem :
    (rows : List MenuApplicability) (e : ℕ)
    → to_ok (earliest_end rows) e ≡ all (λ r. to_ok r.valid_to e) rows
unfolding earliest_end to_ok all
earliest_end_lem [] e = refl
earliest_end_lem (r ∷ rs) e = ground (arith, earliest_end_lem rs e)

all_and :
    (rows : List MenuApplicability) (e : ℕ)
    → all (row_holds e) rows
      ≡ (all (λ r. from_ok r.valid_from e) rows && all (λ r. to_ok r.valid_to e) rows)
unfolding all
all_and [] e = refl
all_and (r ∷ rs) e = ground (arith, all_and rs e)

-- If the restrictions intersect, the effective window contains exactly the instants at which every restriction of the path holds.
pub intersection-contains_instant :
    (rows : List MenuApplicability) (eff : Effective) (e : ℕ)
    → intersection rows ≡ some eff
    → contains_instant eff e ≡ all (row_holds e) rows
unfolding intersection contains_instant
intersection-contains_instant [] eff e h = cc
intersection-contains_instant (r ∷ rs) eff e h =
    ground (arith, all_and (r ∷ rs) e, latest_start_lem (r ∷ rs) e, earliest_end_lem (r ∷ rs) e)

-- A window that holds at some instant is not empty.
window_inhabited :
    (lower upper : Option ℕ) (e : ℕ)
    → from_ok lower e ≡ true
    → to_ok upper e ≡ true
    → empty_window lower upper ≡ false
unfolding from_ok to_ok empty_window
window_inhabited lower upper e h k = ground arith

-- Every two restrictions name the same channel, and those that name a period name one.
pub record Agrees (rows : List MenuApplicability) : Type 0 where
  pub channels : (a b : MenuApplicability) → In a rows → In b rows → a.channel ≡ b.channel
  pub service_periods :
      (a b : MenuApplicability) (p q : Text)
      → In a rows
      → In b rows
      → a.service_period ≡ some p
      → b.service_period ≡ some q
      → p ≡ q

Agrees-one_channel : (rows : List MenuApplicability) → Agrees rows → one_channel rows ≡ true
unfolding one_channel
Agrees-one_channel [] g = refl
Agrees-one_channel (r ∷ rs) g =
    In-all (λ s. same_channel r.channel s.channel) rs
      (λ s m. (same_channel_iff r.channel s.channel).1 (g.channels r s (inl refl) (inr m)))

Naming : Text → List MenuApplicability → Type 0
Naming p rows = (r : MenuApplicability) × In r rows × (r.service_period ≡ some p)

In-periods : (p : Text) (rows : List MenuApplicability) → In p (periods rows) → Naming p rows
unfolding periods Naming
In-periods p [] m = elim m [ ]
In-periods p (r ∷ rs) m = elim (Option-cases r.service_period) [
  | inl e ↦ further (In-periods p rs (rw e at m))
  | inr (p', e) ↦ split p' e (In-periods p rs) (rw e at m)
]
  where
    further : Naming p rs → Naming p (r ∷ rs)
    further (s, j, q) = (s, inr j, q)

    split :
        (p' : Text)
        → r.service_period ≡ some p'
        → (In p (periods rs) → Naming p rs)
        → In p (p' ∷ periods rs)
        → Naming p (r ∷ rs)
    split p' e ih (inl q) = (r, inl refl, cc)
    split p' e ih (inr i) = further (ih i)

one_text : (ps : List Text) → ((p q : Text) → In p ps → In q ps → p ≡ q) → one_period ps ≡ true
unfolding one_period
one_text [] h = refl
one_text (p ∷ ps) h = In-all (text_eq p) ps (λ q m. (text_eq_iff p q).1 (h p q (inl refl) (inr m)))

Agrees-one_period : (rows : List MenuApplicability) → Agrees rows → one_period (periods rows) ≡ true
unfolding Naming
Agrees-one_period rows g = one_text (periods rows) (λ p q i j.
    let (a, ia, ea) = In-periods p rows i in
    let (b, ib, eb) = In-periods q rows j in g.service_periods a b p q ia ib ea eb)

-- Restrictions that agree and that all hold at some instant do intersect: the result has the channel of the first.
pub intersection-some :
    (r : MenuApplicability) (rs : List MenuApplicability) (e : ℕ)
    → Agrees (r ∷ rs)
    → all (row_holds e) (r ∷ rs) ≡ true
    → (eff : Effective) × (intersection (r ∷ rs) ≡ some eff) × (eff.channel ≡ r.channel)
unfolding intersection
intersection-some r rs e g hw = (
  record {
    channel = r.channel;
    service_period = first_period (periods (r ∷ rs));
    valid_from = latest_start (r ∷ rs);
    valid_to = earliest_end (r ∷ rs);
  },
  ground (
    arith,
    Agrees-one_channel (r ∷ rs) g,
    Agrees-one_period (r ∷ rs) g,
    all_and (r ∷ rs) e,
    latest_start_lem (r ∷ rs) e,
    earliest_end_lem (r ∷ rs) e,
    window_inhabited (latest_start (r ∷ rs)) (earliest_end (r ∷ rs)) e,
  ),
  refl,
)
