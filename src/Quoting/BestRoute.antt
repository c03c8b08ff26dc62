-- ===== src/Quoting/BestRoute.antt =====
-- handler.go, `GetQuote`: which route is named the best.
use epeius.Prelude.{
  ◌≡◌, refl, sym, ap, ◌∙◌, Bool, true, false, Option, none, some, List, [], ◌∷◌, ◌++◌, arith, inl,
  inr, Bool-cases,
}
use epeius.Prelude.Int.{ℤ, ◌≤ℤ◌, ltb_ℤ}
use epeius.Prelude.Decimal.{set_string}
use mathlib.Core.Path.{subst}
use mathlib.Core.List.{append_assoc, append-nil}
use epeius.Wire.{RouteQuote}
use epeius.Quoting.Best.{BestOutput, beats, compare_route, replace_if, best_of_rest, best_of}

-- The outputs that the routes state, each of them a number.
abbrev pub output_of : RouteQuote → Option ℤ
output_of route = set_string route.amount_out_atomic

abbrev pub AllNumbers : List RouteQuote → Type 0
AllNumbers [] = Unit
AllNumbers (route ∷ routes) = ((n : ℤ) × (output_of route ≡ some n)) × AllNumbers routes

abbrev pub AtMost : ℤ → List RouteQuote → Type 0
AtMost n [] = Unit
AtMost n (route ∷ routes) = ((m : ℤ) × (output_of route ≡ some m) × (m ≤ℤ n)) × AtMost n routes

abbrev pub Below : ℤ → List RouteQuote → Type 0
Below n [] = Unit
Below n (route ∷ routes) =
    ((m : ℤ) × (output_of route ≡ some m) × (ltb_ℤ m n ≡ true)) × Below n routes

-- `best` is the first of the routes with the largest output.
pub record IsFirstBest (routes : List RouteQuote) (best : BestOutput) : Type 0 where
  pub before : List RouteQuote
  pub route : RouteQuote
  pub after : List RouteQuote
  pub output : ℤ
  pub splits : routes ≡ before ++ (route ∷ after)
  pub states : output_of route ≡ some output
  pub has_output : best.output ≡ some output
  pub has_id : best.route_id ≡ some route.route_id
  pub beats_before : Below output before
  pub beats_after : AtMost output after

AtMost-append : (n : ℤ) (xs ys : List RouteQuote) → AtMost n xs → AtMost n ys → AtMost n (xs ++ ys)
AtMost-append n [] ys h k = k
AtMost-append n (x ∷ xs) ys (a, h) k = (a, AtMost-append n xs ys h k)

ltb_ℤ-≤ℤ : (m n : ℤ) → ltb_ℤ m n ≡ true → m ≤ℤ n
ltb_ℤ-≤ℤ m n h = ground arith

≤ℤ-ltb_ℤ : (m n k : ℤ) → m ≤ℤ n → ltb_ℤ n k ≡ true → ltb_ℤ m k ≡ true
≤ℤ-ltb_ℤ m n k h l = ground arith

≥-of-not-ltb : (m n : ℤ) → ltb_ℤ n m ≡ false → m ≤ℤ n
≥-of-not-ltb m n h = ground arith

≤ℤ_refl : (n : ℤ) → n ≤ℤ n
≤ℤ_refl n = omega arith

Below-AtMost : (n : ℤ) (xs : List RouteQuote) → Below n xs → AtMost n xs
Below-AtMost n [] h = tt
Below-AtMost n (x ∷ xs) ((m, e, l), h) = ((m, e, ltb_ℤ-≤ℤ m n l), Below-AtMost n xs h)

AtMost-Below : (n m : ℤ) (xs : List RouteQuote) → ltb_ℤ n m ≡ true → AtMost n xs → Below m xs
AtMost-Below n m [] l h = tt
AtMost-Below n m (x ∷ xs) l ((k, e, a), h) = ((k, e, ≤ℤ-ltb_ℤ k n m a l), AtMost-Below n m xs l h)

IsFirstBest-AtMost :
    (seen : List RouteQuote) (best : BestOutput) (f : IsFirstBest seen best) → AtMost f.output seen
IsFirstBest-AtMost seen best f = subst (AtMost f.output) (sym f.splits) (
    AtMost-append f.output f.before (f.route ∷ f.after)
      (Below-AtMost f.output f.before f.beats_before)
      ((f.output, f.states, ≤ℤ_refl f.output), f.beats_after))

beats-ltb : (o b : Option ℤ) (m n : ℤ) → o ≡ some m → b ≡ some n → beats o b ≡ some (ltb_ℤ n m)
unfolding beats
beats-ltb o b m n e f = rw (e, f) refl

compare-replace :
    (route : RouteQuote) (best : BestOutput) (m n : ℤ) (c : Bool)
    → output_of route ≡ some m
    → best.output ≡ some n
    → ltb_ℤ n m ≡ c
    → compare_route route best ≡ replace_if route (some m) (some c) best
unfolding compare_route
compare-replace route best m n c e f l =
    ap (λ o. replace_if route o (beats o best.output) best) e
    ∙ ap (λ b. replace_if route (some m) b best)
        (beats-ltb (some m) best.output m n refl f ∙ ap some l)

-- One more route.
extend :
    (seen : List RouteQuote) (best : BestOutput) (route : RouteQuote) (m : ℤ)
    → output_of route ≡ some m
    → IsFirstBest seen best
    → (b : BestOutput) × (compare_route route best ≡ some b) × IsFirstBest (seen ++ (route ∷ [])) b
unfolding replace_if
extend seen best route m e f = elim (Bool-cases (ltb_ℤ f.output m)) [
  | inl l ↦ (
    record { output = some m; route_id = some route.route_id },
    compare-replace route best m f.output true e f.has_output l,
    record {
      before = seen;
      route = route;
      after = [];
      output = m;
      splits = refl;
      states = e;
      has_output = refl;
      has_id = refl;
      beats_before = AtMost-Below f.output m seen l (IsFirstBest-AtMost seen best f);
      beats_after = tt;
    },
  )
  | inr l ↦ (
    best,
    compare-replace route best m f.output false e f.has_output l,
    record {
      before = f.before;
      route = f.route;
      after = f.after ++ (route ∷ []);
      output = f.output;
      splits =
          ap (λ xs. xs ++ (route ∷ [])) f.splits
          ∙ append_assoc f.before (f.route ∷ f.after) (route ∷ []);
      states = f.states;
      has_output = f.has_output;
      has_id = f.has_id;
      beats_before = f.beats_before;
      beats_after =
          AtMost-append f.output f.after (route ∷ []) f.beats_after
            ((m, e, ≥-of-not-ltb m f.output l), tt);
    },
  )
]

best_of-extends :
    (routes seen : List RouteQuote) (best : BestOutput)
    → AllNumbers routes
    → IsFirstBest seen best
    → (b : BestOutput) × (best_of routes best ≡ some b) × IsFirstBest (seen ++ routes) b
unfolding best_of best_of_rest
best_of-extends [] seen best h f =
    (best, refl, subst (λ xs. IsFirstBest xs best) (sym (append-nil seen)) f)
best_of-extends (route ∷ routes) seen best ((m, e), h) f =
    let (b, step, g) = extend seen best route m e f in
    let (c, rest, i) = best_of-extends routes (seen ++ (route ∷ [])) b h g in
    (
      c,
      ap (best_of_rest (best_of routes)) step ∙ rest,
      subst (λ xs. IsFirstBest xs c) (append_assoc seen (route ∷ []) routes) i,
    )

abbrev no_best : BestOutput
no_best = record { output = none; route_id = none }

-- Without a route none is named; otherwise the first of the routes with the largest output.
abbrev pub NamesBest : List RouteQuote → BestOutput → Type 0
NamesBest [] b = b.route_id ≡ none
NamesBest (route ∷ routes) b = IsFirstBest (route ∷ routes) b

-- The loop over routes whose outputs are all numbers does not panic. Without a route it names none;
-- otherwise it names the ID of the first of the routes that state the largest output: each route
-- before it states less, and none after it states more.
pub best_of-NamesBest :
    (routes : List RouteQuote)
    → AllNumbers routes
    → (b : BestOutput) × (best_of routes (record { output = none; route_id = none }) ≡ some b)
      × NamesBest routes b
unfolding best_of best_of_rest compare_route beats replace_if
best_of-NamesBest [] h = (no_best, refl, refl)
best_of-NamesBest (route ∷ routes) ((m, e), h) =
    let first : BestOutput = record { output = some m; route_id = some route.route_id } in
    let (b, rest, f) = best_of-extends routes (route ∷ []) first h (record {
      before = [];
      route = route;
      after = [];
      output = m;
      splits = refl;
      states = e;
      has_output = refl;
      has_id = refl;
      beats_before = tt;
      beats_after = tt;
    }) in
    (
      b,
      ap (λ o. best_of_rest (best_of routes) (replace_if route o (some true) no_best)) e ∙ rest,
      f,
    )
