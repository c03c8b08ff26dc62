-- ===== src/Options/Spacings.antt =====
-- slipstream/config.go, `ParseOptions`: what the tick spacings that it reads satisfy.
use epeius.Prelude.{◌≡◌, true, false, Option, none, some, List, [], ◌∷◌}
use epeius.Prelude.Int.{ℤ}
use epeius.Config.{Value, Values}
use epeius.Options.{integer_of, in_seen, is_int24}

-- The values are integers of 24 bits, none of them seen before.
abbrev pub AreSpacings : List ℤ → Values → List ℤ → Type 0
AreSpacings seen Values.nil [] = Unit
AreSpacings seen Values.nil (n ∷ ns) = ⊥
AreSpacings seen (Values.cons value values) [] = ⊥
AreSpacings seen (Values.cons value values) (n ∷ ns) =
    (integer_of value ≡ some n)
    × (is_int24 n ≡ true)
    × (in_seen n seen ≡ false)
    × AreSpacings (n ∷ seen) values ns

abbrev Reads : List ℤ → Values → Option (List ℤ) → Type 0
Reads seen values none = Unit
Reads seen values (some ns) = AreSpacings seen values ns

-- What a reading of the options is: that of an array with an element, or of nothing.
abbrev FromArray : Option Values → Option (List ℤ) → Type 0
FromArray values none = Unit
FromArray values (some ns) =
    (value : Value) × (rest : Values) × (values ≡ some (Values.cons value rest))
    × AreSpacings [] (Values.cons value rest) ns
