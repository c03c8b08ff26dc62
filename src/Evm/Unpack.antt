-- ===== src/Evm/Unpack.antt =====
-- services/quote-engine/internal/evm/abi.go: the strict decoder over go-ethereum's `abi`.
use epeius.Prelude.{
  ℕ, ◌≡◌, Bool, true, false, ◌&&◌, Option, none, some, List, [], ◌∷◌, arith, ◌==◌, if◌then◌else◌,
  Bool-cases, inl, inr,
}

abbrev pub Bytes : Type 0
Bytes = List ℕ

-- bytes.Equal
unfoldable pub bytes_eq : Bytes → Bytes → Bool
bytes_eq [] [] = true
bytes_eq [] (y ∷ ys) = false
bytes_eq (x ∷ xs) [] = false
bytes_eq (x ∷ xs) (y ∷ ys) = x == y && bytes_eq xs ys

-- The outputs of an ABI method: `Outputs.Unpack` and `Outputs.Pack`.
pub record Method (A : Type 0) : Type 0 where
  pub decode : Bytes → Option A
  pub encode : A → Option Bytes

module _ {A : Type 0} (method : Method A) where
  abbrev canonical : Bytes → A → Option Bytes → Option A
  canonical bytes values none = none
  canonical bytes values (some encoded) = if bytes_eq encoded bytes then some values else none

  abbrev checked : Bytes → Option A → Option A
  checked bytes none = none
  checked bytes (some values) = canonical bytes values (method.encode values)

  unfoldable pub unpack : Bytes → Option A
  unpack bytes = checked bytes (method.decode bytes)

pub bytes_eq-eq : (xs ys : Bytes) → bytes_eq xs ys ≡ true → xs ≡ ys
unfolding bytes_eq
bytes_eq-eq [] [] h = ground arith
bytes_eq-eq [] (y ∷ ys) h = cc
bytes_eq-eq (x ∷ xs) [] h = cc
bytes_eq-eq (x ∷ xs) (y ∷ ys) h = ground (arith, bytes_eq-eq xs ys)

module _ {A : Type 0} (method : Method A) where
  canonical-eq :
      (bytes : Bytes) (v values : A) (e : Option Bytes)
      → canonical method bytes v e ≡ some values
      → (e ≡ some bytes) × (v ≡ values)
  canonical-eq bytes v values none h = cc
  canonical-eq bytes v values (some encoded) h = elim (Bool-cases (bytes_eq encoded bytes)) [
    | inl same ↦ (cc (bytes_eq-eq encoded bytes same), same_value (rw same at h))
    | inr differ ↦ absurd (none_some (rw differ at h))
  ]
    where
      same_value : some v ≡ some values → v ≡ values
      same_value e = cc

      none_some : ◌≡◌ {A = Option A} none (some values) → ⊥
      none_some e = cc

  checked-eq :
      (bytes : Bytes) (values : A) (d : Option A)
      → checked method bytes d ≡ some values
      → method.encode values ≡ some bytes
  checked-eq bytes values none h = cc
  checked-eq bytes values (some v) h =
      let (e, same) = canonical-eq bytes v values (method.encode v) h in cc

  unpack_encodes :
      (bytes : Bytes) (values : A)
      → unpack method bytes ≡ some values
      → method.encode values ≡ some bytes
  unfolding unpack
  unpack_encodes bytes values h = checked-eq bytes values (method.decode bytes) h

  -- Two results that decode to the same values are the same bytes: no padding, no trailing bytes and
  -- no second encoding is accepted.
  pub unpack_injective :
      (xs ys : Bytes) (values : A)
      → unpack method xs ≡ some values
      → unpack method ys ≡ some values
      → xs ≡ ys
  unpack_injective xs ys values h k = cc (unpack_encodes xs values h, unpack_encodes ys values k)
