-- ===== src/Store/Eviction.antt =====
-- store.go: which entry the loop of `saveQuote` and `savePreparation` evicts.
use epeius.Prelude.{
  ℕ, ◌+◌, ◌≤◌, ◌<◌, String, ◌≡◌, refl, ◌≢◌, ◌⊎◌, inl, inr, true, false, ◌||◌, ◌&&◌, Option, none,
  some, [], ◌∷◌, arith, ltb, leb, length, if◌then◌else◌, str_eq, str_eq_iff, str_eq_refl,
  Bool-cases, is_empty, ap, sym,
}
use epeius.Prelude.Dict.{Dict, Distinct, lookup, lookup-erase, length-erase-lt, erase-Distinct}
use mathlib.Core.Path.{subst}
use epeius.Store.{store_limit, oldest, make_room}

module _ {ℓ} {V : Type ℓ} (expires : V → ℕ) where
  oldest-taken :
      (k : String) (v : V) (m : Dict V) (id : String) (e : ℕ)
      → (is_empty id || ltb (expires v) e) ≡ true
      → oldest expires ((k, v) ∷ m) id e ≡ oldest expires m k (expires v)
  unfolding oldest
  oldest-taken k v m id e h = rw h

  oldest-kept :
      (k : String) (v : V) (m : Dict V) (id : String) (e : ℕ)
      → (is_empty id || ltb (expires v) e) ≡ false
      → oldest expires ((k, v) ∷ m) id e ≡ oldest expires m id e
  unfolding oldest
  oldest-kept k v m id e h = rw h

  abbrev pub expiry_of : Option V → Option ℕ
  expiry_of none = none
  expiry_of (some v) = some (expires v)

  -- The entry of the key that the loop holds, where that is not what the loop began with.
  abbrev pub Holds : Dict V → String × ℕ → Type 0
  Holds m r = expiry_of (lookup r.0 m) ≡ some r.1

  Holds-cons :
      (k : String) (v : V) (m : Dict V) (r : String × ℕ)
      → lookup k m ≡ none
      → Holds m r
      → Holds ((k, v) ∷ m) r
  unfolding lookup
  Holds-cons k v m r d h = elim (Bool-cases (str_eq k r.0)) [
    | inl hit ↦ absurd (clash ((str_eq_iff k r.0).0 hit))
    | inr miss ↦ rw miss h
  ]
    where
      clash : ¬ (k ≡ r.0)
      clash e = let gone : lookup r.0 m ≡ none = rw e at d in cc (ap expiry_of gone)

  Holds-head : (k : String) (v : V) (m : Dict V) → Holds ((k, v) ∷ m) (k, expires v)
  unfolding lookup
  Holds-head k v m = rw (str_eq_refl k)

  oldest-Holds :
      (m : Dict V) (id : String) (e : ℕ)
      → Distinct m
      → (oldest expires m id e ≡ (id, e)) ⊎ Holds m (oldest expires m id e)
  unfolding oldest
  oldest-Holds [] id e d = inl refl
  oldest-Holds ((k, v) ∷ m) id e d = elim (Bool-cases (is_empty id || ltb (expires v) e)) [
    | inl t ↦ rw (oldest-taken k v m id e t) (
        inr (elim (oldest-Holds m k (expires v) d.1) [
          | inl start ↦ rw start (Holds-head k v m)
          | inr found ↦ Holds-cons k v m _ d.0 found
        ]))
    | inr f ↦ rw (oldest-kept k v m id e f) (elim (oldest-Holds m id e d.1) [
      | inl start ↦ inl start
      | inr found ↦ inr (Holds-cons k v m _ d.0 found)
    ])
  ]

  -- Text IDs are never empty: `rand.Text` makes them.
  abbrev pub NonemptyKeys : Dict V → Type 0
  NonemptyKeys [] = Unit
  NonemptyKeys ((k, v) ∷ m) = (is_empty k ≡ false) × NonemptyKeys m

  abbrev pub NoneBefore : ℕ → Dict V → Type 0
  NoneBefore e [] = Unit
  NoneBefore e ((k, v) ∷ m) = (e ≤ expires v) × NoneBefore e m

  abbrev Soonest : Dict V → ℕ → String × ℕ → Type 0
  Soonest m e r = (r.1 ≤ e) × NoneBefore r.1 m

  oldest-Soonest :
      (m : Dict V) (id : String) (e : ℕ)
      → NonemptyKeys m
      → is_empty id ≡ false
      → Soonest m e (oldest expires m id e)
  unfolding oldest
  oldest-Soonest [] id e n h = (omega arith, tt)
  oldest-Soonest ((k, v) ∷ m) id e n h = elim (Bool-cases (ltb (expires v) e)) [
    | inl t ↦
        let rest = oldest-Soonest m k (expires v) n.1 n.0 in
        subst (Soonest ((k, v) ∷ m) e) (sym (oldest-taken k v m id e (rw (h, t))))
          (ground arith, (rest.0, rest.1))
    | inr f ↦
        let rest = oldest-Soonest m id e n.1 h in
        subst (Soonest ((k, v) ∷ m) e) (sym (oldest-kept k v m id e (rw (h, f))))
          (rest.0, (ground arith, rest.1))
  ]

  Chosen-taken :
      (k : String) (v : V) (m : Dict V)
      → oldest expires ((k, v) ∷ m) "" 0 ≡ oldest expires m k (expires v)
  Chosen-taken k v m = oldest-taken k v m "" 0 (rw (str_eq_refl ""))

  -- The key that the loop chooses from a map holds an entry of it.
  pub oldest-entry : (m : Dict V) → Distinct m → 0 < length m → Holds m (oldest expires m "" 0)
  oldest-entry [] d h = absurd (omega arith)
  oldest-entry ((k, v) ∷ m) d h = rw (Chosen-taken k v m) (elim (oldest-Holds m k (expires v) d.1) [
    | inl start ↦ rw start (Holds-head k v m)
    | inr found ↦ Holds-cons k v m _ d.0 found
  ])

  -- And no entry of the map expires before it.
  pub oldest-NoneBefore : (m : Dict V) → NonemptyKeys m → NoneBefore (oldest expires m "" 0).1 m
  oldest-NoneBefore [] n = tt
  oldest-NoneBefore ((k, v) ∷ m) n =
      subst (λ r. NoneBefore r.1 ((k, v) ∷ m)) (sym (Chosen-taken k v m))
        (oldest-Soonest m k (expires v) n.1 n.0)

  pub oldest-found :
      (m : Dict V) → Distinct m → 0 < length m → lookup (oldest expires m "" 0).0 m ≢ none
  oldest-found m d h gone = let held = oldest-entry m d h in cc

  pub lookup-make_room :
      (j : String) (m : Dict V)
      → lookup j (make_room expires m) ≡ (
          if leb store_limit (length m) && str_eq (oldest expires m "" 0).0 j
          then none
          else lookup j m)
  unfolding make_room
  lookup-make_room j m = ground (arith, lookup-erase (oldest expires m "" 0).0 j m)

  pub make_room-Distinct : (m : Dict V) → Distinct m → Distinct (make_room expires m)
  unfolding make_room
  make_room-Distinct m d = ground (arith, erase-Distinct (oldest expires m "" 0).0 m d)

  pub length-make_room :
      (m : Dict V)
      → Distinct m
      → length m ≤ store_limit
      → length (make_room expires m) + 1 ≤ store_limit
  unfolding make_room
  length-make_room m d h = elim (Bool-cases (leb store_limit (length m))) [
    | inl full ↦ rw full (
        omega
          (arith, length-erase-lt (oldest expires m "" 0).0 m (oldest-found m d (ground arith))))
    | inr room ↦ rw room (ground arith)
  ]
