-- ===== src/Composition/Collected.antt =====
-- composition.go, `ConfigureChain`: each of the maps on its own.
use mathlib.Core.Path.{subst}
use epeius.Prelude.{
  String, ◌≡◌, refl, ap, ◌∙◌, Option, none, some, [], ◌∷◌, str_eq, str_eq_iff, Bool-cases, inl, inr,
  if◌then◌else◌,
}
use epeius.Prelude.Dict.{Dict, lookup, lookup-insert, Distinct}
use epeius.Prelude.Partial.{◌>>=◌}
use epeius.Config.{Deployment}
use epeius.Composition.{
  Components, Registries, put, Composing, register, add_components, configure_all,
}

abbrev pub or_else : {V : Type 0} → Option V → Option V → Option V
or_else none o = o
or_else (some v) o = some v

pub or_else-none : {V : Type 0} (o : Option V) → or_else o none ≡ o
or_else-none none = refl
or_else-none (some v) = refl

module _ (g : Composing) {V : Type 0} (part : Components → Option V) where
  abbrev pub part_of : String → Option Deployment → Option V
  part_of id d = d >>= register g id >>= part

  abbrev pub collect : Dict Deployment → Dict V → Dict V
  collect [] m = m
  collect ((id, d) ∷ rest) m = collect rest (put id (register g id d >>= part) m)

  put-lookup :
      (j id : String) (o : Option V) (m : Dict V)
      → lookup id (put j o m) ≡ (if str_eq j id then or_else o (lookup id m) else lookup id m)
  unfolding put
  put-lookup j id none m = elim (Bool-cases (str_eq j id)) [ inl t ↦ rw t refl | inr f ↦ rw f refl ]
  put-lookup j id (some v) m = lookup-insert j id v m

  pub collect-lookup :
      (id : String) (deployments : Dict Deployment) (m : Dict V)
      → Distinct deployments
      → lookup id (collect deployments m)
        ≡ or_else (part_of id (lookup id deployments)) (lookup id m)
  unfolding lookup
  collect-lookup id [] m distinct = refl
  collect-lookup id ((j, d) ∷ rest) m (absent, distinct) =
      collect-lookup id rest (put j (register g j d >>= part) m) distinct
      ∙ elim (Bool-cases (str_eq j id)) [
        | inl t ↦
            let same = (str_eq_iff j id).0 t in
            let missing : lookup id rest ≡ none =
              subst (λ (i : String). lookup i rest ≡ none) same absent in
            ap (λ o. or_else (part_of id o) (lookup id (put j (register g j d >>= part) m))) missing
            ∙ put-lookup j id (register g j d >>= part) m
            ∙ rw t (ap (λ (i : String). or_else (register g i d >>= part) (lookup id m)) same)
        | inr f ↦
            let later : lookup id (put j (register g j d >>= part) m) ≡ lookup id m =
              put-lookup j id (register g j d >>= part) m ∙ rw f refl in
            ap (or_else (part_of id (lookup id rest))) later ∙ rw f refl
      ]

module _ (g : Composing) where
  added :
      (id : String) (o : Option Components) (r : Registries)
      → ((add_components g id o r).quoters ≡ put id (o >>= (λ c. c.quoter)) r.quoters)
        × ((add_components g id o r).requoters ≡ put id (o >>= (λ c. c.requoter)) r.requoters)
        × ((add_components g id o r).verifiers ≡ put id (o >>= (λ c. c.verifier)) r.verifiers)
        × ((add_components g id o r).preparers ≡ put id (o >>= (λ c. c.preparer)) r.preparers)
  unfolding add_components put
  added id none r = (refl, refl, refl, refl)
  added id (some c) r = (refl, refl, refl, refl)

  -- The maps, one by one.
  pub collected :
      (deployments : Dict Deployment) (r : Registries)
      → ((configure_all g deployments r).quoters ≡ collect g (λ c. c.quoter) deployments r.quoters)
        × ((configure_all g deployments r).requoters
            ≡ collect g (λ c. c.requoter) deployments r.requoters)
        × ((configure_all g deployments r).verifiers
            ≡ collect g (λ c. c.verifier) deployments r.verifiers)
        × ((configure_all g deployments r).preparers
            ≡ collect g (λ c. c.preparer) deployments r.preparers)
  unfolding configure_all
  collected [] r = (refl, refl, refl, refl)
  collected ((id, d) ∷ rest) r =
      let (q, t, v, p) = collected rest (add_components g id (register g id d) r) in
      let (q', t', v', p') = added id (register g id d) r in
      (
        q ∙ ap (collect g (λ c. c.quoter) rest) q',
        t ∙ ap (collect g (λ c. c.requoter) rest) t',
        v ∙ ap (collect g (λ c. c.verifier) rest) v',
        p ∙ ap (collect g (λ c. c.preparer) rest) p',
      )
