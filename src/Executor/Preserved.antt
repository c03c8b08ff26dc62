-- ===== src/Executor/Preserved.antt =====
-- executor.go, `executorChecks`: every balance is probed once.
use epeius.Prelude.{◌≡◌, false, List, [], ◌∷◌, ◌++◌}
use epeius.Prelude.Dict.{Dict}
use epeius.Store.{BalanceProbe}
use epeius.Executor.Probes.{has_probe}

-- Each of the probes differs from those in `seen` and from the ones before it, in the token or in the
-- owner, without regard to case.
abbrev pub Unseen : List BalanceProbe → List BalanceProbe → Type 0
Unseen seen [] = Unit
Unseen seen (p ∷ ps) = (has_probe seen p ≡ false) × Unseen (seen ++ (p ∷ [])) ps
