-- ===== src/Controllers/Order.antt =====
-- The order in which a tick of internal/controllers/serial/controller.go runs the reconcilers.
use hyperfleet_applier.Controllers.Serial.{Reconcilable}
use hyperfleet_applier.Controllers.Cluster.{Failure}
use hyperfleet_applier.Base.{◌≡◌, ◌⊎◌, Bool, true, Option, List, [], ◌∷◌, ◌++◌}
use hyperfleet_applier.Base.Text.{Text}

-- a reconciler that also appends its name to a log
abbrev pub logged : {V : Type 0} → Reconcilable V → Reconcilable (V × List Text)
logged r = record {
  name = r.name;
  run_once = λ w. let (e, v) = r.run_once w.0 in (e, (v, w.1 ++ r.name ∷ []));
}

abbrev pub names : {V : Type 0} → List (Reconcilable V) → List Text
names [] = []
names (r ∷ rs) = r.name ∷ names rs

module _ {V : Type 0} (ctx_err : V → Option Failure × V) where
  abbrev pub ctx_err_logged : V × List Text → Option Failure × (V × List Text)
  ctx_err_logged w = let (e, v) = ctx_err w.0 in (e, (v, w.1))

  -- the log has grown by the first of the names, and by all of them if nothing stopped
  abbrev pub InOrder : List Text → List Text → Bool × (V × List Text) → Type 0
  InOrder all log r =
      (xs ys : List Text) × (all ≡ xs ++ ys) × (r.1.1 ≡ log ++ xs) × ((r.0 ≡ true) ⊎ (ys ≡ []))
