-- ===== src/Controllers/ReadDesire/PollFrame.antt =====
-- What the loops of pollOnce leave alone and what they collect
-- (internal/controllers/readdesire/controller.go).
use hyperfleet_applier.Controllers.ReadDesire.Poll.{
  gather, report_all, unless_done, Sets, report_failed, resolved,
}
use hyperfleet_applier.Controllers.ReadDesire.Status.{read_status_equal}
use hyperfleet_applier.Base.Dict.{Dict}
use hyperfleet_applier.Controllers.ReadDesire.Informers.{InformerTarget, Gvr}
use hyperfleet_applier.Controllers.ReadDesire.Mirror.{
  add_failed, add_skipped, add_performed, call, Controller, Mirror,
}
use hyperfleet_applier.Base.Text.{Text}
use hyperfleet_applier.Desire.Types.{ReadStatus, ReadDesire, Identity, identity_Eq}
use hyperfleet_applier.Controllers.ReadDesire.Worker.{
  apply_status, computed, fetched, resolve_gvr, retried, written,
}
use hyperfleet_applier.Base.{
  ℕ, ◌≡◌, refl, ◌∙◌, inl, inr, Option, none, some, List, [], ◌∷◌, Bool-cases,
}
use hyperfleet_applier.Controllers.ReadDesire.Content.{JsonCodec}
use hyperfleet_applier.Desire.Platform.{Platform}
use hyperfleet_applier.Base.Result.{Result, ok, err}
use hyperfleet_applier.Controllers.Cluster.{Failure, KubeError, missing, no_match, other}
use hyperfleet_applier.Desire.Validate.{Error}

-- the informers of a state are those of another one
abbrev pub Quiet : {W : Type 0} → Controller W → Controller W → Type 0
Quiet t s = t.informers ≡ s.informers

module _ {W J : Type 0} (c : Mirror W) (p : Platform J) (json : JsonCodec) (now : ℕ) where
  written-Quiet :
      (r : Result Error ReadDesire) (t : Controller W) → Quiet (written c p json now (r, t)).1 t
  unfolding written add_performed add_failed
  written-Quiet (ok _) t = refl
  written-Quiet (err _) t = refl

  computed-Quiet :
      (id : Identity) (old : ReadStatus) (r : ReadStatus × Controller W)
      → Quiet (computed c p json now id old r).1 r.1
  unfolding computed written call add_skipped add_performed add_failed
  computed-Quiet id old (new, s) = elim (Bool-cases (read_status_equal p json new old)) [
    | inl y ↦ rw y refl
    | inr n ↦ rw n (written-Quiet (c.update_read_desire_status id new s.world).0 _)
  ]

  fetched-Quiet :
      (id : Identity) (compute : ReadDesire → Controller W → ReadStatus × Controller W)
      (r : Result Error ReadDesire) (s : Controller W)
      → ((d : ReadDesire) (t : Controller W) → Quiet (compute d t).1 t)
      → Quiet (fetched c p json now id compute (r, s)).1 s
  unfolding fetched
  fetched-Quiet id compute (err e) s h = refl
  fetched-Quiet id compute (ok d) s h = computed-Quiet id d.status _ ∙ h d s

  -- applyStatus leaves the informers alone where the computation of the status does.
  pub apply_status-Quiet :
      (id : Identity) (compute : ReadDesire → Controller W → ReadStatus × Controller W)
      (s : Controller W)
      → ((d : ReadDesire) (t : Controller W) → Quiet (compute d t).1 t)
      → Quiet (apply_status c p json now id compute s).1 s
  unfolding apply_status call
  apply_status-Quiet id compute s h = fetched-Quiet id compute (c.get_read_desire id s.world).0 _ h

  pub report_failed-Quiet :
      (id : Identity) (msg : Text) (s : Controller W)
      → Quiet (report_failed c p json now id msg s) s
  unfolding report_failed
  report_failed-Quiet id msg s = apply_status-Quiet id _ s λ d t. refl

  retried-Quiet :
      (partial : Gvr) (r : Result KubeError Gvr) (s : Controller W)
      → Quiet (retried c partial (r, s)).1 s
  unfolding retried call
  retried-Quiet partial (err missing) s = refl
  retried-Quiet partial (err no_match) s = refl
  retried-Quiet partial (err (other e)) s = refl
  retried-Quiet partial (ok gvr) s = refl

  resolve_gvr-Quiet :
      (group version resource : Text) (s : Controller W)
      → Quiet (resolve_gvr c group version resource s).1 s
  unfolding resolve_gvr call
  resolve_gvr-Quiet group version resource s = retried-Quiet _ _ _

  resolved-Quiet :
      (d : ReadDesire) (want : Dict Identity InformerTarget) (r : Result KubeError Gvr)
      (s : Controller W)
      → Quiet (resolved c p json now d want (r, s)).1 s
  unfolding resolved
  resolved-Quiet d want (err e) s = report_failed-Quiet d.identity _ s
  resolved-Quiet d want (ok gvr) s = refl

  unless_done-Quiet :
      (A : Type 0) (body : Controller W → Result Failure A × Controller W) (o : Option Failure)
      (s : Controller W)
      → ((t : Controller W) → Quiet t s → Quiet (body t).1 s)
      → Quiet (unless_done c p json now body (o, s)).1 s
  unless_done-Quiet A body none s h = h s refl
  unless_done-Quiet A body (some e) s h = refl

  pub gather-Quiet :
      (ds : List ReadDesire) (sets : Sets) (s : Controller W)
      → Quiet (gather c p json now ds sets s).1 s
  unfolding gather call
  gather-Quiet [] sets s = refl
  gather-Quiet (d ∷ ds) (seen, want) s = unless_done-Quiet Sets _ (c.ctx_err s.world).0 _ λ t q.
      gather-Quiet ds _ _
      ∙ resolved-Quiet d want _ _
      ∙ resolve_gvr-Quiet d.identity.group d.target_version d.identity.resource t
      ∙ q

  pub report_all-Quiet :
      (failed : Dict Identity Text) (s : Controller W)
      → Quiet (report_all c p json now failed s).1 s
  unfolding report_all call
  report_all-Quiet [] s = refl
  report_all-Quiet ((key, e) ∷ rest) s =
      unless_done-Quiet Unit _ (c.ctx_err s.world).0 _
        λ t q. report_all-Quiet rest _ ∙ report_failed-Quiet key _ t ∙ q
