-- ===== src/Controllers/ReadDesire/Polls.antt =====
-- What a poll of internal/controllers/readdesire/controller.go does to the informers.
use hyperfleet_applier.Controllers.ReadDesire.Shutdown.{reconcile-IsTracked}
use hyperfleet_applier.Controllers.ReadDesire.Kept.{kept, reconcile-unwanted, reconcile-steady}
use hyperfleet_applier.Base.Dict.{lookup-empty, lookup, Dict}
use hyperfleet_applier.Controllers.ReadDesire.Channels.{IsTracked}
use hyperfleet_applier.Controllers.ReadDesire.Collected.{gather-Collected, Steady, lists}
use hyperfleet_applier.Controllers.ReadDesire.Informers.{
  InformerManager, reconcile, TrackedInformer, InformerTarget,
}
use hyperfleet_applier.Base.{
  subst, ℕ, ◌≡◌, refl, sym, ◌∙◌, ap, true, false, Option, some, none, List, [],
}
use hyperfleet_applier.Controllers.ReadDesire.PollFrame.{report_all-Quiet, gather-Quiet}
use hyperfleet_applier.Controllers.ReadDesire.Mirror.{call, Controller, Mirror}
use hyperfleet_applier.Controllers.ReadDesire.Poll.{Sets, gather, poll_once, gathered, listed}
use hyperfleet_applier.Desire.Validate.{Error}
use hyperfleet_applier.Controllers.Cluster.{Failure}
use hyperfleet_applier.Desire.Types.{ReadDesire, Identity, identity_Eq}
use hyperfleet_applier.Base.Text.{Text}
use hyperfleet_applier.Controllers.ReadDesire.Content.{JsonCodec}
use hyperfleet_applier.Desire.Platform.{Platform}
use hyperfleet_applier.Base.Result.{Result, ok, err, ok_eq}

module _ {W J : Type 0} (c : Mirror W) (p : Platform J) (json : JsonCodec) (now : ℕ)
    (wire : Identity → InformerTarget → Option Text) where
  gathered-informers :
      (seen : Dict Identity (Unit {0})) (want : Dict Identity InformerTarget) (s : Controller W)
      → (gathered c p json now wire (ok (seen, want), s)).1.informers
        ≡ (reconcile wire seen want s.informers).1
  unfolding gathered
  gathered-informers seen want s =
      report_all-Quiet c p json now (reconcile wire seen want s.informers).0 _

  gathered-Steady :
      (ds : List ReadDesire) (j : Identity) (ti : TrackedInformer) (s t : Controller W)
      (r : Result Failure Sets)
      → gather c p json now ds ([], []) s ≡ (r, t)
      → lists j ds ≡ true
      → Steady c j ti.gvr ds
      → lookup j t.informers.informers ≡ some ti
      → lookup j (gathered c p json now wire (r, t)).1.informers.informers ≡ some ti
  unfolding gathered
  gathered-Steady ds j ti s t (err e) h y st at = at
  gathered-Steady ds j ti s t (ok (seen, want)) h y st at =
      let all = gather-Collected c p json now ds ([], []) (seen, want) s t h in
      ap (λ (m : InformerManager). lookup j m.informers) (gathered-informers seen want t)
      ∙ reconcile-steady wire seen want t.informers j ti (all.unique tt) (all.listed_seen j y) at
          (all.steady j ti.gvr st λ x q. cc (lookup-empty {V = InformerTarget} j))

  gathered-unlisted :
      (ds : List ReadDesire) (j : Identity) (s t : Controller W) (r : Result Failure Sets)
      → gather c p json now ds ([], []) s ≡ (r, t)
      → lists j ds ≡ false
      → (gathered c p json now wire (r, t)).0 ≡ ok tt
      → lookup j (gathered c p json now wire (r, t)).1.informers.informers ≡ none
  unfolding gathered
  gathered-unlisted ds j s t (err e) h y q = cc
  gathered-unlisted ds j s t (ok (seen, want)) h y q =
      let all = gather-Collected c p json now ds ([], []) (seen, want) s t h in
      let gone = all.unlisted_seen j y ∙ lookup-empty j in
      ap (λ (m : InformerManager). lookup j m.informers) (gathered-informers seen want t)
      ∙ (reconcile-unwanted wire seen want t.informers j (all.unlisted_want j y ∙ lookup-empty j)).1
      ∙ ap (λ o. kept o (lookup j t.informers.informers)) gone

  gathered-IsTracked :
      (r : Result Failure Sets) (t : Controller W)
      → IsTracked t.informers
      → IsTracked (gathered c p json now wire (r, t)).1.informers
  unfolding gathered
  gathered-IsTracked (err e) t v = v
  gathered-IsTracked (ok (seen, want)) t v =
      subst (λ m. IsTracked m) (sym (gathered-informers seen want t))
        (reconcile-IsTracked wire seen want t.informers v)

  gather-informers :
      (ds : List ReadDesire) (s : Controller W)
      → (gather c p json now ds ([], []) s).1.informers ≡ s.informers
  gather-informers ds s = gather-Quiet c p json now ds ([], []) s

  listed-IsTracked :
      (r : Result Error (List ReadDesire)) (s : Controller W)
      → IsTracked s.informers
      → IsTracked (listed c p json now wire (r, s)).1.informers
  unfolding listed
  listed-IsTracked (err e) s v = v
  listed-IsTracked (ok ds) s v =
      let r = gather c p json now ds ([], []) s in
      gathered-IsTracked r.0 r.1 (subst (λ m. IsTracked m) (sym (gather-informers ds s)) v)

  listed-unlisted :
      (ds : List ReadDesire) (j : Identity) (r : Result Error (List ReadDesire)) (s : Controller W)
      → r ≡ ok ds
      → lists j ds ≡ false
      → (listed c p json now wire (r, s)).0 ≡ ok tt
      → lookup j (listed c p json now wire (r, s)).1.informers.informers ≡ none
  unfolding listed
  listed-unlisted ds j (err e) s h y q = cc
  listed-unlisted ds j (ok es) s h y q =
      gathered-unlisted es j s _ _ refl (ap (λ l. lists j l) (ok_eq h) ∙ y) q

  module _ (management_cluster : Text) (s : Controller W) where
    -- A poll keeps the accounting of stop channels, however it ends.
    pub poll_once-IsTracked :
        IsTracked s.informers
        → IsTracked (poll_once c p json now wire management_cluster s).1.informers
    unfolding poll_once call
    poll_once-IsTracked v = listed-IsTracked _ _ v

    -- However a poll ends, it keeps the very informer of a listed desire, if the mapper, whenever it
    -- resolves the desire's resource, gives the resource that the informer is on. So neither a failure to
    -- resolve nor an abort in the middle of the poll stops an informer.
    pub poll_once-Steady :
        (ds : List ReadDesire) (j : Identity) (ti : TrackedInformer)
        → (c.list_read_desires management_cluster s.world).0 ≡ ok ds
        → lists j ds ≡ true
        → Steady c j ti.gvr ds
        → lookup j s.informers.informers ≡ some ti
        → lookup j (poll_once c p json now wire management_cluster s).1.informers.informers
          ≡ some ti
    unfolding poll_once listed call
    poll_once-Steady ds j ti h y st at = rw h (
        gathered-Steady ds j ti _ _ _ refl y st
          (ap (λ (m : InformerManager). lookup j m.informers) (gather-informers ds _) ∙ at))

    -- After a poll that could list the desires and was not aborted, a desire that was not in the listing
    -- has no informer.
    pub poll_once-unlisted :
        (ds : List ReadDesire) (j : Identity)
        → (c.list_read_desires management_cluster s.world).0 ≡ ok ds
        → lists j ds ≡ false
        → (poll_once c p json now wire management_cluster s).0 ≡ ok tt
        → lookup j (poll_once c p json now wire management_cluster s).1.informers.informers ≡ none
    unfolding poll_once listed call
    poll_once-unlisted ds j h y q = listed-unlisted ds j _ _ h y q
