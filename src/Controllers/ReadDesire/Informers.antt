-- ===== src/Controllers/ReadDesire/Informers.antt =====
-- internal/controllers/readdesire/informer_manager.go. A stop channel is a number, given out in order;
-- a manager remembers which it has closed, and closing one twice is a panic in Go. The order of a map is
-- the order in which the source happens to range over it.
use hyperfleet_applier.Base.{
  ◌*◌, ℕ, ◌+◌, Bool, ◌&&◌, Option, none, some, List, [], ◌∷◌, if◌then◌else◌, ◌==◌,
}
use hyperfleet_applier.Base.Text.{Text, text_Eq}
use hyperfleet_applier.Base.Dict.{Dict, lookup, insert, remove}
use hyperfleet_applier.Desire.Types.{Identity, identity_Eq}

-- schema.GroupVersionResource
pub record Gvr : Type 0 where
  pub group : Text
  pub version : Text
  pub resource : Text

unfoldable pub gvr_eq : Gvr → Gvr → Bool
gvr_eq a b = a.group == b.group && a.version == b.version && a.resource == b.resource

pub record InformerTarget : Type 0 where
  pub gvr : Gvr
  pub namespace : Text
  pub name : Text

-- an informer, its lister and its stop channel are one number
pub record TrackedInformer : Type 0 where
  pub stop_ch : ℕ
  pub gvr : Gvr

pub record InformerManager : Type 0 where
  pub informers : Dict Identity TrackedInformer
  -- the next stop channel, and the channels that are closed, the latest first
  pub next_ch : ℕ
  pub closed : List ℕ

-- newInformerManager
unfoldable pub new_informer_manager : InformerManager
new_informer_manager = record { informers = []; next_ch = 0; closed = [] }

-- newInformerManager: a timeout that is not positive is the default, 30 seconds in nanoseconds
abbrev pub default_informer_sync_timeout : ℕ
default_informer_sync_timeout = 30 * 1000000000

-- close(ti.stopCh); delete(m.informers, key)
unfoldable pub stop_informer : Identity → TrackedInformer → InformerManager → InformerManager
stop_informer key ti m = record m {
  informers = remove key m.informers;
  closed = ti.stop_ch ∷ m.closed;
}

-- `if _, ok := seen[key]; ok { continue }`, and else the stop
unfoldable pub stop_unless :
    Option (Unit {0}) → Identity → TrackedInformer → InformerManager → InformerManager
unfolding stop_informer
stop_unless (some _) key ti m = m
stop_unless none key ti m = stop_informer key ti m

-- for key, ti := range m.informers, over the entries that the map had at the start
unfoldable pub stop_unseen :
    Dict Identity (Unit {0}) → Dict Identity TrackedInformer → InformerManager → InformerManager
unfolding stop_unless
stop_unseen seen [] m = m
stop_unseen seen ((key, ti) ∷ rest) m =
    stop_unseen seen rest (stop_unless (lookup key seen) key ti m)

-- start, once AddEventHandler has returned, and up to the goroutines
unfoldable pub wired :
    Identity → InformerTarget → InformerManager → Option Text → Option Text × InformerManager
wired key target m (some e) = (some e, m)
wired key target m none = (
  none,
  record m {
    informers = insert key (record { stop_ch = m.next_ch; gvr = target.gvr }) m.informers;
    next_ch = m.next_ch + 1;
  },
)

-- `wire` is AddEventHandler on a new informer: an error, or none.
module _ (wire : Identity → InformerTarget → Option Text) where
  unfoldable pub start : Identity → InformerTarget → InformerManager → Option Text × InformerManager
  unfolding wired
  start key target m = wired key target m (wire key target)

  -- failed[key] = err
  abbrev pub note_failure :
      Identity
      → Option Text × InformerManager
      → Dict Identity Text
      → Dict Identity Text × InformerManager
  note_failure key (none, m) failed = (failed, m)
  note_failure key (some e, m) failed = (insert key e failed, m)

  -- one round of the loop over `want`, by the informer that the key has
  unfoldable pub ensure_from :
      Identity
      → InformerTarget
      → Dict Identity Text
      → InformerManager
      → Option TrackedInformer
      → Dict Identity Text × InformerManager
  unfolding start stop_informer
  ensure_from key target failed m none = note_failure key (start key target m) failed
  ensure_from key target failed m (some ti) =
      if gvr_eq ti.gvr target.gvr
      then (failed, m)
      else note_failure key (start key target (stop_informer key ti m)) failed

  unfoldable pub ensure :
      Identity
      → InformerTarget
      → Dict Identity Text × InformerManager
      → Dict Identity Text × InformerManager
  unfolding ensure_from
  ensure key target (failed, m) = ensure_from key target failed m (lookup key m.informers)

  unfoldable pub ensure_all :
      Dict Identity InformerTarget
      → Dict Identity Text × InformerManager
      → Dict Identity Text × InformerManager
  unfolding ensure
  ensure_all [] acc = acc
  ensure_all ((key, target) ∷ rest) acc = ensure_all rest (ensure key target acc)

  -- Reconcile; the result is nil where it has no entry
  unfoldable pub reconcile :
      Dict Identity (Unit {0})
      → Dict Identity InformerTarget
      → InformerManager
      → Dict Identity Text × InformerManager
  unfolding stop_unseen ensure_all
  reconcile seen want m = ensure_all want ([], stop_unseen seen m.informers m)

-- shutdownAll
unfoldable pub stop_all : Dict Identity TrackedInformer → InformerManager → InformerManager
unfolding stop_informer
stop_all [] m = m
stop_all ((key, ti) ∷ rest) m = stop_all rest (stop_informer key ti m)

unfoldable pub shutdown_all : InformerManager → InformerManager
unfolding stop_all
shutdown_all m = stop_all m.informers m
