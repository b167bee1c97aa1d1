-- ===== src/Memory/Query.antt =====
-- The store's operations over all desires of a management cluster.
use hyperfleet_applier.Base.{Bool, List, [], ◌∷◌, ◌&&◌, if◌then◌else◌, ◌==◌}
use hyperfleet_applier.Base.Text.{Text, text_Eq}
use hyperfleet_applier.Base.Dict.{remove_if}
use hyperfleet_applier.Base.Exec.{pure}
use hyperfleet_applier.Base.Result.{ok}
use hyperfleet_applier.Desire.Types.{
  DesireType, type_apply, type_delete, type_read, Identity, identity_Eq, ApplyDesire, DeleteDesire,
  ReadDesire,
}
use hyperfleet_applier.Desire.Contract.{PrefixSelector, matches}
use hyperfleet_applier.Memory.Record.{
  ResourceRecord, Items, Op, project_apply_desire, project_delete_desire, project_read_desire,
}

-- the test on a key in the three list operations
unfoldable pub selects : Text → DesireType → Identity → Bool
selects mc t id = id.management_cluster == mc && id.type == t

-- The loop of the three list operations: `project` converts a record of type `t`.
unfoldable pub list_desires {ℓ} :
    {D : Type ℓ} → (ResourceRecord → D) → Text → DesireType → Items → List D
unfolding selects
list_desires project mc t [] = []
list_desires project mc t ((id, rec) ∷ items) =
    let rest = list_desires project mc t items in
    if selects mc t id then project rec ∷ rest else rest

unfoldable pub list_apply_desires : Text → Op (List ApplyDesire)
unfolding list_desires
list_apply_desires mc s = pure (list_desires project_apply_desire mc type_apply s.items) s

unfoldable pub list_delete_desires : Text → Op (List DeleteDesire)
unfolding list_desires
list_delete_desires mc s = pure (list_desires project_delete_desire mc type_delete s.items) s

unfoldable pub list_read_desires : Text → Op (List ReadDesire)
unfolding list_desires
list_read_desires mc s = pure (list_desires project_read_desire mc type_read s.items) s

-- the test on a key in the loop of DeleteByPrefix
unfoldable pub doomed : Text → PrefixSelector → Identity → Bool
doomed mc sel id = id.management_cluster == mc && matches sel id

unfoldable pub delete_by_prefix : Text → PrefixSelector → Op (Unit {0})
unfolding doomed
delete_by_prefix mc sel s = (ok tt, record s { items = remove_if (doomed mc sel) s.items })
