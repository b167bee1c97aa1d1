-- ===== src/Memory/Reach.antt =====
-- Clients of the in-memory store: any sequence of its operations, failing ones included.
use hyperfleet_applier.Base.{ℕ, Bool, List, [], ◌∷◌}
use hyperfleet_applier.Base.Text.{Text}
use hyperfleet_applier.Base.Result.{is_ok}
use hyperfleet_applier.Desire.Types.{
  Identity, Status, ReadStatus, ApplySpec, ApplyDesire, DeleteDesire, ReadDesire,
}
use hyperfleet_applier.Desire.Platform.{Platform}
use hyperfleet_applier.Desire.Contract.{PrefixSelector}
use hyperfleet_applier.Memory.Record.{Memory, Op}
use hyperfleet_applier.Memory.Apply.{
  create_apply_desire, get_apply_desire, update_apply_desire_spec, update_apply_desire_status,
  delete_apply_desire,
}
use hyperfleet_applier.Memory.Delete.{
  create_delete_desire, get_delete_desire, update_delete_desire_status, delete_delete_desire,
}
use hyperfleet_applier.Memory.Read.{
  create_read_desire, get_read_desire, update_read_desire_status, delete_read_desire,
}
use hyperfleet_applier.Memory.Query.{
  list_apply_desires, list_delete_desires, list_read_desires, delete_by_prefix,
}
use hyperfleet_applier.Memory.Invariant.{IsValid}
use hyperfleet_applier.Memory.Facts.{Valid}
use hyperfleet_applier.Memory.Keeps
use hyperfleet_applier.Memory.Creates

-- A call of one of the methods of SpecStore and StatusStore.
pub data Request : Type 0 where
  create_apply : ApplyDesire → Request
  get_apply : Identity → Request
  update_apply_spec : Identity → ApplySpec → Text → ℕ → Request
  update_apply_status : Identity → Status → ℕ → Request
  delete_apply : Identity → Text → ℕ → Request
  create_delete : DeleteDesire → Request
  get_delete : Identity → Request
  update_delete_status : Identity → Status → ℕ → Request
  delete_delete : Identity → Text → ℕ → Request
  create_read : ReadDesire → Request
  get_read : Identity → Request
  update_read_status : Identity → ReadStatus → Request
  delete_read : Identity → Text → ℕ → Request
  list_apply list_delete list_read : Text → Request
  delete_prefix : Text → PrefixSelector → Request

-- whether a call succeeded, and the store that it left
abbrev pub outcome : {A : Type 0} → Op A → Memory → Bool × Memory
outcome m s = (is_ok (m s).0, (m s).1)

module _ {J : Type 0} (p : Platform J) where
  unfoldable pub serve : Request → Memory → Bool × Memory
  serve (create_apply d) = outcome (create_apply_desire p d)
  serve (get_apply id) = outcome (get_apply_desire id)
  serve (update_apply_spec id spec owner v) = outcome (update_apply_desire_spec p id spec owner v)
  serve (update_apply_status id status v) = outcome (update_apply_desire_status id status v)
  serve (delete_apply id owner v) = outcome (delete_apply_desire id owner v)
  serve (create_delete d) = outcome (create_delete_desire p d)
  serve (get_delete id) = outcome (get_delete_desire id)
  serve (update_delete_status id status v) = outcome (update_delete_desire_status id status v)
  serve (delete_delete id owner v) = outcome (delete_delete_desire id owner v)
  serve (create_read d) = outcome (create_read_desire p d)
  serve (get_read id) = outcome (get_read_desire id)
  serve (update_read_status id status) = outcome (update_read_desire_status id status)
  serve (delete_read id owner v) = outcome (delete_read_desire id owner v)
  serve (list_apply mc) = outcome (list_apply_desires mc)
  serve (list_delete mc) = outcome (list_delete_desires mc)
  serve (list_read mc) = outcome (list_read_desires mc)
  serve (delete_prefix mc sel) = outcome (delete_by_prefix mc sel)

  unfoldable pub run : List Request → Memory → Memory
  run [] s = s
  run (r ∷ rs) s = run rs (serve r s).1

  serve-IsValid : (r : Request) (s : Memory) → Valid s → Valid (serve r s).1
  unfolding serve delete_delete_desire delete_read_desire list_apply_desires list_delete_desires
      list_read_desires
  serve-IsValid (create_apply d) = Creates.create_apply_desire-IsValid p d
  serve-IsValid (get_apply id) = Keeps.get_apply_desire-IsValid id
  serve-IsValid (update_apply_spec id spec owner v) =
      Keeps.update_apply_desire_spec-IsValid p id spec owner v
  serve-IsValid (update_apply_status id status v) =
      Keeps.update_apply_desire_status-IsValid id status v
  serve-IsValid (delete_apply id owner v) = Keeps.delete_apply_desire-IsValid id owner v
  serve-IsValid (create_delete d) = Creates.create_delete_desire-IsValid p d
  serve-IsValid (get_delete id) = Keeps.get_delete_desire-IsValid id
  serve-IsValid (update_delete_status id status v) =
      Keeps.update_delete_desire_status-IsValid id status v
  serve-IsValid (delete_delete id owner v) = Keeps.delete_desire_of-IsValid _ id owner v
  serve-IsValid (create_read d) = Creates.create_read_desire-IsValid p d
  serve-IsValid (get_read id) = Keeps.get_read_desire-IsValid id
  serve-IsValid (update_read_status id status) = Keeps.update_read_desire_status-IsValid id status
  serve-IsValid (delete_read id owner v) = Keeps.delete_desire_of-IsValid _ id owner v
  serve-IsValid (list_apply mc) = λ s v. v
  serve-IsValid (list_delete mc) = λ s v. v
  serve-IsValid (list_read mc) = λ s v. v
  serve-IsValid (delete_prefix mc sel) = Keeps.delete_by_prefix-IsValid mc sel

  -- Whatever operations clients call on a valid store, with whatever arguments and results, every
  -- record stays filed under its own identity with the fields of its type, the desires for one
  -- resource keep one owner, and no resource has both an apply and a delete.
  pub run-IsValid : (rs : List Request) (s : Memory) → IsValid s.items → IsValid (run rs s).items
  unfolding run
  run-IsValid [] s v = v
  run-IsValid (r ∷ rs) s v = run-IsValid rs (serve r s).1 (serve-IsValid r s v)
