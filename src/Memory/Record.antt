-- ===== src/Memory/Record.antt =====
-- The store's record and state, and the helpers that its operations share. A store's mutex makes each
-- operation one step, so an operation is a function of the state. The state also holds the
-- process-wide counter of owner conflicts (pkg/desire/observe.go).
use hyperfleet_applier.Base.{ℕ, ◌+◌, ◌%◌, ◌^◌, Option, none, some, List, [], ◌∷◌}
use hyperfleet_applier.Base.Text.{Text}
use hyperfleet_applier.Base.Dict.{Dict, lookup, insert, remove}
use hyperfleet_applier.Base.Exec.{Exec}
use hyperfleet_applier.Base.Result.{ok, err}
use hyperfleet_applier.Desire.Types.{
  DesireType, all_types, Identity, identity_Eq, Status, ReadStatus, ApplySpec, ApplyDesire,
  DeleteDesire, ReadDesire,
}
use hyperfleet_applier.Desire.Validate.{Error, already_exists}
use hyperfleet_applier.Desire.Contract.{check_owner}

pub record ResourceRecord : Type 0 where
  -- a pointer in the source: `none` is nil
  pub apply : Option ApplySpec
  pub identity : Identity
  pub origin_id : Text
  pub owner : Text
  pub target_version : Text
  pub read_status : ReadStatus
  pub status : Status
  pub generation : ℕ
  pub version : ℕ

abbrev pub Items : Type 0
Items = Dict Identity ResourceRecord

pub record Memory : Type 0 where
  pub items : Items
  pub conflict_total : ℕ

abbrev pub Op : Type 0 → Type 0
Op A = Exec Memory Error A

-- `New`, in a process that has counted `total` conflicts
unfoldable pub new_store : ℕ → Memory
new_store total = record { items = []; conflict_total = total }

-- `x++` on an int64
abbrev pub increment : ℕ → ℕ
increment x = (x + 1) % 2 ^ 64

-- sib := id; sib.Type = t
abbrev pub with_type : DesireType → Identity → Identity
with_type t id = record id { type = t }

unfoldable pub first_owner : Items → Identity → List DesireType → Option Text
first_owner items id [] = none
first_owner items id (t ∷ ts) =
    let rest = first_owner items id ts in
    elim (lookup (with_type t id) items) [ none ↦ rest | some rec ↦ some rec.owner ]

unfoldable pub target_owner : Items → Identity → Option Text
target_owner items id = first_owner items id all_types

-- desire.CheckOwner in the state of a store
unfoldable pub check_owner_in : Text → Text → Op (Unit {0})
unfolding check_owner
check_owner_in existing attempted s =
    let (r, total) = check_owner existing attempted s.conflict_total in
    (r, record s { conflict_total = total })

unfoldable pub check_target_owner : Identity → Text → Op (Unit {0})
check_target_owner id attempted s = elim (target_owner s.items id) [
  | none ↦ (ok tt, s)
  | some owner ↦ check_owner_in owner attempted s
]

-- s.items[id] = rec
unfoldable pub store_record : Identity → ResourceRecord → Op (Unit {0})
store_record id rec s = (ok tt, record s { items = insert id rec s.items })

-- delete(s.items, id)
unfoldable pub delete_record : Identity → Op (Unit {0})
delete_record id s = (ok tt, record s { items = remove id s.items })

-- if _, ok := s.items[id]; ok { return ErrAlreadyExists }
unfoldable pub refuse_existing : Identity → Op (Unit {0})
refuse_existing id s = elim (lookup id s.items) [
  | none ↦ (ok tt, s)
  | some _ ↦ (err already_exists, s)
]

abbrev pub empty_identity : Identity
empty_identity = record {
  management_cluster = [];
  type = [];
  group = [];
  resource = [];
  namespace = [];
  name = [];
}

abbrev pub empty_status : Status
empty_status = record { conditions = [] }

abbrev pub empty_read_status : ReadStatus
empty_read_status = record { status = empty_status; kube_content = [] }

-- desire.ApplyDesire{}
abbrev pub empty_apply_desire : ApplyDesire
empty_apply_desire = record {
  identity = empty_identity;
  owner = [];
  origin_id = [];
  spec = record { kube_content = [] };
  status = empty_status;
  generation = 0;
  version = 0;
}

-- The projections copy a record's slices, which have no identity here. No caller passes a nil record.
unfoldable pub project_apply_desire : ResourceRecord → ApplyDesire
project_apply_desire rec = elim rec.apply [
  | none ↦ empty_apply_desire
  | some spec ↦ record {
    identity = rec.identity;
    owner = rec.owner;
    origin_id = rec.origin_id;
    spec = spec;
    status = rec.status;
    generation = rec.generation;
    version = rec.version;
  }
]

unfoldable pub project_delete_desire : ResourceRecord → DeleteDesire
project_delete_desire rec = record {
  identity = rec.identity;
  owner = rec.owner;
  origin_id = rec.origin_id;
  status = rec.status;
  generation = rec.generation;
  version = rec.version;
}

unfoldable pub project_read_desire : ResourceRecord → ReadDesire
project_read_desire rec = record {
  identity = rec.identity;
  owner = rec.owner;
  origin_id = rec.origin_id;
  target_version = rec.target_version;
  status = rec.read_status;
  generation = rec.generation;
  version = rec.version;
}

-- desire.DeleteDesire{} and desire.ReadDesire{}
abbrev pub empty_delete_desire : DeleteDesire
empty_delete_desire = record {
  identity = empty_identity;
  owner = [];
  origin_id = [];
  status = empty_status;
  generation = 0;
  version = 0;
}

abbrev pub empty_read_desire : ReadDesire
empty_read_desire = record {
  identity = empty_identity;
  owner = [];
  origin_id = [];
  target_version = [];
  status = empty_read_status;
  generation = 0;
  version = 0;
}
