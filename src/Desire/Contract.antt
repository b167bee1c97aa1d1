-- ===== src/Desire/Contract.antt =====
-- What both stores use: PrefixSelector.Matches (store.go), CheckOwner (observe.go), IsDeleted
-- (types.go) and speccompare.Equal (store/internal/speccompare/compare.go).
use hyperfleet_applier.Base.{
  ℕ, ◌+◌, ◌%◌, ◌^◌, Bool, false, not, ◌&&◌, Option, none, some, [], if◌then◌else◌, ◌==◌,
}
use hyperfleet_applier.Base.Text.{Text, text_Eq, has_prefix}
use hyperfleet_applier.Base.Exec.{Exec}
use hyperfleet_applier.Base.Result.{ok, err}
use hyperfleet_applier.Desire.Types.{
  DesireType, type_successful, condition_true, reason_deleted, Identity, Status, ApplySpec,
}
use hyperfleet_applier.Desire.Platform.{Platform}
use hyperfleet_applier.Desire.Validate.{Error, owner_conflict}

pub record PrefixSelector : Type 0 where
  pub type : DesireType
  pub group : Text
  pub resource : Text
  pub namespace : Text
  pub name : Text

-- PrefixSelector.Matches: each early return is one factor.
unfoldable pub matches : PrefixSelector → Identity → Bool
matches sel id =
    not (not (sel.type == []) && not (id.type == sel.type))
    && not (not (sel.group == []) && not (has_prefix id.group sel.group))
    && not (not (sel.resource == []) && not (has_prefix id.resource sel.resource))
    && not (not (sel.namespace == []) && not (id.namespace == sel.namespace))
    && not (not (sel.name == []) && not (id.name == sel.name))

-- The process-wide atomic uint64 that counts owner conflicts wraps.
unfoldable pub report_owner_conflict : ℕ → ℕ
report_owner_conflict total = (total + 1) % 2 ^ 64

unfoldable pub check_owner : Text → Text → Exec ℕ Error (Unit {0})
unfolding report_owner_conflict
check_owner existing attempted total =
    if existing == attempted
    then (ok tt, total)
    else (err owner_conflict, report_owner_conflict total)

module _ {J : Type 0} (p : Platform J) where
  unfoldable pub is_deleted : Status → Bool
  is_deleted status = elim (p.find_status_condition status.conditions type_successful) [
    | none ↦ false
    | some c ↦ c.status == condition_true && c.reason == reason_deleted
  ]

  -- speccompare.decode
  unfoldable pub decode : Text → Option J
  decode content = if p.json_valid content then p.json_decode content else none

  unfoldable pub deep_equal? : Option J → Option J → Bool
  deep_equal? none right = false
  deep_equal? (some left) none = false
  deep_equal? (some left) (some right) = p.deep_equal left right

  -- speccompare.Equal
  unfoldable pub spec_equal : ApplySpec → ApplySpec → Bool
  unfolding decode deep_equal?
  spec_equal a b =
      if a.kube_content == b.kube_content
      then p.json_valid a.kube_content
      else deep_equal? (decode a.kube_content) (decode b.kube_content)
