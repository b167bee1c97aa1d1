-- ===== src/Desire/Validate.antt =====
-- pkg/desire/validate.go, and the errors of pkg/desire/store.go. A message is kept as the facts that
-- it prints; wrapping an error by `%w` keeps it.
use hyperfleet_applier.Base.{Bool, true, false, not, ◌||◌, if◌then◌else◌, [], ◌==◌}
use hyperfleet_applier.Base.Text.{Text, codes, text_Eq}
use hyperfleet_applier.Base.Result.{Result, ok, err, guard, ◌>>◌}
use hyperfleet_applier.Desire.Types.{
  DesireType, type_apply, type_delete, type_read, Identity, ApplySpec, ApplyDesire, DeleteDesire,
  ReadDesire,
}
use hyperfleet_applier.Desire.Platform.{Platform}

pub data Error : Type 0 where
  -- the sentinel errors
  not_found already_exists version_conflict aborted owner_conflict delete_pending : Error
  -- what validation reports
  type_invalid : DesireType → Error
  type_mismatch : DesireType → DesireType → Error
  field_required : Text → Error
  field_invalid : Text → Text → Error
  owner_required content_empty content_not_json target_version_required : Error
  -- an error of a client library, such as a failed Redis command
  client : Text → Error

abbrev pub Check : Type 0
Check = Result Error (Unit {0})

-- The three field validators differ in the library function that they call, `valid`.
module _ (valid : Text → Bool) where
  unfoldable pub validate_label : Text → Text → Bool → Check
  validate_label field value required =
      if value == []
      then (if required then err (field_required field) else ok tt)
      else guard (valid value) (field_invalid field value)

module _ {J : Type 0} (p : Platform J) where
  unfoldable pub validate_dns1035_label : Text → Text → Bool → Check
  unfolding validate_label
  validate_dns1035_label = validate_label p.is_dns1035_label

  unfoldable pub validate_dns1123_label : Text → Text → Bool → Check
  unfolding validate_label
  validate_dns1123_label = validate_label p.is_dns1123_label

  unfoldable pub validate_dns1123_subdomain : Text → Text → Bool → Check
  unfolding validate_label
  validate_dns1123_subdomain = validate_label p.is_dns1123_subdomain

  -- Identity.Validate
  unfoldable pub validate_identity : Identity → Check
  unfolding validate_dns1035_label validate_dns1123_label validate_dns1123_subdomain
  validate_identity id = do
    guard (id.type == type_apply || id.type == type_delete || id.type == type_read)
        (type_invalid id.type)
    validate_dns1123_label (codes "managementCluster") id.management_cluster true
    validate_dns1123_subdomain (codes "group") id.group false
    validate_dns1035_label (codes "resource") id.resource true
    validate_dns1123_label (codes "namespace") id.namespace false
    validate_dns1123_subdomain (codes "name") id.name false

  -- ApplySpec.Validate
  unfoldable pub validate_spec : ApplySpec → Check
  validate_spec s = do
    guard (not (s.kube_content == [])) content_empty
    guard (p.json_valid s.kube_content) content_not_json

  -- ApplyDesire.Validate
  unfoldable pub validate_apply : ApplyDesire → Check
  validate_apply d = do
    guard (d.identity.type == type_apply) (type_mismatch type_apply d.identity.type)
    validate_identity d.identity
    guard (not (d.owner == [])) owner_required
    validate_spec d.spec

  -- DeleteDesire.Validate
  unfoldable pub validate_delete : DeleteDesire → Check
  validate_delete d = do
    guard (d.identity.type == type_delete) (type_mismatch type_delete d.identity.type)
    validate_identity d.identity
    guard (not (d.owner == [])) owner_required

  -- ReadDesire.Validate
  unfoldable pub validate_read : ReadDesire → Check
  validate_read d = do
    guard (d.identity.type == type_read) (type_mismatch type_read d.identity.type)
    validate_identity d.identity
    guard (not (d.owner == [])) owner_required
    guard (not (d.target_version == [])) target_version_required
