-- ===== src/Controllers/ReadDesire/Content.antt =====
-- internal/controllers/readdesire/status.go: the comparison of mirrored content. Go's map[string]any is
-- a list of fields; encoding/json's decoder and encoder are parameters.
use hyperfleet_applier.Base.{Bool, false, ◌||◌, Option, none, some, if◌then◌else◌, ◌==◌}
use hyperfleet_applier.Base.Text.{Text, text_Eq, codes}

-- what `any` holds after a decode with UseNumber
mutual
  pub data Json : Type 0 where
    null : Json
    boolean : Bool → Json
    number string : Text → Json
    array : Values → Json
    object : Fields → Json

  pub data Values : Type 0 where
    no_value : Values
    value : Json → Values → Values

  pub data Fields : Type 0 where
    no_field : Fields
    field : Text → Json → Fields → Fields

pub record JsonCodec : Type 0 where
  -- Decode into a map, and what it leaves unread; the map is nil for null
  pub decode_object : Text → Option (Option Fields × Text)
  -- the next Decode gives io.EOF
  pub at_eof : Text → Bool
  -- Marshal of a map
  pub marshal : Option Fields → Option Text

abbrev pub metadata_field : Text
metadata_field = codes "metadata"

abbrev pub managed_fields_field : Text
managed_fields_field = codes "managedFields"

abbrev pub resource_version_field : Text
resource_version_field = codes "resourceVersion"

abbrev pub generation_field : Text
generation_field = codes "generation"

-- one of the fields that canonicalContent deletes
unfoldable pub is_managed : Text → Bool
is_managed key =
    key == managed_fields_field || key == resource_version_field || key == generation_field

-- the three deletes on `metadata`
unfoldable pub drop_managed : Fields → Fields
unfolding is_managed
drop_managed no_field = no_field
drop_managed (field key v fs) =
    let rest = drop_managed fs in if is_managed key then rest else field key v rest

-- `if metadata, ok := v.(map[string]any); ok`
unfoldable pub drop_managed_in : Json → Json
drop_managed_in (object fs) = object (drop_managed fs)
drop_managed_in v = v

-- The deletes reach the map under "metadata".
unfoldable pub normalize : Fields → Fields
unfolding drop_managed_in
normalize no_field = no_field
normalize (field key v fs) =
    let rest = normalize fs in
    if key == metadata_field then field key (drop_managed_in v) rest else field key v rest

abbrev pub normalize_map : Option Fields → Option Fields
normalize_map none = none
normalize_map (some fs) = some (normalize fs)

module _ (json : JsonCodec) where
  -- canonicalContent, once the content is decoded
  unfoldable pub canonical_decoded : Option (Option Fields × Text) → Option Text
  unfolding normalize
  canonical_decoded none = none
  canonical_decoded (some (decoded, rest)) =
      if json.at_eof rest then json.marshal (normalize_map decoded) else none

  unfoldable pub canonical_content : Text → Option Text
  unfolding canonical_decoded
  canonical_content content = canonical_decoded (json.decode_object content)

  -- okA && okB && bytes.Equal(canonicalA, canonicalB)
  abbrev pub same_canonical : Option Text → Option Text → Bool
  same_canonical none b = false
  same_canonical (some a) none = false
  same_canonical (some a) (some b) = a == b

  unfoldable pub semantic_content_equal : Text → Text → Bool
  unfolding canonical_content
  semantic_content_equal a b = a == b || same_canonical (canonical_content a) (canonical_content b)
