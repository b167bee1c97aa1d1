-- ===== src/Redis/Key.antt =====
-- The keys of the Redis store. net/url's PathEscape is a parameter, with what RFC 3986 escaping promises.
use hyperfleet_applier.Base.{ℕ, Bool, ◌||◌, if◌then◌else◌, List, [], ◌∷◌, ◌++◌, eqb}
use hyperfleet_applier.Base.Text.{Text, codes}
use hyperfleet_applier.Desire.Types.{Identity}

-- "desire/{" opens the Redis Cluster hash tag
abbrev pub key_prefix : Text
key_prefix = codes "desire/{"

-- strings.Join(parts, "/")
unfoldable pub join_slash : List Text → Text
join_slash [] = []
join_slash (s ∷ []) = s
join_slash (s ∷ t ∷ ss) = s ++ b'/' ∷ join_slash (t ∷ ss)

module _ (path_escape : Text → Text) where
  unfoldable pub redis_key : Identity → Text
  unfolding join_slash
  redis_key id =
      key_prefix
      ++ (join_slash (
            path_escape id.management_cluster
            ∷ path_escape id.group
            ∷ path_escape id.resource
            ∷ path_escape id.namespace
            ∷ path_escape id.name
            ∷ [])
          ++ (codes "}/" ++ id.type))

-- the characters that a Redis glob gives a meaning
unfoldable pub is_glob : ℕ → Bool
is_glob c = eqb c 92 || eqb c b'*' || eqb c b'?' || eqb c b'[' || eqb c b']'

-- globEscaper.Replace
unfoldable pub glob_escape : Text → Text
unfolding is_glob
glob_escape [] = []
glob_escape (c ∷ s) = let rest = glob_escape s in if is_glob c then 92 ∷ c ∷ rest else c ∷ rest

module _ (path_escape : Text → Text) where
  -- mcScanPrefix
  unfoldable pub mc_scan_prefix : Text → Text
  unfolding glob_escape
  mc_scan_prefix mc = glob_escape (key_prefix ++ path_escape mc) ++ codes "/"
