-- ===== src/Config.antt =====
-- internal/config/config.go: the configuration, Validate, resolveNamespace and Redacted. net/url's Parse
-- and the regular expression are parameters; an error's text is kept as the fact that it prints. The
-- merge of flags, environment and file by viper is not modelled.
use hyperfleet_applier.Base.Result.{ok_eq, Result, ok, err, guard, ◌>>◌, ◌>>=◌}
use hyperfleet_applier.Base.{
  ap, ◌≡◌, ◌≢◌, ◌↔◌, ℕ, zero, suc, Bool, true, false, not, ◌||◌, Option, some, none, [],
  if◌then◌else◌, ◌==◌, arith,
}
use mathlib.Core.Path.{refl, ◌∙◌}
use hyperfleet_applier.Base.Text.{Text, text_Eq, codes, text_eq_iff}

-- time.Duration, which may be negative
pub data Duration : Type 0 where
  pos negsuc : ℕ → Duration

unfoldable pub is_positive : Duration → Bool
is_positive (pos zero) = false
is_positive (pos (suc n)) = true
is_positive (negsuc n) = false

pub record LogConfig : Type 0 where
  pub level : Text
  pub format : Text
  pub output : Text

pub record RedisConfig : Type 0 where
  pub url : Text

pub record KubernetesConfig : Type 0 where
  pub kube_config_path : Text

pub record ClientsConfig : Type 0 where
  pub redis : RedisConfig
  pub kubernetes : KubernetesConfig

pub record Config : Type 0 where
  pub log : LogConfig
  pub management_cluster : Text
  pub clients : ClientsConfig
  pub poll_interval : Duration
  pub discovery_refresh_interval : Duration
  pub debug_config : Bool

pub data ConfigError : Type 0 where
  required : Text → ConfigError
  must_be_positive : Text → ConfigError
  url_invalid : Text → ConfigError
  url_scheme url_host namespace_required : ConfigError

-- url.URL, as far as Validate reads it
pub record Url : Type 0 where
  pub scheme : Text
  pub host : Text

pub record UrlTools : Type 0 where
  -- url.Parse: the error's text, or the URL
  pub parse : Text → Result Text Url
  -- urlPasswordPattern.ReplaceAllString with the password replaced
  pub redact_secrets : Text → Text

-- newConfig
unfoldable pub new_config : Config
new_config = record {
  log = record { level = codes "info"; format = codes "json"; output = codes "stdout" };
  management_cluster = [];
  clients = record { redis = record { url = [] }; kubernetes = record { kube_config_path = [] } };
  poll_interval = pos 0;
  discovery_refresh_interval = pos 0;
  debug_config = false;
}

-- the checks of the parsed URL
unfoldable pub check_url : Url → Result ConfigError (Unit {0})
check_url u = do
  guard (u.scheme == codes "redis" || u.scheme == codes "rediss" || u.scheme == codes "unix")
      url_scheme
  guard (u.scheme == codes "unix" || not (u.host == [])) url_host

unfoldable pub check_log : LogConfig → Result ConfigError (Unit {0})
check_log l = do
  guard (not (l.level == [])) (required (codes "log.level"))
  guard (not (l.format == [])) (required (codes "log.format"))
  guard (not (l.output == [])) (required (codes "log.output"))

module _ (tools : UrlTools) where
  -- what url.Parse gives
  unfoldable pub parsed : Result Text Url → Result ConfigError Url
  parsed (err e) = err (url_invalid (tools.redact_secrets e))
  parsed (ok u) = ok u

  -- Validate
  unfoldable pub validate : Config → Result ConfigError (Unit {0})
  unfolding check_url check_log parsed
  validate c = do
    guard (not (c.management_cluster == [])) (required (codes "management_cluster"))
    guard (is_positive c.poll_interval) (must_be_positive (codes "poll_interval"))
    guard (is_positive c.discovery_refresh_interval)
        (must_be_positive (codes "discovery_refresh_interval"))
    redis_url ← parsed (tools.parse c.clients.redis.url)
    check_url redis_url
    check_log c.log

  -- Redacted
  unfoldable pub redacted : Config → Config
  redacted c = record c {
    clients = record c.clients {
      redis = record { url = tools.redact_secrets c.clients.redis.url };
    };
  }

-- resolveNamespace, with POD_NAMESPACE, the file's text and strings.TrimSpace
unfoldable pub resolve_namespace : (Text → Text) → Text → Option Text → Result ConfigError Text
resolve_namespace trim_space pod_namespace file =
    if not (pod_namespace == []) then ok pod_namespace else elim file [
      | none ↦ err namespace_required
      | some content ↦
          if not (trim_space content == []) then ok (trim_space content) else err namespace_required
    ]

-- what Validate accepts
abbrev IsAccepted : UrlTools → Config → Type 0
IsAccepted tools c =
    (c.management_cluster ≢ [])
    × (is_positive c.poll_interval ≡ true)
    × (is_positive c.discovery_refresh_interval ≡ true)
    × ((u : Url) × (tools.parse c.clients.redis.url ≡ ok u) × (check_url u ≡ ok tt))
    × (c.log.level ≢ [])
    × (c.log.format ≢ [])
    × (c.log.output ≢ [])

guard_ok : (b : Bool) (e : ConfigError) → guard b e ≡ ok tt → b ≡ true
guard_ok true e h = refl
guard_ok false e h = cc

then_ok : (a b : Result ConfigError (Unit {0})) → (a >> b) ≡ ok tt → (a ≡ ok tt) × (b ≡ ok tt)
then_ok (ok _) b h = (refl, h)
then_ok (err e) b h = cc

not_empty : (t : Text) → not (t == []) ≡ true → t ≢ []
not_empty t h e = ground (arith, text_eq_iff t [], h, e)

is_not_empty : (t : Text) → t ≢ [] → not (t == []) ≡ true
is_not_empty t n = ground (arith, text_eq_iff t [], n)

check_log_iff :
    (l : LogConfig) → (check_log l ≡ ok tt) ↔ ((l.level ≢ []) × (l.format ≢ []) × (l.output ≢ []))
unfolding check_log
check_log_iff l = (
  λ h.
      let (a, k) = then_ok (guard (not (l.level == [])) _) _ h in
      let (b, m) = then_ok (guard (not (l.format == [])) _) _ k in
      (
        not_empty l.level (guard_ok _ _ a),
        not_empty l.format (guard_ok _ _ b),
        not_empty l.output (guard_ok _ _ m),
      ),
  λ (a, b, m).
      rw (is_not_empty l.level a)
        (rw (is_not_empty l.format b) (rw (is_not_empty l.output m) refl)),
)

parsed_iff :
    (tools : UrlTools) (r : Result Text Url) (f : Url → Result ConfigError (Unit {0}))
    → ((parsed tools r >>= f) ≡ ok tt) ↔ ((u : Url) × (r ≡ ok u) × (f u ≡ ok tt))
unfolding parsed
parsed_iff tools (err e) f = (λ k. cc, λ (u, q, _). cc)
parsed_iff tools (ok v) f = (λ k. (v, refl, k), λ (u, q, k). ap f (ok_eq q) ∙ k)

-- Validate accepts a configuration exactly if the management cluster and the log settings are not empty,
-- both intervals are positive, and the Redis URL parses to one with a scheme that is known and, but for
-- unix sockets, a host.
validate_iff : (tools : UrlTools) (c : Config) → (validate tools c ≡ ok tt) ↔ IsAccepted tools c
unfolding validate
validate_iff tools c = (
  λ h.
      let (a, k) = then_ok (guard (not (c.management_cluster == [])) _) _ h in
      let (b, l) = then_ok (guard (is_positive c.poll_interval) _) _ k in
      let (d, m) = then_ok (guard (is_positive c.discovery_refresh_interval) _) _ l in
      let (u, q, n) = (parsed_iff tools (tools.parse c.clients.redis.url) _).0 m in
      let (x, y) = then_ok (check_url u) _ n in
      let (i, j, o) = (check_log_iff c.log).0 y in
      (
        not_empty c.management_cluster (guard_ok _ _ a),
        guard_ok _ _ b,
        guard_ok _ _ d,
        (u, q, x),
        i,
        j,
        o,
      ),
  λ (a, b, d, (u, q, x), i, j, o). rw (is_not_empty c.management_cluster a) (
      rw b (
        rw d (
          (parsed_iff tools (tools.parse c.clients.redis.url) _).1
            (u, q, rw x ((check_log_iff c.log).1 (i, j, o)))))),
)
