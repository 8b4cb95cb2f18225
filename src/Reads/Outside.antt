-- ===== src/Reads/Outside.antt =====
-- What the backend uses of code outside the repository: the semver and uuid packages, PostgreSQL's
-- readings of texts, the time zone database, and the configuration.
use nebraska.Base.{ℕ, String, Bool, Option, none, some, List}

pub record Outside : Type 1 where
  -- blang/semver: `Make` (none for its error), the zero Version, and `LT`
  pub Version : Type 0
  pub make : String → Option Version
  pub zero_version : Version
  pub lt : Version → Version → Bool
  -- google/uuid: `Parse` followed by `String`
  pub uuid_parse : String → Option String
  -- the texts that PostgreSQL accepts for a uuid column
  pub is_sql_uuid : String → Bool
  -- strings.ToLower, by the tables of Unicode
  pub to_lower : String → String
  -- `interval '…'` in seconds
  pub interval : String → ℕ
  -- `string_to_array((regexp_split_to_array(v, '[+-]'))[1], '.')::int[]`, none where the cast fails
  pub int_array : String → Option (List ℕ)
  -- LIKE '{________-____-____-____-____________}'
  pub is_fake : String → Bool
  -- `time.LoadLocation`, and the weekday (Sunday is 0) and hour there at a time
  pub local_time : String → ℕ → Option (ℕ × ℕ)
  -- NEBRASKA_MAX_FLOORS_PER_RESPONSE, 0 where it is not set
  pub max_floors_per_response : ℕ
  -- Config.DisableUpdatesOnFailedRollout
  pub disable_updates_on_failed_rollout : Bool

module _ (o : Outside) where
  -- `v, _ := semver.Make(s)`: the zero version where the text is no version.
  abbrev pub version_of : String → o.Version
  version_of s = elim (o.make s) [ none ↦ o.zero_version | some v ↦ v ]

  -- `instanceSemver.LT(packageSemver)` for two texts.
  unfoldable pub semver_lt : String → String → Bool
  semver_lt a b = o.lt (version_of a) (version_of b)

  -- `IsValidSemver`.
  unfoldable pub is_valid_semver : String → Bool
  is_valid_semver s = elim (o.make s) [ none ↦ Bool.false | some v ↦ Bool.true ]
