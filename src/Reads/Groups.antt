-- ===== src/Reads/Groups.antt =====
-- dbreads/packages.go, channels.go and groups.go: `GetPackage`, `GetChannel` and `GetGroup`.
use nebraska.Base.{String, false, Option, none, some, ◌==◌, if◌then◌else◌}
use nebraska.Base.Exec.{Result, ok, err, pure, ◌>>=◌, ◌>>◌}
use nebraska.Types.{
  Error, no_rows, text, Package, Channel, Group, FlatcarAction, GroupPolicy, GroupPolicyOverrides,
}
use nebraska.Db.{World, Action, GroupRow, GroupLocalRow, ChannelRow, query, find}

-- One row, or sql.ErrNoRows.
abbrev pub row_or_none : {A : Type 0} → Option A → Result Error A
row_or_none none = err no_rows
row_or_none (some a) = ok a

-- A lookup that tells a missing row (nil) from a failure.
unfoldable pub optional : {A : Type 0} → Action A → Action (Option A)
optional m w =
    let (r, w') = m w in
    elim r [ ok a ↦ (ok (some a), w') | err no_rows ↦ (ok none, w') | err e ↦ (err e, w') ]

-- `GetFlatcarAction`.
unfoldable pub get_flatcar_action : String → Action FlatcarAction
get_flatcar_action package_id =
    query (λ w. row_or_none (find (λ a. a.package_id == package_id) w.flatcar_actions))

-- Only the floor queries fill the floor fields.
abbrev pub plain : Package → Option FlatcarAction → Package
plain p a = record p { flatcar_action = a; is_floor = false; floor_reason = none }

-- `getPackage`: the package, its action and its extra files, each by a statement of its own. No
-- package has the id NULL.
unfoldable pub get_package : Option String → Action Package
get_package package_id = do
  p ← query (λ w.
      row_or_none (elim package_id [ none ↦ none | some id ↦ find (λ p. p.id == id) w.packages ]))
  a ← optional (get_flatcar_action p.id)
  query (λ w. ok tt)
  pure (plain p a)

abbrev pub with_package : ChannelRow → Option Package → Channel
with_package row p = record {
  id = row.id;
  name = row.name;
  application_id = row.application_id;
  package_id = row.package_id;
  pkg = p;
  arch = row.arch;
}

-- `GetChannel`.
unfoldable pub get_channel : String → Action Channel
get_channel channel_id = do
  row ← query (λ w. row_or_none (find (λ c. c.id == channel_id) w.channels))
  p ← optional (get_package row.package_id)
  pure (with_package row p)

abbrev pub or_default {ℓ} : {A : Type ℓ} → Option A → A → A
or_default none d = d
or_default (some a) d = a

-- COALESCE(override, default) for each setting.
unfoldable pub effective_policy : GroupPolicy → GroupPolicyOverrides → GroupPolicy
effective_policy p o = record {
  updates_enabled = or_default o.updates_enabled p.updates_enabled;
  safe_mode = or_default o.safe_mode p.safe_mode;
  office_hours = or_default o.office_hours p.office_hours;
  timezone = elim o.timezone [ none ↦ p.timezone | some z ↦ some z ];
  period_interval = or_default o.period_interval p.period_interval;
  max_updates_per_period = or_default o.max_updates_per_period p.max_updates_per_period;
  update_timeout = or_default o.update_timeout p.update_timeout;
}

-- A row of `groupsQuery`, the inner join of groups and group_local.
unfoldable pub joined_group : GroupRow → GroupLocalRow → Option Channel → Group
unfolding effective_policy
joined_group g l c = record {
  id = g.id;
  application_id = g.application_id;
  channel_id = g.channel_id;
  rollout_in_progress = l.rollout_in_progress;
  policy = effective_policy g.policy l.overrides;
  channel = c;
  track = g.track;
  admin_policy = g.policy;
  local_overrides = l.overrides;
}

-- Ids are in the spelling of PostgreSQL, as the other parts hand them on, so texts are compared.
unfoldable pub group_rows : String → World → Option (GroupRow × GroupLocalRow)
group_rows group_id w = elim (find (λ g. g.id == group_id) w.groups) [
  | none ↦ none
  | some g ↦ elim (find (λ l. l.group_id == group_id) w.group_locals) [
    | none ↦ none
    | some l ↦ some (g, l)
  ]
]

-- The channel of a group: nil where the group names none or it does not exist.
unfoldable pub group_channel : Option String → Action (Option Channel)
group_channel channel_id =
    if text channel_id == "" then pure none else optional (get_channel (text channel_id))

-- `GetGroup`.
unfoldable pub get_group : String → Action Group
get_group group_id = do
  rows ← query (λ w. row_or_none (group_rows group_id w))
  c ← group_channel rows.0.channel_id
  pure (joined_group rows.0 rows.1 c)
