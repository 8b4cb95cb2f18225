-- ===== src/Admin/Groups.antt =====
-- admin/groups.go.
use nebraska.Base.{ℕ, String, Bool, true, false, Option, none, some, [], ◌∷◌, ◌++◌, ◌==◌}
use nebraska.Base.{not, ◌&&◌, if◌then◌else◌}
use nebraska.Base.Exec.{pure, raise, gets, ◌>>=◌, ◌>>◌}
use nebraska.Types.{text, expecting_valid_timezone, invalid_channel, Group, GroupPolicy}
use nebraska.Db.{World, Action, exec, update_where, select, count_where}
use nebraska.Reads.Outside.{Outside}
use nebraska.Reads.Groups.{get_channel, get_group}
use nebraska.Reads.Lookups.{update_cached_groups}
use nebraska.Runtime.Instances.{upsert}
use nebraska.Admin.Rows.{Generators, exec_some}

-- `validateChannel`.
unfoldable pub validate_channel : String → String → Action Unit
validate_channel channel_id app_id = do
  c ← get_channel channel_id
  if not (c.application_id == app_id) then raise invalid_channel else pure tt

unfoldable pub validate_channel_of : Option String → String → Action Unit
unfolding validate_channel
validate_channel_of channel_id app_id =
    if text channel_id == "" then pure tt else validate_channel (text channel_id) app_id

abbrev pub or_text : String → String → String
or_text s d = if s == "" then d else s

-- The row of a group. A trigger adds its row of group_local, unless there is one.
unfoldable pub add_group_row : String → String → Group → World → World
add_group_row id track g w = record w {
  groups =
      w.groups
      ++ (record {
        id = id;
        application_id = g.application_id;
        channel_id = g.channel_id;
        track = track;
        policy = g.policy;
      }
          ∷ []);
  group_locals =
      upsert (λ l. l.group_id == id) (λ l. l)
        (record {
          group_id = id;
          rollout_in_progress = false;
          overrides = record {
            updates_enabled = none;
            safe_mode = none;
            office_hours = none;
            timezone = none;
            period_interval = none;
            max_updates_per_period = none;
            update_timeout = none;
          };
        })
        w.group_locals;
}

unfoldable pub update_group_row : Group → String → World → ℕ × World
update_group_row g track w = (
  count_where (λ r. r.id == g.id) w.groups,
  record w {
    groups =
        update_where (λ r. r.id == g.id)
          (λ r. record r { channel_id = g.channel_id; track = track; policy = g.policy }) w.groups;
  },
)

-- With a group go its local row, its activity and its history; instances lose it.
unfoldable pub without_group : String → World → World
without_group id w = record w {
  groups = select (λ g. not (g.id == id)) w.groups;
  group_locals = select (λ l. not (l.group_id == id)) w.group_locals;
  activities = select (λ a. not (text a.group_id == id)) w.activities;
  history = select (λ h. not (text h.group_id == id)) w.history;
  instance_apps =
      update_where (λ a. text a.group_id == id) (λ a. record a { group_id = none }) w.instance_apps;
}

-- `DeleteGroup`.
unfoldable pub delete_group : String → Action Unit
delete_group id = do
  exec_some (λ w. (count_where (λ g. g.id == id) w.groups, without_group id w))
  update_cached_groups

module _ (o : Outside) (gen : Generators) where
  -- `isTimezoneValid`.
  unfoldable pub is_timezone_valid : String → World → Bool
  is_timezone_valid tz w =
      not (tz == "") && elim (o.local_time tz w.now) [ none ↦ false | some t ↦ true ]

  -- Office hours need a time zone.
  unfoldable pub check_timezone : GroupPolicy → Action Unit
  unfolding is_timezone_valid
  check_timezone p = do
    valid ← gets (is_timezone_valid (text p.timezone))
    if p.office_hours && not valid then raise expecting_valid_timezone else pure tt

  -- `AddGroup`; a group without a track has its id for one.
  unfoldable pub add_group : Group → Action Group
  unfolding check_timezone validate_channel_of
  add_group g = do
    check_timezone g.policy
    validate_channel_of g.channel_id g.application_id
    drawn ← gets gen.new_uuid
    let id = or_text g.id drawn
    exec (λ w. some (add_group_row id (or_text g.track id) g w))
    update_cached_groups
    get_group id

  -- `UpdateGroup`.
  unfoldable pub update_group : Group → Action Unit
  unfolding check_timezone validate_channel_of
  update_group g = do
    check_timezone g.policy
    before ← get_group g.id
    validate_channel_of g.channel_id before.application_id
    exec_some (update_group_row g (or_text g.track g.id))
    update_cached_groups
