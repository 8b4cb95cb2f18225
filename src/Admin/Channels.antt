-- ===== src/Admin/Channels.antt =====
-- admin/channels.go and admin/activity.go.
use nebraska.Base.{ℕ, String, Option, none, some, [], ◌∷◌, ◌++◌, ◌==◌}
use nebraska.Base.{eqb, not, if◌then◌else◌}
use nebraska.Base.Exec.{pure, raise, gets, ◌>>=◌, ◌>>◌}
use nebraska.Types.{
  text, invalid_arch, invalid_package, arch_mismatch, blacklisted_channel, Channel, Package,
  activity_channel_package_updated, activity_info,
}
use nebraska.Types.Arch.{is_valid}
use nebraska.Db.{World, Action, exec, attempt, update_where, select, count_where}
use nebraska.Reads.Groups.{get_package, get_channel}
use nebraska.Runtime.Updates.{contains}
use nebraska.Admin.Rows.{Generators, exec_some}

-- `newChannelActivityEntry`.
unfoldable pub new_channel_activity_entry : ℕ → ℕ → String → String → String → Action Unit
new_channel_activity_entry class severity version app_id channel_id = exec λ w. some (record w {
  admin_activities =
      record {
        class = class;
        severity = severity;
        version = version;
        application_id = app_id;
        channel_id = channel_id;
      }
      ∷ w.admin_activities;
})

-- The checks of `validatePackage`, in their order.
unfoldable pub check_package : String → String → ℕ → Package → Action Package
check_package channel_id app_id channel_arch p =
    if not (p.application_id == app_id)
    then raise invalid_package
    else if not (eqb p.arch channel_arch)
    then raise arch_mismatch
    else if contains p.channels_blacklist channel_id
    then raise blacklisted_channel
    else pure p

-- `validatePackage`.
unfoldable pub validate_package : String → String → String → ℕ → Action Package
validate_package package_id channel_id app_id channel_arch = do
  p ← get_package (some package_id)
  check_package channel_id app_id channel_arch p

-- A channel that names a package names a valid one.
unfoldable pub validated : Option String → String → String → ℕ → Action (Option Package)
validated package_id channel_id app_id channel_arch =
    if text package_id == ""
    then pure none
    else (do p ← validate_package (text package_id) channel_id app_id channel_arch; pure (some p))

-- The uuid column has no empty text: a package id is NULL or names a package.
unfoldable pub add_channel_row : String → Channel → World → World
add_channel_row id c w = record w {
  channels =
      w.channels
      ++ (record {
        id = id;
        name = c.name;
        application_id = c.application_id;
        package_id = c.package_id;
        arch = c.arch;
      }
          ∷ []);
}

-- `AddChannel`: the new id comes back.
unfoldable pub add_channel : Generators → Channel → Action String
add_channel gen c = if not (is_valid c.arch) then raise invalid_arch else (do
  valid ← validated c.package_id c.id c.application_id c.arch
  id ← gets gen.row_id
  exec (λ w. some (add_channel_row id c w))
  pure id)

unfoldable pub update_channel_row : Channel → World → ℕ × World
update_channel_row c w = (
  count_where (λ r. r.id == c.id) w.channels,
  record w {
    channels =
        update_where (λ r. r.id == c.id)
          (λ r. record r { name = c.name; package_id = c.package_id }) w.channels;
  },
)

-- The activity of a channel that points to another package.
unfoldable pub channel_moved : Channel → Channel → Option Package → Action Unit
channel_moved before c none = pure tt
channel_moved before c (some p) =
    if text before.package_id == text c.package_id
    then pure tt
    else attempt (
        new_channel_activity_entry activity_channel_package_updated activity_info p.version
          p.application_id c.id)

-- `UpdateChannel`.
unfoldable pub update_channel : Channel → Action Unit
update_channel c = do
  before ← get_channel c.id
  p ← validated c.package_id c.id before.application_id before.arch
  exec_some (update_channel_row c)
  channel_moved before c p

-- With a channel go its floors, its activity and its blacklist entries; groups lose it.
unfoldable pub without_channel : String → World → World
without_channel id w = record w {
  channels = select (λ c. not (c.id == id)) w.channels;
  groups =
      update_where (λ g. text g.channel_id == id) (λ g. record g { channel_id = none }) w.groups;
  floors = select (λ f. not (f.channel_id == id)) w.floors;
  admin_activities = select (λ a. not (a.channel_id == id)) w.admin_activities;
  packages =
      update_where (λ p. contains p.channels_blacklist id)
        (λ p. record p { channels_blacklist = select (λ k. not (k == id)) p.channels_blacklist })
        w.packages;
}

-- `DeleteChannel`.
unfoldable pub delete_channel : String → Action Unit
delete_channel id = exec_some λ w. (count_where (λ c. c.id == id) w.channels, without_channel id w)
