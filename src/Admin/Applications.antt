-- ===== src/Admin/Applications.antt =====
-- admin/applications.go.
use nebraska.Base.{String, Bool, true, Option, none, some, List, [], ◌∷◌, ◌++◌, ◌==◌}
use nebraska.Base.{ltb, map, not, ◌&&◌, if◌then◌else◌}
use nebraska.Base.Exec.{Result, ok, err, pure, raise, gets, ◌>>=◌, ◌>>◌}
use nebraska.Base.Dict.{Dict, lookup, insert}
use nebraska.Types.{Error, text, unnamed, Channel, Group, Package}
use nebraska.Db.{World, Action, exec, try, update_where, select, count_where}
use nebraska.Reads.Outside.{Outside}
use nebraska.Reads.Lookups.{clear_cached_app_ids}
use nebraska.Admin.Rows.{Generators, exec_some}
use nebraska.Admin.Channels.{add_channel}
use nebraska.Admin.Groups.{add_group}
use nebraska.Reads.Applications.{FullApplication, get_app}
use nebraska.Admin.ProductIds.{validate_product_id}

-- What the foreign keys take away with an application.
abbrev of_app : String → World → String → Bool
of_app id w package_id =
    ltb 0 (count_where (λ p. p.id == package_id && p.application_id == id) w.packages)

abbrev channel_of_app : String → World → String → Bool
channel_of_app id w channel_id =
    ltb 0 (count_where (λ c. c.id == channel_id && c.application_id == id) w.channels)

abbrev group_of_app : String → World → String → Bool
group_of_app id w group_id =
    ltb 0 (count_where (λ g. g.id == group_id && g.application_id == id) w.groups)

unfoldable pub without_app : String → World → World
without_app id w = record w {
  applications = select (λ a. not (a.id == id)) w.applications;
  groups =
      update_where (λ g. channel_of_app id w (text g.channel_id))
        (λ g. record g { channel_id = none }) (select (λ g. not (g.application_id == id)) w.groups);
  group_locals = select (λ l. not (group_of_app id w l.group_id)) w.group_locals;
  channels =
      update_where (λ c. of_app id w (text c.package_id)) (λ c. record c { package_id = none })
        (select (λ c. not (c.application_id == id)) w.channels);
  packages =
      map {A = Package}
        (λ p. record p {
          channels_blacklist = select (λ k. not (channel_of_app id w k)) p.channels_blacklist;
        })
        (select (λ p. not (p.application_id == id)) w.packages);
  flatcar_actions = select (λ a. not (of_app id w a.package_id)) w.flatcar_actions;
  floors =
      select (λ f. not (channel_of_app id w f.channel_id) && not (of_app id w f.package_id))
        w.floors;
  instance_apps =
      update_where (λ a. group_of_app id w (text a.group_id)) (λ a. record a { group_id = none })
        (select (λ a. not (a.application_id == id)) w.instance_apps);
  history =
      select (λ h. not (h.application_id == id) && not (group_of_app id w (text h.group_id)))
        w.history;
  events = select (λ e. not (e.application_id == id)) w.events;
  activities =
      select (λ a. not (a.application_id == id) && not (group_of_app id w (text a.group_id)))
        w.activities;
  admin_activities =
      select (λ a. not (a.application_id == id) && not (channel_of_app id w a.channel_id))
        w.admin_activities;
}

-- `DeleteApp`.
unfoldable pub delete_app : String → Action Unit
delete_app id = do
  exec_some (λ w. (count_where (λ a. a.id == id) w.applications, without_app id w))
  clear_cached_app_ids

-- `UpdateApp`.
unfoldable pub update_app : String → Option String → Action Unit
update_app id product_id = if not (validate_product_id product_id) then raise unnamed else (do
  exec_some (λ w. (
    count_where (λ a. a.id == id) w.applications,
    record w {
      applications =
          update_where (λ a. a.id == id) (λ a. record a { product_id = product_id }) w.applications;
    },
  ))
  clear_cached_app_ids)

-- A loop that ends at the first error.
unfoldable pub stop_or_go : {A : Type 0} → Result Error A → (A → Action Unit) → Action Unit
stop_or_go (ok a) f = f a
stop_or_go (err e) f = pure tt

module _ (o : Outside) (gen : Generators) where
  -- `AddApp`.
  unfoldable pub add_app : Option String → Action String
  add_app product_id = if not (validate_product_id product_id) then raise unnamed else (do
    id ← gets gen.row_id
    exec (λ w. some (record w {
      applications = w.applications ++ record { id = id; product_id = product_id } ∷ [];
    }))
    clear_cached_app_ids
    pure id)

  -- The channels of the new application, with no package; then what follows, with the new ids.
  unfoldable pub clone_channels :
      String → Dict String → List Channel → (Dict String → Action Unit) → Action Unit
  unfolding stop_or_go
  clone_channels app_id ids [] f = f ids
  clone_channels app_id ids (c ∷ l) f = do
    r ← try (add_channel gen (record c { application_id = app_id; package_id = none }))
    stop_or_go r (λ new_id. clone_channels app_id (insert c.id new_id ids) l f)

  -- A group for the new application, on the clone of its channel.
  unfoldable pub cloned_group : String → Dict String → Group → Group
  cloned_group app_id ids g = record g {
    id = "";
    application_id = app_id;
    channel_id = if text g.channel_id == "" then g.channel_id else lookup (text g.channel_id) ids;
    policy = record g.policy { updates_enabled = true };
  }

  unfoldable pub clone_groups : String → Dict String → List Group → Action Unit → Action Unit
  unfolding stop_or_go cloned_group
  clone_groups app_id ids [] rest = rest
  clone_groups app_id ids (g ∷ l) rest = do
    r ← try (add_group o gen (cloned_group app_id ids g))
    stop_or_go r (λ added. clone_groups app_id ids l rest)

  -- A failure after the application is added is only logged; it also leaves the cache alone.
  unfoldable pub clone_from : String → Result Error FullApplication → Action Unit
  unfolding clone_channels clone_groups stop_or_go
  clone_from app_id source = stop_or_go source (λ src.
      clone_channels app_id [] src.channels
        (λ ids. clone_groups app_id ids src.groups clear_cached_app_ids))

  -- `AddAppCloning`.
  unfoldable pub add_app_cloning : Option String → String → Action String
  unfolding add_app clone_from
  add_app_cloning product_id source_app_id = do
    id ← add_app product_id
    if source_app_id == ""
        then clear_cached_app_ids
        else (do source ← try (get_app source_app_id); clone_from id source)
    pure id
