-- ===== src/Reads/Lookups.antt =====
-- dbreads/applications.go and groups.go: the ids that a client's texts stand for, with the
-- caches of the process. A Go map is the list of its writes, the
-- newest first. One request at a time fills a cache, as the locks have it.
pub mod Laws
use nebraska.Base.{ℕ, String, Bool, true, false, Option, none, some, List, [], ◌∷◌, ◌==◌, eqb, ltb}
use nebraska.Base.{◌&&◌, if◌then◌else◌}
use nebraska.Base.Exec.{Result, ok, err, pure, gets, ◌>>=◌, ◌>>◌}
use nebraska.Base.Texts.{trim_space, starts_with, ends_with, drop_first, drop_last, text_length}
use nebraska.Types.{unnamed, GroupDescriptor, Channel, FlatcarAction}
use nebraska.Db.{World, Action, ApplicationRow, GroupRow, query, or_raise, try, assign, find}
use nebraska.Reads.Outside.{Outside}
use nebraska.Reads.Groups.{row_or_none, group_channel}

-- '{' and '}'
abbrev opening : ℕ
opening = 123

abbrev closing : ℕ
closing = 125

unfoldable pub app_id_no_brackets : String → String
app_id_no_brackets given =
    let s = trim_space given in
    if ltb 2 (text_length s) && starts_with opening s && ends_with closing s
    then trim_space (drop_first (drop_last s))
    else s

-- The other function takes the last character for the bracket. Go drops its last byte; a text that
-- ends in a character of several bytes is no id before or after that.
unfoldable pub group_app_id_no_brackets : String → String
group_app_id_no_brackets given =
    let s = trim_space given in
    if ltb 1 (text_length s) && starts_with opening s
    then trim_space (drop_first (drop_last s))
    else s

-- A map with texts for keys.
unfoldable pub lookup_id : String → List (String × String) → Option String
lookup_id k [] = none
lookup_id k (e ∷ l) = if e.0 == k then some e.1 else lookup_id k l

unfoldable pub same_descriptor : GroupDescriptor → GroupDescriptor → Bool
same_descriptor d e = d.app_id == e.app_id && (d.track == e.track && eqb d.arch e.arch)

unfoldable pub lookup_group : GroupDescriptor → List (GroupDescriptor × String) → Option String
unfolding same_descriptor
lookup_group d [] = none
lookup_group d (e ∷ l) = if same_descriptor e.0 d then some e.1 else lookup_group d l

-- `getGroupsFromQuery`: each group with its channel.
unfoldable pub with_channels : List GroupRow → Action (List (GroupRow × Option Channel))
with_channels [] = pure []
with_channels (g ∷ l) = do
  c ← group_channel g.channel_id
  rest ← with_channels l
  pure ((g, c) ∷ rest)

unfoldable pub get_all_groups : Action (List (GroupRow × Option Channel))
get_all_groups = do rows ← query (λ w. ok w.groups); with_channels rows

abbrev pub descriptor_of : GroupRow → Channel → GroupDescriptor
descriptor_of g c = record { app_id = g.application_id; track = g.track; arch = c.arch }

-- The writes for the groups that have a channel.
unfoldable pub add_groups :
    List (GroupDescriptor × String)
    → List (GroupRow × Option Channel)
    → List (GroupDescriptor × String)
add_groups m [] = m
add_groups m ((g, none) ∷ l) = add_groups m l
add_groups m ((g, some c) ∷ l) = add_groups ((descriptor_of g c, g.id) ∷ m) l

-- The cache of a list of groups that may not have been read.
unfoldable pub groups_cache :
    {E : Type 0} → Result E (List (GroupRow × Option Channel)) → List (GroupDescriptor × String)
unfolding add_groups
groups_cache (ok l) = add_groups [] l
groups_cache (err e) = []

abbrev pub put_groups : List (GroupDescriptor × String) → World → World
put_groups m w = record w { cached_groups = some m }

unfoldable pub groups_or_fill :
    Option (List (GroupDescriptor × String)) → Action (List (GroupDescriptor × String))
groups_or_fill (some m) = pure m
groups_or_fill none = do
  r ← try get_all_groups
  assign (put_groups (groups_cache r))
  pure (groups_cache r)

-- `GetGroupID`.
unfoldable pub get_group_id : String → String → ℕ → Action String
get_group_id app_id track arch = do
  cached ← gets (λ w. w.cached_groups)
  m ← groups_or_fill cached
  or_raise unnamed (
      lookup_group (record { app_id = group_app_id_no_brackets app_id; track = track; arch = arch })
        m)

-- `UpdateCachedGroups` and `ClearCachedAppIDs`.
unfoldable pub update_cached_groups : Action Unit
update_cached_groups = assign λ w. record w { cached_groups = none }

unfoldable pub clear_cached_app_ids : Action Unit
clear_cached_app_ids = assign λ w. record w { cached_app_ids = none }

module _ (o : Outside) where
  -- The writes for one application: its product id in lower case, and its id.
  unfoldable pub add_app : List (String × String) → ApplicationRow → List (String × String)
  add_app m a = elim a.product_id [
    | none ↦ (a.id, a.id) ∷ m
    | some p ↦ (a.id, a.id) ∷ (o.to_lower p, a.id) ∷ m
  ]

  unfoldable pub add_apps : List (String × String) → List ApplicationRow → List (String × String)
  unfolding add_app
  add_apps m [] = m
  add_apps m (a ∷ l) = add_apps (add_app m a) l

  unfoldable pub apps_cache : {E : Type 0} → Result E (List ApplicationRow) → List (String × String)
  unfolding add_apps
  apps_cache (ok l) = add_apps [] l
  apps_cache (err e) = []

  abbrev pub put_apps : List (String × String) → World → World
  put_apps m w = record w { cached_app_ids = some m }

  unfoldable pub apps_or_fill : Option (List (String × String)) → Action (List (String × String))
  apps_or_fill (some m) = pure m
  apps_or_fill none = do
    r ← try (query (λ w. ok w.applications))
    assign (put_apps (apps_cache r))
    pure (apps_cache r)

  -- `GetAppID`.
  unfoldable pub get_app_id : String → Action String
  get_app_id app_or_product_id = do
    cached ← gets (λ w. w.cached_app_ids)
    m ← apps_or_fill cached
    or_raise unnamed (lookup_id (o.to_lower (app_id_no_brackets app_or_product_id)) m)
