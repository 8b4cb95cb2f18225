-- ===== src/Reads/Applications.antt =====
-- dbreads/applications.go: `GetApp`.
use nebraska.Base.{String, none, some, List, [], ◌∷◌, ◌==◌}
use nebraska.Base.Exec.{ok, pure, ◌>>=◌, ◌>>◌}
use nebraska.Types.{Channel, Group}
use nebraska.Db.{Action, ChannelRow, GroupRow, GroupLocalRow, query, find, select}
use nebraska.Reads.Groups.{
  row_or_none, optional, get_package, with_package, group_channel, joined_group,
}

-- An application with its groups and channels.
pub record FullApplication : Type 0 where
  pub id : String
  pub groups : List Group
  pub channels : List Channel

-- The groups of an application, each joined with its local row.
unfoldable pub joined_groups : List GroupLocalRow → List GroupRow → List (GroupRow × GroupLocalRow)
joined_groups locals [] = []
joined_groups locals (g ∷ l) =
    let rest = joined_groups locals l in
    elim (find (λ x. x.group_id == g.id) locals) [ none ↦ rest | some x ↦ (g, x) ∷ rest ]

unfoldable pub load_groups : List (GroupRow × GroupLocalRow) → Action (List Group)
load_groups [] = pure []
load_groups (g ∷ l) = do
  c ← group_channel g.0.channel_id
  rest ← load_groups l
  pure (joined_group g.0 g.1 c ∷ rest)

unfoldable pub get_groups : String → Action (List Group)
unfolding joined_groups load_groups
get_groups app_id = do
  rows ←
      query
        (λ w. ok (joined_groups w.group_locals (select (λ g. g.application_id == app_id) w.groups)))
  load_groups rows

unfoldable pub load_channels : List ChannelRow → Action (List Channel)
load_channels [] = pure []
load_channels (c ∷ l) = do
  p ← optional (get_package c.package_id)
  rest ← load_channels l
  pure (with_package c p ∷ rest)

unfoldable pub get_channels : String → Action (List Channel)
unfolding load_channels
get_channels app_id = do
  rows ← query (λ w. ok (select (λ c. c.application_id == app_id) w.channels))
  load_channels rows

-- `GetApp`; its last statement counts the instances.
unfoldable pub get_app : String → Action FullApplication
unfolding get_groups get_channels
get_app app_id = do
  row ← query (λ w. row_or_none (find (λ a. a.id == app_id) w.applications))
  groups ← get_groups row.id
  channels ← get_channels row.id
  query (λ w. ok tt)
  pure (record { id = row.id; groups = groups; channels = channels })
