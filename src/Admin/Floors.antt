-- ===== src/Admin/Floors.antt =====
-- admin/packages_floors.go.
use nebraska.Base.{ℕ, String, Bool, true, false, Option, none, some, ◌==◌}
use nebraska.Base.{eqb, ltb, not, ◌&&◌, if◌then◌else◌}
use nebraska.Base.Exec.{ok, pure, raise, ◌>>=◌, ◌>>◌}
use nebraska.Types.{
  invalid_package, arch_mismatch, invalid_application_or_group, package_blacklisted, Package,
}
use nebraska.Db.{World, Action, ChannelRow, FloorRow, query, exec, find, select, count_where}
use nebraska.Reads.Groups.{row_or_none, optional}
use nebraska.Runtime.Instances.{upsert}
use nebraska.Runtime.Updates.{contains}
use nebraska.Admin.Rows.{exec_some}

abbrev pub is_floor_row : String → String → FloorRow → Bool
is_floor_row channel_id package_id f = f.channel_id == channel_id && f.package_id == package_id

-- The row of the cross join, by the two primary keys.
abbrev pub both : Option ChannelRow → Option Package → Option (ChannelRow × Package)
both none p = none
both (some c) none = none
both (some c) (some p) = some (c, p)

unfoldable pub channel_with_package : String → String → World → Option (ChannelRow × Package)
channel_with_package channel_id package_id w =
    both (find (λ c. c.id == channel_id) w.channels) (find (λ p. p.id == package_id) w.packages)

-- How many rows the query counts: the primary key allows for one.
abbrev pub listings_of : String → Option Package → ℕ
listings_of channel_id none = 0
listings_of channel_id (some p) = if contains p.channels_blacklist channel_id then 1 else 0

unfoldable pub listings : String → String → World → ℕ
listings package_id channel_id w =
    listings_of channel_id (find (λ p. p.id == package_id) w.packages)

-- `isPackageBlacklistedForChannel`.
unfoldable pub is_package_blacklisted_for_channel : String → String → Action Bool
unfolding listings
is_package_blacklisted_for_channel package_id channel_id = do
  n ← query (λ w. ok (listings package_id channel_id w))
  pure (ltb 0 n)

-- `isPackageFloorForChannel`.
unfoldable pub is_package_floor_for_channel : String → String → Action Bool
is_package_floor_for_channel package_id channel_id = do
  n ← query (λ w. ok (count_where (is_floor_row channel_id package_id) w.floors))
  pure (ltb 0 n)

unfoldable pub put_floor : String → String → Option String → World → World
put_floor channel_id package_id reason w = record w {
  floors =
      upsert (is_floor_row channel_id package_id) (λ f. record f { floor_reason = reason })
        (record { channel_id = channel_id; package_id = package_id; floor_reason = reason })
        w.floors;
}

-- The checks of `AddChannelPackageFloor` on what the query returned.
unfoldable pub check_floor : Option (ChannelRow × Package) → Action Unit
check_floor none = raise invalid_package
check_floor (some (c, p)) =
    if not (eqb c.arch p.arch)
    then raise arch_mismatch
    else if not (c.application_id == p.application_id)
    then raise invalid_application_or_group
    else pure tt

unfoldable pub insert_floor : String → String → Option String → Bool → Action Unit
insert_floor channel_id package_id reason true = raise package_blacklisted
insert_floor channel_id package_id reason false =
    exec (λ w. some (put_floor channel_id package_id reason w))

-- `AddChannelPackageFloor`.
unfoldable pub add_channel_package_floor : String → String → Option String → Action Unit
add_channel_package_floor channel_id package_id reason = do
  found ← optional (query (λ w. row_or_none (channel_with_package channel_id package_id w)))
  check_floor found
  listed ← is_package_blacklisted_for_channel package_id channel_id
  insert_floor channel_id package_id reason listed

-- `RemoveChannelPackageFloor`.
unfoldable pub remove_channel_package_floor : String → String → Action Unit
remove_channel_package_floor channel_id package_id = exec_some λ w. (
  count_where (is_floor_row channel_id package_id) w.floors,
  record w { floors = select (λ f. not (is_floor_row channel_id package_id f)) w.floors },
)
