-- ===== src/Admin/Blacklists.antt =====
-- admin/packages.go: the channels that a package is kept from.
use nebraska.Base.{ℕ, String, Bool, false, some, List, [], ◌∷◌, ◌++◌, ◌==◌}
use nebraska.Base.{eqb, ltb, not, ◌&&◌, if◌then◌else◌}
use nebraska.Base.Exec.{ok, pure, raise, ◌>>=◌, ◌>>◌}
use nebraska.Types.{text, arch_mismatch, blacklisting_channel, blacklisting_floor, Channel}
use nebraska.Db.{World, Action, query, exec, select, count_where}
use nebraska.Reads.Groups.{get_channel}
use nebraska.Runtime.Updates.{contains}
use nebraska.Admin.Floors.{is_package_floor_for_channel}
use nebraska.Admin.Files.{of_package}

-- `checkMatchingArch`.
unfoldable pub check_matching_arch : List String → ℕ → Action Unit
check_matching_arch [] arch = pure tt
check_matching_arch (k ∷ ks) arch = do
  n ←
      query
        (λ w. ok (count_where (λ c. contains (k ∷ ks) c.id && not (eqb c.arch arch)) w.channels))
  if ltb 0 n then raise arch_mismatch else pure tt

unfoldable pub insert_listing : String → String → World → World
insert_listing package_id channel_id =
    of_package package_id
      (λ p. record p { channels_blacklist = p.channels_blacklist ++ channel_id ∷ [] })

unfoldable pub delete_listing : String → String → World → World
delete_listing package_id channel_id = of_package package_id (λ p. record p {
  channels_blacklist = select (λ k. not (k == channel_id)) p.channels_blacklist;
})

unfoldable pub insert_listings : String → List String → Action Unit
unfolding insert_listing
insert_listings package_id [] = pure tt
insert_listings package_id (k ∷ ks) = do
  exec (λ w. some (insert_listing package_id k w))
  insert_listings package_id ks

-- A channel that is to be listed: it does not point to the package, nor is that a floor of it.
unfoldable pub check_listing : String → Channel → Bool → Action Unit
check_listing package_id c is_floor =
    if text c.package_id == package_id
    then raise blacklisting_channel
    else if is_floor
    then raise blacklisting_floor
    else pure tt

-- The floors are asked for only if the channel points elsewhere.
unfoldable pub list_channel : String → String → Action Unit
unfolding check_listing insert_listing
list_channel package_id channel_id = do
  c ← get_channel channel_id
  check_listing package_id c false
  is_floor ← is_package_floor_for_channel package_id channel_id
  check_listing package_id c is_floor
  exec (λ w. some (insert_listing package_id channel_id w))

-- The loop over the new blacklist. As a Go map, it holds each channel once.
unfoldable pub list_channels : String → List String → List String → Action Unit
unfolding list_channel
list_channels package_id done [] = pure tt
list_channels package_id done (k ∷ ks) =
    if contains done k
    then list_channels package_id done ks
    else (do list_channel package_id k; list_channels package_id (k ∷ done) ks)

unfoldable pub unlist_channels : String → List String → List String → Action Unit
unfolding delete_listing
unlist_channels package_id kept [] = pure tt
unlist_channels package_id kept (k ∷ ks) =
    if contains kept k
    then unlist_channels package_id kept ks
    else (do exec (λ w. some (delete_listing package_id k w)); unlist_channels package_id kept ks)

-- `updatePackageBlacklistedChannels`, from the new list and the old one.
unfoldable pub update_package_blacklisted_channels :
    String → List String → List String → Action Unit
unfolding list_channels unlist_channels
update_package_blacklisted_channels package_id new old = do
  list_channels package_id old new
  unlist_channels package_id new old
