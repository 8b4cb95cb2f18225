-- ===== src/Admin/Consistent/Service.antt =====
-- The admin service over time: edits one after another, while statements fail as they may.
use nebraska.Base.{String, Bool, Option, List, [], ◌∷◌}
use nebraska.Base.Exec.{Result, ok, err}
use nebraska.Types.{Package, Channel}
use nebraska.Db.{World, Action}
use nebraska.Db.Keeps.{quiet}
use nebraska.Db.Runs.{Post}
use nebraska.Reads.Outside.{Outside}
use nebraska.Admin.Rows.{Generators}
use nebraska.Admin.Channels.{update_channel, delete_channel}
use nebraska.Admin.Floors.{add_channel_package_floor, remove_channel_package_floor}
use nebraska.Admin.Packages.{update_package, delete_package}
use nebraska.Admin.Consistent.{Consistent}
use nebraska.Admin.Consistent.Edits.{
  Kept, update_channel-Runs, delete_channel-Runs, remove_floor-Runs,
}
use nebraska.Admin.Consistent.Floors.{add_floor-Runs}
use nebraska.Admin.Consistent.Packages.{update_package-Runs, delete_package-Runs}

-- The calls that edit channels, floors and packages.
pub data Edit : Type 0 where
  channel_updated : Channel → Edit
  channel_deleted : String → Edit
  floor_added : String → String → Option String → Edit
  floor_removed : String → String → Edit
  package_updated : Package → Option (List (String × String)) → Edit
  package_deleted : String → Edit

module _ (o : Outside) (gen : Generators) where
  unfoldable pub perform : Edit → Action Unit
  perform (channel_updated c) = update_channel c
  perform (channel_deleted i) = delete_channel i
  perform (floor_added c p reason) = add_channel_package_floor c p reason
  perform (floor_removed c p) = remove_channel_package_floor c p
  perform (package_updated p labels) = update_package o gen p labels
  perform (package_deleted i) = delete_package i

  -- Each edit comes with the outcomes of its statements.
  unfoldable pub perform_all : World → List (Edit × List Bool) → World
  unfolding perform
  perform_all w [] = w
  perform_all w (e ∷ l) = perform_all (perform e.0 (record w { faults = e.1 })).1 l

  perform-Runs : (e : Edit) → Kept (perform e)
  unfolding perform
  perform-Runs (channel_updated c) = update_channel-Runs c
  perform-Runs (channel_deleted i) = delete_channel-Runs i
  perform-Runs (floor_added c p reason) = add_floor-Runs c p reason
  perform-Runs (floor_removed c p) = remove_floor-Runs c p
  perform-Runs (package_updated p labels) = update_package-Runs o gen p labels
  perform-Runs (package_deleted i) = delete_package-Runs i

  either_way :
      (r : Result _ Unit) (w : World)
      → Post Consistent (λ u. Consistent) (r, w)
      → Consistent (quiet w)
  either_way (ok u) w h = h
  either_way (err e) w h = h

  loud : (w : World) → Consistent (quiet w) → Consistent w
  loud w h = record { points = h.points; floors = h.floors }

  -- Channels and packages stay consistent under any sequence of edits, with any statements failing:
  -- the package that a channel points to, and each of its floors, is of the channel's application and
  -- architecture, and does not have the channel on its blacklist.
  pub edits-Consistent :
      (w : World) (edits : List (Edit × List Bool))
      → Consistent w
      → Consistent (perform_all w edits)
  unfolding perform_all
  edits-Consistent w [] h = h
  edits-Consistent w (e ∷ l) h =
      let (r, v) = perform e.0 (record w { faults = e.1 }) in
      edits-Consistent v l (
        loud v (
          either_way r v (
            (perform-Runs e.0).at (record w { faults = e.1 })
              (record { points = h.points; floors = h.floors }))))
