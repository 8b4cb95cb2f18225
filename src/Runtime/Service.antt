-- ===== src/Runtime/Service.antt =====
-- The service over time: requests of any kinds, one after another, while the clock moves on and
-- statements fail as they may.
use nebraska.Base.{ℕ, ◌+◌, String, ◌≡◌, Bool, List, [], ◌∷◌, arith}
use nebraska.Base.{if◌then◌else◌}
use nebraska.Types.{Instance, InstanceApplication, Group}
use nebraska.Db.{World, select, count_where}
use nebraska.Reads.Outside.{Outside}
use nebraska.Reads.Stats.{updates_stats, counted, progressing, timed_out}
use nebraska.Runtime.Groups.{clear_updates_enabled_override}
use nebraska.Runtime.Instances.{register_instance}
use nebraska.Runtime.Updates.{get_update_package, get_update_packages_for_syncer}
use nebraska.Runtime.Events.{register_event}
use nebraska.Runtime.Sound.{Sound, IsSound, AllSound}
use nebraska.Runtime.Sound.Handlers.{register_instance-Sound, clear-Sound}
use nebraska.Runtime.Sound.Updates.{get_update_package-Sound, get_update_packages_for_syncer-Sound}
use nebraska.Runtime.Sound.Events.{register_event-Sound}

-- The calls that other components make.
pub data Call : Type 0 where
  ping : Instance → InstanceApplication → Call
  update_check : Instance → InstanceApplication → Call
  syncer_check : Instance → InstanceApplication → Call
  event : String → String → String → ℕ → ℕ → String → String → Call
  clear_override : String → Call

-- A call, the time since the last one, and the outcomes of its statements.
pub record Visit : Type 0 where
  pub call : Call
  pub elapsed : ℕ
  pub outcomes : List Bool

module _ (o : Outside) where
  unfoldable pub handle : Call → World → World
  handle (ping i a) w = (register_instance o i a w).1
  handle (update_check i a) w = (get_update_package o i a w).1
  handle (syncer_check i a) w = (get_update_packages_for_syncer o i a w).1
  handle (event i a g t r p e) w = (register_event o i a g t r p e w).1
  handle (clear_override g) w = (clear_updates_enabled_override g w).1

  unfoldable pub run : World → List Visit → World
  unfolding handle
  run w [] = w
  run w (v ∷ rest) =
      run (handle v.call (record w { now = w.now + v.elapsed; faults = v.outcomes })) rest

  handle-Sound : (c : Call) (w : World) → Sound w → Sound (handle c w)
  unfolding handle
  handle-Sound (ping i a) w h = (register_instance-Sound o i a).at w h
  handle-Sound (update_check i a) w h = (get_update_package-Sound o i a).at w h
  handle-Sound (syncer_check i a) w h = (get_update_packages_for_syncer-Sound o i a).at w h
  handle-Sound (event i a g t r p e) w h = (register_event-Sound o i a g t r p e).at w h
  handle-Sound (clear_override g) w h = (clear-Sound g).at w h

  -- From rows that are sound, any sequence of calls, with any statements failing, leads to rows
  -- that are sound: an update in progress has a granted version, a time of its grant, and a status
  -- other than those that end an update.
  pub run-Sound : (w : World) (visits : List Visit) → Sound w → Sound (run w visits)
  unfolding run
  run-Sound w [] h = h
  run-Sound w (v ∷ rest) h =
      run-Sound (handle v.call (record w { now = w.now + v.elapsed; faults = v.outcomes })) rest
        (handle-Sound v.call (record w { now = w.now + v.elapsed; faults = v.outcomes }) h)

  -- A sound row in progress is either within its timeout or timed out.
  progress_split :
      (g : Group) (now : ℕ) (a : InstanceApplication)
      → IsSound a
      → (if progressing o g now a then 1 else 0) + (if timed_out o g now a then 1 else 0)
        ≡ (if a.update_in_progress then 1 else 0)
  unfolding progressing timed_out
  progress_split g now a s = ground (arith, s.granted)

  count_progress :
      (g : Group) (now : ℕ) (l : List InstanceApplication)
      → AllSound l
      → count_where (progressing o g now) (select (counted o g now) l)
          + count_where (timed_out o g now) (select (counted o g now) l)
        ≡ count_where (λ a. a.update_in_progress) (select (counted o g now) l)
  unfolding count_where select
  count_progress g now [] h = omega arith
  count_progress g now (a ∷ l) h =
      ground (arith, progress_split g now a h.0, count_progress g now l h.1)

  -- From rows that are sound, after any calls, the rollout policy sees every update of a group that is in progress, once:
  -- those within the timeout and those timed out add up to the rows in progress, among the rows
  -- of the group that count (checked within a day, of no fake instance).
  pub run_progress :
      (w : World) (visits : List Visit) (g : Group)
      → Sound w
      → let v : World = run w visits in
        (updates_stats o g v).updates_in_progress + (updates_stats o g v).updates_timed_out
        ≡ count_where (λ a. a.update_in_progress) (select (counted o g v.now) v.instance_apps)
  unfolding updates_stats
  run_progress w visits g h =
      let v = run w visits in count_progress g v.now v.instance_apps (run-Sound w visits h)
