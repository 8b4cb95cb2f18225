-- ===== src/Runtime/Events/Recorded.antt =====
-- Events that are accepted are recorded, whatever becomes of their consequences.
use nebraska.Base.{ℕ, String, ◌≡◌, Bool, true, false, some, List, ◌∷◌}
use nebraska.Base.{eqb, ◌&&◌}
use nebraska.Base.Exec.{ok}
use nebraska.Types.{Instance}
use nebraska.Db.{World, EventRow, EventTypeRow, find}
use nebraska.Db.Keeps.{Keeps, keeps_rules, Keeps-exec-some, Keeps-exec_if, Keeps-if, Keeps-pure}
use nebraska.Reads.Outside.{Outside}
use nebraska.Runtime.Groups.{disable_updates, set_group_rollout_in_progress}
use nebraska.Runtime.Activity.{new_group_activity_entry, new_instance_activity_entry}
use nebraska.Runtime.Instances.{
  update_instance_data, update_instance_obj_status, update_instance_status, write_changes, Changes,
  validate_application_and_group,
}
use nebraska.Runtime.Sound.Handlers.{get_instance-Keeps, stats-Keeps}
use nebraska.Runtime.Events.{Subject, is_stale}

abbrev EventsAre : List EventRow → World → Type 0
EventsAre l w = w.events ≡ l

-- No consequence of an event touches the table of events.
module _ (o : Outside) (l : List EventRow) where
  activity-EventsAre :
      (c s : ℕ) (v a g : String) → Keeps (EventsAre l) (new_group_activity_entry c s v a g)
  unfolding new_group_activity_entry
  activity-EventsAre c s v a g = Keeps-exec-some _ (λ w h. h)

  instance_activity-EventsAre :
      (c s : ℕ) (v a g i : String) → Keeps (EventsAre l) (new_instance_activity_entry c s v a g i)
  unfolding new_instance_activity_entry
  instance_activity-EventsAre c s v a g i = Keeps-exec-some _ (λ w h. h)

  disable-EventsAre : (g : String) → Keeps (EventsAre l) (disable_updates g)
  unfolding disable_updates
  disable-EventsAre g = Keeps-exec-some _ (λ w h. h)

  rollout-EventsAre :
      (g : String) (b : Bool) → Keeps (EventsAre l) (set_group_rollout_in_progress g b)
  unfolding set_group_rollout_in_progress
  rollout-EventsAre g b = Keeps-exec-some _ (λ w h. h)

  data-EventsAre : (i : Instance) (c : Changes) → Keeps (EventsAre l) (update_instance_data o i c)
  unfolding update_instance_data write_changes
  data-EventsAre i c = Keeps-if _ _ _ (Keeps-pure tt) (Keeps-exec_if _ _ (λ w h. h))

  status-EventsAre : (i a : String) (s : ℕ) → Keeps (EventsAre l) (update_instance_status o i a s)
  unfolding update_instance_status update_instance_obj_status
  status-EventsAre i a s = search (keeps_rules, get_instance-Keeps, data-EventsAre)

  ruleset consequence_rules = (
    keeps_rules, stats-Keeps, activity-EventsAre, instance_activity-EventsAre, disable-EventsAre,
    rollout-EventsAre, status-EventsAre,
  )

-- The row of an event.
abbrev pub event_row : Subject → String → String → EventTypeRow → EventRow
event_row s previous_version error_code row = record {
  event_type_id = row.id;
  instance_id = s.instance_id;
  application_id = s.app_id;
  previous_version = previous_version;
  error_code = error_code;
}

module _ (o : Outside) where
  -- The ids as they were normalised, the instance as it was read, and the type of the event.
  pub record IsRecorded (instance_id app_id group_id : String) (t r : ℕ) (p e : String)
      (w w' : World) : Type 0 where
    pub ids : String × String
    pub instance : Instance
    pub row : EventTypeRow
    pub validated : (validate_application_and_group o app_id group_id w).0 ≡ ok ids
    pub of_application : instance.application.application_id ≡ ids.0
    pub in_progress : instance.application.update_in_progress ≡ true
    pub fresh : is_stale ids.0 t r p ≡ false
    pub known : find (λ (x : EventTypeRow). eqb x.type t && eqb x.result r) w.event_types ≡ some row
    pub recorded :
        w'.events
        ≡ event_row (record { instance_id = instance_id; app_id = ids.0; group_id = ids.1 }) p e row
          ∷ w.events
