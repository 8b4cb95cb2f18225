-- ===== src/Runtime/Sound/Events.antt =====
-- The event handler keeps every row of instance_application sound.
use nebraska.Base.{ℕ, String, Option, none, some, ◌∷◌}
use nebraska.Types.{Instance, Group}
use nebraska.Db.{exec, EventRow}
use nebraska.Db.Keeps.{Keeps, keeps_rules, Keeps-exec-some}
use nebraska.Reads.Outside.{Outside}
use nebraska.Runtime.Events.{
  Subject, finish_rollout, complete_event, fail_rollout, brake, failed_event, step_event,
  trigger_event_consequences, record_event, accept_event, register_event,
}
use nebraska.Runtime.Sound.{Sound}
use nebraska.Runtime.Sound.Handlers.{
  get_group-Keeps, get_instance-Keeps, validate-Keeps, stats-Keeps, activity-Sound,
  instance_activity-Sound, disable-Sound, rollout-Sound, status-Sound, update_status-Sound,
}

module _ (o : Outside) where
  ruleset event_rules = (
    keeps_rules, stats-Keeps, activity-Sound, instance_activity-Sound, disable-Sound, rollout-Sound,
    update_status-Sound,
  )

  finish_rollout-Sound : (s : Subject) (v : String) → Keeps Sound (finish_rollout o s v)
  unfolding finish_rollout
  finish_rollout-Sound s v = search event_rules

  complete_event-Sound :
      (s : Subject) (g : Group) (v : String) → Keeps Sound (complete_event o s g v)
  unfolding complete_event
  complete_event-Sound s g v = search (event_rules, finish_rollout-Sound) depth 8

  fail_rollout-Sound : (s : Subject) (v : String) → Keeps Sound (fail_rollout o s v)
  unfolding fail_rollout
  fail_rollout-Sound s v = search event_rules depth 8

  brake-Sound : (s : Subject) (g : Group) (v : String) → Keeps Sound (brake o s g v)
  unfolding brake
  brake-Sound s g v = search (event_rules, fail_rollout-Sound) depth 8

  failed_event-Sound : (s : Subject) (g : Group) (v : String) → Keeps Sound (failed_event o s g v)
  unfolding failed_event
  failed_event-Sound s g v = search (event_rules, brake-Sound) depth 8

  step_event-Sound : (s : Subject) (n : Option ℕ) → Keeps Sound (step_event o s n)
  unfolding step_event
  step_event-Sound s none = search event_rules
  step_event-Sound s (some n) = search event_rules

  trigger-Sound :
      (s : Subject) (v : String) (t r : ℕ) → Keeps Sound (trigger_event_consequences o s v t r)
  unfolding trigger_event_consequences
  trigger-Sound s v t r =
      search
        (keeps_rules, get_group-Keeps, complete_event-Sound, step_event-Sound, failed_event-Sound)
        depth 9

  insert_event-Sound :
      (row : EventRow) → Keeps Sound (exec (λ w. some (record w { events = row ∷ w.events })))
  insert_event-Sound row = Keeps-exec-some _ (λ w h. h)

  record_event-Sound :
      (s : Subject) (i : Instance) (t r : ℕ) (p e : String)
      → Keeps Sound (record_event o s i t r p e)
  unfolding record_event
  record_event-Sound s i t r p e = search (keeps_rules, insert_event-Sound, trigger-Sound) depth 8

  accept_event-Sound :
      (s : Subject) (i : Instance) (t r : ℕ) (p e : String)
      → Keeps Sound (accept_event o s i t r p e)
  unfolding accept_event
  accept_event-Sound s i t r p e = search (keeps_rules, status-Sound, record_event-Sound) depth 9

  pub register_event-Sound :
      (i a g : String) (t r : ℕ) (p e : String) → Keeps Sound (register_event o i a g t r p e)
  unfolding register_event
  register_event-Sound i a g t r p e =
      search (keeps_rules, validate-Keeps, get_instance-Keeps, accept_event-Sound) depth 8
