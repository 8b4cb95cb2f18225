-- ===== src/Reads/Stats.antt =====
-- dbreads/groups.go: `GetGroupUpdatesStats`.
pub mod Laws
use nebraska.Base.{ℕ, ◌+◌, String, Bool, true, false, Option, none, some, ◌==◌, ltb, leb, ◌&&◌, not}
use nebraska.Base.Exec.{ok}
use nebraska.Types.{InstanceApplication, Group, UpdatesStats}
use nebraska.Db.{World, Action, query, select, count_where}
use nebraska.Reads.Outside.{Outside}
use nebraska.Reads.Instances.{checked_lately}

-- The version of the package that the group's channel points to, "" where there is none.
unfoldable pub current_version : Group → String
current_version g = elim g.channel [
  | none ↦ ""
  | some c ↦ elim c.pkg [ none ↦ "" | some p ↦ p.version ]
]

-- last_update_version = v, which a NULL does not satisfy
abbrev pub updates_to : String → InstanceApplication → Bool
updates_to v a = elim a.last_update_version [ none ↦ false | some u ↦ u == v ]

abbrev in_group : String → InstanceApplication → Bool
in_group group_id a = elim a.group_id [ none ↦ false | some g ↦ g == group_id ]

module _ (o : Outside) where
  -- The rows that count: of the group, checked lately, and of no fake instance.
  unfoldable pub counted : Group → ℕ → InstanceApplication → Bool
  counted g now a = in_group g.id a && checked_lately now a && not (o.is_fake a.instance_id)

  -- last_update_granted_ts > now() - interval
  unfoldable pub granted_lately : Group → ℕ → InstanceApplication → Bool
  granted_lately g now a = elim a.last_update_granted_ts [
    | none ↦ false
    | some t ↦ ltb now (t + o.interval g.policy.period_interval)
  ]

  -- update_in_progress, and now() - last_update_granted_ts <= interval
  unfoldable pub progressing : Group → ℕ → InstanceApplication → Bool
  progressing g now a = elim a.last_update_granted_ts [
    | none ↦ false
    | some t ↦ a.update_in_progress && leb now (t + o.interval g.policy.update_timeout)
  ]

  unfoldable pub timed_out : Group → ℕ → InstanceApplication → Bool
  timed_out g now a = elim a.last_update_granted_ts [
    | none ↦ false
    | some t ↦ a.update_in_progress && ltb (t + o.interval g.policy.update_timeout) now
  ]

  unfoldable pub updates_stats : Group → World → UpdatesStats
  unfolding current_version counted granted_lately progressing timed_out count_where select
  updates_stats g w =
      let v = current_version g in
      let rows = select (counted g w.now) w.instance_apps in
      record {
        total_instances = count_where (λ a. true) rows;
        updates_to_current_version_granted = count_where (updates_to v) rows;
        updates_to_current_version_attempted =
            count_where (λ a. not a.update_in_progress && updates_to v a) rows;
        updates_to_current_version_succeeded =
            count_where
              (λ a. not a.update_in_progress && (updates_to v a && updates_to a.version a)) rows;
        updates_to_current_version_failed =
            count_where
              (λ a. not a.update_in_progress && (updates_to v a && not (updates_to a.version a)))
              rows;
        updates_granted_in_last_period = count_where (granted_lately g w.now) rows;
        updates_in_progress = count_where (progressing g w.now) rows;
        updates_timed_out = count_where (timed_out g w.now) rows;
      }

  unfoldable pub get_group_updates_stats : Group → Action UpdatesStats
  get_group_updates_stats g = query (λ w. ok (updates_stats g w))
