-- ===== src/Runtime/Rollout/Policy.antt =====
-- When the rollout policy of a group lets an update through.
use nebraska.Base.{◌<◌, ◌≡◌, refl, ◌∙◌, true, false, arith, leb, ◌&&◌, not}
use nebraska.Base.{Bool-cases, inl, inr, if◌then◌else◌, ◌⊎◌}
use nebraska.Base.Exec.{ok, err, ◌>>=◌, >>=-eq-ok, bind_ok}
use nebraska.Types.{text, get_updates_stats_failed, Instance, Group, UpdatesStats}
use nebraska.Db.{World, attempt, relabel, query, fails, tick}
use nebraska.Db.Keeps.{quiet}
use nebraska.Reads.Outside.{Outside}
use nebraska.Reads.Stats.{updates_stats, get_group_updates_stats}
use nebraska.Runtime.Rollout.{
  effective_max, in_office_hours_now, hold, trip, check_limits, unlimited, counted_limits,
  enforce_rollout_policy,
}

-- The numbers are below the limit that applies.
pub record IsBelow (g : Group) (s : UpdatesStats) : Type 0 where
  pub granted : s.updates_granted_in_last_period < effective_max g s
  pub progressing : s.updates_in_progress < effective_max g s
  pub timed_out : (g.policy.safe_mode && leb (effective_max g s) s.updates_timed_out) ≡ false

-- What the policy asks for, at a state of the tables and the clock.
pub record IsAllowed (o : Outside) (g : Group) (w : World) : Type 0 where
  pub enabled : g.policy.updates_enabled ≡ true
  pub in_hours :
      (g.policy.office_hours && not (in_office_hours_now o (text g.policy.timezone) w.now)) ≡ false
  pub below : (unlimited o g ≡ true) ⊎ IsBelow g (updates_stats o g w)

module _ (o : Outside) (i : Instance) (g : Group) where
  check_limits_ok :
      (s : UpdatesStats) (w w' : World)
      → check_limits o i g s w ≡ (ok tt, w')
      → IsBelow g s × (w' ≡ w)
  unfolding check_limits trip ◌>>=◌ hold attempt
  check_limits_ok s w w' h = ground arith

  check_limits_passes :
      (s : UpdatesStats) (w : World) → IsBelow g s → check_limits o i g s w ≡ (ok tt, w)
  unfolding check_limits
  check_limits_passes s w b = ground (arith, b.granted, b.progressing, b.timed_out)

  read_stats :
      (w : World)
      → relabel get_updates_stats_failed (get_group_updates_stats o g) w ≡ (
        if fails w.faults then err get_updates_stats_failed else ok (updates_stats o g w),
        tick w,
      )
  unfolding relabel get_group_updates_stats query
  read_stats w = ground arith

  counted_limits_ok :
      (w w' : World)
      → counted_limits o i g w ≡ (ok tt, w')
      → IsBelow g (updates_stats o g w) × (quiet w' ≡ quiet w)
  unfolding counted_limits
  counted_limits_ok w w' h =
      let (s, u, read, rest) = >>=-eq-ok _ _ w h in
      let (below, same) = check_limits_ok s u w' rest in
      ground (arith, read, read_stats w, below, same)

  counted_limits_passes :
      (w : World)
      → fails w.faults ≡ false
      → IsBelow g (updates_stats o g w)
      → counted_limits o i g w ≡ (ok tt, tick w)
  unfolding counted_limits
  counted_limits_passes w fine b =
      bind_ok _ _ (read_stats w ∙ rw fine refl)
      ∙ check_limits_passes (updates_stats o g w) (tick w) b

  -- The policy lets an update through only if it is enabled, within the office hours where they
  -- are asked for, and, unless the group is unlimited, below its limits; then no table has changed.
  -- This holds whatever statement fails.
  pub enforce_ok :
      (w w' : World)
      → enforce_rollout_policy o i g w ≡ (ok tt, w')
      → IsAllowed o g w × (quiet w' ≡ quiet w)
  unfolding enforce_rollout_policy ◌>>=◌
  enforce_ok w w' h = elim (Bool-cases (unlimited o g)) [
    | inl free ↦
        (record { enabled = ground arith; in_hours = ground arith; below = inl free }, ground arith)
    | inr limited ↦
        let (below, same) = counted_limits_ok w w' (ground arith) in
        (record { enabled = ground arith; in_hours = ground arith; below = inr below }, same)
  ]

  -- Where the next statement does not fail, which reads the group's numbers, the policy lets every
  -- update through that it allows.
  pub enforce_allowed :
      (w : World)
      → fails w.faults ≡ false
      → IsAllowed o g w
      → (enforce_rollout_policy o i g w).0 ≡ ok tt
  unfolding enforce_rollout_policy ◌>>=◌
  enforce_allowed w fine a = elim (Bool-cases (unlimited o g)) [
    | inl free ↦ ground (arith, a.enabled, a.in_hours)
    | inr limited ↦ elim a.below [
      | inl free ↦ ground (arith, free, limited)
      | inr below ↦ ground (arith, a.enabled, a.in_hours, counted_limits_passes w fine below)
    ]
  ]

  -- In safe mode, while no instance has attempted the current version, an update is let through only
  -- if none of the group is in progress, none timed out and none was granted in the last period.
  pub safe_mode_first :
      (w w' : World)
      → g.policy.safe_mode ≡ true
      → (updates_stats o g w).updates_to_current_version_attempted ≡ 0
      → enforce_rollout_policy o i g w ≡ (ok tt, w')
      → ((updates_stats o g w).updates_in_progress ≡ 0)
        × ((updates_stats o g w).updates_timed_out ≡ 0)
        × ((updates_stats o g w).updates_granted_in_last_period ≡ 0)
  unfolding effective_max unlimited
  safe_mode_first w w' safe first passed = elim (enforce_ok w w' passed).0.below [
    | inl free ↦ ground (arith, free)
    | inr below ↦ (
      ground (arith, below.progressing),
      ground (arith, below.timed_out),
      ground (arith, below.granted),
    )
  ]
