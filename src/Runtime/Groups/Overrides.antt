-- ===== src/Runtime/Groups/Overrides.antt =====
-- What the node's override of `policy_updates_enabled` does to the group that is read afterwards.
use nebraska.Base.{
  String, ◌≡◌, refl, ◌∙◌, ap, Bool, false, Option, none, some, List, [], ◌∷◌, arith,
}
use nebraska.Base.{◌==◌, Bool-cases, inl, inr, Option-cases}
use nebraska.Types.{Channel}
use nebraska.Db.{World, GroupRow, GroupLocalRow, find, update_where}
use nebraska.Reads.Groups.{group_rows, joined_group}
use nebraska.Base.Exec.{ok, ◌>>=◌}
use nebraska.Db.{exec, exec_rows}
use nebraska.Db.Keeps.{quiet}
use nebraska.Reads.Groups.{effective_policy}
use nebraska.Runtime.Groups.{
  of_group, with_override, set_override, disable_updates, clear_updates_enabled_override,
}

find_updated :
    (g : String) (b : Option Bool) (l : List GroupLocalRow) {row : GroupLocalRow}
    → find (of_group g) l ≡ some row
    → find (of_group g) (update_where (of_group g) (with_override b) l) ≡ some (with_override b row)
unfolding find update_where
find_updated g b [] e = ground arith
find_updated g b (x ∷ l) e = elim (Bool-cases (x.group_id == g)) [
  | inl here ↦
      rw (here, here)
        (ap
          (λ (o : Option GroupLocalRow). elim o [ none ↦ none | some r ↦ some (with_override b r) ])
          (rw here at e))
  | inr other ↦ rw (other, other) (find_updated g b l (rw other at e))
]

-- The group that is read after the override was set or cleared: all of it is as before, save
-- that the override is the new one.
pub group_rows-set_override :
    (g : String) (b : Option Bool) (w : World) {row : GroupRow} {own : GroupLocalRow}
    → group_rows g w ≡ some (row, own)
    → group_rows g (set_override g b w) ≡ some (row, with_override b own)
unfolding group_rows
group_rows-set_override g b w e =
    elim (Option-cases (find (λ (x : GroupRow). x.id == g) w.groups)) [
      | inl gone ↦ ground (arith, gone)
      | inr (x, there) ↦ elim (Option-cases (find (of_group g) w.group_locals)) [
        | inl none_own ↦ ground (arith, there, none_own)
        | inr (l, found) ↦ ground (arith, there, found, find_updated g b w.group_locals found)
      ]
    ]

rows_quiet : (g : String) (u w : World) → quiet u ≡ quiet w → group_rows g u ≡ group_rows g w
unfolding group_rows
rows_quiet g u w e = ap (group_rows g) e

disable_ok :
    (g : String) (w u : World)
    → disable_updates g w ≡ (ok tt, u)
    → quiet u ≡ quiet (set_override g (some false) w)
unfolding disable_updates exec
disable_ok g w u h = ground arith

clear_ok :
    (g : String) (w u : World)
    → clear_updates_enabled_override g w ≡ (ok tt, u)
    → quiet u ≡ quiet (set_override g none w)
unfolding clear_updates_enabled_override exec_rows ◌>>=◌
clear_ok g w u h = ground arith

-- Where both writes succeed: once the updates of a group were disabled on this node, reading the group finds them disabled
-- whatever the admin's setting is; once the override was cleared again, reading it finds the
-- admin's setting.
pub disabled_until_cleared :
    (g : String) (w u v : World) {row : GroupRow} {own : GroupLocalRow} (c : Option Channel)
    → group_rows g w ≡ some (row, own)
    → disable_updates g w ≡ (ok tt, u)
    → clear_updates_enabled_override g u ≡ (ok tt, v)
    → (group_rows g u ≡ some (row, with_override (some false) own))
      × ((joined_group row (with_override (some false) own) c).policy.updates_enabled ≡ false)
      × (group_rows g v ≡ some (row, with_override none own))
      × ((joined_group row (with_override none own) c).policy.updates_enabled
          ≡ row.policy.updates_enabled)
unfolding joined_group effective_policy
disabled_until_cleared g w u v {row} {own} c e disabled cleared =
    let at_u : group_rows g u ≡ some (row, with_override (some false) own) =
      rows_quiet g u (set_override g (some false) w) (disable_ok g w u disabled)
      ∙ group_rows-set_override g (some false) w e in
    (
      at_u,
      refl,
      rows_quiet g v (set_override g none u) (clear_ok g u v cleared)
          ∙ group_rows-set_override g none u at_u,
      refl,
    )
