-- ===== src/Runtime/Sound.antt =====
-- What every instance_application row satisfies, and that every handler of the service keeps it.
pub mod Handlers
pub mod Updates
pub mod Events
use nebraska.Base.{
  ℕ, ◌+◌, String, ◌≡◌, ◌≢◌, refl, Bool, true, false, Option, none, some, List, [], ◌∷◌, ◌++◌,
}
use nebraska.Base.{
  arith, ltb, leb, eqb, ◌&&◌, ◌||◌, not, if◌then◌else◌, Option-cases, Bool-cases, inl, inr,
}
use nebraska.Types.{InstanceApplication, Instance, status_update_granted}
use nebraska.Db.{World, Action, exec, update_where, find}
use nebraska.Db.Keeps.{Keeps, quiet, keeps_rules, Keeps-exec, Keeps-exec_rows}
use nebraska.Reads.Outside.{Outside}
use nebraska.Reads.Groups.{or_default}
use nebraska.Runtime.Instances.{
  Changes, ends_update, settle, apply_changes, same_row, write_changes, upsert, upsert_instance,
  upsert_instance_application,
}

-- While an update is in progress it is known which version was granted and when, and the status is
-- none of those that end an update.
abbrev pub running : Option ℕ → Bool
running none = false
running (some s) = not (ends_update s)

pub record IsSound (a : InstanceApplication) : Type 0 where
  pub granted : a.update_in_progress ≡ true → a.last_update_granted_ts ≢ none
  pub versioned : a.update_in_progress ≡ true → a.last_update_version ≢ none
  pub under_way : a.update_in_progress ≡ true → running a.status ≡ true

abbrev pub AllSound : List InstanceApplication → Type 0
AllSound [] = Unit
AllSound (a ∷ l) = IsSound a × AllSound l

abbrev pub Sound : World → Type 0
Sound w = AllSound w.instance_apps

pub AllSound-append :
    (l : List InstanceApplication) (a : InstanceApplication)
    → AllSound l
    → IsSound a
    → AllSound (l ++ (a ∷ []))
AllSound-append [] a h k = (k, tt)
AllSound-append (b ∷ l) a h k = (h.0, AllSound-append l a h.1 k)

pub AllSound-update_where :
    (p : InstanceApplication → Bool) (f : InstanceApplication → InstanceApplication)
    → ((a : InstanceApplication) → IsSound a → IsSound (f a))
    → (l : List InstanceApplication) → AllSound l
    → AllSound (update_where p f l)
unfolding update_where
AllSound-update_where p f k [] h = tt
AllSound-update_where p f k (a ∷ l) h = (
  elim (Bool-cases (p a)) [ inl e ↦ rw e (k a h.0) | inr e ↦ rw e h.0 ],
  AllSound-update_where p f k l h.1,
)

pub AllSound-upsert :
    (p : InstanceApplication → Bool) (f : InstanceApplication → InstanceApplication)
    (new : InstanceApplication)
    → ((a : InstanceApplication) → IsSound a → IsSound (f a))
    → IsSound new
    → (l : List InstanceApplication) → AllSound l
    → AllSound (upsert p f new l)
unfolding upsert
AllSound-upsert p f new k kn l h = elim (Option-cases (find p l)) [
  | inl e ↦ rw (e, upsert) (AllSound-append l new h kn)
  | inr (a, e) ↦ rw (e, upsert) (AllSound-update_where p f k l h)
]

abbrev pub status_change : ℕ → Changes
status_change s = record {
  status = s;
  granted_ts = none;
  update_version = none;
  update_in_progress = none;
}

abbrev pub grant_change : ℕ → String → Changes
grant_change now version = record {
  status = status_update_granted;
  granted_ts = some now;
  update_version = some version;
  update_in_progress = some true;
}

pub status_change-IsSound :
    (s : ℕ) (a : InstanceApplication)
    → IsSound a
    → IsSound (apply_changes (settle (status_change s)) a)
unfolding settle apply_changes
status_change-IsSound s a h = elim (Bool-cases (ends_update s)) [
  | inl over ↦ rw over (ground arith)
  | inr on ↦ rw on (ground (arith, h.granted, h.versioned))
]

pub grant_change-IsSound :
    (now : ℕ) (v : String) (a : InstanceApplication)
    → IsSound (apply_changes (settle (grant_change now v)) a)
unfolding settle apply_changes
grant_change-IsSound now v a = ground arith

pub write_changes-Sound :
    (i g : String) (c : Changes) (w : World)
    → ((a : InstanceApplication) → IsSound a → IsSound (apply_changes c a))
    → Sound (quiet w)
    → Sound (quiet (write_changes i g c w))
unfolding write_changes
write_changes-Sound i g c w k h =
    AllSound-update_where (same_row i g) (apply_changes c) k w.instance_apps h

pub upsert_application-Sound :
    (i a g v : String) (w : World)
    → Sound (quiet w)
    → Sound (quiet (upsert_instance_application i a g v w))
upsert_application-Sound i a g v w h =
    AllSound-upsert (same_row i a) _ _
      (λ b k. record { granted = k.granted; versioned = k.versioned; under_way = k.under_way })
      (ground arith) w.instance_apps h
