-- ===== src/Reads/Lookups/Laws.antt =====
-- The caches of `GetGroupID` and `GetAppID`: what a filled cache answers, and for how long.
use nebraska.Base.{ℕ, String, ◌≡◌, refl, true, Option, none, some, List, [], ◌∷◌, arith}
use nebraska.Base.{if◌then◌else◌, ◌∙◌, ap}
use nebraska.Base.Exec.{Result, ok, err, bind_ok, ◌>>=◌}
use nebraska.Types.{Error, unnamed, GroupDescriptor, Channel}
use nebraska.Db.{World, GroupRow, query, try, assign, or_raise, fails, tick}
use nebraska.Reads.Outside.{Outside}
use nebraska.Reads.Lookups.{
  same_descriptor, lookup_group, add_groups, groups_cache, descriptor_of, get_all_groups,
  groups_or_fill, put_groups, get_group_id, group_app_id_no_brackets, lookup_id, app_id_no_brackets,
  apps_cache, put_apps, apps_or_fill, get_app_id,
}

-- The last group in the list whose channel and track fit.
unfoldable pub last_group : GroupDescriptor → List (GroupRow × Option Channel) → Option String
last_group d [] = none
last_group d ((g, none) ∷ l) = last_group d l
last_group d ((g, some c) ∷ l) = elim (last_group d l) [
  | some id ↦ some id
  | none ↦ if same_descriptor (descriptor_of g c) d then some g.id else none
]

abbrev or_else : Option String → Option String → Option String
or_else none o = o
or_else (some id) o = some id

lookup-add_groups :
    (d : GroupDescriptor) (m : List (GroupDescriptor × String))
    (l : List (GroupRow × Option Channel))
    → lookup_group d (add_groups m l) ≡ or_else (last_group d l) (lookup_group d m)
unfolding lookup_group add_groups last_group
lookup-add_groups d m [] = refl
lookup-add_groups d m ((g, none) ∷ l) = lookup-add_groups d m l
lookup-add_groups d m ((g, some c) ∷ l) =
    ground (arith, lookup-add_groups d ((descriptor_of g c, g.id) ∷ m) l)

or_else-none : (o : Option String) → or_else o none ≡ o
or_else-none none = refl
or_else-none (some id) = refl

lookup-groups_cache :
    (d : GroupDescriptor) (l : List (GroupRow × Option Channel))
    → lookup_group d (groups_cache {E = Error} (ok l)) ≡ last_group d l
unfolding groups_cache lookup_group last_group
lookup-groups_cache d l = lookup-add_groups d [] l ∙ or_else-none (last_group d l)

abbrev pub wanted : String → String → ℕ → GroupDescriptor
wanted app_id track arch = record {
  app_id = group_app_id_no_brackets app_id;
  track = track;
  arch = arch;
}

abbrev pub answer : {A : Type 0} → Option A → Result Error A
answer none = err unnamed
answer (some a) = ok a

or_raise-answer : {A : Type 0} (o : Option A) (w : World) → (or_raise unnamed o w).0 ≡ answer o
unfolding or_raise
or_raise-answer none w = refl
or_raise-answer (some a) w = refl

or_raise-world : {A : Type 0} (e : Error) (o : Option A) (w : World) → (or_raise e o w).1 ≡ w
unfolding or_raise
or_raise-world e none w = refl
or_raise-world e (some a) w = refl

filling_groups :
    (w w' : World) (r : Result Error (List (GroupRow × Option Channel)))
    → get_all_groups w ≡ (r, w')
    → groups_or_fill none w ≡ (ok (groups_cache r), put_groups (groups_cache r) w')
unfolding groups_or_fill try assign ◌>>=◌
filling_groups w w' r h = rw h refl

filled_groups :
    (m : List (GroupDescriptor × String)) (w : World) → groups_or_fill (some m) w ≡ (ok m, w)
unfolding groups_or_fill
filled_groups m w = refl

-- A lookup with the cache that the first part leaves.
group_looked_up :
    (w u : World) (m : List (GroupDescriptor × String)) (app_id track : String) (arch : ℕ)
    → groups_or_fill w.cached_groups w ≡ (ok m, u)
    → ((get_group_id app_id track arch w).0 ≡ answer (lookup_group (wanted app_id track arch) m))
      × ((get_group_id app_id track arch w).1 ≡ u)
unfolding get_group_id groups_or_fill ◌>>=◌ or_raise
group_looked_up w u m app_id track arch h =
    let e =
      bind_ok (groups_or_fill w.cached_groups)
        (λ m. or_raise unnamed (lookup_group (wanted app_id track arch) m)) h in
    (
      ap (λ (x : Result Error String × World). x.0) e
          ∙ or_raise-answer (lookup_group (wanted app_id track arch) m) u,
      ap (λ (x : Result Error String × World). x.1) e
          ∙ or_raise-world unnamed (lookup_group (wanted app_id track arch) m) u,
    )

-- The groups that a request reads while there is no cache decide every later lookup until the cache
-- is cleared, whatever happens to the tables meanwhile and whichever statements fail: the answer is
-- the id of the last group, in the order in which they were read, whose application, track and
-- channel's architecture are those asked for, and an error where there is none.
pub cached_last_group :
    (w w' v : World) (l : List (GroupRow × Option Channel)) (first_app first_track : String)
    (first_arch : ℕ) (app_id track : String) (arch : ℕ)
    → w.cached_groups ≡ none
    → get_all_groups w ≡ (ok l, w')
    → v.cached_groups ≡ (get_group_id first_app first_track first_arch w).1.cached_groups
    → ((get_group_id app_id track arch w).0 ≡ answer (last_group (wanted app_id track arch) l))
      × ((get_group_id app_id track arch v).0 ≡ answer (last_group (wanted app_id track arch) l))
cached_last_group w w' v l first_app first_track first_arch app_id track arch n h k =
    let m : List (GroupDescriptor × String) = groups_cache {E = Error} (ok l) in
    let filled = ap (λ c. groups_or_fill c w) n ∙ filling_groups w w' (ok l) h in
    let held : v.cached_groups ≡ some m =
      k
      ∙ ap (λ (x : World). x.cached_groups)
          (group_looked_up w (put_groups m w') m first_app first_track first_arch filled).1 in
    let kept = ap (λ c. groups_or_fill c v) held ∙ filled_groups m v in
    let same = ap answer (lookup-groups_cache (wanted app_id track arch) l) in
    (
      (group_looked_up w (put_groups m w') m app_id track arch filled).0 ∙ same,
      (group_looked_up v v m app_id track arch kept).0 ∙ same,
    )

module _ (o : Outside) where
  filling_apps :
      (w : World) → fails w.faults ≡ true → apps_or_fill o none w ≡ (ok [], put_apps o [] (tick w))
  unfolding apps_or_fill try assign ◌>>=◌ query apps_cache
  filling_apps w h = rw h refl

  filled_apps : (m : List (String × String)) (w : World) → apps_or_fill o (some m) w ≡ (ok m, w)
  unfolding apps_or_fill
  filled_apps m w = refl

  app_looked_up :
      (w u : World) (m : List (String × String)) (s : String)
      → apps_or_fill o w.cached_app_ids w ≡ (ok m, u)
      → ((get_app_id o s w).0 ≡ answer (lookup_id (o.to_lower (app_id_no_brackets s)) m))
        × ((get_app_id o s w).1 ≡ u)
  unfolding get_app_id apps_or_fill ◌>>=◌ or_raise
  app_looked_up w u m s h =
      let e =
        bind_ok (apps_or_fill o w.cached_app_ids)
          (λ m. or_raise unnamed (lookup_id (o.to_lower (app_id_no_brackets s)) m)) h in
      (
        ap (λ (x : Result Error String × World). x.0) e
            ∙ or_raise-answer (lookup_id (o.to_lower (app_id_no_brackets s)) m) u,
        ap (λ (x : Result Error String × World). x.1) e
            ∙ or_raise-world unnamed (lookup_id (o.to_lower (app_id_no_brackets s)) m) u,
      )

  -- When the statement that reads the applications for the cache fails, no application is found
  -- any more: from then until the cache is cleared, a lookup of any id fails, although its
  -- statements may succeed and the application is in its table.
  pub failed_fill_stays :
      (w v : World) (s t : String)
      → w.cached_app_ids ≡ none
      → fails w.faults ≡ true
      → v.cached_app_ids ≡ (get_app_id o s w).1.cached_app_ids
      → (get_app_id o t v).0 ≡ err unnamed
  unfolding lookup_id
  failed_fill_stays w v s t n h k =
      let filled = ap (λ c. apps_or_fill o c w) n ∙ filling_apps w h in
      let held : v.cached_app_ids ≡ some [] =
        k
        ∙ ap (λ (x : World). x.cached_app_ids)
            (app_looked_up w (put_apps o [] (tick w)) [] s filled).1 in
      (app_looked_up v v [] t (ap (λ c. apps_or_fill o c v) held ∙ filled_apps [] v)).0
