-- ===== src/Omaha/Handler/Syncers.antt =====
-- omaha.go: what a syncer's update check sends.
use mathlib.Core.Path.{subst}
use mathlib.Core.Option.{some-injective}
use nebraska.Base.{
  String, ◌≡◌, ◌≢◌, refl, sym, ap, ◌∙◌, true, false, Option, none, some, List, [], ◌∷◌, ◌++◌,
}
use nebraska.Base.{arith, ◌==◌, ◌&&◌, not, if◌then◌else◌, Bool-cases, inl, inr}
use nebraska.Base.Exec.{Result, ok, err, pure, >>=-eq-ok, result_ok}
use nebraska.Types.{
  Error, no_update_package_available, update_grant_failed, Package, Instance, InstanceApplication,
}
use nebraska.Db.{World, Action, try}
use nebraska.Db.Keeps.{quiet, Keeps, Keeps-bind, Keeps-try, keeps_rules}
use nebraska.Db.Settles.{Settles-Gives}
use nebraska.Reads.Outside.{Outside}
use nebraska.Reads.Groups.{get_flatcar_action}
use nebraska.Reads.Floors.Marked.{AllFloors, required_floors-AllFloors}
use nebraska.Runtime.Updates.{last_id, with_target, get_update_packages_for_syncer}
use nebraska.Runtime.Updates.Syncers.{IsSynced, get_update_packages_for_syncer-IsSynced}
use nebraska.Omaha.Messages.{
  AppRequest, Request, UpdateStatus, UpdateResponse, no_update, update_ok, update_internal_error,
  Manifest, AppResponse, new_manifest,
}
use nebraska.Omaha.Manifests.{
  prepare_multi_manifest_update_check, manifests_of, add_rest, add_flatcar_action_to_manifest,
  add_package_to_manifest, with_flags, is_empty,
}
use nebraska.Omaha.Manifests.Sent.{Sent, SentWith, manifests_of-SentWith}
use nebraska.Omaha.Handler.{
  has_floors, refuse, no_package, answer_syncer, is_syncer_client, process_update_check,
}

module _ {P : World → Type 0} where
  add_rest-Keeps :
      (plain : Manifest) (r : Result Error Manifest) (rest : Action (List Manifest × UpdateStatus))
      → Keeps P rest
      → Keeps P (add_rest plain r rest)
  unfolding add_rest
  add_rest-Keeps plain (ok m) rest k = search keeps_rules
  add_rest-Keeps plain (err e) rest k = search keeps_rules

  add_action-Keeps : (m : Manifest) (p : Package) → Keeps P (add_flatcar_action_to_manifest m p)
  unfolding add_flatcar_action_to_manifest get_flatcar_action
  add_action-Keeps m p = search keeps_rules

  manifests_of-Keeps : (l : List Package) → Keeps P (manifests_of l)
  unfolding manifests_of
  manifests_of-Keeps [] = search keeps_rules
  manifests_of-Keeps (p ∷ l) =
      let plain = add_package_to_manifest (with_flags p (is_empty l) (new_manifest p.version)) p in
      Keeps-bind (try (add_flatcar_action_to_manifest plain p)) _
        (Keeps-try (add_flatcar_action_to_manifest plain p) (add_action-Keeps plain p))
        (λ m. add_rest-Keeps plain m (manifests_of l) (manifests_of-Keeps l))

-- There is no update check, or it is none that offers an update.
abbrev NotOk : Option UpdateResponse → Type 0
NotOk none = Unit
NotOk (some u) = u.status ≢ update_ok

not_both :
    {c : Option UpdateResponse} {u : UpdateResponse}
    → NotOk c
    → c ≡ some u
    → u.status ≡ update_ok
    → ⊥
not_both n e s = subst NotOk e n s

no_package-NotOk : (r : AppResponse) (e : Error) → NotOk (no_package r e).update_check
unfolding no_package refuse
no_package-NotOk r no_update_package_available = λ h. cc
no_package-NotOk r update_grant_failed = λ h. cc
no_package-NotOk r _ = λ h. cc

whole_when_ok :
    (l : List Package) (ms : List Manifest) (s : UpdateStatus)
    → s ≡ update_ok
    → SentWith l (ms, s)
    → Sent l ms
whole_when_ok l ms update_ok e h = h
whole_when_ok l ms no_update e h = absurd h
whole_when_ok l ms update_internal_error e h = absurd (cc)

module _ (app : AppRequest) (r x : AppResponse) (u : UpdateResponse)
    (checked : x.update_check ≡ some u) (offers : u.status ≡ update_ok) (w w' : World) where
  not_offered :
      {y : AppResponse}
      → NotOk y.update_check
      → ◌≡◌ {A = Result Error AppResponse × World} (pure y w) (ok x, w')
      → ⊥
  not_offered n h =
      not_both n (ap (λ (z : AppResponse). z.update_check) (result_ok h).0 ∙ checked) offers

  multi_ok :
      (p : Package) (l : List Package)
      → prepare_multi_manifest_update_check r (p ∷ l) w ≡ (ok x, w')
      → Sent (p ∷ l) u.manifests × (quiet w' ≡ quiet w)
  unfolding prepare_multi_manifest_update_check
  multi_ok p l h =
      let (ms, v, made, last) = >>=-eq-ok (manifests_of (p ∷ l)) _ w h in
      let (same_x, same_w) = result_ok last in
      let sent : SentWith (p ∷ l) ms =
        (Settles-Gives (manifests_of-SentWith (p ∷ l))).at w v made in
      let check = some-injective _ _ (ap (λ (y : AppResponse). y.update_check) same_x ∙ checked) in
      (
        subst (λ (y : List Manifest). Sent (p ∷ l) y)
            (ap (λ (y : UpdateResponse). y.manifests) check)
            (whole_when_ok (p ∷ l) ms.0 ms.1 (ap (λ (y : UpdateResponse). y.status) check ∙ offers)
              sent),
        ap quiet (sym same_w)
            ∙ ap quiet
                (sym (ap (λ (y : Result Error (List Manifest × UpdateStatus) × World). y.1) made))
            ∙ (manifests_of-Keeps {P = λ y. y ≡ quiet w} (p ∷ l)).at w refl,
      )

  -- An offer to a syncer has packages behind it, and no floor among them unless it can take several
  -- manifests.
  pub record IsOffer (l : List Package) : Type 0 where
    pub sent : Sent l u.manifests
    pub kept : quiet w' ≡ quiet w
    pub fits : has_floors l && not app.multi_manifest_ok ≡ false

  answer_ok :
      (y : Result Error (List Package))
      → answer_syncer app r y w ≡ (ok x, w')
      → (l : List Package) × (y ≡ ok l) × IsOffer l
  unfolding answer_syncer
  answer_ok (err e) h = absurd (not_offered (no_package-NotOk r e) h)
  answer_ok (ok []) h = absurd (not_offered (λ e. cc) h)
  answer_ok (ok (p ∷ l)) h = elim (Bool-cases (has_floors (p ∷ l) && not app.multi_manifest_ok)) [
    | inl blocked ↦ absurd (not_offered (λ e. cc) (rw blocked at h))
    | inr free ↦
        let (sent, kept) = multi_ok p l (rw free at h) in
        (p ∷ l, refl, record { sent = sent; kept = kept; fits = free })
  ]

kept_floor :
    (f target : Package) (l : List Package) (o : Option String)
    → f.is_floor ≡ true
    → has_floors (elim o [
      | none ↦ f ∷ l ++ (target ∷ [])
      | some id ↦ if id == target.id then f ∷ l else f ∷ l ++ (target ∷ [])
    ])
      ≡ true
unfolding has_floors
kept_floor f target l none h = ground arith
kept_floor f target l (some id) h = ground arith

-- Floors and a target without a floor are the target.
only_target :
    (floors : List Package) (target : Package)
    → AllFloors floors
    → has_floors (with_target floors target) ≡ false
    → with_target floors target ≡ target ∷ []
unfolding with_target last_id
only_target [] target h n = refl
only_target (f ∷ l) target h n =
    let there = kept_floor f target l (last_id (f ∷ l)) h.0 in absurd (ground (arith, there, n))

-- What a call that is looked at returned.
try_ok :
    {A : Type 0} (m : Action A) (w v : World) {y : Result Error A}
    → try m w ≡ (ok y, v)
    → m w ≡ (y, v)
unfolding try
try_ok m w v h = let (e, f) = result_ok h in cc

module _ (o : Outside) where
  -- What an offer to a syncer went through.
  pub record IsSyncerOffer (app : AppRequest) (inst : Instance) (a : InstanceApplication)
      (u : UpdateResponse) (w w' : World) : Type 0 where
    pub packages : List Package
    pub after : World
    pub granted : get_update_packages_for_syncer o inst a w ≡ (ok packages, after)
    pub synced : IsSynced o inst a packages w after
    pub sent : Sent packages u.manifests
    pub kept : quiet w' ≡ quiet after
    pub alone :
        app.multi_manifest_ok ≡ false
        → (target : Package) × (packages ≡ target ∷ []) × (target.is_floor ≡ false)

  alone_ok :
      (app : AppRequest) (inst : Instance) (a : InstanceApplication) (l : List Package)
      (w v : World)
      → IsSynced o inst a l w v
      → has_floors l && not app.multi_manifest_ok ≡ false
      → app.multi_manifest_ok ≡ false
      → (target : Package) × (l ≡ target ∷ []) × (target.is_floor ≡ false)
  unfolding has_floors
  alone_ok app inst a l w v s h m =
      let none_there : has_floors l ≡ false = ground (arith, h, m) in
      let marked =
        required_floors-AllFloors o s.c.id a.version s.target.version s.after s.selected in
      let e =
        s.complete
        ∙ only_target s.floors s.target marked (ap has_floors (sym s.complete) ∙ none_there) in
      (s.target, e, ground (arith, ap has_floors (sym e) ∙ none_there))

  -- The offer, from what the runtime service returned.
  offer_after :
      (app : AppRequest) (inst : Instance) (a : InstanceApplication) (r x : AppResponse)
      (u : UpdateResponse) (w v w' : World) (y : Result Error (List Package))
      → x.update_check ≡ some u
      → u.status ≡ update_ok
      → get_update_packages_for_syncer o inst a w ≡ (y, v)
      → answer_syncer app r y v ≡ (ok x, w')
      → IsSyncerOffer app inst a u w w'
  offer_after app inst a r x u w v w' y c s returned last =
      let (l, same, offer) = answer_ok app r x u c s v w' y last in
      let granted : get_update_packages_for_syncer o inst a w ≡ (ok l, v) =
        rw (sym same) returned in
      let synced = get_update_packages_for_syncer-IsSynced o inst a l w v granted in
      record {
        packages = l;
        after = v;
        granted = granted;
        synced = synced;
        sent = offer.sent;
        kept = offer.kept;
        alone = alone_ok app inst a l w v synced offer.fits;
      }

  -- A syncer's update check that is answered with an update: the runtime service granted the
  -- packages: of the floors that its channel requires, in their order, as many first ones as one
  -- response may hold, and then the target unless the last of them is the target. There is one
  -- manifest for each of them, in that order, with its version, its files and whether it is a floor,
  -- and the last one alone is the target; sending them changed no table. A syncer that cannot take
  -- several manifests gets a single one, of a target that is no floor.
  pub syncer_check-IsSyncerOffer :
      (req : Request) (app : AppRequest) (inst : Instance) (a : InstanceApplication)
      (r x : AppResponse) (u : UpdateResponse) (w w' : World)
      → is_syncer_client req ≡ true
      → app.has_update_check ≡ true
      → process_update_check o req app inst a r w ≡ (ok x, w')
      → x.update_check ≡ some u
      → u.status ≡ update_ok
      → IsSyncerOffer app inst a u w w'
  unfolding process_update_check
  syncer_check-IsSyncerOffer req app inst a r x u w w' syncer check h c s =
      let m = get_update_packages_for_syncer o inst a in
      let (y, v, tried, last) =
        >>=-eq-ok (try m) (answer_syncer app r) w (rw (check, syncer) at h) in
      offer_after app inst a r x u w v w' y c s (try_ok m w v tried) last
