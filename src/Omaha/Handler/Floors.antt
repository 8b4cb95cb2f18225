-- ===== src/Omaha/Handler/Floors.antt =====
-- omaha.go: floors are sent only to clients that say that they can take several manifests.
use nebraska.Base.{String, ◌≡◌, refl, false, Option, none, some, List, [], ◌∷◌}
use nebraska.Base.{arith, eqb, ◌∙◌, not, ◌&&◌}
use nebraska.Base.Exec.{Result, ok, err}
use nebraska.Types.{
  Error, pkg_type_flatcar, no_update_package_available, update_grant_failed, Package,
}
use nebraska.Db.{try}
use nebraska.Db.Settles.{
  Settles, Gives, Any, IfOk, Settles-pure, Settles-bind, Settles-try, Settles-if, Gives-pure,
  Gives-if, Gives-bind,
}
use nebraska.Reads.Groups.{get_flatcar_action}
use nebraska.Omaha.Messages.{
  AppRequest, UpdateStatus, UpdateResponse, no_update, update_ok, update_internal_error, Manifest,
  AppResponse, new_manifest,
}
use nebraska.Omaha.Manifests.{
  prepare_update_check, prepare_multi_manifest_update_check, with_manifest, manifests_of,
  add_flatcar_action_to_manifest, add_package_to_manifest,
}
use nebraska.Omaha.Manifests.Sent.{SentWith, manifests_of-SentWith}
use nebraska.Omaha.Handler.{has_floors, refuse, no_package, answer_syncer, answer_client}

abbrev pub AllPlain : List Manifest → Type 0
AllPlain [] = Unit
AllPlain (m ∷ ms) = (m.is_floor ≡ false) × AllPlain ms

abbrev PlainCheck : Option UpdateResponse → Type 0
PlainCheck none = Unit
PlainCheck (some u) = AllPlain u.manifests

-- No manifest of a response is marked as a floor.
abbrev pub HasNoFloor : AppResponse → Type 0
HasNoFloor r = PlainCheck r.update_check

-- This holds unless the request allows for several manifests.
abbrev pub Fits : AppRequest → AppResponse → Type 0
Fits app r = app.multi_manifest_ok ≡ false → HasNoFloor r

Plain-SentWith :
    (l : List Package) (ms : List Manifest) (s : UpdateStatus)
    → has_floors l ≡ false
    → SentWith l (ms, s)
    → AllPlain ms
unfolding has_floors
Plain-SentWith l [] s n h = tt
Plain-SentWith [] (m ∷ ms) update_ok n h = absurd h
Plain-SentWith [] (m ∷ ms) update_internal_error n h = absurd h
Plain-SentWith l (m ∷ ms) no_update n h = absurd h
Plain-SentWith (p ∷ l) (m ∷ ms) update_ok n h =
    (ground (arith, h.0.floor), Plain-SentWith l ms update_ok (ground arith) h.1)
Plain-SentWith (p ∷ l) (m ∷ ms) update_internal_error n h =
    (ground (arith, h.0.floor), Plain-SentWith l ms update_internal_error (ground arith) h.1)

multi-HasNoFloor :
    (r : AppResponse) (l : List Package)
    → has_floors l ≡ false
    → Settles HasNoFloor (prepare_multi_manifest_update_check r l)
unfolding prepare_multi_manifest_update_check
multi-HasNoFloor r [] n = Settles-pure tt
multi-HasNoFloor r (p ∷ l) n =
    Settles-bind (manifests_of (p ∷ l)) _ (manifests_of-SentWith (p ∷ l))
      (λ ms h. Settles-pure (Plain-SentWith (p ∷ l) ms.0 ms.1 n h))

multi_returns :
    (r : AppResponse) (l : List Package) → Settles Any (prepare_multi_manifest_update_check r l)
unfolding prepare_multi_manifest_update_check
multi_returns r [] = Settles-pure tt
multi_returns r (p ∷ l) =
    Settles-bind (manifests_of (p ∷ l)) _ (manifests_of-SentWith (p ∷ l)) (λ ms h. Settles-pure tt)

no_package-HasNoFloor : (r : AppResponse) (e : Error) → HasNoFloor (no_package r e)
unfolding no_package refuse
no_package-HasNoFloor r no_update_package_available = tt
no_package-HasNoFloor r update_grant_failed = tt
no_package-HasNoFloor r _ = tt

id-no_package : (r : AppResponse) (e : Error) → (no_package r e).id ≡ r.id
unfolding no_package refuse
id-no_package r no_update_package_available = refl
id-no_package r update_grant_failed = refl
id-no_package r _ = refl

-- A response to an application request.
abbrev pub IsFor : AppRequest → AppResponse → Type 0
IsFor app r = (r.id ≡ app.id) × Fits app r

with_check_IsFor :
    (app : AppRequest) (r : AppResponse) (u : UpdateResponse)
    → r.id ≡ app.id
    → (app.multi_manifest_ok ≡ false → AllPlain u.manifests)
    → IsFor app (record r { update_check = some u })
with_check_IsFor app r u i h = (i, h)

-- Sent to a client that takes several manifests, or free of floors.
pub multi-IsFor :
    (app : AppRequest) (r : AppResponse) (p : Package) (l : List Package)
    → r.id ≡ app.id
    → has_floors (p ∷ l) && not app.multi_manifest_ok ≡ false
    → Settles (IsFor app) (prepare_multi_manifest_update_check r (p ∷ l))
unfolding prepare_multi_manifest_update_check
multi-IsFor app r p l i h =
    Settles-bind (manifests_of (p ∷ l)) _ (manifests_of-SentWith (p ∷ l))
      (λ ms s. Settles-pure (i, λ f. Plain-SentWith (p ∷ l) ms.0 ms.1 (ground (arith, h, f)) s))

pub answer_syncer-IsFor :
    (app : AppRequest) (r : AppResponse) (x : Result Error (List Package))
    → r.id ≡ app.id
    → Settles (IsFor app) (answer_syncer app r x)
unfolding answer_syncer
answer_syncer-IsFor app r (err e) i =
    Settles-pure (id-no_package r e ∙ i, λ f. no_package-HasNoFloor r e)
answer_syncer-IsFor app r (ok []) i = Settles-pure (i, λ f. tt)
answer_syncer-IsFor app r (ok (p ∷ l)) i =
    Settles-if (has_floors (p ∷ l) && not app.multi_manifest_ok)
      (λ blocked. Settles-pure (i, λ f. tt)) (λ free. multi-IsFor app r p l i free)

-- The only manifest of a client's answer is no floor.
plain_single :
    (p : Package) (m : Manifest)
    → m.is_floor ≡ false
    → Gives (λ x. x.is_floor ≡ false) (add_flatcar_action_to_manifest m p)
unfolding add_flatcar_action_to_manifest
plain_single p m h =
    Gives-if (eqb p.type pkg_type_flatcar)
      (Gives-bind (get_flatcar_action p.id) _ λ a. Gives-pure h) (Gives-pure h)

with_manifest-IsFor :
    (app : AppRequest) (r : AppResponse) (url : String) (x : Result Error Manifest)
    → r.id ≡ app.id
    → IfOk (λ m. m.is_floor ≡ false) x
    → IsFor app (with_manifest r url x)
unfolding with_manifest
with_manifest-IsFor app r url (ok m) i h = (i, λ f. (h, tt))
with_manifest-IsFor app r url (err e) i h = (i, λ f. tt)

pub answer_client-IsFor :
    (app : AppRequest) (r : AppResponse) (x : Result Error Package)
    → r.id ≡ app.id
    → Settles (IsFor app) (answer_client r x)
unfolding answer_client prepare_update_check add_package_to_manifest
answer_client-IsFor app r (err e) i =
    Settles-pure (id-no_package r e ∙ i, λ f. no_package-HasNoFloor r e)
answer_client-IsFor app r (ok p) i =
    let m = add_package_to_manifest (new_manifest p.version) p in
    Settles-bind (try (add_flatcar_action_to_manifest m p)) _ (Settles-try (plain_single p m refl))
      (λ x h. Settles-pure (with_manifest-IsFor app r p.url x i h))
