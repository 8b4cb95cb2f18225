-- ===== src/Omaha/Manifests/Sent.antt =====
-- What the manifests of a response say of the packages that they are made for.
use nebraska.Base.{◌≡◌, refl, Bool, List, [], ◌∷◌, map}
use nebraska.Base.{eqb}
use nebraska.Base.Exec.{Result, ok, err}
use nebraska.Types.{Package, pkg_type_flatcar}
use nebraska.Db.{Action, try}
use nebraska.Db.Settles.{
  Settles, Gives, IfOk, Settles-pure, Settles-bind, Settles-try, Gives-pure, Gives-if, Gives-bind,
}
use nebraska.Reads.Groups.{get_flatcar_action}
use nebraska.Omaha.Messages.{
  UpdateStatus, no_update, update_ok, update_internal_error, Manifest, new_manifest,
}
use nebraska.Omaha.Manifests.{
  main_package, extra_package, add_package_to_manifest, add_flatcar_action_to_manifest, with_flags,
  is_empty, add_rest, manifests_of,
}

-- A manifest for a package, which may be the last one.
pub record Describes (p : Package) (is_last : Bool) (m : Manifest) : Type 0 where
  pub version : m.version ≡ p.version
  pub files : m.packages ≡ main_package p ∷ map extra_package p.extra_files
  pub floor : m.is_floor ≡ p.is_floor
  pub target : m.is_target ≡ is_last

-- A manifest for each package, in order, the last one as the target.
abbrev pub Sent : List Package → List Manifest → Type 0
Sent [] [] = Unit
Sent [] (m ∷ ms) = ⊥
Sent (p ∷ l) [] = ⊥
Sent (p ∷ l) (m ∷ ms) = Describes p (is_empty l) m × Sent l ms

-- The same for some first packages, none of them as the target unless it is the last of all.
abbrev pub SentSome : List Package → List Manifest → Type 0
SentSome l [] = Unit
SentSome [] (m ∷ ms) = ⊥
SentSome (p ∷ l) (m ∷ ms) = Describes p (is_empty l) m × SentSome l ms

abbrev pub SentWith : List Package → List Manifest × UpdateStatus → Type 0
SentWith l (ms, update_ok) = Sent l ms
SentWith l (ms, update_internal_error) = SentSome l ms
SentWith l (ms, no_update) = ⊥

module _ (p : Package) (b : Bool) where
  add_action-Describes :
      (m : Manifest) → Describes p b m → Gives (Describes p b) (add_flatcar_action_to_manifest m p)
  unfolding add_flatcar_action_to_manifest
  add_action-Describes m d =
      Gives-if (eqb p.type pkg_type_flatcar)
        (Gives-bind (get_flatcar_action p.id) _ λ a.
          Gives-pure
            (record { version = d.version; files = d.files; floor = d.floor; target = d.target }))
        (Gives-pure d)

  flagged-Describes :
      Describes p b (add_package_to_manifest (with_flags p b (new_manifest p.version)) p)
  unfolding add_package_to_manifest with_flags
  flagged-Describes = record { version = refl; files = refl; floor = refl; target = refl }

sent_more :
    (p : Package) (l : List Package) (m : Manifest) (more : List Manifest × UpdateStatus)
    → Describes p (is_empty l) m
    → SentWith l more
    → SentWith (p ∷ l) (m ∷ more.0, more.1)
sent_more p l m (ms, update_ok) d h = (d, h)
sent_more p l m (ms, update_internal_error) d h = (d, h)
sent_more p l m (ms, no_update) d h = h

add_rest-SentWith :
    (p : Package) (l : List Package) (plain : Manifest) (r : Result _ Manifest)
    (rest : Action (List Manifest × UpdateStatus))
    → Describes p (is_empty l) plain
    → IfOk (Describes p (is_empty l)) r
    → Settles (SentWith l) rest
    → Settles (SentWith (p ∷ l)) (add_rest plain r rest)
unfolding add_rest
add_rest-SentWith p l plain (ok m) rest d h k =
    Settles-bind rest _ k (λ more s. Settles-pure (sent_more p l m more h s))
add_rest-SentWith p l plain (err e) rest d h k = Settles-pure (d, tt)

-- The loop over the packages always returns, with manifests for the packages in their order.
pub manifests_of-SentWith : (l : List Package) → Settles (SentWith l) (manifests_of l)
unfolding manifests_of
manifests_of-SentWith [] = Settles-pure tt
manifests_of-SentWith (p ∷ l) =
    let plain = add_package_to_manifest (with_flags p (is_empty l) (new_manifest p.version)) p in
    let flagged = flagged-Describes p (is_empty l) in
    Settles-bind (try (add_flatcar_action_to_manifest plain p)) _
      (Settles-try (add_action-Describes p (is_empty l) plain flagged))
      (λ r h. add_rest-SentWith p l plain r (manifests_of l) flagged h (manifests_of-SentWith l))
