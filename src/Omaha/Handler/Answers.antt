-- ===== src/Omaha/Handler/Answers.antt =====
-- omaha.go: `buildOmahaResponse` answers every request.
use nebraska.Base.{String, ◌≡◌, refl, Option, none, some, List, [], ◌∷◌}
use nebraska.Base.{◌+◌, ◌⊎◌, inl, inr, not}
use nebraska.Base.Exec.{Result, ok, err}
use nebraska.Types.{Error, InstanceApplication, Instance}
use nebraska.Db.{World, Action, try, attempt}
use nebraska.Db.Settles.{
  Settles, Settles-pure, Settles-bind, Settles-try, Settles-if, Settles-attempt, Gives-Any,
}
use nebraska.Reads.Outside.{Outside}
use nebraska.Reads.Lookups.{get_app_id, get_group_id}
use nebraska.Runtime.Instances.{register_instance}
use nebraska.Runtime.Updates.{get_update_package, get_update_packages_for_syncer}
use nebraska.Omaha.Messages.{
  AppRequest, Request, UpdateResponse, update_internal_error, AppResponse, EventRequest, new_app,
  app_ok,
}
use nebraska.Omaha.Handler.{
  Step, done, next, refuse, is_syncer_client, instance_of, new_instance_application, track_name,
  get_arch, process_event, process_events, process_ping, process_update_check, serve, serve_app,
  handle_app, go_on, handle_apps, build_omaha_response,
}
use nebraska.Omaha.Handler.Floors.{IsFor, answer_syncer-IsFor, answer_client-IsFor}

module _ (o : Outside) where
  process_events-IsFor :
      (app : AppRequest) (m a g : String) (l : List EventRequest) (r : AppResponse)
      → IsFor app r
      → Settles (IsFor app) (process_events o m a g l r)
  unfolding process_events
  process_events-IsFor app m a g [] r h = Settles-pure h
  process_events-IsFor app m a g (e ∷ l) r h =
      Settles-bind (attempt (process_event o m a g e)) _ (Settles-attempt (process_event o m a g e))
        (λ u k. process_events-IsFor app m a g l (record r { events = r.events + 1 }) h)

  process_ping-IsFor :
      (app : AppRequest) (i : Instance) (a : InstanceApplication) (r : AppResponse)
      → IsFor app r
      → Settles (IsFor app) (process_ping o app i a r)
  unfolding process_ping
  process_ping-IsFor app i a r h =
      Settles-if app.has_ping
        (λ e.
          Settles-bind (try (register_instance o i a)) _
            (Settles-try (Gives-Any (register_instance o i a))) (λ x k. Settles-pure h))
        (λ e. Settles-pure h)

  process_update_check-IsFor :
      (req : Request) (app : AppRequest) (i : Instance) (a : InstanceApplication) (r : AppResponse)
      → IsFor app r
      → Settles (IsFor app) (process_update_check o req app i a r)
  unfolding process_update_check
  process_update_check-IsFor req app i a r h =
      Settles-if (not app.has_update_check) (λ e. Settles-pure h)
        (λ e.
          Settles-if (is_syncer_client req)
            (λ s.
              Settles-bind (try (get_update_packages_for_syncer o i a)) _
                (Settles-try (Gives-Any (get_update_packages_for_syncer o i a)))
                (λ x k. answer_syncer-IsFor app r x h.0))
            (λ s.
              Settles-bind (try (get_update_package o i a)) _
                (Settles-try (Gives-Any (get_update_package o i a)))
                (λ x k. answer_client-IsFor app r x h.0)))

  -- The answer to one application; the one that ends a request is a failed update check.
  abbrev IsFailed : Option UpdateResponse → Type 0
  IsFailed none = ⊥
  IsFailed (some u) = u.status ≡ update_internal_error

  abbrev pub StepFor : AppRequest → Step → Type 0
  StepFor app (done r) = IsFor app r × IsFailed r.update_check
  StepFor app (next r) = IsFor app r

  serve-StepFor :
      (req : Request) (ip : String) (app : AppRequest) (app_id : String) (r : AppResponse)
      (g : Result Error String)
      → IsFor app r
      → Settles (StepFor app) (serve o req ip app app_id r g)
  unfolding serve refuse
  serve-StepFor req ip app app_id r (err e) h = Settles-pure ((h.0, λ f. tt), refl)
  serve-StepFor req ip app app_id r (ok g) h =
      let i = instance_of app ip in
      let a = new_instance_application app_id g app.version in
      Settles-bind (process_events o app.machine_id app_id g app.events r) _
        (process_events-IsFor app app.machine_id app_id g app.events r h)
        (λ r1 h1.
          Settles-bind (process_ping o app i a r1) _ (process_ping-IsFor app i a r1 h1) (λ r2 h2.
            Settles-bind (process_update_check o req app i a r2) _
              (process_update_check-IsFor req app i a r2 h2) (λ r3 h3. Settles-pure h3)))

  serve_app-StepFor :
      (req : Request) (ip : String) (app : AppRequest) (x : Result Error String)
      → Settles (StepFor app) (serve_app o req ip app x)
  unfolding serve_app refuse
  serve_app-StepFor req ip app (err e) = Settles-pure ((refl, λ f. tt), refl)
  serve_app-StepFor req ip app (ok app_id) =
      let m = get_group_id app_id (track_name app.track) (get_arch req.os_arch app) in
      Settles-bind (try m) _ (Settles-try (Gives-Any m))
        (λ g k. serve-StepFor req ip app app_id (new_app app.id app_ok) g (refl, λ f. tt))

  handle_app-StepFor :
      (req : Request) (ip : String) (app : AppRequest)
      → Settles (StepFor app) (handle_app o req ip app)
  unfolding handle_app
  handle_app-StepFor req ip app =
      Settles-bind (try (get_app_id o app.id)) _ (Settles-try (Gives-Any (get_app_id o app.id)))
        (λ x k. serve_app-StepFor req ip app x)

  -- An answer for each application, up to one that is a failed update check.
  abbrev pub Answers : List AppRequest → List AppResponse → Type 0
  Answers [] [] = Unit
  Answers [] (r ∷ rs) = ⊥
  Answers (app ∷ l) [] = ⊥
  Answers (app ∷ l) (r ∷ rs) = IsFor app r × (Answers l rs ⊎ ((rs ≡ []) × IsFailed r.update_check))

  go_on-Answers :
      (app : AppRequest) (l : List AppRequest) (s : Step) (rest : Action (List AppResponse))
      → StepFor app s
      → Settles (Answers l) rest
      → Settles (Answers (app ∷ l)) (go_on o s rest)
  unfolding go_on
  go_on-Answers app l (done r) rest h k = Settles-pure (h.0, inr (refl, h.1))
  go_on-Answers app l (next r) rest h k = Settles-bind rest _ k (λ more a. Settles-pure (h, inl a))

  handle_apps-Answers :
      (req : Request) (ip : String) (l : List AppRequest)
      → Settles (Answers l) (handle_apps o req ip l)
  unfolding handle_apps
  handle_apps-Answers req ip [] = Settles-pure tt
  handle_apps-Answers req ip (app ∷ l) =
      Settles-bind (handle_app o req ip app) _ (handle_app-StepFor req ip app)
        (λ s h. go_on-Answers app l s (handle_apps o req ip l) h (handle_apps-Answers req ip l))

  -- A request is always answered, whatever the tables hold and whichever statements fail: its
  -- applications are answered in their order, each with its id, all of them or up to one whose
  -- update check is a failed one. An application that does not allow for
  -- several manifests is never sent a manifest that is marked as a floor.
  pub request-Answers :
      (req : Request) (ip : String) (w : World)
      → (l : List AppResponse) × (w' : World) × (build_omaha_response o req ip w ≡ (ok l, w'))
        × Answers req.apps l
  unfolding build_omaha_response
  request-Answers req ip w = (handle_apps-Answers req ip req.apps).at w
