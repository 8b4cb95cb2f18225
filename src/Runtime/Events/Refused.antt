-- ===== src/Runtime/Events/Refused.antt =====
-- Events that are refused.
use nebraska.Base.{ℕ, String, ◌≡◌, ◌≢◌, refl, sym, ◌∙◌, ap, Bool, true, false, some, arith}
use nebraska.Base.{if◌then◌else◌, Bool-cases, inl, inr}
use nebraska.Base.Exec.{Result, err, raise, ◌>>=◌, >>=-eq-err}
use nebraska.Types.{Error, flatcar_event_ignored, Instance}
use nebraska.Db.{World, Action, exec, attempt, relabel, fails}
use nebraska.Db.Keeps.{quiet, Keeps, keeps_rules}
use nebraska.Reads.Outside.{Outside}
use nebraska.Runtime.Sound.Handlers.{validate-Keeps, get_instance-Keeps}
use nebraska.Runtime.Events.{Subject, record_event, accept_event, register_event}

-- Where the action fails, with another error than that of an ignored event, the tables are unchanged.
pub record Refuses {A : Type 0} (m : Action A) : Type 0 where
  pub unchanged :
      (w w' : World) (e : Error)
      → m w ≡ (err e, w')
      → e ≢ flatcar_event_ignored
      → quiet w' ≡ quiet w

module _ {A B : Type 0} where
  -- A first part that changes nothing, and then one that changes nothing where it fails.
  Refuses-bind :
      (m : Action A) (f : A → Action B)
      → ((P : World → Type 0) → Keeps P m)
      → ((a : A) → Refuses (f a))
      → Refuses (m >>= f)
  Refuses-bind m f reads later = record {
    unchanged = λ w w' e h other. elim (>>=-eq-err m f w h) [
      | inl failed ↦
          ap quiet (sym (ap (λ (p : Result Error A × World). p.1) failed))
          ∙ (reads (λ x. x ≡ quiet w)).at w refl
      | inr (a, u, passed, rest) ↦
          (later a).unchanged u w' e rest other
          ∙ ap quiet (sym (ap (λ (p : Result Error A × World). p.1) passed))
          ∙ (reads (λ x. x ≡ quiet w)).at w refl
    ];
  }

Refuses-raise : {A : Type 0} (e : Error) → Refuses (raise {A = A} e)
Refuses-raise e = record { unchanged = λ w w' e' h other. ground arith }

write_fails :
    (e x : Error) (f : World → World) (w w' : World)
    → relabel e (exec (λ v. some (f v))) w ≡ (err x, w')
    → quiet w' ≡ quiet w
unfolding relabel exec
write_fails e x f w w' h = elim (Bool-cases (fails w.faults)) [
  | inl failed ↦ ground (arith, failed)
  | inr fine ↦ ground (arith, fine)
]

attempt_returns :
    (m : Action Unit) (w : World) {x : Error} {w' : World} → attempt m w ≡ (err x, w') → ⊥
unfolding attempt
attempt_returns m w h = ground arith

-- One write, and then consequences that never fail.
Refuses-write :
    (e : Error) (f : World → World) (m : Action Unit)
    → Refuses (relabel e (exec (λ w. some (f w))) >>= λ _. attempt m)
Refuses-write e f m = record {
  unchanged = λ w w' x h other.
      elim (>>=-eq-err (relabel e (exec (λ v. some (f v)))) (λ _. attempt m) w h) [
        | inl failed ↦ write_fails e x f w w' failed
        | inr (a, u, passed, rest) ↦ absurd (attempt_returns m u rest)
      ];
}

Refuses-if :
    {A : Type 0} (b : Bool) (m n : Action A) → Refuses m → Refuses n → Refuses (if b then m else n)
Refuses-if true m n km kn = km
Refuses-if false m n km kn = kn

-- What is ignored on purpose fails with its own error.
Refuses-ignore :
    {A : Type 0} (m : Action Unit)
    → Refuses {A = A} (attempt m >>= λ _. raise flatcar_event_ignored)
unfolding attempt ◌>>=◌
Refuses-ignore m = record { unchanged = λ w w' e h other. absurd (other (ground arith)) }

module _ (o : Outside) where
  record_event-Refuses :
      (s : Subject) (i : Instance) (t r : ℕ) (p e : String) → Refuses (record_event o s i t r p e)
  unfolding record_event
  record_event-Refuses s i t r p e =
      Refuses-bind _ _ (λ P. search keeps_rules) (λ row. Refuses-write _ _ _)

  accept_event-Refuses :
      (s : Subject) (i : Instance) (t r : ℕ) (p e : String) → Refuses (accept_event o s i t r p e)
  unfolding accept_event
  accept_event-Refuses s i t r p e =
      search (Refuses-raise, Refuses-if, Refuses-ignore, record_event-Refuses) depth 8

  register_event-Refuses :
      (i a g : String) (t r : ℕ) (p e : String) → Refuses (register_event o i a g t r p e)
  unfolding register_event
  register_event-Refuses i a g t r p e =
      Refuses-bind _ _ (λ P. validate-Keeps o a g)
        λ ids.
          Refuses-bind _ _ (λ P. search (keeps_rules, get_instance-Keeps))
            λ known. accept_event-Refuses _ known t r p e

  -- An event that is refused with any error but that of an ignored Flatcar event leaves every table
  -- as it was, whatever statement failed: nothing is half recorded.
  pub refused_event :
      (i a g : String) (t r : ℕ) (p e : String) (w w' : World) (x : Error)
      → register_event o i a g t r p e w ≡ (err x, w')
      → x ≢ flatcar_event_ignored
      → quiet w' ≡ quiet w
  refused_event i a g t r p e w w' x h other =
      (register_event-Refuses i a g t r p e).unchanged w w' x h other
