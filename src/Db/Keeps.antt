-- ===== src/Db/Keeps.antt =====
-- Invariants of the tables, one rule for each way to build a handler. Since a statement may fail,
-- each rule holds whatever `faults` says.
use mathlib.Core.Path.{subst}
use mathlib.Core.Option.{none-ne-some, some-injective}
use nebraska.Base.{
  ℕ, ◌≡◌, Bool, true, false, Option, none, some, [], refl, arith, Bool-cases, inl, inr,
  if◌then◌else◌,
}
use nebraska.Base.Exec.{Result, ok, err, pure, raise, gets, continue, ◌>>=◌}
use nebraska.Types.{Error}
use nebraska.Reads.Groups.{optional}
use nebraska.Db.{
  World, Action, fails, query, exec, exec_rows, relabel, if_no_error, or_raise, attempt,
  transaction, assign, try, tick, commit_or_roll_back, exec_outcome,
}

-- The tables and the clock.
abbrev pub quiet : World → World
quiet w = record w { faults = [] }

-- Whether the handler returns or fails, the tables that it leaves satisfy `P` if they did before.
pub record Keeps {A : Type 0} (P : World → Type 0) (m : Action A) : Type 0 where
  pub at : (w : World) → P (quiet w) → P (quiet (m w).1)

module _ {P : World → Type 0} {A : Type 0} where
  pub Keeps-pure : (a : A) → Keeps P (pure a)
  Keeps-pure a = record { at = λ w h. h }

  pub Keeps-raise : (e : Error) → Keeps P (raise {A = A} e)
  Keeps-raise e = record { at = λ w h. h }

  pub Keeps-gets : (f : World → A) → Keeps P (gets f)
  Keeps-gets f = record { at = λ w h. h }

  pub Keeps-query : (f : World → Result Error A) → Keeps P (query f)
  unfolding query
  Keeps-query f = record { at = λ w h. h }

  pub Keeps-or_raise : (e : Error) (o : Option A) → Keeps P (or_raise e o)
  unfolding or_raise
  Keeps-or_raise e none = Keeps-raise e
  Keeps-or_raise e (some a) = Keeps-pure a

  pub Keeps-if : (b : Bool) (m n : Action A) → Keeps P m → Keeps P n → Keeps P (if b then m else n)
  Keeps-if true m n km kn = km
  Keeps-if false m n km kn = kn

module _ {A : Type 0} where
  world-relabel : (e : Error) (m : Action A) (w : World) → (relabel e m w).1 ≡ (m w).1
  unfolding relabel
  world-relabel e m w = ground arith

  world-if_no_error : (m : Action A) (w : World) → (if_no_error m w).1 ≡ (m w).1
  unfolding if_no_error
  world-if_no_error m w = ground arith

  world-optional : (m : Action A) (w : World) → (optional m w).1 ≡ (m w).1
  unfolding optional
  world-optional m w = ground arith

module _ {P : World → Type 0} {A : Type 0} (m : Action A) (km : Keeps P m) where
  pub Keeps-relabel : (e : Error) → Keeps P (relabel e m)
  Keeps-relabel e = record { at = λ w h. rw (world-relabel e m w) (km.at w h) }

  pub Keeps-if_no_error : Keeps P (if_no_error m)
  Keeps-if_no_error = record { at = λ w h. rw (world-if_no_error m w) (km.at w h) }

  pub Keeps-try : Keeps P (try m)
  unfolding try
  Keeps-try = record { at = λ w h. km.at w h }

  pub Keeps-optional : Keeps P (optional m)
  Keeps-optional = record { at = λ w h. rw (world-optional m w) (km.at w h) }

module _ (P : World → Type 0) where
  exec_cases :
      (b : Bool) (w : World) (o : Option World)
      → P (quiet w)
      → ((w' : World) → o ≡ some w' → P (quiet w'))
      → P (quiet (exec_outcome b w o).1)
  exec_cases true w o h k = h
  exec_cases false w none h k = h
  exec_cases false w (some w') h k = k w' refl

module _ {P : World → Type 0} where
  pub Keeps-attempt : (m : Action Unit) → Keeps P m → Keeps P (attempt m)
  unfolding attempt
  Keeps-attempt m km = record { at = λ w h. km.at w h }

  pub Keeps-assign :
      (f : World → World) → ((w : World) → P (quiet w) → P (quiet (f w))) → Keeps P (assign f)
  unfolding assign
  Keeps-assign f k = record { at = λ w h. k w h }

  pub Keeps-exec :
      (f : World → Option World)
      → ((w w' : World) → P (quiet w) → f w ≡ some w' → P (quiet w'))
      → Keeps P (exec f)
  unfolding exec
  Keeps-exec f k = record {
    at = λ w h. exec_cases P (fails w.faults) w (f w) h (λ w' e. k w w' h e);
  }

  -- A write that always has a result, and one that the database refuses unless a test holds.
  pub Keeps-exec-some :
      (f : World → World)
      → ((w : World) → P (quiet w) → P (quiet (f w)))
      → Keeps P (exec (λ w. some (f w)))
  Keeps-exec-some f k =
      Keeps-exec (λ w. some (f w))
        λ w w' h e. subst (λ x. P (quiet x)) (some-injective _ _ e) (k w h)

  pub Keeps-exec_if :
      (b : Bool) (f : World → World)
      → ((w : World) → P (quiet w) → P (quiet (f w)))
      → Keeps P (exec (λ w. if b then some (f w) else none))
  Keeps-exec_if true f k = Keeps-exec-some f k
  Keeps-exec_if false f k = Keeps-exec (λ w. none) λ w w' h e. absurd (none-ne-some _ e)

  pub Keeps-exec_rows :
      (f : World → ℕ × World)
      → ((w : World) → P (quiet w) → P (quiet (f w).1))
      → Keeps P (exec_rows f)
  unfolding exec_rows
  Keeps-exec_rows f k = record {
    at = λ w h. elim (Bool-cases (fails w.faults)) [
      | inl failed ↦ rw failed h
      | inr fine ↦ rw fine (k w h)
    ];
  }

module _ {P : World → Type 0} {A B : Type 0} where
  keeps_continue :
      (r : Result Error A) (f : A → Action B) (w : World)
      → P (quiet w)
      → ((a : A) → Keeps P (f a))
      → P (quiet (continue r f w).1)
  keeps_continue (ok a) f w h kf = (kf a).at w h
  keeps_continue (err e) f w h kf = h

  pub Keeps-bind :
      (m : Action A) (f : A → Action B) → Keeps P m → ((a : A) → Keeps P (f a)) → Keeps P (m >>= f)
  unfolding ◌>>=◌
  Keeps-bind m f km kf = record {
    at = λ w h. let (r, w') = m w in keeps_continue r f w' (km.at w h) kf;
  }

module _ (P : World → Type 0) {A : Type 0} where
  keeps_commit :
      (before : World) (r : Result Error A) (w : World)
      → P (quiet before)
      → P (quiet w)
      → P (quiet (commit_or_roll_back before (r, w)).1)
  unfolding commit_or_roll_back
  keeps_commit before (err e) w hb h = hb
  keeps_commit before (ok a) w hb h = elim (Bool-cases (fails w.faults)) [
    | inl failed ↦ rw failed hb
    | inr fine ↦ rw fine h
  ]

module _ {P : World → Type 0} {A : Type 0} where
  pub Keeps-transaction : (m : Action A) → Keeps P m → Keeps P (transaction m)
  unfolding transaction
  Keeps-transaction m km = record {
    at = λ w h. elim (Bool-cases (fails w.faults)) [
      | inl failed ↦ rw failed h
      | inr fine ↦ rw fine (let (r, w') = m (tick w) in keeps_commit P w r w' h (km.at (tick w) h))
    ];
  }

pub ruleset keeps_rules = (
  Keeps-pure, Keeps-raise, Keeps-gets, Keeps-query, Keeps-or_raise, Keeps-if, Keeps-relabel,
  Keeps-if_no_error, Keeps-optional, Keeps-attempt, Keeps-try, Keeps-bind, Keeps-transaction,
)
