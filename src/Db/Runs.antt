-- ===== src/Db/Runs.antt =====
-- Triples: what an action makes of the tables that satisfy a condition. On a failure, `E` holds.
use nebraska.Base.{
  ◌≡◌, refl, Bool, true, false, Option, none, some, Bool-cases, inl, inr, if◌then◌else◌, ℕ,
}
use nebraska.Base.Exec.{Result, ok, err, pure, raise, gets, continue, ◌>>=◌}
use nebraska.Types.{Error}
use nebraska.Db.{
  World, Action, fails, query, exec, exec_rows, transaction, tick, commit_or_roll_back,
  query_result, try,
}
use nebraska.Db.Keeps.{quiet, Keeps}
use nebraska.Reads.Groups.{optional, row_or_none}

abbrev pub Post :
    {A : Type 0} → (World → Type 0) → (A → World → Type 0) → Result Error A × World → Type 0
Post E Q (ok a, w) = Q a (quiet w)
Post E Q (err e, w) = E (quiet w)

pub record Runs {A : Type 0} (E P : World → Type 0) (m : Action A) (Q : A → World → Type 0)
    : Type 0 where
  pub at : (w : World) → P (quiet w) → Post E Q (m w)

module _ (E : World → Type 0) {A : Type 0} (Q : A → World → Type 0) where
  runs_query :
      (f : World → Result Error A) (w : World) (b : Bool) (r : Result Error A)
      → f w ≡ r
      → ((a : A) → f w ≡ ok a → Q a (quiet w))
      → E (quiet w)
      → Post E Q (query_result b r, tick w)
  runs_query f w true r e k x = x
  runs_query f w false (ok a) e k x = k a e
  runs_query f w false (err y) e k x = x

  transaction_outcome :
      (before : World) (r : Result Error A) (w : World)
      → E (quiet before)
      → Post (λ v. Unit) Q (r, w)
      → Post E Q (commit_or_roll_back before (r, w))
  unfolding commit_or_roll_back
  transaction_outcome before (err e) w x h = x
  transaction_outcome before (ok a) w x h = elim (Bool-cases (fails w.faults)) [
    | inl failed ↦ rw failed x
    | inr fine ↦ rw fine h
  ]

module _ (E P : World → Type 0) {A : Type 0} where
  either_outcome :
      (r : Result Error A) (w : World)
      → P (quiet w)
      → ((v : World) → P v → E v)
      → Post E (λ a. P) (r, w)
  either_outcome (ok a) w h x = h
  either_outcome (err e) w h x = x (quiet w) h

  -- An invariant.
  pub Runs-Keeps : {m : Action A} → Keeps P m → ((w : World) → P w → E w) → Runs E P m (λ a. P)
  Runs-Keeps {m} k x = record { at = λ w h. let (r, v) = m w in either_outcome r v (k.at w h) x }

module _ (P : World → Type 0) {A : Type 0} where
  same_outcome : (r : Result Error A) (w : World) → Post P (λ a. P) (r, w) → P (quiet w)
  same_outcome (ok a) w h = h
  same_outcome (err e) w h = h

  pub Keeps-Runs : (m : Action A) → Runs P P m (λ a. P) → Keeps P m
  Keeps-Runs m r = record { at = λ w h. same_outcome (m w).0 (m w).1 (r.at w h) }

always : {A : Type 0} (r : Result Error A) (w : World) → Post (λ v. Unit) (λ (a : A) v. Unit) (r, w)
always (ok a) w = tt
always (err e) w = tt

-- Where nothing is asked.
pub Runs-any : {A : Type 0} {P : World → Type 0} (m : Action A) → Runs (λ v. Unit) P m (λ a v. Unit)
Runs-any m = record { at = λ w h. always (m w).0 (m w).1 }

-- A condition on the value of a call that is looked at, where there is one.
abbrev pub Tried : {A : Type 0} → (A → World → Type 0) → Result Error A → World → Type 0
Tried Q (ok a) w = Q a w
Tried Q (err e) w = Unit

module _ {A : Type 0} (Q : A → World → Type 0) where
  seen_outcome : (r : Result Error A) (w : World) → Post (λ v. Unit) Q (r, w) → Tried Q r (quiet w)
  seen_outcome (ok a) w h = h
  seen_outcome (err e) w h = tt

  pub Runs-try :
      {P : World → Type 0} (m : Action A)
      → Runs (λ v. Unit) P m Q
      → Runs (λ v. Unit) P (try m) (Tried Q)
  unfolding try
  Runs-try m r = record { at = λ w h. seen_outcome (m w).0 (m w).1 (r.at w h) }

module _ (E : World → Type 0) {A : Type 0} {Q R : A → World → Type 0}
    (k : (a : A) (w : World) → Q a w → R a w) where
  to_outcome : (r : Result Error A) (w : World) → Post E Q (r, w) → Post E R (r, w)
  to_outcome (ok a) w h = k a (quiet w) h
  to_outcome (err e) w h = h

  -- A weaker result.
  pub Runs-to : {P : World → Type 0} (m : Action A) → Runs E P m Q → Runs E P m R
  Runs-to m r = record { at = λ w h. to_outcome (m w).0 (m w).1 (r.at w h) }

module _ (P : World → Type 0) {A : Type 0} (Q : A → World → Type 0) where
  both_outcome :
      (r : Result Error A) (w : World)
      → Post (λ v. Unit) Q (r, w)
      → P (quiet w)
      → Post (λ v. Unit) (λ a v. P v × Q a v) (r, w)
  both_outcome (ok a) w h k = (k, h)
  both_outcome (err e) w h k = tt

  -- An invariant beside a result.
  pub Runs-both :
      (m : Action A)
      → Keeps P m
      → Runs (λ v. Unit) (λ v. Unit) m Q
      → Runs (λ v. Unit) P m (λ a v. P v × Q a v)
  Runs-both m k r = record { at = λ w h. both_outcome (m w).0 (m w).1 (r.at w tt) (k.at w h) }

module _ {E P : World → Type 0} {A : Type 0} {Q : A → World → Type 0} where
  pub Runs-pure : (a : A) → ((w : World) → P w → Q a w) → Runs E P (pure a) Q
  Runs-pure a k = record { at = λ w h. k (quiet w) h }

  pub Runs-gets :
      (f : World → A) → ((w : World) → P (quiet w) → Q (f w) (quiet w)) → Runs E P (gets f) Q
  Runs-gets f k = record { at = λ w h. k w h }

  pub Runs-raise : (e : Error) → ((w : World) → P w → E w) → Runs E P (raise e) Q
  Runs-raise e k = record { at = λ w h. k (quiet w) h }

  pub Runs-if :
      (b : Bool) {m n : Action A}
      → (b ≡ true → Runs E P m Q)
      → (b ≡ false → Runs E P n Q)
      → Runs E P (if b then m else n) Q
  Runs-if true km kn = km refl
  Runs-if false km kn = kn refl

  pub Runs-query :
      (f : World → Result Error A)
      → ((w : World) (a : A) → P (quiet w) → f w ≡ ok a → Q a (quiet w))
      → ((w : World) → P w → E w)
      → Runs E P (query f) Q
  unfolding query
  Runs-query f k x = record {
    at = λ w h. runs_query E Q f w (fails w.faults) (f w) refl (λ a e. k w a h e) (x (quiet w) h);
  }

  -- What an action does from a stronger condition, and to a weaker one.
  pub Runs-from :
      {R : World → Type 0} {m : Action A} → ((w : World) → R w → P w) → Runs E P m Q → Runs E R m Q
  Runs-from k r = record { at = λ w h. r.at w (k (quiet w) h) }

  -- A body that fails leaves no trace.
  pub Runs-transaction :
      {m : Action A}
      → Runs (λ v. Unit) P m Q
      → ((w : World) → P w → E w)
      → Runs E P (transaction m) Q
  unfolding transaction
  Runs-transaction {m} r x = record {
    at = λ w h. elim (Bool-cases (fails w.faults)) [
      | inl failed ↦ rw failed (x (quiet w) h)
      | inr fine ↦ rw fine (
          let (y, v) = m (tick w) in
          transaction_outcome E Q w y v (x (quiet w) h) (r.at (tick w) h))
    ];
  }

module _ (E : World → Type 0) {A : Type 0} (Q : Option A → World → Type 0) where
  optional_outcome :
      (w : World) (b : Bool) (o : Option A)
      → E (quiet w)
      → Q o (quiet w)
      → Post E Q (optional (λ v. (query_result b (row_or_none o), tick w)) w)
  unfolding optional
  optional_outcome w true o x q = x
  optional_outcome w false none x q = q
  optional_outcome w false (some a) x q = q

module _ {E P : World → Type 0} {A : Type 0} {Q : Option A → World → Type 0} where
  -- A row that may be missing.
  pub Runs-optional :
      (f : World → Option A)
      → ((w : World) → P (quiet w) → Q (f w) (quiet w))
      → ((w : World) → P w → E w)
      → Runs E P (optional (query (λ w. row_or_none (f w)))) Q
  unfolding optional query
  Runs-optional f k x = record {
    at = λ w h. optional_outcome E Q w (fails w.faults) (f w) (x (quiet w) h) (k w h);
  }

module _ {E P : World → Type 0} {Q : Unit → World → Type 0} where
  pub Runs-exec :
      (f : World → World)
      → ((w : World) → P (quiet w) → Q tt (quiet (f w)))
      → ((w : World) → P w → E w)
      → Runs E P (exec (λ w. some (f w))) Q
  unfolding exec
  Runs-exec f k x = record {
    at = λ w h. elim (Bool-cases (fails w.faults)) [
      | inl failed ↦ rw failed (x (quiet w) h)
      | inr fine ↦ rw fine (k w h)
    ];
  }

module _ {E P : World → Type 0} {Q : ℕ → World → Type 0} where
  pub Runs-exec_rows :
      (f : World → ℕ × World)
      → ((w : World) → P (quiet w) → Q (f w).0 (quiet (f w).1))
      → ((w : World) → P w → E w)
      → Runs E P (exec_rows f) Q
  unfolding exec_rows
  Runs-exec_rows f k x = record {
    at = λ w h. elim (Bool-cases (fails w.faults)) [
      | inl failed ↦ rw failed (x (quiet w) h)
      | inr fine ↦ rw fine (k w h)
    ];
  }

module _ (E : World → Type 0) {A B : Type 0} (R : A → World → Type 0) (Q : B → World → Type 0) where
  runs_continue :
      (r : Result Error A) (f : A → Action B) (w : World)
      → Post E R (r, w)
      → ((a : A) → Runs E (R a) (f a) Q)
      → Post E Q (continue r f w)
  runs_continue (ok a) f w h k = (k a).at w h
  runs_continue (err e) f w h k = h

module _ {E P : World → Type 0} {A B : Type 0} {R : A → World → Type 0}
    {Q : B → World → Type 0} where
  pub Runs-bind :
      (m : Action A) (f : A → Action B)
      → Runs E P m R
      → ((a : A) → Runs E (R a) (f a) Q)
      → Runs E P (m >>= f) Q
  unfolding ◌>>=◌
  Runs-bind m f r k = record {
    at = λ w h. let (y, v) = m w in runs_continue E R Q y f v (r.at w h) k;
  }
