-- ===== src/Db.antt =====
-- The database that the runtime service works on, and its statements.
--
-- A table is the list of its rows. Each statement first asks the environment whether it fails: the
-- list `faults` says so for one statement after the other, and what it does not mention succeeds.
-- A read leaves the tables alone; a write that fails does so too. The clock does not move while one
-- request is handled.
pub mod Keeps
pub mod Settles
pub mod Finds
pub mod Runs
use nebraska.Base.{
  ℕ, ◌+◌, String, Bool, true, false, Option, none, some, List, [], ◌∷◌, if◌then◌else◌,
}
use nebraska.Base.Exec.{Result, ok, err, Exec, pure, raise}
use nebraska.Types.{
  Error, database, InstanceApplication, Package, Channel, GroupPolicy, GroupPolicyOverrides,
  Activity, StatusHistoryEntry, GroupDescriptor, FlatcarAction, AdminActivity,
}

pub record InstanceRow : Type 0 where
  pub id : String
  pub ip : String
  pub oem : String
  pub aleph_version : String
  pub alias : String

pub record GroupRow : Type 0 where
  pub id : String
  pub application_id : String
  pub channel_id : Option String
  pub track : String
  pub policy : GroupPolicy

pub record GroupLocalRow : Type 0 where
  pub group_id : String
  pub rollout_in_progress : Bool
  pub overrides : GroupPolicyOverrides

pub record ChannelRow : Type 0 where
  pub id : String
  pub name : String
  pub application_id : String
  pub package_id : Option String
  pub arch : ℕ

-- A row of channel_package_floors.
pub record FloorRow : Type 0 where
  pub channel_id : String
  pub package_id : String
  pub floor_reason : Option String

pub record EventTypeRow : Type 0 where
  pub id : ℕ
  pub type : ℕ
  pub result : ℕ

pub record EventRow : Type 0 where
  pub event_type_id : ℕ
  pub instance_id : String
  pub application_id : String
  pub previous_version : String
  pub error_code : String

pub record ApplicationRow : Type 0 where
  pub id : String
  pub product_id : Option String

-- `packages` holds each package with its blacklist and its extra files joined in; the actions are in
-- a table of their own. What only the frontend shows (names, colours, descriptions, creation times) is
-- left out. The two caches are variables of the process; none is nil.
pub record World : Type 0 where
  pub instances : List InstanceRow
  pub instance_apps : List InstanceApplication
  pub history : List StatusHistoryEntry
  pub groups : List GroupRow
  pub group_locals : List GroupLocalRow
  pub channels : List ChannelRow
  pub packages : List Package
  pub flatcar_actions : List FlatcarAction
  pub floors : List FloorRow
  pub event_types : List EventTypeRow
  pub events : List EventRow
  pub activities : List Activity
  pub admin_activities : List AdminActivity
  pub applications : List ApplicationRow
  pub cached_app_ids : Option (List (String × String))
  pub cached_groups : Option (List (GroupDescriptor × String))
  pub now : ℕ
  pub faults : List Bool

abbrev pub Action : Type 0 → Type 0
Action A = Exec Error World A

-- Whether the next statement fails, and the world without that entry.
abbrev pub fails : List Bool → Bool
fails [] = false
fails (b ∷ rest) = b

abbrev pub later : List Bool → List Bool
later [] = []
later (b ∷ rest) = rest

abbrev pub tick : World → World
tick w = record w { faults = later w.faults }

abbrev pub query_result : {A : Type 0} → Bool → Result Error A → Result Error A
query_result true r = err database
query_result false r = r

-- A read.
unfoldable pub query : {A : Type 0} → (World → Result Error A) → Action A
query f w = (query_result (fails w.faults) (f w), tick w)

-- A write, which the database may refuse by itself (`none`).
abbrev pub exec_outcome : Bool → World → Option World → Result Error Unit × World
exec_outcome true w o = (err database, tick w)
exec_outcome false w none = (err database, tick w)
exec_outcome false w (some w') = (ok tt, tick w')

unfoldable pub exec : (World → Option World) → Action Unit
exec f w = exec_outcome (fails w.faults) w (f w)

-- A value, or an error where there is none.
unfoldable pub or_raise : {A : Type 0} → Error → Option A → Action A
or_raise e none = raise e
or_raise e (some a) = pure a

-- An error that is logged, and then goes unheeded.
unfoldable pub attempt : Action Unit → Action Unit
attempt m w = (ok tt, (m w).1)

-- A call whose error the caller looks at.
unfoldable pub try : {A : Type 0} → Action A → Action (Result Error A)
try m w = let (r, w') = m w in (ok r, w')

-- A write to a variable of the process.
unfoldable pub assign : (World → World) → Action Unit
assign f w = (ok tt, f w)

-- A write that reports how many rows it affected.
unfoldable pub exec_rows : (World → ℕ × World) → Action ℕ
exec_rows f w =
    if fails w.faults then (err database, tick w) else let (n, w') = f w in (ok n, tick w')

-- An error of a callee, reported as another.
unfoldable pub relabel : {A : Type 0} → Error → Action A → Action A
relabel e m w = let (r, w') = m w in elim r [ ok a ↦ (ok a, w') | err e' ↦ (err e, w') ]

-- `if err == nil`: the value, or nothing whatever the error was.
unfoldable pub if_no_error : {A : Type 0} → Action A → Action (Option A)
if_no_error m w = let (r, w') = m w in elim r [ ok a ↦ (ok (some a), w') | err e ↦ (ok none, w') ]

-- The tables as they were, with the statements made since counted.
abbrev pub rolled_back : World → World → World
rolled_back before after = record before { faults = after.faults }

commit_or_roll_back : {A : Type 0} → World → Result Error A × World → Result Error A × World
commit_or_roll_back before (err e, w) = (err e, rolled_back before w)
commit_or_roll_back before (ok a, w) =
    if fails w.faults then (err database, rolled_back before (tick w)) else (ok a, tick w)

-- Begin, the body, and Commit; the deferred Rollback undoes a body that fails. The bodies of the admin
-- service write through the transaction only. Some of their reads go past it, to tables or columns
-- that the body has not written by then, so both see the same.
unfoldable pub transaction : {A : Type 0} → Action A → Action A
unfolding commit_or_roll_back
transaction m w =
    if fails w.faults then (err database, tick w) else commit_or_roll_back w (m (tick w))

-- The first row that fits.
unfoldable pub find {ℓ} : {A : Type ℓ} → (A → Bool) → List A → Option A
find p [] = none
find p (x ∷ xs) = if p x then some x else find p xs

-- UPDATE: every row that fits is changed.
unfoldable pub update_where {ℓ} : {A : Type ℓ} → (A → Bool) → (A → A) → List A → List A
update_where p f [] = []
update_where p f (x ∷ xs) = (if p x then f x else x) ∷ update_where p f xs

unfoldable pub select {ℓ} : {A : Type ℓ} → (A → Bool) → List A → List A
select p [] = []
select p (x ∷ xs) = let rest = select p xs in if p x then x ∷ rest else rest

unfoldable pub count_where {ℓ} : {A : Type ℓ} → (A → Bool) → List A → ℕ
count_where p [] = 0
count_where p (x ∷ xs) = (if p x then 1 else 0) + count_where p xs
