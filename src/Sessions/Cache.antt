-- ===== src/Sessions/Cache.antt =====
-- memcache/memcache.go. A method holds the mutex from its first to its last access, so it is one
-- step on the map. The copier, the random strings and the values themselves are parameters.
pub mod Laws
pub mod Trace
use nebraska.Base.{
  ℕ, ◌+◌, ◌-◌, ◌%◌, ◌^◌, String, Bool, true, false, ◌&&◌, Option, none, some, List, [], ◌==◌,
}
use nebraska.Base.{ltb, eqb, if◌then◌else◌}
use nebraska.Base.Exec.{Result, ok, err, Exec}
use nebraska.Base.Dict
use nebraska.Base.Dict.{Dict}

pub data Fault : Type 0 where
  mismatched_uses corrupted_values copy_failed : Fault

-- `uses` is a uint64.
pub record SessionInfo (Values : Type 0) : Type 0 where
  pub values : Values
  pub uses : ℕ
  pub destroy : Bool

-- `drawn` counts the random strings that were handed out.
pub record MemCache (Values : Type 0) : Type 0 where
  pub sessions : Dict (SessionInfo Values)
  pub drawn : ℕ

-- `ValuesCopier.Copy`, and the strings that `randomString(64)` returns, by the number of the call.
pub record Outside (Values : Type 0) : Type 0 where
  pub copy : Values → Option Values
  pub random_string : ℕ → String

abbrev pub u64_mod : ℕ
u64_mod = 2 ^ 64

-- What a callback does with the entry that it is given: the entry is written back or deleted.
pub data Edit (Values : Type 0) : Type 0 where
  keep : SessionInfo Values → Edit Values
  drop : Edit Values

module _ {Values : Type 0} where
  unfoldable pub init : MemCache Values
  init = record { sessions = []; drawn = 0 }

  store_edit : String → Edit Values → MemCache Values → MemCache Values
  store_edit id (keep info) m = record m { sessions = Dict.insert id info m.sessions }
  store_edit id drop m = record m { sessions = Dict.remove id m.sessions }

  -- `mutateSessionInfo`: nothing happens for the empty id or for an id that is not there.
  mutate_session_info :
      {A : Type 0}
      → String
      → A
      → (SessionInfo Values → A × Edit Values)
      → MemCache Values
      → A × MemCache Values
  unfolding store_edit
  mutate_session_info id missing callback m =
      if id == "" then (missing, m) else elim (Dict.lookup id m.sessions) [
        | none ↦ (missing, m)
        | some info ↦ let (a, edit) = callback info in (a, store_edit id edit m)
      ]

  unfoldable pub get_session_use : String → MemCache Values → MemCache Values
  unfolding mutate_session_info
  get_session_use id m =
      (mutate_session_info id tt
        (λ info. (tt, keep (record info { uses = (info.uses + 1) % u64_mod }))) m).1

  -- The callback of `PutSessionUse`; it panics where the count is 0.
  put_use : SessionInfo Values → Result Fault Unit × Edit Values
  put_use info = if eqb info.uses 0 then (err mismatched_uses, keep info) else (
    ok tt,
    if info.destroy && eqb (info.uses - 1) 0
        then drop
        else keep (record info { uses = info.uses - 1 }),
  )

  unfoldable pub put_session_use : String → Exec Fault (MemCache Values) Unit
  unfolding mutate_session_info put_use
  put_session_use id = mutate_session_info id (ok tt) put_use

  unfoldable pub mark_or_destroy_session_by_id : String → MemCache Values → MemCache Values
  unfolding mutate_session_info
  mark_or_destroy_session_by_id id m =
      (mutate_session_info id tt
        (λ info. (tt, if ltb 0 info.uses then keep (record info { destroy = true }) else drop)) m).1

  unfoldable pub mark_session : String → MemCache Values → MemCache Values
  unfolding mutate_session_info
  mark_session id m =
      (mutate_session_info id tt (λ info. (tt, keep (record info { destroy = true }))) m).1

module _ {Values : Type 0} (out : Outside Values) where
  -- The values of a new session object, or the panic of `newExistingSession`.
  new_existing_session : Values → Result Fault (Option Values)
  new_existing_session values = elim (out.copy values) [
    | none ↦ err corrupted_values
    | some v ↦ ok (some v)
  ]

  -- `GetSessionUseByID`: the copied values of the session, `none` where it returns nil. The count is
  -- raised before the copy, so it stays raised where the copy panics.
  use_by_id : SessionInfo Values → Result Fault (Option Values) × Edit Values
  unfolding new_existing_session
  use_by_id info = if info.destroy then (ok none, keep info) else (
    new_existing_session info.values,
    keep (record info { uses = (info.uses + 1) % u64_mod }),
  )

  unfoldable pub get_session_use_by_id : String → Exec Fault (MemCache Values) (Option Values)
  unfolding mutate_session_info use_by_id
  get_session_use_by_id id = mutate_session_info id (ok none) use_by_id

  -- `SaveSession` on a session with this id and these values: whether it was marked for
  -- destruction, and the id that it has afterwards. `SetID` comes before the copy, so a failed
  -- copy leaves the new id on the session and no entry in the map.
  unfoldable pub save_session :
      String → Values → MemCache Values → Result Fault Bool × String × MemCache Values
  save_session id values m = elim (Dict.lookup id m.sessions) [
    | some info ↦ if info.destroy then (ok true, id, m) else elim (out.copy values) [
      | none ↦ (err copy_failed, id, m)
      | some v ↦ (
        ok false,
        id,
        record m { sessions = Dict.insert id (record info { values = v }) m.sessions },
      )
    ]
    | none ↦
        let id' = out.random_string m.drawn in
        elim (out.copy values) [
          | none ↦ (err copy_failed, id', record m { drawn = m.drawn + 1 })
          | some v ↦ (
            ok false,
            id',
            record {
              sessions =
                  Dict.insert id' (record { values = v; uses = 1; destroy = false }) m.sessions;
              drawn = m.drawn + 1;
            },
          )
        ]
  ]
