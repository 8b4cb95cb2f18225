-- ===== src/Sessions/Cache/Laws.antt =====
-- What each method of the cache does to every entry of the map.
use nebraska.Base.{◌+◌, ◌-◌, ◌%◌, String, ◌≡◌, ◌∙◌, ◌≢◌, true, false, ◌&&◌, Option, none, some}
use nebraska.Base.{◌==◌, eq_iff, arith, inl, inr, Option-cases, ltb, eqb, if◌then◌else◌}
use nebraska.Base.Exec.{Result, ok, err}
use nebraska.Base.Dict
use nebraska.Sessions.Cache.{
  SessionInfo, MemCache, Outside, Fault, mismatched_uses, corrupted_values, u64_mod,
  get_session_use, put_session_use, mark_or_destroy_session_by_id, mark_session,
  get_session_use_by_id, save_session, new_existing_session, Edit, keep, drop, store_edit,
  mutate_session_info,
}

module _ {Values : Type 0} where
  abbrev pub entry : String → MemCache Values → Option (SessionInfo Values)
  entry id m = Dict.lookup id m.sessions

  abbrev pub bump : SessionInfo Values → SessionInfo Values
  bump info = record info { uses = (info.uses + 1) % u64_mod }

  abbrev pub bumped : Option (SessionInfo Values) → Option (SessionInfo Values)
  bumped none = none
  bumped (some info) = some (bump info)

  abbrev pub released : Option (SessionInfo Values) → Option (SessionInfo Values)
  released none = none
  released (some info) =
      if eqb info.uses 0
      then some info
      else if info.destroy && eqb (info.uses - 1) 0
      then none
      else some (record info { uses = info.uses - 1 })

  abbrev pub marked : Option (SessionInfo Values) → Option (SessionInfo Values)
  marked none = none
  marked (some info) = some (record info { destroy = true })

  abbrev pub dropped : Option (SessionInfo Values) → Option (SessionInfo Values)
  dropped none = none
  dropped (some info) = if ltb 0 info.uses then some (record info { destroy = true }) else none

  abbrev pub reused : Option (SessionInfo Values) → Option (SessionInfo Values)
  reused none = none
  reused (some info) = if info.destroy then some info else some (bump info)

  abbrev pub put_answer : Option (SessionInfo Values) → Result Fault Unit
  put_answer none = ok tt
  put_answer (some info) = if eqb info.uses 0 then err mismatched_uses else ok tt

  abbrev pub use_answer :
      Outside Values → Option (SessionInfo Values) → Result Fault (Option Values)
  use_answer out none = ok none
  use_answer out (some info) =
      if info.destroy
      then ok none
      else elim (out.copy info.values) [ none ↦ err corrupted_values | some v ↦ ok (some v) ]

  abbrev applied : Edit Values → Option (SessionInfo Values)
  applied (keep info) = some info
  applied drop = none

  entry-store_edit :
      (id j : String) (edit : Edit Values) (m : MemCache Values)
      → entry j (store_edit id edit m) ≡ (if id == j then applied edit else entry j m)
  unfolding store_edit
  entry-store_edit id j (keep info) m = Dict.lookup-insert id j info m.sessions
  entry-store_edit id j drop m = Dict.lookup-remove id j m.sessions

  module _ {A : Type 0} (missing : A) (callback : SessionInfo Values → A × Edit Values) where
    abbrev edited : Option (SessionInfo Values) → Option (SessionInfo Values)
    edited none = none
    edited (some info) = applied (callback info).1

    abbrev answered : Option (SessionInfo Values) → A
    answered none = missing
    answered (some info) = (callback info).0

    mutate-answer :
        (id : String) (m : MemCache Values)
        → id ≢ ""
        → (mutate_session_info id missing callback m).0 ≡ answered (entry id m)
    unfolding mutate_session_info
    mutate-answer id m h = ground (arith, eq_iff id "")

    entry-mutate :
        (id j : String) (m : MemCache Values)
        → id ≢ ""
        → entry j (mutate_session_info id missing callback m).1
          ≡ (if id == j then edited (entry j m) else entry j m)
    unfolding mutate_session_info
    entry-mutate id j m h = elim (Option-cases (entry id m)) [
      | inl e ↦ rw (e, ◌==◌) (ground (arith, eq_iff id "", eq_iff id j))
      | inr (info, e) ↦
          ground (arith, e, eq_iff id "", eq_iff id j, entry-store_edit id j (callback info).1 m)
    ]

module _ {Values : Type 0} (id j : String) (m : MemCache Values) (named : id ≢ "") where
  pub entry-get_session_use :
      entry j (get_session_use id m) ≡ (if id == j then bumped (entry j m) else entry j m)
  unfolding get_session_use
  entry-get_session_use =
      entry-mutate tt (λ info. (tt, keep (bump info))) id j m named ∙ ground arith

  pub entry-put_session_use :
      entry j (put_session_use id m).1 ≡ (if id == j then released (entry j m) else entry j m)
  unfolding put_session_use
  entry-put_session_use = entry-mutate _ _ id j m named ∙ ground arith

  pub entry-mark_session :
      entry j (mark_session id m) ≡ (if id == j then marked (entry j m) else entry j m)
  unfolding mark_session
  entry-mark_session =
      entry-mutate tt (λ info. (tt, keep (record info { destroy = true }))) id j m named
      ∙ ground arith

  pub entry-mark_or_destroy :
      entry j (mark_or_destroy_session_by_id id m)
      ≡ (if id == j then dropped (entry j m) else entry j m)
  unfolding mark_or_destroy_session_by_id
  entry-mark_or_destroy = entry-mutate _ _ id j m named ∙ ground arith

  pub entry-use_by_id :
      (out : Outside Values)
      → entry j (get_session_use_by_id out id m).1
        ≡ (if id == j then reused (entry j m) else entry j m)
  unfolding get_session_use_by_id
  entry-use_by_id out = entry-mutate _ _ id j m named ∙ ground arith

module _ {Values : Type 0} (id : String) (m : MemCache Values) (named : id ≢ "") where
  pub answer-put_session_use : (put_session_use id m).0 ≡ put_answer (entry id m)
  unfolding put_session_use
  answer-put_session_use = mutate-answer _ _ id m named ∙ ground arith

  pub answer-use_by_id :
      (out : Outside Values) → (get_session_use_by_id out id m).0 ≡ use_answer out (entry id m)
  unfolding get_session_use_by_id new_existing_session
  answer-use_by_id out = mutate-answer _ _ id m named ∙ ground arith

module _ {Values : Type 0} (out : Outside Values) (id j : String) (v w : Values) where
  abbrev pub saved : Option (SessionInfo Values) → Option (SessionInfo Values)
  saved none = none
  saved (some info) = if info.destroy then some info else some (record info { values = w })

  -- A session that is in the map keeps its id and its count.
  pub entry-save_session :
      (m : MemCache Values) {info : SessionInfo Values}
      → entry id m ≡ some info
      → out.copy v ≡ some w
      → entry j (save_session out id v m).2 ≡ (if id == j then saved (entry j m) else entry j m)
  unfolding save_session
  entry-save_session m {info} e c =
      ground (arith, eq_iff id j, Dict.lookup-insert id j (record info { values = w }) m.sessions)

  abbrev pub first_entry : SessionInfo Values
  first_entry = record { values = w; uses = 1; destroy = false }

  -- A session that is not there gets the next random string for its id.
  pub save_session_first :
      (m : MemCache Values)
      → entry id m ≡ none
      → out.copy v ≡ some w
      → (save_session out id v m).1 ≡ out.random_string m.drawn
  unfolding save_session
  save_session_first m e c = ground arith

  pub entry-save_session_first :
      (m : MemCache Values)
      → entry id m ≡ none
      → out.copy v ≡ some w
      → entry j (save_session out id v m).2
        ≡ (if out.random_string m.drawn == j then some first_entry else entry j m)
  unfolding save_session
  entry-save_session_first m e c =
      ground (arith, Dict.lookup-insert (out.random_string m.drawn) j first_entry m.sessions)
