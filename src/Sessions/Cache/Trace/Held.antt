-- ===== src/Sessions/Cache/Trace/Held.antt =====
-- What a holder of a session can rely on, however requests interleave.
use nebraska.Base.{ℕ, ◌-◌, ◌≤◌, String, ◌≡◌, refl, ◌≢◌, true, Option, none, some}
use nebraska.Base.{count, arith}
use nebraska.Base.{ne_of_held}
use nebraska.Base.{◌∙◌, eq_refl, if◌then◌else◌, eqb}
use nebraska.Base.Exec.{ok}
use nebraska.Sessions.Cache.{SessionInfo, Outside, put_session_use, get_session_use_by_id}
use nebraska.Sessions.Cache.Laws.{
  entry, released, put_answer, entry-put_session_use, answer-use_by_id, answer-put_session_use,
}
use nebraska.Sessions.Cache.Trace.{System, Reach}
use nebraska.Sessions.Cache.Trace.Counts.{Good, Reach-Good}

module _ {Values : Type 0} (out : Outside Values) where
  released_in_use :
      (o : Option (SessionInfo Values)) (n : ℕ) → Good o n → 1 ≤ n → put_answer o ≡ ok tt
  released_in_use none n g h = refl
  released_in_use (some info) n g h = ground arith

  -- However requests interleave that give back only uses that they hold, share a session only after it
  -- was saved, draw fresh random strings and leave room in the counts, and where no copy of values
  -- fails: a request that holds a use of a named session gives it back without
  -- the panic about mismatched calls, and the entry of the session is there until then.
  pub put_held :
      {s : System Values} (id : String)
      → Reach out s
      → id ≢ ""
      → 1 ≤ count id s.held
      → ((put_session_use id s.cache).0 ≡ ok tt) × (entry id s.cache ≢ none)
  put_held {s} id r named held =
      let good = Reach-Good out r id named in
      (
        answer-put_session_use id s.cache named ∙ released_in_use (entry id s.cache) _ good held,
        λ gone. ne_of_held id s.held held (rw gone at good),
      )

  last_released :
      (o : Option (SessionInfo Values)) (n : ℕ) {info : SessionInfo Values}
      → Good o n
      → o ≡ some info
      → info.destroy ≡ true
      → released o ≡ (if eqb n 1 then none else some (record info { uses = n - 1 }))
  last_released none n g e d = cc
  last_released (some i) n g e d = ground arith

  -- In every state that requests reach which give back only uses that they hold, share a session only
  -- after it was saved, draw fresh random strings and leave room in the counts, and where no copy of
  -- values fails: a session marked for destruction answers no further
  -- lookup by its id. When a holder gives its use back, the entry goes if that holder is the last one,
  -- and else stays with one use less.
  pub marked_until_last :
      {s : System Values} (id : String) {info : SessionInfo Values}
      → Reach out s
      → id ≢ ""
      → entry id s.cache ≡ some info
      → info.destroy ≡ true
      → ((get_session_use_by_id out id s.cache).0 ≡ ok none)
        × (entry id (put_session_use id s.cache).1 ≡ (
            if eqb (count id s.held) 1
            then none
            else some (record info { uses = count id s.held - 1 })))
  marked_until_last {s} id {info} r named there doomed = (
    answer-use_by_id id s.cache named out ∙ rw there (ground arith),
    rw (entry-put_session_use id id s.cache named, eq_refl id)
        (last_released (entry id s.cache) _ (Reach-Good out r id named) there doomed),
  )
