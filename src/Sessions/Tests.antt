-- ===== src/Sessions/Tests.antt =====
-- Sessions at a small cache, and the theorems at them.
use nebraska.Base.{
  ℕ, ◌-◌, ◌≤◌, String, ◌≡◌, ◌≢◌, refl, true, false, none, some, [], ◌∷◌, eqb, if◌then◌else◌, count,
  erase, arith, eq_iff, count-more_self,
}
use nebraska.Base.Exec.{ok}
use nebraska.Base.Dict
use nebraska.Sessions.Cache.{
  SessionInfo, Outside, init, put_session_use, get_session_use_by_id, save_session, mark_session,
}
use nebraska.Sessions.Cache.Laws.{entry}
use nebraska.Sessions.Cache.Trace.{System, Step, Reach}
use nebraska.Sessions.Cache.Trace.Counts.{Good, Reach-Good}
use nebraska.Sessions.Cache.Trace.Held.{put_held, marked_until_last}
use nebraska.Sessions.Session.{
  Codec, Session, Request, save, existing_session, store_get_session_use,
}
use nebraska.Sessions.Session.Cookies.{
  session_cookie, removal_cookie, save_then_get, save_of_marked,
}

abbrev copier : Outside ℕ
copier = record { copy = λ v. some v; random_string = λ n. if eqb n 0 then "first" else "other" }

abbrev codec : Codec
codec = record { encode = λ name id. some id; decode = λ name value. some value }

-- One request opened a session and saved it.
abbrev saved : System ℕ
saved = record { cache = (save_session copier "" 7 init).2; held = "first" ∷ [] }

first-named : ◌≢◌ {A = String} "first" ""
first-named e = ground (arith, (eq_iff "first" "").1 e)

opened_again :
    Step copier (record { cache = init; held = [] }) (record { cache = init; held = "" ∷ [] })
opened_again = Step.open_new (record { cache = init; held = [] })

held_once : (id : String) → 1 ≤ count id (id ∷ [])
held_once id = omega (arith, count-more_self id [])

saved-Reach : Reach copier saved
unfolding save_session init Dict.lookup erase
saved-Reach = Reach.next (Reach.next Reach.start opened_again) (
    Step.save_first (record { cache = init; held = "" ∷ [] }) 7 7 (held_once "")
      (record { named = first-named; unused = refl }) refl)

-- It then marked the session.
abbrev marked : System ℕ
marked = record saved { cache = mark_session "first" saved.cache }

marked-Reach : Reach copier marked
marked-Reach = Reach.next saved-Reach (Step.mark saved "first" first-named (held_once "first"))

Reach-Good_example : Good (entry "first" saved.cache) (count "first" saved.held)
Reach-Good_example = Reach-Good copier saved-Reach "first" first-named

put_held_example :
    ((put_session_use "first" marked.cache).0 ≡ ok tt) × (entry "first" marked.cache ≢ none)
put_held_example = put_held copier "first" marked-Reach first-named (held_once "first")

-- The entry of the marked session.
abbrev marked_info : SessionInfo ℕ
marked_info = record { values = 7; uses = 1; destroy = true }

marked_there : entry "first" marked.cache ≡ some marked_info
unfolding save_session init mark_session Dict.lookup Dict.insert
marked_there = refl

marked_until_last_example :
    ((get_session_use_by_id copier "first" marked.cache).0 ≡ ok none)
    × (entry "first" (put_session_use "first" marked.cache).1 ≡ (
        if eqb (count "first" marked.held) 1
        then none
        else some (record marked_info { uses = count "first" marked.held - 1 })))
marked_until_last_example =
    marked_until_last copier "first" {info = marked_info} marked-Reach first-named marked_there refl

abbrev new_session : Session ℕ
new_session = record { name = "nebraska"; id = ""; values = 7; marked = false }

abbrev request : Request ℕ
request = record { context_session = none; cookie = λ name. some "first" }

first_absent : entry {Values = ℕ} "" init ≡ none
unfolding init Dict.lookup
first_absent = refl

save_then_get_example :
    ((save copier codec new_session init).0 ≡ ok (session_cookie "nebraska" "first"))
    × ((store_get_session_use copier codec request "nebraska" 0
          (save copier codec new_session init).2).0
        ≡ ok (existing_session copier codec "nebraska" "first" 7))
unfolding init
save_then_get_example =
    save_then_get copier codec new_session 0 7 7 "first" init refl first_absent refl refl
      first-named refl refl request refl refl

save_of_marked_example :
    ((save copier codec (record new_session { id = "first" }) marked.cache).0
      ≡ ok (removal_cookie "nebraska"))
    × ((save copier codec (record new_session { id = "first" }) marked.cache).1.marked ≡ true)
    × ((save copier codec (record new_session { id = "first" }) marked.cache).2 ≡ marked.cache)
save_of_marked_example =
    save_of_marked copier codec (record new_session { id = "first" }) marked.cache
      {info = marked_info} marked_there refl
