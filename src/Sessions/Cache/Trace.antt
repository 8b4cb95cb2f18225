-- ===== src/Sessions/Cache/Trace.antt =====
-- Interleavings of requests over one cache: who holds a use of which session, step by step. The
-- requests share a session only after it was saved, and values can be copied: a request that shares
-- an unsaved session, or a copy that fails, is no step.
pub mod Counts
pub mod Held
use nebraska.Base.{ℕ, ◌+◌, ◌<◌, ◌≤◌, String, ◌≡◌, ◌≢◌, Bool, true, false, Option, none, some}
use nebraska.Base.{List, [], ◌∷◌, length, count, erase}
use nebraska.Base.Exec.{Result, ok, err}
use nebraska.Sessions.Cache.{
  SessionInfo, MemCache, Outside, u64_mod, init, get_session_use, put_session_use,
  mark_or_destroy_session_by_id, mark_session, get_session_use_by_id, save_session,
}
use nebraska.Sessions.Cache.Laws.{entry}

-- The cache, and the id of the session for each use that a request holds; an unsaved session has
-- the empty id.
pub record System (Values : Type 0) : Type 0 where
  pub cache : MemCache Values
  pub held : List String

module _ {Values : Type 0} (out : Outside Values) where
  -- The uint64 count can still be raised.
  abbrev pub HasRoom : System Values → Type 0
  HasRoom s = length s.held + 1 < u64_mod

  -- The random string was not used before; the empty one is never drawn.
  pub record IsFresh (s : System Values) : Type 0 where
    pub named : out.random_string s.cache.drawn ≢ ""
    pub unused : entry (out.random_string s.cache.drawn) s.cache ≡ none

  pub data Step : System Values → System Values → Type 0 where
    -- a request with no usable cookie gets a new session
    open_new : (s : System Values) → Step s (record s { held = "" ∷ s.held })
    -- a request whose context carries a saved session takes another use of it
    share :
        (s : System Values) (id : String)
        → id ≢ ""
        → 1 ≤ count id s.held
        → HasRoom s
        → Step s (record { cache = get_session_use id s.cache; held = id ∷ s.held })
    -- a request whose cookie names a session
    open_existing :
        (s : System Values) (id : String) (v : Values)
        → id ≢ ""
        → (get_session_use_by_id out id s.cache).0 ≡ ok (some v)
        → HasRoom s
        → Step s (record { cache = (get_session_use_by_id out id s.cache).1; held = id ∷ s.held })
    -- a request whose cookie names no session, or one that is to be destroyed
    miss :
        (s : System Values) (id : String)
        → id ≢ ""
        → (get_session_use_by_id out id s.cache).0 ≡ ok none
        → Step s (record s { cache = (get_session_use_by_id out id s.cache).1 })
    -- a holder gives its use back, whether the call panics or not
    put :
        (s : System Values) (id : String)
        → id ≢ ""
        → 1 ≤ count id s.held
        → Step s (record { cache = (put_session_use id s.cache).1; held = erase id s.held })
    put_unsaved :
        (s : System Values)
        → 1 ≤ count "" s.held
        → Step s (record { cache = (put_session_use "" s.cache).1; held = erase "" s.held })
    -- a holder marks its session
    mark :
        (s : System Values) (id : String)
        → id ≢ ""
        → 1 ≤ count id s.held
        → Step s (record s { cache = mark_session id s.cache })
    -- the administration destroys a session by its id
    destroy :
        (s : System Values) (id : String)
        → id ≢ ""
        → Step s (record s { cache = mark_or_destroy_session_by_id id s.cache })
    -- a holder saves its session again
    save :
        (s : System Values) (id : String) (v w : Values)
        → id ≢ ""
        → 1 ≤ count id s.held
        → out.copy v ≡ some w
        → Step s (record s { cache = (save_session out id v s.cache).2 })
    -- the only holder of an unsaved session saves it for the first time
    save_first :
        (s : System Values) (v w : Values)
        → 1 ≤ count "" s.held
        → IsFresh s
        → out.copy v ≡ some w
        → Step s (record {
          cache = (save_session out "" v s.cache).2;
          held = (save_session out "" v s.cache).1 ∷ erase "" s.held;
        })

  pub data Reach : System Values → Type 0 where
    start : Reach (record { cache = init; held = [] })
    next : {s t : System Values} → Reach s → Step s t → Reach t
