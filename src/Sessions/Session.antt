-- ===== src/Sessions/Session.antt =====
-- session.go and store.go: the session objects that requests work on, the cookies that name them,
-- and the store that finds the session of a request. The codec is a parameter. A request is what
-- the store reads of it: the session in its context and its cookies.
pub mod Cookies
use nebraska.Base.{ℕ, ◌*◌, String, Bool, true, false, Option, none, some, if◌then◌else◌}
use nebraska.Base.Exec.{Result, ok, err}
use nebraska.Sessions.Cache.{MemCache, Outside, Fault, get_session_use, put_session_use}
use nebraska.Sessions.Cache.{mark_session, get_session_use_by_id, save_session}

-- `seconds n` is the lifetime n, `expired` the lifetime -1, which deletes the cookie.
pub data MaxAge : Type 0 where
  seconds : ℕ → MaxAge
  expired : MaxAge

pub record Cookie : Type 0 where
  pub name : String
  pub value : String
  pub path : String
  pub max_age : MaxAge
  pub http_only : Bool

-- `Encode` and `Decode` of a `Codec`: the name, and the id or the cookie's value.
pub record Codec : Type 0 where
  pub encode : String → String → Option String
  pub decode : String → String → Option String

pub record Session (Values : Type 0) : Type 0 where
  pub name : String
  pub id : String
  pub values : Values
  pub marked : Bool

pub record Request (Values : Type 0) : Type 0 where
  pub context_session : Option (Session Values)
  pub cookie : String → Option String

-- Why `Save` fails.
pub data SaveError : Type 0 where
  not_saved : Fault → SaveError
  not_encoded : SaveError

module _ {Values : Type 0} (out : Outside Values) (codec : Codec) where
  -- The cookie that `Save` sets, once the session is in the cache or is known to be marked.
  set_cookie : Session Values → Result SaveError Cookie
  set_cookie s =
      if s.marked
      then ok
          (record { name = s.name; value = ""; path = "/"; max_age = expired; http_only = true })
      else elim (codec.encode s.name s.id) [
        | none ↦ err not_encoded
        | some encoded ↦ ok (record {
          name = s.name;
          value = encoded;
          path = "/";
          max_age = seconds (86400 * 30);
          http_only = true;
        })
      ]

  -- The rest of `Save` after `SaveSession` has answered.
  finish_save : Session Values → Result Fault Bool → Result SaveError Cookie × Session Values
  unfolding set_cookie
  finish_save s (ok was_marked) =
      let s' : Session Values = record s { marked = was_marked } in (set_cookie s', s')
  finish_save s (err e) = (err (not_saved e), record s { marked = false })

  -- `Session.Save`: the cookie written to the response, the session object and the cache.
  unfoldable pub save :
      Session Values → MemCache Values → Result SaveError Cookie × Session Values × MemCache Values
  unfolding finish_save
  save s m =
      if s.marked
      then (set_cookie s, s, m)
      else let (r, id', m') = save_session out s.id s.values m in
        let (answer, s') = finish_save (record s { id = id' }) r in (answer, s', m')

  -- `Session.Mark`.
  unfoldable pub mark : Session Values → MemCache Values → Session Values × MemCache Values
  mark s m = (record s { marked = true }, mark_session s.id m)

  new_session : String → Values → Session Values
  new_session name empty = record { name = name; id = ""; values = empty; marked = false }

  pub existing_session : String → String → Values → Session Values
  existing_session name id values = record { name = name; id = id; values = values; marked = false }

  -- `getSessionIDFromRequest`.
  get_session_id_from_request : Request Values → String → Option String
  get_session_id_from_request r name = elim (r.cookie name) [
    | none ↦ none
    | some value ↦ codec.decode name value
  ]

  -- The end of `GetSessionUse`: a new session object, whose empty id raises no count.
  fresh_session :
      String → Values → MemCache Values → Result Fault (Session Values) × MemCache Values
  unfolding new_session
  fresh_session name empty m = (ok (new_session name empty), get_session_use "" m)

  -- `GetSessionUse` with the id of the cookie.
  session_by_id :
      String → String → Values → MemCache Values → Result Fault (Session Values) × MemCache Values
  unfolding existing_session fresh_session
  session_by_id id name empty m =
      let (r, m') = get_session_use_by_id out id m in
      elim r [
        | err e ↦ (err e, m')
        | ok none ↦ fresh_session name empty m'
        | ok (some v) ↦ (ok (existing_session name id v), m')
      ]

  -- `Store.GetSessionUse`; `empty` is the empty map of values.
  unfoldable pub store_get_session_use :
      Request Values
      → String
      → Values
      → MemCache Values
      → Result Fault (Session Values) × MemCache Values
  unfolding get_session_id_from_request session_by_id
  store_get_session_use r name empty m = elim r.context_session [
    | some session ↦ (ok session, get_session_use session.id m)
    | none ↦ elim (get_session_id_from_request r name) [
      | none ↦ fresh_session name empty m
      | some id ↦ session_by_id id name empty m
    ]
  ]

  -- `Store.PutSessionUse`.
  unfoldable pub store_put_session_use :
      Session Values → MemCache Values → Result Fault Unit × MemCache Values
  store_put_session_use s m = put_session_use s.id m
