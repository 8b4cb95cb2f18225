-- ===== src/Sessions/Session/Cookies.antt =====
-- What a client's cookie leads to after `Save`.
use nebraska.Base.{◌*◌, String, ◌≡◌, ◌≢◌, true, false, none, some, arith}
use nebraska.Base.{eq_refl, ◌∙◌}
use nebraska.Base.Exec.{ok}
use nebraska.Sessions.Cache.{SessionInfo, MemCache, Outside, save_session, get_session_use_by_id}
use nebraska.Sessions.Cache.Laws.{
  entry, save_session_first, entry-save_session_first, answer-use_by_id,
}
use nebraska.Sessions.Session.{
  Codec, Session, Request, Cookie, seconds, expired, save, existing_session, session_by_id,
  store_get_session_use,
}

abbrev pub session_cookie : String → String → Cookie
session_cookie name value = record {
  name = name;
  value = value;
  path = "/";
  max_age = seconds (86400 * 30);
  http_only = true;
}

abbrev pub removal_cookie : String → Cookie
removal_cookie name = record {
  name = name;
  value = "";
  path = "/";
  max_age = expired;
  http_only = true;
}

module _ {Values : Type 0} (out : Outside Values) (codec : Codec) where
  save_first_answer :
      (id : String) (v w : Values) (m : MemCache Values)
      → entry id m ≡ none
      → out.copy v ≡ some w
      → (save_session out id v m).0 ≡ ok false
  unfolding save_session
  save_first_answer id v w m e c = ground arith

  save_first_lem :
      (s : Session Values) (w : Values) (c : String) (m : MemCache Values)
      → s.marked ≡ false
      → entry s.id m ≡ none
      → out.copy s.values ≡ some w
      → codec.encode s.name (out.random_string m.drawn) ≡ some c
      → ((save out codec s m).0 ≡ ok (session_cookie s.name c))
        × ((save out codec s m).2 ≡ (save_session out s.id s.values m).2)
  unfolding save
  save_first_lem s w c m live absent copied encoded = ground (
    arith,
    save_first_answer s.id s.values w m absent copied,
    save_session_first out s.id "" s.values w m absent copied,
  )

  found_by_cookie :
      (r : Request Values) (name c id : String) (empty : Values) (m : MemCache Values)
      → r.context_session ≡ none
      → r.cookie name ≡ some c
      → codec.decode name c ≡ some id
      → store_get_session_use out codec r name empty m ≡ session_by_id out codec id name empty m
  unfolding store_get_session_use
  found_by_cookie r name c id empty m n k d = ground arith

  session_by_id_lem :
      (id name : String) (empty x : Values) (m : MemCache Values)
      → (get_session_use_by_id out id m).0 ≡ ok (some x)
      → (session_by_id out codec id name empty m).0 ≡ ok (existing_session out codec name id x)
  unfolding session_by_id
  session_by_id_lem id name empty x m h = ground arith

  -- The first save of a session sets a cookie that leads the next request back to it: a request
  -- with that cookie, and no session in its context, gets the session under the new id with the
  -- copied values. It needs a random string that is not empty, values that can be copied twice and
  -- a codec that decodes what it encodes.
  pub save_then_get :
      (s : Session Values) (empty w x : Values) (c : String) (m : MemCache Values)
      → s.marked ≡ false
      → entry s.id m ≡ none
      → out.copy s.values ≡ some w
      → out.copy w ≡ some x
      → out.random_string m.drawn ≢ ""
      → codec.encode s.name (out.random_string m.drawn) ≡ some c
      → codec.decode s.name c ≡ some (out.random_string m.drawn)
      → (r : Request Values) → r.context_session ≡ none
      → r.cookie s.name ≡ some c
      → ((save out codec s m).0 ≡ ok (session_cookie s.name c))
        × ((store_get_session_use out codec r s.name empty (save out codec s m).2).0
            ≡ ok (existing_session out codec s.name (out.random_string m.drawn) x))
  save_then_get s empty w x c m live absent copied again named encoded decoded r bare sent =
      let id = out.random_string m.drawn in
      let lem = save_first_lem s w c m live absent copied encoded in
      (
        lem.0,
        rw (found_by_cookie r s.name c id empty (save out codec s m).2 bare sent decoded) (
            session_by_id_lem id s.name empty x (save out codec s m).2 (
              answer-use_by_id id (save out codec s m).2 named out
              ∙ rw
                  (
                    lem.1,
                    entry-save_session_first out s.id id s.values w m absent copied,
                    eq_refl id,
                  )
                  (ground arith))),
      )

  -- Where another request has marked the stored session for destruction, `Save` changes nothing in
  -- the cache, tells the client to drop its cookie and leaves the session object marked.
  pub save_of_marked :
      (s : Session Values) (m : MemCache Values) {info : SessionInfo Values}
      → entry s.id m ≡ some info
      → info.destroy ≡ true
      → (save out codec s m).0 ≡ ok (removal_cookie s.name)
        × ((save out codec s m).1.marked ≡ true)
        × ((save out codec s m).2 ≡ m)
  unfolding save save_session
  save_of_marked s m e d = ground arith
