-- ===== src/Sessions/Cache/Trace/Counts.antt =====
-- The use counts of the cache along every interleaving.
use nebraska.Base.{ℕ, ◌+◌, ◌<◌, ◌≤◌, String, ◌≡◌, refl, ◌≢◌, true, Option, none, some}
use nebraska.Base.{count, erase, count-nil, arith}
use nebraska.Base.{
  count-more, count-less, count-more_self, count-less_self, count-le-length, ne_of_held,
}
use mathlib.Core.Path.{subst}
use mathlib.Core.Bool.{true≢false}
use nebraska.Base.{sym, ◌∙◌, Bool-cases, ◌==◌, eq_iff, eq_refl, Option-cases, inl, inr}
use nebraska.Base.Exec.{ok}
use nebraska.Base.Dict.{lookup-nil}
use nebraska.Sessions.Cache.{SessionInfo, MemCache, Outside, u64_mod, init, put_session_use}
use nebraska.Sessions.Cache.Laws.{
  entry, bumped, released, marked, dropped, reused, saved, use_answer, entry-get_session_use,
  entry-put_session_use, entry-mark_session, entry-mark_or_destroy, entry-use_by_id,
  entry-save_session, entry-save_session_first, save_session_first, answer-use_by_id,
}
use nebraska.Sessions.Cache.Trace.{
  System, Step, open_new, share, open_existing, miss, put, put_unsaved, mark, destroy, save,
  save_first, Reach, start, next,
}

module _ {Values : Type 0} where
  -- An entry beside the number of uses that are held: the count is exact, no entry is there for a
  -- session that nobody ever saved, and a marked session that is still there is in use.
  abbrev pub Good : Option (SessionInfo Values) → ℕ → Type 0
  Good none n = n ≡ 0
  Good (some info) n = (info.uses ≡ n) × (info.destroy ≡ true → 1 ≤ info.uses)

  Good-bumped :
      (o : Option (SessionInfo Values)) (n : ℕ)
      → Good o n
      → 1 ≤ n
      → n + 1 < u64_mod
      → Good (bumped o) (1 + n)
  Good-bumped none n g h r = absurd (omega arith)
  Good-bumped (some info) n g h r = (omega arith, λ _. omega arith)

  Good-released : (o : Option (SessionInfo Values)) (n : ℕ) → Good o (1 + n) → Good (released o) n
  Good-released none n g = absurd (omega arith)
  Good-released (some info) n g = ground arith

  Good-marked : (o : Option (SessionInfo Values)) (n : ℕ) → Good o n → 1 ≤ n → Good (marked o) n
  Good-marked none n g h = g
  Good-marked (some info) n g h = (g.0, λ _. omega arith)

  Good-dropped : (o : Option (SessionInfo Values)) (n : ℕ) → Good o n → Good (dropped o) n
  Good-dropped none n g = g
  Good-dropped (some info) n g = ground arith

  Good-reused :
      (out : Outside Values) (v : Values) (o : Option (SessionInfo Values)) (n : ℕ)
      → Good o n
      → n + 1 < u64_mod
      → use_answer out o ≡ ok (some v)
      → Good (reused o) (1 + n)
  Good-reused out v none n g r a = cc
  Good-reused out v (some info) n g r a = ground arith

  Good-missed :
      (out : Outside Values) (o : Option (SessionInfo Values)) (n : ℕ)
      → Good o n
      → use_answer out o ≡ ok none
      → Good (reused o) n
  Good-missed out none n g a = g
  Good-missed out (some info) n g a = ground arith

  Good-saved :
      (out : Outside Values) (id j : String) (v w : Values) (o : Option (SessionInfo Values))
      (n : ℕ)
      → Good o n
      → Good (saved out id j v w o) n
  Good-saved out id j v w none n g = g
  Good-saved out id j v w (some info) n g = ground arith

  pub record Counts (s : System Values) : Type 0 where
    pub unnamed : entry "" s.cache ≡ none
    pub at : (id : String) → id ≢ "" → Good (entry id s.cache) (count id s.held)

  -- A step that edits the entry of one id and the held uses of that id.
  Counts-edit :
      (s t : System Values) (id : String)
      → id ≢ ""
      → ((j : String) → id ≢ j → entry j t.cache ≡ entry j s.cache)
      → ((j : String) → j ≢ "" → id ≢ j → count j t.held ≡ count j s.held)
      → Good (entry id t.cache) (count id t.held)
      → Counts s
      → Counts t
  Counts-edit s t id named entries counts self c = record {
    unnamed = entries "" named ∙ c.unnamed;
    at = λ j h. elim (Bool-cases (id == j)) [
      | inl same ↦ subst (λ k. Good (entry k t.cache) (count k t.held)) ((eq_iff id j).0 same) self
      | inr other ↦
          let apart : id ≢ j = λ e. true≢false (sym ((eq_iff id j).1 e) ∙ other) in
          rw (entries j apart, counts j h apart) (c.at j h)
    ];
  }

  put_session_use_unnamed : (m : MemCache Values) → (put_session_use "" m).1 ≡ m
  unfolding put_session_use
  put_session_use_unnamed m = refl

module _ {Values : Type 0} (out : Outside Values) where
  Step-Counts : {s t : System Values} → Step out s t → Counts s → Counts t
  Step-Counts (open_new s) c = record {
    unnamed = c.unnamed;
    at = λ j h. rw (count-more "" j s.held (λ e. h (sym e))) (c.at j h);
  }
  Step-Counts (share s id named held room) c =
      Counts-edit s _ id named
        (λ j h. ground (arith, entry-get_session_use id j s.cache named, eq_iff id j))
        (λ j _ h. count-more id j s.held h)
        (rw (entry-get_session_use id id s.cache named, eq_refl id, count-more_self id s.held)
          (Good-bumped (entry id s.cache) (count id s.held) (c.at id named) held
            (omega (arith, count-le-length id s.held))))
        c
  Step-Counts (open_existing s id v named answer room) c =
      Counts-edit s _ id named
        (λ j h. ground (arith, entry-use_by_id id j s.cache named out, eq_iff id j))
        (λ j _ h. count-more id j s.held h)
        (rw (entry-use_by_id id id s.cache named out, eq_refl id, count-more_self id s.held)
          (Good-reused out v (entry id s.cache) (count id s.held) (c.at id named)
            (omega (arith, count-le-length id s.held))
            (sym (answer-use_by_id id s.cache named out) ∙ answer)))
        c
  Step-Counts (miss s id named answer) c =
      Counts-edit s _ id named
        (λ j h. ground (arith, entry-use_by_id id j s.cache named out, eq_iff id j)) (λ j _ h. refl)
        (rw (entry-use_by_id id id s.cache named out, eq_refl id)
          (Good-missed out (entry id s.cache) (count id s.held) (c.at id named)
            (sym (answer-use_by_id id s.cache named out) ∙ answer)))
        c
  Step-Counts (put s id named held) c =
      Counts-edit s _ id named
        (λ j h. ground (arith, entry-put_session_use id j s.cache named, eq_iff id j))
        (λ j _ h. count-less id j s.held held h)
        (rw (entry-put_session_use id id s.cache named, eq_refl id)
          (Good-released (entry id s.cache) (count id (erase id s.held))
            (rw (← count-less_self id s.held held) (c.at id named))))
        c
  Step-Counts (put_unsaved s held) c = rw (put_session_use_unnamed s.cache) (record {
    unnamed = c.unnamed;
    at = λ j h. rw (count-less "" j s.held held (λ e. h (sym e))) (c.at j h);
  })
  Step-Counts (mark s id named held) c =
      Counts-edit s _ id named
        (λ j h. ground (arith, entry-mark_session id j s.cache named, eq_iff id j)) (λ j _ h. refl)
        (rw (entry-mark_session id id s.cache named, eq_refl id)
          (Good-marked (entry id s.cache) (count id s.held) (c.at id named) held))
        c
  Step-Counts (destroy s id named) c =
      Counts-edit s _ id named
        (λ j h. ground (arith, entry-mark_or_destroy id j s.cache named, eq_iff id j))
        (λ j _ h. refl)
        (rw (entry-mark_or_destroy id id s.cache named, eq_refl id)
          (Good-dropped (entry id s.cache) (count id s.held) (c.at id named)))
        c
  Step-Counts (save s id v w named held copied) c = elim (Option-cases (entry id s.cache)) [
    | inl gone ↦ absurd (ne_of_held id s.held held (rw gone at (c.at id named)))
    | inr (info, there) ↦
        Counts-edit s _ id named
          (λ j h. ground (arith, entry-save_session out id j v w s.cache there copied, eq_iff id j))
          (λ j _ h. refl)
          (rw (entry-save_session out id id v w s.cache there copied, eq_refl id)
            (Good-saved out id id v w (entry id s.cache) (count id s.held) (c.at id named)))
          c
  ]
  Step-Counts (save_first s v w held fresh copied) c =
      let id = out.random_string s.cache.drawn in
      rw (save_session_first out "" "" v w s.cache c.unnamed copied) (
        Counts-edit s _ id fresh.named
          (λ j h.
            ground
              (arith, entry-save_session_first out "" j v w s.cache c.unnamed copied, eq_iff id j))
          (λ j n h.
            count-more id j (erase "" s.held) h ∙ count-less "" j s.held held (λ e. n (sym e)))
          (rw (entry-save_session_first out "" id v w s.cache c.unnamed copied, eq_refl id)
            (
              omega (
                arith,
                count-more_self id (erase "" s.held),
                count-less "" id s.held held (λ e. fresh.named (sym e)),
                rw fresh.unused at (c.at id fresh.named),
              ),
              λ _. omega arith,
            ))
          c)

  Reach-Counts : {s : System Values} → Reach out s → Counts s
  unfolding init
  Reach-Counts start = record { unnamed = lookup-nil ""; at = λ id h. rw lookup-nil (count-nil id) }
  Reach-Counts (next r st) = Step-Counts st (Reach-Counts r)

  -- In every state that requests reach which give back only uses that they hold, share a session only
  -- after it was saved, draw fresh random strings and leave room in the counts, and where no copy of
  -- values fails, for every named session: where the map has an entry, its count is
  -- the number of uses that requests hold, and a session marked for destruction has a holder; where
  -- it has none, nobody holds a use.
  pub Reach-Good :
      {s : System Values}
      → Reach out s
      → (id : String) → id ≢ ""
      → Good (entry id s.cache) (count id s.held)
  Reach-Good r = (Reach-Counts r).at
