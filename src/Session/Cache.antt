-- ===== src/Session/Cache.antt =====
-- session_service.go: the local cache of parsed sessions holds what the texts decode to, and its
-- counter bounds it.
use gosso.Prelude.{
  ℕ, ◌≡◌, refl, subst, eq→path, ◌∙◌, inl, inr, false, none, some, [], String, arith, leb, ◌==◌,
  Bool-cases, Option-cases, lookup, delete, lookup-insert, lookup-delete, if◌then◌else◌, Result, ok,
  err,
}
use gosso.Redis.{Redis}
use gosso.Oauth2.Client.{Time}
use gosso.Session.{
  Session, SessionError, unmarshal_failed, Config, CachedSession, Local, cache_store, cache_evict,
  cache_delete, cache_write, session_cache_max_size,
}
use gosso.Session.Service.{parse_session, cached_as}

-- No entry, and a counter that lets none in: the service without a cache.
abbrev pub off : (r : Redis) → Local r
off r = record { entries = []; cache_size = session_cache_max_size }

module _ (r : Redis) (c : Config r) where
  -- Every entry is what its text decodes to.
  abbrev pub IsCoherent : Local r → Type 0
  IsCoherent l =
      (sid : String) (cs : CachedSession r)
      → lookup sid l.entries ≡ some cs
      → c.json.decode cs.json ≡ some cs.parsed

  off-IsCoherent : IsCoherent (off r)
  unfolding lookup
  off-IsCoherent sid cs h = absurd (ground arith)

  pub delete-IsCoherent :
      (gone : String) (size : ℕ) (l : Local r)
      → IsCoherent l
      → IsCoherent (record { entries = delete gone l.entries; cache_size = size })
  delete-IsCoherent gone size l co sid cs h =
      ground (arith, co sid cs, lookup-delete gone sid l.entries)

  lookup-evict :
      (sid x : String) (l : Local r)
      → lookup x (cache_evict r sid l).entries ≡ (if sid == x then none else lookup x l.entries)
  unfolding cache_evict
  lookup-evict sid x l = elim (Option-cases (lookup sid l.entries)) [
    | inl missing ↦
        rw (missing, cache_evict)
          (elim (Bool-cases (sid == x)) [
            | inl same ↦
                rw same (subst (λ y. lookup y l.entries ≡ none) (eq→path sid x same) missing)
            | inr differ ↦ rw differ refl
          ])
    | inr (old, found) ↦ rw (found, cache_evict) (lookup-delete sid x l.entries)
  ]

  lookup-write :
      (sid x : String) (s : Session) (l : Local r)
      → (sid == x) ≡ false
      → lookup x (cache_write r sid s l).entries ≡ lookup x l.entries
  unfolding cache_write
  lookup-write sid x s l differ = elim (Option-cases (lookup sid l.entries)) [
    | inl missing ↦ rw (missing, cache_write) refl
    | inr (old, found) ↦
        rw (found, cache_write)
          (lookup-insert sid x (record old { parsed = s }) l.entries ∙ rw differ refl)
  ]

  pub evict-IsCoherent :
      (sid : String) (l : Local r) → IsCoherent l → IsCoherent (cache_evict r sid l)
  evict-IsCoherent sid l co x cs h = ground (arith, co x cs, lookup-evict sid x l)

  pub store-IsCoherent :
      (sid : String) (cs : CachedSession r) (l : Local r)
      → c.json.decode cs.json ≡ some cs.parsed
      → IsCoherent l
      → IsCoherent (cache_store r sid cs l)
  unfolding cache_store
  store-IsCoherent sid cs l e co = elim (Bool-cases (leb session_cache_max_size l.cache_size)) [
    | inl full ↦ rw (full, cache_store) co
    | inr room ↦ elim (Option-cases (lookup sid l.entries)) [
      | inl missing ↦
          rw (room, missing, cache_store)
            (λ x cx h. ground (arith, co x cx, e, lookup-insert sid x cs l.entries))
      | inr (old, found) ↦ rw (room, found, cache_store) co
    ]
  ]

  -- What is written into an entry goes with the entry.
  pub write_evict-IsCoherent :
      (sid : String) (s : Session) (l : Local r)
      → IsCoherent l
      → IsCoherent (cache_evict r sid (cache_write r sid s l))
  write_evict-IsCoherent sid s l co x cs h =
      ground (arith, co x cs, lookup-evict sid x (cache_write r sid s l), lookup-write sid x s l)

  pub write_delete-IsCoherent :
      (sid : String) (s : Session) (l : Local r)
      → IsCoherent l
      → IsCoherent (cache_delete r sid (cache_write r sid s l))
  write_delete-IsCoherent sid s l co x cs h =
      ground (
        arith,
        co x cs,
        lookup-delete sid x (cache_write r sid s l).entries,
        lookup-write sid x s l,
      )

  cached-decode :
      (sid : String) (raw : r.Text) (s : Session) (l : Local r)
      → IsCoherent l
      → cached_as r c raw (lookup sid l.entries) ≡ some s
      → c.json.decode raw ≡ some s
  cached-decode sid raw s l co h = elim (Option-cases (lookup sid l.entries)) [
    | inl missing ↦ absurd (ground (arith, rw missing at h))
    | inr (cs, found) ↦ elim (Bool-cases (c.same_bytes cs.json raw)) [
      | inl same ↦
          let text = c.same_bytes-path cs.json raw same in
          ground (arith, co sid cs found, rw (found, same) at h, text)
      | inr differ ↦ absurd (ground (arith, rw (found, differ) at h))
    ]
  ]

  -- What a text says.
  abbrev pub plain : r.Text → Result SessionError Session
  plain raw = elim (c.json.decode raw) [ none ↦ err unmarshal_failed | some s ↦ ok s ]

  pub parse_off :
      (now : Time) (sid : String) (raw : r.Text)
      → parse_session r c now sid raw (off r) ≡ (plain raw, off r)
  unfolding parse_session lookup cache_store
  parse_off now sid raw = elim (Option-cases (c.json.decode raw)) [
    | inl bad ↦ rw (bad, parse_session) (rw (bad, plain) refl)
    | inr (s, good) ↦ rw (good, parse_session) (rw (good, plain) refl)
  ]

  -- The same text gives the same session, cached or not.
  pub parse_session-plain :
      (now : Time) (sid : String) (raw : r.Text) (l : Local r)
      → IsCoherent l
      → ((parse_session r c now sid raw l).0 ≡ plain raw)
        × IsCoherent (parse_session r c now sid raw l).1
  unfolding parse_session
  parse_session-plain now sid raw l co =
      elim (Option-cases (cached_as r c raw (lookup sid l.entries))) [
        | inl miss ↦ elim (Option-cases (c.json.decode raw)) [
          | inl bad ↦ rw (miss, bad, parse_session) (rw (bad, plain) refl, co)
          | inr (s, good) ↦
              rw (miss, good, parse_session)
                (rw (good, plain) refl, store-IsCoherent sid _ l good co)
        ]
        | inr (s, hit) ↦
            rw (hit, parse_session) (rw (cached-decode sid raw s l co hit, plain) refl, co)
      ]
