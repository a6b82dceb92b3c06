-- ===== src/Oauth2/Consent/Cache.antt =====
-- consent_service.go: the cache follows what was saved and deleted.
use gosso.Prelude.{
  ℕ, ◌≡◌, ◌≢◌, refl, subst, ◌⊎◌, inl, inr, Bool, true, false, none, some, [], ◌∷◌, String, arith,
  Bool-cases, Option-cases, Result-cases, ok,
}
use gosso.Redis.{
  Redis, Codec, Key, Link, up, lost_request, lost_reply, read, reading, absent, broken, present,
}
use gosso.Oauth2.Client.{Time}
use gosso.Oauth2.Consent.{
  Consent, Rows, Entry, revoked, consent_key, matches, find_consent, remove, soft_delete, cached,
  get_consent, drop_cache, delete_consent,
}

find-remove :
    (now : Time) (account client : String) (rows : Rows)
    → find_consent account client (remove now account client rows) ≡ none
unfolding find_consent remove
find-remove now account client [] = refl
find-remove now account client (c ∷ rest) = elim (Bool-cases (matches account client c)) [
  | inl same ↦ rw same (find-remove now account client rest)
  | inr differ ↦ rw (differ, differ) (find-remove now account client rest)
]

module _ (r : Redis) (json : Codec (r.Text) Entry) where
  open r use {Db, Text, get, set, del, elapse, get-set, get-del, get-elapse}

  -- The cache gives no consent: nothing is there, or the tombstone.
  abbrev IsGone : Key → Db → Type 0
  IsGone k d = (get d k ≡ none) ⊎ (get d k ≡ some (json.encode revoked))

  elapse-IsGone : (k : Key) (d : Db) (ms : ℕ) → IsGone k d → IsGone k (elapse d ms)
  elapse-IsGone k d ms g = ground (arith, g, get-elapse d k ms)

  gone-cached :
      (load : Link) (k : Key) (d : Db) → IsGone k d → cached r json (read r load d k) ≡ none
  unfolding cached
  gone-cached load k d g = elim (reading r load d k) [
    | absent a e ↦ rw a refl
    | broken a ↦ rw a refl
    | present t a e ↦ elim g [
      | inl missing ↦ absurd (ground (arith, missing, e))
      | inr tomb ↦
          let same : t ≡ json.encode revoked = ground (arith, tomb, e) in
          rw a (rw same (rw (json.decode-encode revoked, cached) refl))
    ]
  ]

  drop-IsGone :
      (first second : Link) (k : Key) (d : Db)
      → (first ≢ lost_request) ⊎ (second ≢ lost_request)
      → IsGone k (drop_cache r json first second k d)
  unfolding drop_cache
  drop-IsGone up second k d n = inl (get-del d k)
  drop-IsGone lost_request up k d n = inr (get-set d k (json.encode revoked) _)
  drop-IsGone lost_request lost_request k d n = ground arith
  drop-IsGone lost_request lost_reply k d n = inr (get-set d k (json.encode revoked) _)
  drop-IsGone lost_reply up k d n = inr (get-set _ k (json.encode revoked) _)
  drop-IsGone lost_reply lost_request k d n = inl (get-del d k)
  drop-IsGone lost_reply lost_reply k d n = inr (get-set _ k (json.encode revoked) _)

  no_consent :
      (load store : Link) (others : Db → Db) (reachable : Bool) (account client : String)
      (rows : Rows) (d : Db) (c : Consent)
      → IsGone (consent_key account client) d
      → find_consent account client rows ≡ none
      → (get_consent r json load store others reachable account client rows d).0 ≢ ok c
  unfolding get_consent
  no_consent load store others reachable account client rows d c g f h =
      let nothing = gone-cached load (consent_key account client) d g in
      elim (Bool-cases reachable) [
        | inl there ↦ ground (arith, rw (nothing, get_consent, there, f) at h)
        | inr away ↦ ground (arith, rw (nothing, get_consent, away) at h)
      ]

  soft_deleted :
      (live : Bool) (now : Time) (account client : String) (rows rows' : Rows)
      → soft_delete live now account client rows ≡ ok rows'
      → find_consent account client rows' ≡ none
  unfolding soft_delete
  soft_deleted false now account client rows rows' h = absurd (ground arith)
  soft_deleted true now account client rows rows' h =
      elim (Option-cases (find_consent account client rows)) [
        | inl nothing ↦ absurd (ground (arith, rw (nothing, soft_delete) at h))
        | inr (c, found) ↦
            let same : remove now account client rows ≡ rows' =
              ground (arith, rw (found, soft_delete) at h) in
            subst (λ x. find_consent account client x ≡ none) same
              (find-remove now account client rows)
      ]

  -- Once DeleteConsent has succeeded and one of its two writes to the cache has arrived, the next
  -- GetConsent gives no consent, from the cache or the database, after whatever time, if no other
  -- call on the consent ran since.
  pub delete_consent-forgets :
      (first second load store : Link) (others : Db → Db) (commits live reachable : Bool)
      (now : Time) (account client : String) (ms : ℕ) (rows : Rows) (d : Db) (c : Consent)
      → (first ≢ lost_request) ⊎ (second ≢ lost_request)
      → (delete_consent r json first second commits live now account client rows d).0 ≡ ok tt
      → let (result, rows', d') =
          delete_consent r json first second commits live now account client rows d in
        (get_consent r json load store others reachable account client rows' (elapse d' ms)).0
        ≢ ok c
  unfolding delete_consent
  delete_consent-forgets first second load store others commits live reachable now account client ms
        rows d c n h =
      elim (Result-cases (soft_delete live now account client rows)) [
        | inl (e, bad) ↦ absurd (ground (arith, rw (bad, delete_consent) at h))
        | inr (rows', good) ↦ elim (Bool-cases commits) [
          | inl done ↦
              rw (good, delete_consent, done)
                (no_consent load store others reachable account client rows' _ c
                  (elapse-IsGone (consent_key account client) _ ms
                    (drop-IsGone first second (consent_key account client) d n))
                  (soft_deleted live now account client rows rows' good))
          | inr aborted ↦ absurd (ground (arith, rw (good, delete_consent, aborted) at h))
        ]
      ]
