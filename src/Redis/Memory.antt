-- ===== src/Redis/Memory.antt =====
-- A Redis server in memory: it shows that the laws of the interface can be met, and runs the tests.
use gosso.Prelude.{
  ℕ, ◌+◌, ◌/◌, ◌-◌, ◌≡◌, ◌≢◌, refl, ◌⊎◌, inl, inr, false, Option, none, some, List, [], ◌∷◌, String,
  arith, nat_eq, leb, ◌==◌, eq_iff, contains, ◌||◌, if◌then◌else◌, Bool-cases, IsDistinct, ap, sym,
  ◌∙◌,
}
use gosso.Redis.{Key, Redis}
use gosso.Redis.Keys.{key_eq, key_eq_self, key_eq_of_ne, path_of_key_eq}

-- A string with the milliseconds that it has left, 0 for a key that does not expire; and the sets,
-- which do not expire here.
pub record Memory (Text : Type 0) : Type 0 where
  pub strings : Key → Option (Text × ℕ)
  pub sets : Key → List String

abbrev pub without : String → List String → List String
without m [] = []
without m (x ∷ xs) = let rest = without m xs in if x == m then rest else x ∷ rest

pub contains-without : (m : String) (xs : List String) → contains (without m xs) m ≡ false
unfolding contains
contains-without m [] = refl
contains-without m (x ∷ xs) = ground (arith, eq_iff x m, contains-without m xs)

pub contains-without_ne :
    (m n : String) (xs : List String) → m ≢ n → contains (without m xs) n ≡ contains xs n
unfolding contains
contains-without_ne m n [] h = refl
contains-without_ne m n (x ∷ xs) h =
    ground (arith, eq_iff x m, eq_iff x n, contains-without_ne m n xs h)

-- A list of members read as a set: each once.
abbrev pub distinct : List String → List String
distinct [] = []
distinct (x ∷ xs) = let rest = distinct xs in x ∷ without x rest

pub contains-distinct : (n : String) (xs : List String) → contains (distinct xs) n ≡ contains xs n
unfolding contains
contains-distinct n [] = refl
contains-distinct n (x ∷ xs) = elim (Bool-cases (x == n)) [
  | inl same ↦ ground (arith, same)
  | inr differ ↦
      ground
        (arith, differ, eq_iff x n, contains-without_ne x n (distinct xs), contains-distinct n xs)
]

without-IsDistinct : (m : String) (xs : List String) → IsDistinct xs → IsDistinct (without m xs)
without-IsDistinct m [] d = tt
without-IsDistinct m (x ∷ xs) (new, d) = elim (Bool-cases (x == m)) [
  | inl same ↦ rw same (without-IsDistinct m xs d)
  | inr differ ↦ rw differ (
    contains-without_ne m x xs (λ p. ground (arith, differ, eq_iff x m)) ∙ new,
    without-IsDistinct m xs d,
  )
]

pub distinct-IsDistinct : (xs : List String) → IsDistinct (distinct xs)
distinct-IsDistinct [] = tt
distinct-IsDistinct (x ∷ xs) =
    (contains-without x (distinct xs), without-IsDistinct x (distinct xs) (distinct-IsDistinct xs))

module _ {A : Type 0} where
  abbrev pub update : (Key → A) → Key → A → Key → A
  update f k a j = if key_eq k j then a else f j

  pub update_self : (f : Key → A) (k : Key) (a : A) → update f k a k ≡ a
  update_self f k a = ground (arith, key_eq_self k)

  pub update_ne : (f : Key → A) (k j : Key) (a : A) → k ≢ j → update f k a j ≡ f j
  update_ne f k j a h = ground (arith, key_eq_of_ne k j h)

module _ {Text : Type 0} where
  abbrev pub text_of : Option (Text × ℕ) → Option Text
  text_of none = none
  text_of (some (t, ms)) = some t

  abbrev pub left_of : Option (Text × ℕ) → ℕ
  left_of none = 0
  left_of (some (t, ms)) = ms

  abbrev pub aged : ℕ → Option (Text × ℕ) → Option (Text × ℕ)
  aged ms none = none
  aged ms (some (t, left)) =
      if nat_eq left 0 then some (t, 0) else if leb left ms then none else some (t, left - ms)

  abbrev pub restarted : ℕ → Option (Text × ℕ) → Option (Text × ℕ)
  restarted ms none = none
  restarted ms (some (t, left)) = some (t, ms)

  abbrev pub add_member : Option (Text × ℕ) → String → List String → List String
  add_member none m xs = m ∷ without m xs
  add_member (some t) m xs = xs

  pub contains-add :
      (o : Option (Text × ℕ)) (m n : String) (xs : List String)
      → text_of o ≡ none
      → contains (add_member o m xs) n ≡ (m == n || contains xs n)
  unfolding contains
  contains-add none m n xs e = elim (Bool-cases (m == n)) [
    | inl same ↦ ground (arith, same)
    | inr differ ↦ ground (arith, differ, eq_iff m n, contains-without_ne m n xs)
  ]
  contains-add (some (t, ms)) m n xs e = absurd (ground arith)

  abbrev pub get : Memory Text → Key → Option Text
  get d k = text_of (d.strings k)

  abbrev pub set : Memory Text → Key → Text → ℕ → Memory Text
  set d k t ms = record { strings = update d.strings k (some (t, ms)); sets = update d.sets k [] }

  abbrev pub put : Memory Text → Key → Text → Memory Text
  put d k t = record {
    strings = update d.strings k (some (t, left_of (d.strings k)));
    sets = update d.sets k [];
  }

  abbrev pub del : Memory Text → Key → Memory Text
  del d k = record { strings = update d.strings k none; sets = update d.sets k [] }

  abbrev pub sadd : Memory Text → Key → String → Memory Text
  sadd d k m = record d { sets = update d.sets k (add_member (d.strings k) m (d.sets k)) }

  abbrev pub srem : Memory Text → Key → String → Memory Text
  srem d k m = record d { sets = update d.sets k (without m (d.sets k)) }

  abbrev pub expire : Memory Text → Key → ℕ → Memory Text
  expire d k ms = record d { strings = update d.strings k (restarted ms (d.strings k)) }

  abbrev pub elapse : Memory Text → ℕ → Memory Text
  elapse d ms = record d { strings = λ k. aged ms (d.strings k) }

  text-restarted : (ms : ℕ) (o : Option (Text × ℕ)) → text_of (restarted ms o) ≡ text_of o
  text-restarted ms none = refl
  text-restarted ms (some (t, left)) = refl

  pub get-expire : (d : Memory Text) (k j : Key) (ms : ℕ) → get (expire d k ms) j ≡ get d j
  get-expire d k j ms = elim (Bool-cases (key_eq k j)) [
    | inl e ↦ ground (arith, e, path_of_key_eq k j e, text-restarted ms (d.strings j))
    | inr e ↦ ground (arith, e)
  ]

  text-aged :
      (ms : ℕ) (o : Option (Text × ℕ))
      → (text_of (aged ms o) ≡ text_of o) ⊎ (text_of (aged ms o) ≡ none)
  text-aged ms none = inl refl
  text-aged ms (some (t, left)) = ground arith

  pub get-elapse :
      (d : Memory Text) (k : Key) (ms : ℕ)
      → (get (elapse d ms) k ≡ get d k) ⊎ (get (elapse d ms) k ≡ none)
  get-elapse d k ms = text-aged ms (d.strings k)

-- The server, for any type of strings.
abbrev pub memory : Type 0 → Redis
memory Text = record {
  Db = Memory Text;
  Text = Text;
  get = get;
  set = set;
  set_forever = λ d k t. set d k t 0;
  put = put;
  del = del;
  pttl = λ d k. left_of (d.strings k);
  ttl = λ d k. (left_of (d.strings k) + 500) / 1000;
  smembers = λ d k. distinct (d.sets k);
  sadd = sadd;
  srem = srem;
  expire = expire;
  elapse = elapse;
  get-set = λ d k t ms. rw update_self refl;
  get-set_ne = λ d k j t ms h. rw (update_ne d.strings k j (some (t, ms)) h) refl;
  get-set_forever = λ d k t. rw update_self refl;
  get-set_forever_ne = λ d k j t h. rw (update_ne d.strings k j (some (t, 0)) h) refl;
  get-put = λ d k t. rw update_self refl;
  get-put_ne = λ d k j t h. rw (update_ne d.strings k j _ h) refl;
  get-del = λ d k. rw update_self refl;
  get-del_ne = λ d k j h. rw (update_ne d.strings k j none h) refl;
  get-sadd = λ d k j m. refl;
  get-srem = λ d k j m. refl;
  get-expire = get-expire;
  get-elapse = get-elapse;
  smembers-set_ne = λ d k j t ms h. ap distinct (update_ne d.sets k j [] h);
  smembers-del = λ d k. ap distinct (update_self d.sets k []);
  smembers-del_ne = λ d k j h. ap distinct (update_ne d.sets k j [] h);
  smembers-sadd = λ d k m n e.
      rw
        (
          update_self,
          contains-distinct n (add_member (d.strings k) m (d.sets k)),
          contains-distinct n (d.sets k),
        )
        (contains-add (d.strings k) m n (d.sets k) e);
  smembers-sadd_ne = λ d k j m h. ap distinct (update_ne d.sets k j _ h);
  smembers-srem_ne = λ d k j m h. ap distinct (update_ne d.sets k j _ h);
  smembers-srem = λ d k m. rw update_self (contains-distinct m _ ∙ contains-without m (d.sets k));
  smembers-srem_other = λ d k m n h. rw update_self (
      contains-distinct n _
      ∙ contains-without_ne m n (d.sets k) h
      ∙ sym (contains-distinct n (d.sets k)));
  smembers-expire = λ d k j ms. refl;
  smembers_distinct = λ d k. distinct-IsDistinct (d.sets k);
}

-- Nothing stored.
abbrev pub fresh : {Text : Type 0} → Memory Text
fresh = record { strings = λ k. none; sets = λ k. [] }
