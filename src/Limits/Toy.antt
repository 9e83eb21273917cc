-- ===== src/Limits/Toy.antt =====
-- A cache and a Redis of the least kind, functions from keys to entries, on which the laws hold.
use ai_inference_gateway_pla.Base.{
  ℕ, ◌+◌, ◌<◌, ◌≡◌, ◌≢◌, refl, ap, ◌∙◌, Bool, true, false, Option, none, some, arith, ==_refl, ltb,
  ◌==◌, ◌&&◌, if◌then◌else◌, Bool-cases, inl, inr,
}
use ai_inference_gateway_pla.Limits.Cache.{
  Cache, Redis, CacheKey, rpm, requests, tokens, Entry, seconds, IsDead, IsGone, IsCurrent,
}
use ai_inference_gateway_pla.Limits.Gateway.{IsUp}

abbrev key_eq : CacheKey → CacheKey → Bool
key_eq (rpm a b) (rpm c d) = (a == c) && (b == d)
key_eq (requests a b) (requests c d) = (a == c) && (b == d)
key_eq (tokens a b) (tokens c d) = (a == c) && (b == d)
key_eq _ _ = false

key_eq_refl : (k : CacheKey) → key_eq k k ≡ true
key_eq_refl (rpm a b) = rw (==_refl a, ==_refl b) refl
key_eq_refl (requests a b) = rw (==_refl a, ==_refl b) refl
key_eq_refl (tokens a b) = rw (==_refl a, ==_refl b) refl

pair_eq : (a b c d : ℕ) → ((a == c) && (b == d)) ≡ true → (a ≡ c) × (b ≡ d)
pair_eq a b c d h = ground arith

key_eq→eq : (k j : CacheKey) → key_eq k j ≡ true → k ≡ j
key_eq→eq (rpm a b) (rpm c d) h = let (p, q) = pair_eq a b c d h in rw (p, q)
key_eq→eq (requests a b) (requests c d) h = let (p, q) = pair_eq a b c d h in rw (p, q)
key_eq→eq (tokens a b) (tokens c d) h = let (p, q) = pair_eq a b c d h in rw (p, q)
key_eq→eq (rpm a b) (requests c d) h = cc
key_eq→eq (rpm a b) (tokens c d) h = cc
key_eq→eq (requests a b) (rpm c d) h = cc
key_eq→eq (requests a b) (tokens c d) h = cc
key_eq→eq (tokens a b) (rpm c d) h = cc
key_eq→eq (tokens a b) (requests c d) h = cc

key_ne : (k j : CacheKey) → k ≢ j → key_eq k j ≡ false
key_ne k j apart = elim (Bool-cases (key_eq k j)) [
  | inl e ↦ absurd (apart (key_eq→eq k j e))
  | inr e ↦ e
]

module _ {A : Type 0} where
  abbrev put : CacheKey → A → (CacheKey → A) → CacheKey → A
  put k a s j = if key_eq k j then a else s j

  pub put_self : (k : CacheKey) (a : A) (s : CacheKey → A) → put k a s k ≡ a
  put_self k a s = rw (key_eq_refl k)

  pub put_frame : (k j : CacheKey) (a : A) (s : CacheKey → A) → k ≢ j → put k a s j ≡ s j
  put_frame k j a s apart = rw (key_ne k j apart)

-- The entry as it is at `now`.
abbrev live : ℕ → Option Entry → Option Entry
live now none = none
live now (some (v, d)) = if ltb now d then some (v, d) else none

pub live-dead : (now : ℕ) (e : Option Entry) → IsDead now e → live now e ≡ none
live-dead now none h = refl
live-dead now (some (v, d)) h = let q : ltb now d ≡ false = ground arith in rw q

pub live-live : (now v d : ℕ) → now < d → live now (some (v, d)) ≡ some (v, d)
live-live now v d h = let q : ltb now d ≡ true = ground arith in rw q

abbrev got : ℕ → Option Entry → ℕ
got default none = default
got default (some (v, _)) = v

abbrev Store : Type 0
Store = CacheKey → Option Entry

abbrev incremented : CacheKey → Store → Option Entry → Option ℕ × Store
incremented k s none = (none, s)
incremented k s (some (v, d)) = (some (v + 1), put k (some (v + 1, d)) s)

abbrev added : CacheKey → Entry → Store → Option Entry → Store
added k e s none = put k (some e) s
added k e s (some _) = s

pub incremented-frame :
    (k j : CacheKey) (s : Store) (e : Option Entry) → k ≢ j → (incremented k s e).1 j ≡ s j
incremented-frame k j s none apart = refl
incremented-frame k j s (some (v, d)) apart = put_frame k j (some (v + 1, d)) s apart

pub added-frame :
    (k j : CacheKey) (a : Entry) (s : Store) (e : Option Entry) → k ≢ j → added k a s e j ≡ s j
added-frame k j a s none apart = put_frame k j (some a) s apart
added-frame k j a s (some _) apart = refl

pub incr_live :
    (k : CacheKey) (now v d : ℕ) (s : Store)
    → s k ≡ some (v, d)
    → now < d
    → ((incremented k s (live now (s k))).0 ≡ some (v + 1))
      × ((incremented k s (live now (s k))).1 k ≡ some (v + 1, d))
incr_live k now v d s e h = rw (e, live-live now v d h) (refl, put_self k (some (v + 1, d)) s)

pub incr-IsDead :
    (k : CacheKey) (now : ℕ) (s : Store)
    → IsDead now (s k)
    → ((incremented k s (live now (s k))).0 ≡ none)
      × IsDead now ((incremented k s (live now (s k))).1 k)
incr-IsDead k now s h = rw (live-dead now (s k) h) (refl, h)

abbrev pub toy_cache : Cache
toy_cache = record {
  Store = Store;
  lookup = λ s k. s k;
  get = λ k default now s. got default (live now (s k));
  incr = λ k now s. incremented k s (live now (s k));
  add = λ k v timeout now s. added k (v, now + seconds timeout) s (live now (s k));
  set = λ k v timeout now s. put k (some (v, now + seconds timeout)) s;
  get_live = λ k default now v d s e h. rw (e, live-live now v d h) refl;
  get_dead = λ k default now s h. rw (live-dead now (s k) h) refl;
  incr_live = incr_live;
  incr_dead = incr-IsDead;
  incr_frame = λ k j now s apart. incremented-frame k j s (live now (s k)) apart;
  add_dead = λ k v timeout now s h.
      rw (live-dead now (s k) h) (put_self k (some (v, now + seconds timeout)) s);
  add_live = λ k v timeout now w d s e h. rw (e, live-live now w d h) e;
  add_frame = λ k j v timeout now s apart.
      added-frame k j (v, now + seconds timeout) s (live now (s k)) apart;
  set_self = λ k v timeout now s. put_self k (some (v, now + seconds timeout)) s;
  set_frame = λ k j v timeout now s apart. put_frame k j (some (v, now + seconds timeout)) s apart;
}

abbrev RedisStore : Type 0
RedisStore = CacheKey → Option (ℕ × Option ℕ)

abbrev current : ℕ → Option (ℕ × Option ℕ) → Option (ℕ × Option ℕ)
current now none = none
current now (some (v, none)) = some (v, none)
current now (some (v, some d)) = if ltb now d then some (v, some d) else none

current-gone : (now : ℕ) (e : Option (ℕ × Option ℕ)) → IsGone now e → current now e ≡ none
current-gone now none h = refl
current-gone now (some (v, none)) h = absurd h
current-gone now (some (v, some d)) h = let q : ltb now d ≡ false = ground arith in rw q

current-current :
    (now v : ℕ) (d : Option ℕ) → IsCurrent now d → current now (some (v, d)) ≡ some (v, d)
current-current now v none h = refl
current-current now v (some d) h = let q : ltb now d ≡ true = ground arith in rw q

abbrev bumped : CacheKey → RedisStore → Option (ℕ × Option ℕ) → Option ℕ × RedisStore
bumped k s none = (some 1, put k (some (1, none)) s)
bumped k s (some (v, d)) = (some (v + 1), put k (some (v + 1, d)) s)

abbrev timed : CacheKey → ℕ → RedisStore → Option (ℕ × Option ℕ) → Option (Unit {0}) × RedisStore
timed k deadline s none = (some tt, s)
timed k deadline s (some (v, _)) = (some tt, put k (some (v, some deadline)) s)

pub bumped-frame :
    (k j : CacheKey) (s : RedisStore) (e : Option (ℕ × Option ℕ)) → k ≢ j → (bumped k s e).1 j ≡ s j
bumped-frame k j s none apart = put_frame k j (some (1, none)) s apart
bumped-frame k j s (some (v, d)) apart = put_frame k j (some (v + 1, d)) s apart

pub timed-frame :
    (k j : CacheKey) (deadline : ℕ) (s : RedisStore) (e : Option (ℕ × Option ℕ))
    → k ≢ j
    → (timed k deadline s e).1 j ≡ s j
timed-frame k j deadline s none apart = refl
timed-frame k j deadline s (some (v, d)) apart = put_frame k j (some (v, some deadline)) s apart

pub bumped-current :
    (k : CacheKey) (now v n : ℕ) (d : Option ℕ) (s : RedisStore)
    → s k ≡ some (v, d)
    → IsCurrent now d
    → (bumped k s (current now (s k))).0 ≡ some n
    → (n ≡ v + 1) × ((bumped k s (current now (s k))).1 k ≡ some (v + 1, d))
bumped-current k now v n d s e h q =
    let at_k : current now (s k) ≡ some (v, d) = ap (current now) e ∙ current-current now v d h in
    let answer : some (v + 1) ≡ some n = rw at_k at q in
    (ground arith, rw at_k (put_self k (some (v + 1, d)) s))

pub bumped-gone :
    (k : CacheKey) (now n : ℕ) (s : RedisStore)
    → IsGone now (s k)
    → (bumped k s (current now (s k))).0 ≡ some n
    → (n ≡ 1) × ((bumped k s (current now (s k))).1 k ≡ some (1, none))
bumped-gone k now n s h q =
    let at_k = current-gone now (s k) h in
    let answer : some 1 ≡ some n = rw at_k at q in
    (ground arith, rw at_k (put_self k (some (1, none)) s))

pub timed-current :
    (k : CacheKey) (now v deadline : ℕ) (d : Option ℕ) (s : RedisStore)
    → s k ≡ some (v, d)
    → IsCurrent now d
    → (timed k deadline s (current now (s k))).1 k ≡ some (v, some deadline)
timed-current k now v deadline d s e h =
    let at_k : current now (s k) ≡ some (v, d) = ap (current now) e ∙ current-current now v d h in
    rw at_k (put_self k (some (v, some deadline)) s)

timed-up :
    (k : CacheKey) (deadline : ℕ) (s : RedisStore) (e : Option (ℕ × Option ℕ))
    → (timed k deadline s e).0 ≢ none
timed-up k deadline s none h = cc
timed-up k deadline s (some _) h = cc

bumped-up : (k : CacheKey) (s : RedisStore) (e : Option (ℕ × Option ℕ)) → (bumped k s e).0 ≢ none
bumped-up k s none h = cc
bumped-up k s (some _) h = cc

abbrev pub toy_redis : Redis
toy_redis = record {
  Store = RedisStore;
  lookup = λ s k. s k;
  incr = λ k now s. bumped k s (current now (s k));
  expire = λ k timeout now s. timed k (now + seconds timeout) s (current now (s k));
  incr_current = bumped-current;
  incr_gone = bumped-gone;
  incr_frame = λ k j now s apart. bumped-frame k j s (current now (s k)) apart;
  expire_current =
      λ k timeout now v d s e h up. timed-current k now v (now + seconds timeout) d s e h;
  expire_frame = λ k j timeout now s apart.
      timed-frame k j (now + seconds timeout) s (current now (s k)) apart;
}

pub toy_redis-IsUp : IsUp toy_redis
toy_redis-IsUp = record {
  incr_up = λ k now s. bumped-up k s (current now (s k));
  expire_up = λ k timeout now s. timed-up k (now + seconds timeout) s (current now (s k));
}
