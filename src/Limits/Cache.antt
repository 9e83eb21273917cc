-- ===== src/Limits/Cache.antt =====
-- What the limiters use of Django's cache and of Redis: counters that expire. Neither is part of
-- this repository, so both are parameters, with the documented behaviour of the calls as laws.
use ai_inference_gateway_pla.Base.{ℕ, ◌+◌, ◌*◌, ◌≤◌, ◌<◌, ◌≡◌, ◌≢◌, Option, none, some}

-- `rl:rpm:<key>:<window>`, `quota:req:<user>:<day>` and `quota:tok:<user>:<day>`. The texts differ
-- where the parts do.
pub data CacheKey : Type 0 where
  rpm : ℕ → ℕ → CacheKey
  requests : ℕ → ℕ → CacheKey
  tokens : ℕ → ℕ → CacheKey

abbrev pub seconds : ℕ → ℕ
seconds n = n * 1000000

-- A value and the time at which it is gone.
abbrev pub Entry : Type 0
Entry = ℕ × ℕ

abbrev pub IsDead : ℕ → Option Entry → Type 0
IsDead now none = Unit
IsDead now (some (v, deadline)) = deadline ≤ now

-- `django.core.cache`: every call is atomic. `none` of `incr` is the `ValueError` on a missing key.
pub record Cache : Type 1 where
  pub Store : Type 0
  pub lookup : Store → CacheKey → Option Entry
  pub get : CacheKey → ℕ → ℕ → Store → ℕ
  pub incr : CacheKey → ℕ → Store → Option ℕ × Store
  pub add : CacheKey → ℕ → ℕ → ℕ → Store → Store
  pub set : CacheKey → ℕ → ℕ → ℕ → Store → Store
  pub get_live :
      (k : CacheKey) (default now v d : ℕ) (s : Store)
      → lookup s k ≡ some (v, d)
      → now < d
      → get k default now s ≡ v
  pub get_dead :
      (k : CacheKey) (default now : ℕ) (s : Store)
      → IsDead now (lookup s k)
      → get k default now s ≡ default
  pub incr_live :
      (k : CacheKey) (now v d : ℕ) (s : Store)
      → lookup s k ≡ some (v, d)
      → now < d
      → ((incr k now s).0 ≡ some (v + 1)) × (lookup (incr k now s).1 k ≡ some (v + 1, d))
  pub incr_dead :
      (k : CacheKey) (now : ℕ) (s : Store)
      → IsDead now (lookup s k)
      → ((incr k now s).0 ≡ none) × IsDead now (lookup (incr k now s).1 k)
  pub incr_frame :
      (k j : CacheKey) (now : ℕ) (s : Store) → k ≢ j → lookup (incr k now s).1 j ≡ lookup s j
  pub add_dead :
      (k : CacheKey) (v timeout now : ℕ) (s : Store)
      → IsDead now (lookup s k)
      → lookup (add k v timeout now s) k ≡ some (v, now + seconds timeout)
  pub add_live :
      (k : CacheKey) (v timeout now w d : ℕ) (s : Store)
      → lookup s k ≡ some (w, d)
      → now < d
      → lookup (add k v timeout now s) k ≡ some (w, d)
  pub add_frame :
      (k j : CacheKey) (v timeout now : ℕ) (s : Store)
      → k ≢ j
      → lookup (add k v timeout now s) j ≡ lookup s j
  pub set_self :
      (k : CacheKey) (v timeout now : ℕ) (s : Store)
      → lookup (set k v timeout now s) k ≡ some (v, now + seconds timeout)
  pub set_frame :
      (k j : CacheKey) (v timeout now : ℕ) (s : Store)
      → k ≢ j
      → lookup (set k v timeout now s) j ≡ lookup s j

-- A Redis counter may have no deadline.
abbrev pub IsGone : ℕ → Option (ℕ × Option ℕ) → Type 0
IsGone now none = Unit
IsGone now (some (v, none)) = ⊥
IsGone now (some (v, some deadline)) = deadline ≤ now

abbrev pub IsCurrent : ℕ → Option ℕ → Type 0
IsCurrent now none = Unit
IsCurrent now (some deadline) = now < deadline

-- `redis.asyncio.Redis`. A call may fail; the laws speak of those that do not. `incr` gives the new
-- value, `expire` whether it went through.
pub record Redis : Type 1 where
  pub Store : Type 0
  pub lookup : Store → CacheKey → Option (ℕ × Option ℕ)
  pub incr : CacheKey → ℕ → Store → Option ℕ × Store
  pub expire : CacheKey → ℕ → ℕ → Store → Option (Unit {0}) × Store
  pub incr_current :
      (k : CacheKey) (now v n : ℕ) (d : Option ℕ) (s : Store)
      → lookup s k ≡ some (v, d)
      → IsCurrent now d
      → (incr k now s).0 ≡ some n
      → (n ≡ v + 1) × (lookup (incr k now s).1 k ≡ some (v + 1, d))
  pub incr_gone :
      (k : CacheKey) (now n : ℕ) (s : Store)
      → IsGone now (lookup s k)
      → (incr k now s).0 ≡ some n
      → (n ≡ 1) × (lookup (incr k now s).1 k ≡ some (1, none))
  pub incr_frame :
      (k j : CacheKey) (now : ℕ) (s : Store) → k ≢ j → lookup (incr k now s).1 j ≡ lookup s j
  pub expire_current :
      (k : CacheKey) (timeout now v : ℕ) (d : Option ℕ) (s : Store)
      → lookup s k ≡ some (v, d)
      → IsCurrent now d
      → (expire k timeout now s).0 ≢ none
      → lookup (expire k timeout now s).1 k ≡ some (v, some (now + seconds timeout))
  pub expire_frame :
      (k j : CacheKey) (timeout now : ℕ) (s : Store)
      → k ≢ j
      → lookup (expire k timeout now s).1 j ≡ lookup s j
