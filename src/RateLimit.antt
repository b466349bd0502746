-- ===== src/RateLimit.antt =====
-- include/libasyik/rate_limit.hpp: the token bucket of `rate_limit`, over a store of quotas, and
-- the store of `rate_limit_memory`, which is the cache of include/libasyik/memcache.hpp.
-- `unsigned int` and `uint32_t` have 32 bits, `uint64_t` 64; their wrap-around is written out.
pub mod Bucket
pub mod Limit
pub mod History
mod Tests
use libasyik.Common.{
  ℕ, suc, ◌+◌, ◌-◌, ◌*◌, ◌/◌, ◌%◌, Option, none, some, List, [], ltb, leb, ◌==◌, if◌then◌else◌,
  Bytes,
}
use libasyik.Memcache
use libasyik.Memcache.{MapList}

abbrev pub u32_mod : ℕ
u32_mod = 4294967296

abbrev pub u64_mod : ℕ
u64_mod = 18446744073709551616

-- What the store keeps of a key: the tokens that remain, and the time up to which the refill has
-- been counted, in milliseconds of 32 bits.
abbrev pub Quota : Type 0
Quota = ℕ × ℕ

pub record RateLimit : Type 0 where
  pub max_bucket : ℕ
  pub rate : ℕ

-- The constructor; `none` is its exception `std::out_of_range`.
pub init : ℕ → ℕ → Option RateLimit
init max_bucket rate =
    if ltb (rate * 100 % u32_mod) max_bucket
    then none
    else some (record { max_bucket = max_bucket; rate = rate })

-- The body of `try` in `get_remaining_int` for a distance of `distance_ms` from the last refill.
-- Where tokens have been recovered, the rate is not 0.
pub recover : RateLimit → (distance_ms now_ms : ℕ) → Quota → Quota
recover c distance_ms now_ms (remaining, current_ms) =
    let recovered_quota = distance_ms * c.rate % u64_mod / 1000 in
    if recovered_quota == 0
    then (remaining, current_ms)
    else if leb c.max_bucket ((remaining + recovered_quota) % u64_mod)
    then (c.max_bucket, now_ms)
    else (
      (remaining + recovered_quota % u32_mod) % u32_mod,
      (current_ms + (recovered_quota * 1000 + c.rate - 1) % u64_mod / c.rate % u32_mod) % u32_mod,
    )

pub refill : RateLimit → (now_ms : ℕ) → Quota → Quota
refill c now_ms (remaining, current_ms) =
    recover c ((now_ms + u32_mod - current_ms) % u32_mod) now_ms (remaining, current_ms)

-- `get_remaining_int` once the store has answered; `none` is its exception.
pub get_remaining_int : RateLimit → (now_ms : ℕ) → Option Quota → Quota
get_remaining_int c now_ms none = (c.max_bucket, now_ms)
get_remaining_int c now_ms (some q) = refill c now_ms q

-- What `checkpoint` does with it: the points granted, and the quota to store.
pub take_points : ℕ → Quota → ℕ × Quota
take_points point (remaining, current_ms) =
    let point' = if ltb remaining point then remaining else point in
    (point', (remaining - point', current_ms))

-- The interface of the template's parameter `store`. `S` is the store's state; a call of
-- `get_quota` reads the clock twice, of `put_quota` once.
pub record QuotaStore (K S : Type 0) : Type 0 where
  pub get_quota : (t₁ t₂ : ℕ) → K → S → Option Quota × S
  pub put_quota : ℕ → K → Quota → S → S
  pub reset_store : S → S

-- The readings of the steady clock in one call: by `get_remaining_int`, twice by `get_quota`, and
-- by `put_quota`, in milliseconds.
pub record Readings : Type 0 where
  pub t₀ : ℕ
  pub t₁ : ℕ
  pub t₂ : ℕ
  pub t₃ : ℕ

module _ {K S : Type 0} (store : QuotaStore K S) (c : RateLimit) where
  pub checkpoint : Readings → K → ℕ → S → ℕ × S
  checkpoint t k point s =
      let (q, s') = store.get_quota t.t₁ t.t₂ k s in
      let (point', q') = take_points point (get_remaining_int c (t.t₀ % u32_mod) q) in
      (point', store.put_quota t.t₃ k q' s')

  pub get_remaining : Readings → K → S → ℕ × S
  get_remaining t k s =
      let (q, s') = store.get_quota t.t₁ t.t₂ k s in
      ((get_remaining_int c (t.t₀ % u32_mod) q).0, s')

  pub reset : S → S
  reset s = store.reset_store s

-- `rate_limit_memory`: `make_memcache_mt<…, 100, 16>`
abbrev pub memory_store : {K : Type 0} → Discrete K → QuotaStore K (MapList K Quota)
memory_store dec = record {
  get_quota = Memcache.get dec 100 16;
  put_quota = Memcache.put dec 100 16;
  reset_store = Memcache.clear;
}
