-- ===== src/Memcache/Tests.antt =====
-- Runs of the cache of include/libasyik/memcache.hpp, and its theorems at concrete inputs.
use libasyik.Common.{
  ◌+◌, ◌-◌, leb, ℕ, ◌≤◌, List, ◌≡◌, refl, none, some, [], ◌∷◌, true, false, if◌then◌else◌, ltb,
  ℕ_discrete, arith,
}
use mathlib.Core.Option
use libasyik.Memcache.{
  MapList, find, remove, emplace, segment_at, youngest_segment, prune, remove_all, stored, holder,
  emplace_in, remove_in, insert, put, erase, refresh, touch, get, get_or_put, find_live, at, size,
  contains,
}
use libasyik.Memcache.Invariant.{IsValid}
use libasyik.Memcache.Deadlines.{steps, last_clock}
use libasyik.Memcache.Background.{
  Sleep, interval_ms, round, prune_periodically, make_memcache, AreTimely, Recent, last_woken,
  make_memcache-Recent,
}
use libasyik.Memcache.Calls.{Call, puts, step, run, run-IsValid}
use libasyik.Memcache.Lifetime.{at-put_self, at-get_self, get_or_put_lem}

program : Unit {0}
unfolding find remove emplace segment_at youngest_segment prune remove_all stored holder emplace_in
    remove_in insert put erase refresh touch get get_or_put find_live at size contains ℕ_discrete
    step steps round prune_periodically make_memcache interval_ms
program = tt

-- An expiry of 10 s in 10 segments: a segment is 1000 ms wide.
abbrev early : MapList ℕ ℕ
early = (11500, (7, 70) ∷ []) ∷ []

put_run : put ℕ_discrete 10 10 500 7 70 [] ≡ early
unfolding program
put_run = refl

abbrev full : MapList ℕ ℕ
full = (15000, (8, 80) ∷ []) ∷ (11500, (7, 70) ∷ []) ∷ []

put_again : put ℕ_discrete 10 10 4000 8 80 early ≡ full
unfolding program
put_again = refl

get_run :
    get ℕ_discrete 10 10 11000 11001 7 full
    ≡ (some 70, (22001, (7, 70) ∷ []) ∷ (15000, (8, 80) ∷ []) ∷ (11500, []) ∷ [])
unfolding program
get_run = refl

full-IsValid : IsValid ℕ_discrete 10 10 4000 full
full-IsValid = record { ordered = omega arith; unique = λ k. ground arith }

run-IsValid_example :
    let (later, m) =
      run ℕ_discrete 10 10 4000 full (Call.gets 4100 4101 7 ∷ Call.puts 4200 9 90 ∷ []) in
    IsValid ℕ_discrete 10 10 later m
run-IsValid_example =
    run-IsValid ℕ_discrete 10 10 4000 full (Call.gets 4100 4101 7 ∷ Call.puts 4200 9 90 ∷ [])
      (omega arith) full-IsValid

at-put_self_example :
    (d : ℕ) × (14000 ≤ d)
    × (d ≤ 15000)
    × ((later : ℕ)
        → at ℕ_discrete later 9 (put ℕ_discrete 10 10 4000 9 90 full)
          ≡ (if ltb d later then none else some 90))
at-put_self_example = at-put_self ℕ_discrete 10 10 4000 9 90 full full-IsValid

at-get_self_example :
    (d : ℕ) × (14001 ≤ d)
    × (d ≤ 15001)
    × ((later : ℕ)
        → at ℕ_discrete later 7 (get ℕ_discrete 10 10 4000 4001 7 full).1
          ≡ (if ltb d later then none else some 70))
unfolding find_live find at ℕ_discrete
at-get_self_example =
    at-get_self ℕ_discrete 10 10 4000 4001 7 full (omega arith) full-IsValid 70 refl

get_or_put_lem_example :
    let (v, m) = get_or_put ℕ_discrete 10 10 4000 4001 4002 9 90 full in
    (v ≡ Option.get_or (at ℕ_discrete 4000 9 full) 90) × (at ℕ_discrete 14001 9 m ≡ some v)
get_or_put_lem_example =
    get_or_put_lem ℕ_discrete 10 10 4000 4001 4002 14001 9 90 full (omega arith) (omega arith)
      full-IsValid (omega arith)

-- An entry that has expired and is not pruned: `contains` does not see it, and `erase` says that
-- it was there.
erase_expired : (contains ℕ_discrete 12000 7 full ≡ false) × ((erase ℕ_discrete 7 full).0 ≡ true)
unfolding program
erase_expired = (refl, refl)

-- A value is put while the fiber sleeps; a later round prunes it.
sleeps : List (Sleep ℕ ℕ)
sleeps =
    (record { calls = puts 500 7 70 ∷ []; woken = 600; again = 600; pruned = 600; lives = true })
    ∷ (record { calls = []; woken = 1300; again = 1301; pruned = 1302; lives = true })
    ∷ []

abbrev overwritten : MapList ℕ ℕ
overwritten = (11100, (7, 70) ∷ []) ∷ []

-- And another while the fiber is queued, which then reads the clock 100 ms later.
sleeps_run :
    make_memcache ℕ_discrete 10 10 (puts 100 7 60 ∷ []) 200 sleeps ≡ some (2301, overwritten)
unfolding program sleeps
sleeps_run = refl

sleeps-AreTimely : AreTimely 200 sleeps
unfolding sleeps AreTimely last_clock
sleeps-AreTimely = (
  (omega arith, tt),
  omega arith,
  omega arith,
  omega arith,
  ((tt, omega arith, omega arith, omega arith, tt)),
)

make_memcache-Recent_example :
    let interval = interval_ms 10 10 in
    let last = last_woken 200 sleeps in
    Recent (interval + (if leb (200 + interval) last then 0 else 200 - 50)) last overwritten
unfolding last_clock interval_ms
make_memcache-Recent_example =
    make_memcache-Recent ℕ_discrete 10 10 50 200 (puts 100 7 60 ∷ []) sleeps 2301 overwritten
      (omega arith) (omega arith, tt) (omega arith) sleeps-AreTimely sleeps_run
