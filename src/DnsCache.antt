-- ===== src/DnsCache.antt =====
-- internal/server/dns/cache.go: the cache of DNS answers, least recently used out first. An element
-- of the list `ll` is its key; the entry that it holds stands in `m` under the key. The receiver is
-- not nil. A time to live that is not positive is 0.
mod Keys
pub mod Bounds
pub mod Recall
mod Tests
use quic_diver.Base.{
  ℕ, zero, suc, ◌+◌, ◌-◌, Bool, true, false, ◌||◌, Option, none, some, ltb, ◌==◌, if◌then◌else◌,
  List, [], ◌∷◌, Str, Str-discrete, Map, empty_map, update, delete, length,
}

-- The type `entry`
pub record Entry : Type 0 where
  pub resp : Str
  pub expires : ℕ

pub record Cache : Type 0 where
  pub max : ℕ
  pub ll : List Str
  pub m : Map Str Entry
  pub hits : ℕ
  pub misses : ℕ

-- `NewCache`
abbrev pub new_cache : ℕ → Cache
new_cache max = record { max = max; ll = []; m = empty_map; hits = 0; misses = 0 }

-- `ll.Remove`
unfoldable pub remove_key : Str → List Str → List Str
unfolding Str-discrete
remove_key k [] = []
remove_key k (x ∷ xs) = elim (Str-discrete x k) [ yes e ↦ xs | no e ↦ x ∷ remove_key k xs ]

-- `removeLocked`
unfoldable pub remove_locked : Cache → Str → Cache
unfolding remove_key
remove_locked c k = record c { ll = remove_key k c.ll; m = delete Str-discrete c.m k }

-- `ll.MoveToFront`
unfoldable pub move_to_front : Cache → Str → Cache
unfolding remove_key
move_to_front c k = record c { ll = k ∷ remove_key k c.ll }

-- `Get` with what the map holds under the key.
unfoldable pub get_found : Cache → ℕ → Str → Option Entry → Cache × Option Str
unfolding remove_locked move_to_front
get_found c now k none = (record c { misses = c.misses + 1 }, none)
get_found c now k (some e) =
    if ltb e.expires now
    then (record (remove_locked c k) { misses = c.misses + 1 }, none)
    else (record (move_to_front c k) { hits = c.hits + 1 }, some e.resp)

-- `Get`
unfoldable pub get : Cache → ℕ → Str → Cache × Option Str
unfolding get_found
get c now k = if c.max == 0 then (c, none) else get_found c now k (c.m k)

-- `ll.Back`
unfoldable pub back : List Str → Option Str
back [] = none
back (x ∷ []) = some x
back (x ∷ y ∷ xs) = back (y ∷ xs)

unfoldable pub remove_back : Cache → Option Str → Cache
unfolding remove_locked
remove_back c none = c
remove_back c (some k) = remove_locked c k

-- The loop of `Put` with `fuel` rounds left.
unfoldable pub evict : ℕ → Cache → Cache
unfolding remove_back back
evict zero c = c
evict (suc fuel) c =
    let rest = evict fuel (remove_back c (back c.ll)) in if ltb c.max (length c.ll) then rest else c

-- `Put` with what the map holds under the key.
unfoldable pub put_found : Cache → Str → Entry → Option Entry → Cache
unfolding move_to_front evict
put_found c k e (some d) = move_to_front (record c { m = update Str-discrete c.m k e }) k
put_found c k e none =
    evict (suc (length c.ll)) (record c { ll = k ∷ c.ll; m = update Str-discrete c.m k e })

-- `Put`
unfoldable pub put : Cache → ℕ → Str → Str → ℕ → Cache
unfolding put_found
put c now k resp ttl =
    if c.max == 0 || ttl == 0
    then c
    else put_found c k (record { resp = resp; expires = now + ttl }) (c.m k)

-- Has the entry under the key expired?
abbrev pub is_expired : Cache → ℕ → Str → Bool
is_expired c now k = elim (c.m k) [ none ↦ false | some e ↦ ltb e.expires now ]

-- The loop of `FlushExpired` over the elements `ks`, which runs from the back to the front.
unfoldable pub flush_keys : ℕ → List Str → Cache → Cache × ℕ
unfolding remove_locked
flush_keys now [] c = (c, 0)
flush_keys now (k ∷ ks) c =
    let (d, n) = flush_keys now ks c in
    if is_expired d now k then (remove_locked d k, n + 1) else (d, n)

-- `FlushExpired`
unfoldable pub flush_expired : Cache → ℕ → Cache × ℕ
unfolding flush_keys
flush_expired c now = flush_keys now c.ll c

-- `FlushAll`
unfoldable pub flush_all : Cache → Cache × ℕ
flush_all c = (record c { ll = []; m = empty_map }, length c.ll)

-- `Stats`
unfoldable pub stats : Cache → ℕ × (ℕ × ℕ)
stats c = (length c.ll, (c.hits, c.misses))
