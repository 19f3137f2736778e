-- ===== src/DnsCache/Tests.antt =====
-- A cache of two answers.
use quic_diver.Base.{◌≡◌, refl, none, some, bytes, arith}
use quic_diver.DnsCache.{Cache, new_cache, get, put, flush_expired, flush_all, stats}
use quic_diver.DnsCache.Bounds.{IsValid}
use quic_diver.DnsCache.Recall.{put-IsValid}

program : Unit {0}
unfolding get put flush_expired flush_all stats
program = tt

abbrev empty_cache : Cache
empty_cache = new_cache 2

abbrev full : Cache
full = put (put empty_cache 0 (bytes "a") (bytes "1") 100) 0 (bytes "b") (bytes "2") 50

-- The third answer pushes the first one out.
pushed_out : (get (put full 0 (bytes "c") (bytes "3") 100) 1 (bytes "a")).1 ≡ none
unfolding program
pushed_out = refl

-- An answer that was asked for stays.
asked_for :
    (get (put (get full 1 (bytes "a")).0 1 (bytes "c") (bytes "3") 100) 2 (bytes "a")).1
    ≡ some (bytes "1")
unfolding program
asked_for = refl

flushed : (flush_expired full 60).1 ≡ 1
unfolding program
flushed = refl

empty_cache-IsValid : IsValid empty_cache
empty_cache-IsValid = record {
  linked = record { entry = λ k i. elim i [ ]; element = λ k e. absurd (e refl); unique = tt };
  bound = omega arith;
}

put-IsValid_example : IsValid (put empty_cache 0 (bytes "a") (bytes "1") 100)
put-IsValid_example = put-IsValid empty_cache 0 (bytes "a") (bytes "1") 100 empty_cache-IsValid
