-- ===== src/Tests/Connections.antt =====
-- Two connections in a cache: one is taken, the other one expires.
use dnsredir.Base.{zero, suc, ◌++◌, if◌then◌else◌, ap, arith, Bool, ℕ, List, [], ◌∷◌, ◌≡◌, refl}
use dnsredir.Connections.Sorted.{Searches}
use dnsredir.Connections.Tidy.{IsTidy, IsFresh}
use dnsredir.Connections.Fresh.{manage-IsFresh}
use dnsredir.Connections.{
  type_tcp, type_tls, stack, PersistConn, type_udp, empty_cache, Event, dialed, yielded, ticked,
  stopped, manage, stamped,
}

abbrev conn : ℕ → PersistConn
conn n = record { id = n; which_type = type_udp; used = 0 }

abbrev day : List Event
day =
    yielded (stamped 0 (conn 7))
    ∷ yielded (stamped 1 (conn 8))
    ∷ dialed 5 type_udp
    ∷ ticked 20
    ∷ dialed 21 type_udp
    ∷ stopped 22
    ∷ []

-- sort.Search at a stack that is all stale.
abbrev last_index : ℕ → (ℕ → Bool) → ℕ
last_index n f = n

takes_last : (manage last_index 10 day empty_cache).1 ≡ record (conn 8) { used = 1 } ∷ []
unfolding manage
takes_last = refl

-- A Search that looks at every index.
abbrev linear_search : ℕ → (ℕ → Bool) → ℕ
linear_search zero f = 0
linear_search (suc n) f = if f 0 then 0 else suc (linear_search n (λ i. f (suc i)))

linear_search-Searches : Searches linear_search
linear_search-Searches zero k f h before behind = omega arith
linear_search-Searches (suc n) zero f h before behind =
    rw (behind 0 (omega arith) (omega arith)) refl
linear_search-Searches (suc n) (suc k) f h before behind = rw (before 0 (omega arith)) (
    ap suc (
      linear_search-Searches n k (λ i. f (suc i)) (omega arith)
        (λ i b. before (suc i) (omega arith))
        (λ i b c. behind (suc i) (omega arith) (omega arith))))

abbrev morning : List Event
morning = yielded (stamped 2 (conn 7)) ∷ yielded (stamped 9 (conn 8)) ∷ []

empty_cache-IsTidy : IsTidy 0 empty_cache
unfolding stack
empty_cache-IsTidy type_udp = omega arith
empty_cache-IsTidy type_tcp = omega arith
empty_cache-IsTidy type_tls = omega arith

keeps_the_fresh_one :
    ((manage linear_search 10 (morning ++ ticked 15 ∷ []) empty_cache).0).udp
    ≡ record (conn 8) { used = 9 } ∷ []
unfolding manage
keeps_the_fresh_one = refl

manage-IsFresh_example :
    IsFresh 10 15 ((manage linear_search 10 (morning ++ ticked 15 ∷ []) empty_cache).0)
manage-IsFresh_example =
    manage-IsFresh linear_search 10 15 0 morning empty_cache linear_search-Searches
      empty_cache-IsTidy (omega arith, (omega arith, tt))

-- Two callers hand their connections over in the other order: the one that is expired is left.
keeps_the_expired_one :
    ((manage linear_search 10
      (yielded (stamped 9 (conn 8)) ∷ yielded (stamped 2 (conn 7)) ∷ ticked 15 ∷ [])
      empty_cache).0
    ).udp
    ≡ stamped 9 (conn 8) ∷ stamped 2 (conn 7) ∷ []
unfolding manage
keeps_the_expired_one = refl
