-- ===== src/Tests/Traffic.antt =====
-- Two callers of one Transport, each with a connection of its own.
use dnsredir.Base.{true, ℕ, Bool, none, some, [], ◌∷◌, get_elem?, ◌≡◌, ◌≢◌, refl, arith}
use dnsredir.Base.Steps.{Many, stay, step}
use dnsredir.Connections.{type_udp, type_tcp, PersistConn, dial, split_last, stack}
use dnsredir.Connections.Conserve.{held}
use dnsredir.Traffic.{
  idle, asking, holding, yielding, returned, Traffic, quiet, Reach, start, later, Step, here, there,
  call, accept, answer, connected, give_back,
}
use dnsredir.Traffic.Sound.{IsSound}
use dnsredir.Traffic.Owners.{reach-IsSound, holders_differ}
use dnsredir.Traffic.Served.{GetsAnswer, dial_is_answered, returned_blocks}

abbrev first_good : ℕ → (ℕ → Bool) → ℕ
first_good n p = 0

abbrev udp_conn : PersistConn
udp_conn = record { id = 0; which_type = type_udp; used = 0 }

abbrev tcp_conn : PersistConn
tcp_conn = record { id = 1; which_type = type_tcp; used = 0 }

abbrev two_held : Traffic
two_held = record (quiet (holding type_udp udp_conn ∷ holding type_tcp tcp_conn ∷ idle ∷ [])) {
  next = 2;
}

two_reached : Reach first_good 5 two_held
unfolding dial split_last stack
two_reached =
    later
      (later
        (later
          (later
            (later
              (later
                (later
                  (later (start (idle ∷ idle ∷ idle ∷ []) (refl, (refl, (refl, tt))))
                    (call type_udp here))
                  (accept type_udp 6 refl here))
                (answer type_udp none refl here))
              (connected type_udp here))
            (call type_tcp (there here)))
          (accept type_tcp 7 refl (there here)))
        (answer type_tcp none refl (there here)))
      (connected type_tcp (there here))

reach-IsSound_example : IsSound two_held
reach-IsSound_example = reach-IsSound first_good 5 two_reached

holders_differ_example :
    (udp_conn.id ≢ tcp_conn.id) × (held 0 two_held.cache ≡ 0) × (type_udp ≡ type_udp)
holders_differ_example =
    holders_differ first_good 5 0 1 type_udp type_tcp udp_conn tcp_conn two_reached refl refl
      (λ e. ground arith)

abbrev one_asks : Traffic
one_asks = record two_held {
  callers = holding type_udp udp_conn ∷ holding type_tcp tcp_conn ∷ asking type_udp ∷ [];
}

dial_is_answered_example : GetsAnswer first_good 5 one_asks 2 type_udp
dial_is_answered_example =
    dial_is_answered first_good 5 one_asks 2 type_udp
      (later two_reached (call type_udp (there (there here)))) (λ e. ground arith) refl

-- The Transport is stopped while a caller is at the send.
abbrev left_behind : Traffic
left_behind = record one_asks { stopped = true; manager = returned }

-- Another caller of it ends its exchange.
abbrev later_on : Traffic
later_on = record left_behind {
  callers =
      yielding (record udp_conn { used = 9 }) ∷ holding type_tcp tcp_conn ∷ asking type_udp ∷ [];
}

goes_on : Many (Step first_good 5) left_behind later_on
goes_on = step stay (give_back type_udp udp_conn 9 here)

returned_blocks_example : get_elem? later_on.callers 2 ≡ some (asking type_udp)
returned_blocks_example = returned_blocks first_good 5 2 type_udp refl refl goes_on
