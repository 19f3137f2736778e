-- ===== src/Balancer/Tests.antt =====
-- Three nodes, of which `b` becomes much better than the chosen `a`.
use quic_diver.Base.{ℕ, ◌+◌, ◌*◌, ◌^◌, ◌≡◌, refl, inl, inr, List, [], ◌∷◌, some, Str, bytes, arith}
use quic_diver.Balancer.{
  PathStats, Balancer, Choice, new_balancer, observe_path, forget, pick, best_locked, fresh_choice,
  switch_cooldown, worth_switch,
}
use quic_diver.Balancer.Best.{IsBest, best_locked-IsBest}
use quic_diver.Balancer.Streak.{Round, History, begins, goes, WellWorth, pick-WellWorth}

program : Unit {0}
unfolding observe_path forget pick best_locked worth_switch
program = tt

abbrev nodes : List Str
nodes = bytes "b" ∷ bytes "a" ∷ bytes "c" ∷ []

abbrev path_of : ℕ → PathStats
path_of ms = record { srtt = ms * 10 ^ 6; rtt_var = 0; loss = 0 }

abbrev later : ℕ
later = switch_cooldown + 1000

abbrev measured : Balancer
measured =
    observe_path (observe_path new_balancer 0 (bytes "a") (path_of 30)) 0 (bytes "b") (path_of 100)

-- `a` is chosen, and `b` gets better when the pause is over.
abbrev improved : Balancer
improved =
    observe_path
      (observe_path (pick measured 1 (bytes "de") nodes).0 later (bytes "b") (path_of 10)) later
      (bytes "a") (path_of 30)

abbrev once : Balancer
once = (pick improved later (bytes "de") nodes).0

abbrev twice : Balancer
twice = (pick once later (bytes "de") nodes).0

first_pick : (pick measured 1 (bytes "de") nodes).1 ≡ bytes "a"
unfolding program
first_pick = refl

held : (pick improved later (bytes "de") nodes).1 ≡ bytes "a"
unfolding program
held = refl

switched : (pick twice later (bytes "de") nodes).1 ≡ bytes "b"
unfolding program
switched = refl

best_locked-IsBest_example : IsBest measured 1 nodes (best_locked measured 1 nodes)
best_locked-IsBest_example = best_locked-IsBest measured 1 nodes (refl, (refl, (refl, tt)))

abbrev winning : Choice
winning = record { node = bytes "a"; since = 1; challenger = bytes "b"; wins = 2 }

abbrev round : Balancer → ℕ → Round
round b now = record { state = b; now = now; head = bytes "b"; rest = bytes "a" ∷ bytes "c" ∷ [] }

abbrev rounds : List Round
rounds = round once later ∷ round improved later ∷ round measured 1 ∷ []

history : History (bytes "de") rounds twice
unfolding program
history =
    goes once later _ _
      (goes improved later _ _ (goes measured 1 _ _ (begins {b = measured} refl) refl tt) refl
        (omega arith))
      refl (omega arith)

pick-WellWorth_example :
    (q1 : Round) × ((q2 : Round) × ((older : List Round) × (rounds ≡ q1 ∷ q2 ∷ older)
        × WellWorth 1 (bytes "a") (pick twice later (bytes "de") nodes).1 (round twice later)
        × WellWorth 1 (bytes "a") (pick twice later (bytes "de") nodes).1 q1
        × WellWorth 1 (bytes "a") (pick twice later (bytes "de") nodes).1 q2
        × ((pick twice later (bytes "de") nodes).0.choice (bytes "de")
            ≡ some (fresh_choice (pick twice later (bytes "de") nodes).1 later))))
unfolding program
pick-WellWorth_example =
    pick-WellWorth (bytes "de") rounds twice twice later (bytes "b") (bytes "a" ∷ bytes "c" ∷ [])
      winning history refl refl (inr (inl refl)) (λ e. ground (arith, e))
