-- ===== src/Client/Main/Threads.antt =====
-- The threads of the client.
use orbit_cache_public.Prelude.{
  ℕ, Bool, ◌+◌, ◌*◌, ◌≡◌, refl, sym, subst, ◌⊎◌, inl, inr, List, [], ◌∷◌, ◌++◌, append-nil, All,
}
use orbit_cache_public.Os.{
  Thread, tx_t, rx_t, Call, create, join, Host, returns, ◌>>◌, does, require,
}
use orbit_cache_public.Os.Laws.{
  trace, ending, Ending, IsQuiet, Runs-ends, exit-bind, InOrder, InOrder-bind, InOrder-call,
  InOrder-for_from, for_calls,
}
use orbit_cache_public.Client.Main.{
  num_cli_workers, Options, ClientArgs, set_up, run_clients, client_main,
}
use orbit_cache_public.Client.Main.Laws.{IsSetUp, set_up-Runs}

-- The calls for the receivers and the senders from `i` on.
abbrev pub pairs : (Thread → ℕ → Call) → ℕ → ℕ → List Call
pairs f n i = for_calls n i (λ k. f rx_t k ∷ f tx_t k ∷ [])

pair-InOrder :
    (c d : Call) (b b' : Bool)
    → InOrder ((does c >> require b []) >> (does d >> require b' [])) (c ∷ d ∷ []) tt
pair-InOrder c d b b' =
    InOrder-bind (does c >> require b []) (λ _. does d >> require b' []) (c ∷ []) (d ∷ []) tt tt
      (InOrder-call c b) (InOrder-call d b')

run_clients-InOrder :
    (host : Host) (n : ℕ) → InOrder (run_clients host n) (pairs create n 0 ++ pairs join n 0) tt
unfolding run_clients
run_clients-InOrder host n =
    InOrder-bind _ _ (pairs create n 0) (pairs join n 0) tt tt
      (InOrder-for_from n 0
        (λ i.
          (does (create rx_t i) >> require (host.alive (2 * i)) [])
          >> (does (create tx_t i) >> require (host.alive (2 * i + 1)) []))
        (λ k. create rx_t k ∷ create tx_t k ∷ [])
        λ i.
          pair-InOrder (create rx_t i) (create tx_t i) (host.alive (2 * i))
            (host.alive (2 * i + 1)))
      (InOrder-for_from n 0
        (λ i.
          (does (join rx_t i) >> require (host.alive (2 * n + 2 * i)) [])
          >> (does (join tx_t i) >> require (host.alive (2 * n + 2 * i + 1)) []))
        (λ k. join rx_t k ∷ join tx_t k ∷ [])
        λ i.
          pair-InOrder (join rx_t i) (join tx_t i) (host.alive (2 * n + 2 * i))
            (host.alive (2 * n + 2 * i + 1)))

run_clients-returns :
    {A : Type 0} (host : Host) (n : ℕ) (a : A)
    → InOrder (run_clients host n >> returns a) (pairs create n 0 ++ pairs join n 0) a
run_clients-returns host n a =
    let calls_made = pairs create n 0 ++ pairs join n 0 in
    subst (λ cs. InOrder (run_clients host n >> returns a) cs a) (append-nil calls_made)
      (InOrder-bind (run_clients host n) (λ _. returns a) calls_made [] tt a
        (run_clients-InOrder host n) (inr (refl, refl)))

-- The client ends with the status 1 and no thread is created or joined; or it comes to its threads, where
-- the key distribution is one of 0 to 3, the ratio of writes at most 100, the number of workers per server
-- from 1 to the maximum, and each worker's socket is bound to its port. Then its calls, after those that
-- set it up, create for each worker the receiver and then the sender, and join them in the same order,
-- and it goes on to its report; or a thread has ended the process with the status 1 after a first part of
-- these calls. A thread that is joined is taken to end, or to end the process.
pub client_main-threads :
    (host : Host) (argv : List (List ℕ))
    → (All IsQuiet (trace (client_main host argv))
        × (ending (client_main host argv) ≡ Ending.exited 1))
      ⊎ ((given : Options × List ClientArgs) × IsSetUp host given
          × ((quiet : List Call) × All IsQuiet quiet
              × InOrder
                  (client_main host argv)
                  (quiet ++ (pairs create num_cli_workers 0 ++ pairs join num_cli_workers 0))
                  given))
unfolding client_main
client_main-threads host argv =
    let (quiet, end) =
      Runs-ends IsQuiet (IsSetUp host) (set_up host argv) (set_up-Runs host argv) in
    elim end [
      | inl out ↦
          let (exit, same) = exit-bind (set_up host argv) _ 1 out in
          inl (subst (All IsQuiet) (sym same) quiet, exit)
      | inr (given, returned, good) ↦ inr (
        given,
        good,
        (
          trace (set_up host argv),
          quiet,
          InOrder-bind (set_up host argv) (λ g. run_clients host num_cli_workers >> returns g)
              (trace (set_up host argv))
              (pairs create num_cli_workers 0 ++ pairs join num_cli_workers 0) given given
              (inr (refl, returned)) (run_clients-returns host num_cli_workers given),
        ),
      )
    ]
