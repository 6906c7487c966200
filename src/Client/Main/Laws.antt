-- ===== src/Client/Main/Laws.antt =====
-- What the client's `main` accepts, and the threads that it runs.
use orbit_cache_public.Prelude.{
  ℕ, zero, suc, ◌+◌, ◌≤◌, ◌≡◌, refl, ap, true, ◌||◌, not, List, [], ◌∷◌, length, some, arith,
}
use orbit_cache_public.Prelude.Int.{ℤ, pos, negsuc, ltb_ℤ}
use orbit_cache_public.Os.{close, Host, require, opens}
use orbit_cache_public.Os.Laws.{IsQuiet, Runs, Runs-bind, Runs-calls, Runs-require, Runs-opens}
use orbit_cache_public.Routing.{max_workers, orbitcache_base_port}
use orbit_cache_public.Server.Startup.{get_server_id}
use orbit_cache_public.Client.Main.{
  num_cli_workers, Options, ClientArgs, requests_of, client_usage, read_srv_workers, read_client_id,
  using_workers, bad_dist, bad_ratio, no_socket, no_port, read_options, client_args, open_sockets,
  set_up,
}

abbrev UpTo : ℕ → ℤ → Type 0
UpTo most x = (n : ℕ) × (x ≡ pos n) × (n ≤ most)

-- The options that pass the tests.
pub record IsAccepted (host : Host) (o : Options) : Type 0 where
  pub known_dist : UpTo 3 o.dist
  pub percentage : UpTo 100 o.wratio
  pub some_worker : 1 ≤ o.workers
  pub few : o.workers ≤ max_workers
  pub product : o.num_requests ≡ requests_of o.target_qps o.time_exp
  pub own_id : o.server_id ≡ get_server_id host.address

abbrev IsCount : ℕ → Type 0
IsCount w = (1 ≤ w) × (w ≤ max_workers)

read_srv_workers-Runs : (argv : List (List ℕ)) → Runs IsQuiet IsCount (read_srv_workers argv)
unfolding read_srv_workers require
read_srv_workers-Runs argv = ground arith

read_client_id-Runs :
    (host : Host) → Runs IsQuiet (λ id. id ≡ get_server_id host.address) (read_client_id host)
unfolding read_client_id require
read_client_id-Runs host = ground arith

in_range : (most : ℕ) (x : ℤ) → not (ltb_ℤ (pos most) x || ltb_ℤ x (pos 0)) ≡ true → UpTo most x
in_range most (pos n) h = (n, refl, grind arith)
in_range most (negsuc n) h = grind arith

accepted :
    {host : Host} {p d t w id : ℤ} {q k : ℕ}
    → not (ltb_ℤ (pos 3) d || ltb_ℤ d (pos 0)) ≡ true
    → not (ltb_ℤ (pos 100) w || ltb_ℤ w (pos 0)) ≡ true
    → IsCount k
    → id ≡ get_server_id host.address
    → IsAccepted host (record {
      protocol_id = p;
      dist = d;
      time_exp = t;
      target_qps = q;
      wratio = w;
      workers = k;
      num_requests = requests_of q t;
      server_id = id;
    })
accepted {d = d} {w = w} dist_ok ratio_ok count own = record {
  known_dist = in_range 3 d dist_ok;
  percentage = in_range 100 w ratio_ok;
  some_worker = count.0;
  few = count.1;
  product = refl;
  own_id = own;
}

read_options-Runs :
    (host : Host) (argv : List (List ℕ)) → Runs IsQuiet (IsAccepted host) (read_options host argv)
unfolding read_options
read_options-Runs host argv =
    Runs-bind IsQuiet _ (IsAccepted host) (require _ (client_usage argv ∷ [])) _
      (Runs-require IsQuiet _ (client_usage argv ∷ []) (tt, tt))
      λ _ _.
        Runs-bind IsQuiet IsCount (IsAccepted host) (read_srv_workers argv) _
          (read_srv_workers-Runs argv)
          λ w count. Runs-calls IsQuiet (IsAccepted host) (using_workers w) _ tt (
            Runs-bind IsQuiet _ (IsAccepted host) (require _ (bad_dist ∷ [])) _
              (Runs-require IsQuiet _ (bad_dist ∷ []) (tt, tt))
              λ _ dist_ok.
                Runs-bind IsQuiet _ (IsAccepted host) (require _ (bad_ratio ∷ [])) _
                  (Runs-require IsQuiet _ (bad_ratio ∷ []) (tt, tt))
                  λ _ ratio_ok.
                    Runs-bind IsQuiet _ (IsAccepted host) (read_client_id host) _
                      (read_client_id-Runs host) λ id own. accepted dist_ok ratio_ok count own)

-- The sockets of the workers from `i` on, in order, each bound to its port.
pub data IsOpened (host : Host) (o : Options) : ℕ → List ClientArgs → Type 0 where
  nil : {i : ℕ} → IsOpened host o i []
  cons :
      {i : ℕ} {args : List ClientArgs} (sock : ℕ)
      → host.sockets i ≡ some sock
      → host.bind_ok (orbitcache_base_port + i) ≡ true
      → IsOpened host o (i + 1) args
      → IsOpened host o i (client_args o i sock ∷ args)

abbrev pub AreOpened : Host → Options → ℕ → ℕ → List ClientArgs → Type 0
AreOpened host o n i args = IsOpened host o i args × (length args ≡ n)

open_sockets-Runs :
    (host : Host) (o : Options) (n i : ℕ)
    → Runs IsQuiet (AreOpened host o n i) (open_sockets host o n i)
unfolding open_sockets
open_sockets-Runs host o zero i = (IsOpened.nil, refl)
open_sockets-Runs host o (suc n) i = (
  tt,
  Runs-bind IsQuiet _ (AreOpened host o (suc n) i) (opens (host.sockets i) (no_socket ∷ [])) _
      (Runs-opens IsQuiet (host.sockets i) (no_socket ∷ []) (tt, tt))
      λ sock opened. (
        tt,
        Runs-bind IsQuiet _ (AreOpened host o (suc n) i)
            (require (host.bind_ok (orbitcache_base_port + i)) (no_port ∷ close sock ∷ [])) _
            (Runs-require IsQuiet _ (no_port ∷ close sock ∷ []) (tt, (tt, tt)))
            λ _ bound.
              Runs-bind IsQuiet _ (AreOpened host o (suc n) i) (open_sockets host o n (i + 1)) _
                (open_sockets-Runs host o n (i + 1))
                λ args rest. (IsOpened.cons sock opened bound rest.0, ap suc rest.1),
      ),
)

pub record IsSetUp (host : Host) (given : Options × List ClientArgs) : Type 0 where
  pub accepted_options : IsAccepted host given.0
  pub opened : AreOpened host given.0 num_cli_workers 0 given.1

pub set_up-Runs :
    (host : Host) (argv : List (List ℕ)) → Runs IsQuiet (IsSetUp host) (set_up host argv)
unfolding set_up
set_up-Runs host argv =
    Runs-bind IsQuiet (IsAccepted host) (IsSetUp host) (read_options host argv) _
      (read_options-Runs host argv)
      λ o good. (
        tt,
        (
          tt,
          Runs-bind IsQuiet (AreOpened host o num_cli_workers 0) (IsSetUp host)
              (open_sockets host o num_cli_workers 0) _ (open_sockets-Runs host o num_cli_workers 0)
              λ args opened. record { accepted_options = good; opened = opened },
        ),
      )
