-- ===== src/Preload/Main/Laws.antt =====
-- What a run of preload sends, and that it closes its socket.
use orbit_cache_public.Prelude.{
  ℕ, zero, suc, ◌+◌, ◌≤◌, ◌<◌, ◌≡◌, refl, ap, ◌∙◌, Bool, true, false, List, [], ◌∷◌, ◌++◌,
  append-nil, subst, some, length, arith,
}
use orbit_cache_public.Prelude.Int.{pos}
use orbit_cache_public.Os.{
  Call, sendto, close, Host, Prog, returns, exits, calls, ◌>>=◌, ◌>>◌, require, opens,
}
use orbit_cache_public.Os.Laws.{trace, ending, Ending, each}
use orbit_cache_public.Routing.{orbitcache_base_port}
use orbit_cache_public.Preload.{preload_datagram, Preloaded, preload_round, preload_loop}
use orbit_cache_public.Preload.Main.{
  item_count, target_ip, read_items, open_socket, send_items, install, preload_main,
}

-- The datagrams among the calls, with where they go.
abbrev pub datagrams : List Call → List (List ℕ × ℕ × List ℕ)
datagrams [] = []
datagrams (sendto sock address port datagram ∷ cs) = (address, port, datagram) ∷ datagrams cs
datagrams (_ ∷ cs) = datagrams cs

-- The last call of a program, whether it returns or exits; `c` where it makes none.
abbrev last_call {ℓ} : {A : Type ℓ} → Call → Prog A → Call
last_call c (returns a) = c
last_call c (exits n) = c
last_call c (calls d p) = last_call d p

-- A failed test that makes the call `x` last, within a program that makes it last.
last_call-require {ℓ κ} :
    {A : Type ℓ} {B : Type κ} (c x : Call) (b : Bool) (m : Call) (p : Prog A) (f : A → Prog B)
    → last_call c (p >>= f) ≡ x
    → last_call c (require b (m ∷ x ∷ []) >> p >>= f) ≡ x
unfolding require
last_call-require c x true m p f h = h
last_call-require c x false m p f h = refl

last_call-send_items :
    (c : Call) (host : Host) (sock : ℕ) (target : List ℕ) (left n i : ℕ) (p : Preloaded)
    (f : Preloaded → Prog ℕ)
    → ((d : Call) (q : Preloaded) → last_call d (f q) ≡ close sock)
    → last_call c (send_items host sock target left n i p >>= f) ≡ close sock
unfolding send_items
last_call-send_items c host sock target zero n i p f h = h c p
last_call-send_items c host sock target (suc left) n i p f h =
    last_call-require _ (close sock) (host.send_ok i) _ _ f
      (last_call-send_items _ host sock target left n (i + 1) (preload_round n i p) f h)

-- Once the socket is there, the last call of the run closes it: when the port cannot be bound, when
-- the address is bad, when a datagram cannot be sent, and when all are sent.
install-closes :
    (c : Call) (host : Host) (target : List ℕ) (n sock : ℕ)
    → host.sockets 0 ≡ some sock
    → last_call c (install host target n) ≡ close sock
unfolding install open_socket opens
install-closes c host target n sock e = rw e (
    last_call-require _ (close sock) (host.bind_ok orbitcache_base_port) _ _ _ (
      last_call-require _ (close sock) (host.address_ok target) _ _ _
        (last_call-send_items _ host sock target n n 0 _ _ (λ d q. refl))))

-- Where every `sendto` succeeds.
send_items_lem :
    (host : Host) (sock : ℕ) (target : List ℕ) (left n i : ℕ) (p : Preloaded)
    (f : Preloaded → Prog ℕ)
    → ((j : ℕ) → host.send_ok j ≡ true)
    → (ending (send_items host sock target left n i p >>= f) ≡ ending (f (preload_loop left n i p)))
      × (datagrams (trace (send_items host sock target left n i p >>= f))
          ≡ each left i (λ j. (target, orbitcache_base_port + 1, preload_datagram n j))
            ++ datagrams (trace (f (preload_loop left n i p))))
unfolding send_items require preload_loop
send_items_lem host sock target zero n i p f ok = (refl, refl)
send_items_lem host sock target (suc left) n i p f ok = rw (ok i) (
    let (end, made) = send_items_lem host sock target left n (i + 1) (preload_round n i p) f ok in
    (end, ap (◌∷◌ (target, orbitcache_base_port + 1, preload_datagram n i)) made))

-- Where the one of the item `i + k` is the first that fails.
send_items_stops :
    (host : Host) (sock : ℕ) (target : List ℕ) (k left n i : ℕ) (p : Preloaded)
    (f : Preloaded → Prog ℕ)
    → k < left
    → ((j : ℕ) → j < i + k → host.send_ok j ≡ true)
    → host.send_ok (i + k) ≡ false
    → (ending (send_items host sock target left n i p >>= f) ≡ Ending.exited 1)
      × (datagrams (trace (send_items host sock target left n i p >>= f))
          ≡ each (suc k) i (λ j. (target, orbitcache_base_port + 1, preload_datagram n j)))
unfolding send_items require
send_items_stops host sock target k zero n i p f lt ok bad = absurd (omega arith)
send_items_stops host sock target zero (suc left) n i p f lt ok bad =
    rw (subst (λ m. host.send_ok m ≡ false) {y = i} (omega arith) bad) (refl, refl)
send_items_stops host sock target (suc k) (suc left) n i p f lt ok bad = rw (ok i (omega arith)) (
    let (end, made) =
      send_items_stops host sock target k left n (i + 1) (preload_round n i p) f (omega arith)
        (λ j l. ok j (omega arith)) (subst (λ m. host.send_ok m ≡ false) (omega arith) bad) in
    (end, ap (◌∷◌ (target, orbitcache_base_port + 1, preload_datagram n i)) made))

-- The socket of a host on which the set-up of preload succeeds.
pub record IsReady (host : Host) (target : List ℕ) (sock : ℕ) : Type 0 where
  pub socket : host.sockets 0 ≡ some sock
  pub bound : host.bind_ok orbitcache_base_port ≡ true
  pub address : host.address_ok target ≡ true

read_items_lem :
    {B : Type 0} (argv : List (List ℕ)) (n : ℕ) (f : ℕ → Prog B)
    → item_count argv ≡ pos n
    → 1 ≤ n
    → length argv ≤ 3
    → read_items argv >>= f ≡ f n
unfolding read_items require
read_items_lem argv n f e low few = rw e (ground arith)

-- A run for `n` items that the system lets through returns 0, having sent the packets of the keys from
-- 0 to n - 1, in order, to the target.
pub preload_main-sends :
    (host : Host) (argv : List (List ℕ)) (n sock : ℕ)
    → item_count argv ≡ pos n
    → 1 ≤ n
    → length argv ≤ 3
    → IsReady host (target_ip argv) sock
    → ((j : ℕ) → host.send_ok j ≡ true)
    → (ending (preload_main host argv) ≡ Ending.returned 0)
      × (datagrams (trace (preload_main host argv))
          ≡ each n 0 (λ j. (target_ip argv, orbitcache_base_port + 1, preload_datagram n j)))
unfolding preload_main install open_socket opens require
preload_main-sends host argv n sock count low few ready ok =
    rw
      (
        read_items_lem argv n (install host (target_ip argv)) count low few,
        ready.socket,
        ready.bound,
        ready.address,
      )
      (let (end, made) =
          send_items_lem host sock (target_ip argv) n n 0
            (record { n_small = 0; n_large = 0; sent = [] }) _ ok in
        (end, made ∙ append-nil _))

-- Where the datagram of the item `k` is the first that the system does not take, the run exits with
-- the status 1 and has sent, or tried to send, the packets of the keys from 0 to k.
pub preload_main-stops :
    (host : Host) (argv : List (List ℕ)) (n sock k : ℕ)
    → item_count argv ≡ pos n
    → k < n
    → length argv ≤ 3
    → IsReady host (target_ip argv) sock
    → ((j : ℕ) → j < k → host.send_ok j ≡ true)
    → host.send_ok k ≡ false
    → (ending (preload_main host argv) ≡ Ending.exited 1)
      × (datagrams (trace (preload_main host argv))
          ≡ each (suc k) 0 (λ j. (target_ip argv, orbitcache_base_port + 1, preload_datagram n j)))
unfolding preload_main install open_socket opens require
preload_main-stops host argv n sock k count low few ready ok bad =
    rw
      (
        read_items_lem argv n (install host (target_ip argv)) count (omega arith) few,
        ready.socket,
        ready.bound,
        ready.address,
      )
      (send_items_stops host sock (target_ip argv) k n n 0
        (record { n_small = 0; n_large = 0; sent = [] }) _ low (λ j l. ok j (omega arith))
        (subst (λ m. host.send_ok m ≡ false) (omega arith) bad))
