-- ===== src/Client/Receive/Names.antt =====
-- The names of the three log files of an Rx worker (client.c, `rx_t`), printed into `log_file_name`.
use orbit_cache_public.Prelude.{
  ℕ, suc, ◌+◌, ◌*◌, ◌^◌, ◌≤◌, ◌<◌, ◌≡◌, refl, Bool, true, false, All, List, [], ◌∷◌, length,
  length-append, arith,
}
use orbit_cache_public.Prelude.Int.{u64_of}
use orbit_cache_public.Text.Print.{decimal_of, sprintf}
use orbit_cache_public.Text.Print.Laws.{
  length-decimal_of-le, length-decimal_of-pos, length-decimal_of-ge,
}
use orbit_cache_public.Os.{Arg, num, Call, fopen, Host, Prog, require, ◌>>◌}
use orbit_cache_public.Os.Laws.{Runs, Runs-bind, Runs-require}
use orbit_cache_public.Server.Startup.{pin_to_cpu}
use orbit_cache_public.Preload.Main.{num_hotkey}
use orbit_cache_public.Routing.{num_srv}
use orbit_cache_public.Client.Main.{ClientArgs}
use orbit_cache_public.Client.Receive.{log_fields, start_rx}

-- `char log_file_name[50]`
abbrev pub name_size : ℕ
name_size = 50

-- The digits of the fields.
abbrev pub digits : List Arg → ℕ
digits [] = 0
digits (num n ∷ fields) = length (decimal_of 20 n) + digits fields
digits (a ∷ fields) = digits fields

-- A file that the program opens has a name that there is room for, with its NUL.
abbrev pub NameFits : Call → Type 0
NameFits (fopen format fields) = length (sprintf format fields) + 1 ≤ name_size
NameFits c = Unit

after_require :
    (b : Bool) (cs : List Call) (p : Prog (Unit {0}))
    → All NameFits cs
    → Runs NameFits (λ u. Unit) p
    → Runs NameFits (λ u. Unit) (require b cs >> p)
after_require b cs p fit h =
    Runs-bind NameFits _ _ (require b cs) (λ u. p) (Runs-require NameFits b cs fit) λ u ok. h

last_require : (b : Bool) → Runs NameFits (λ u. Unit) (require b [])
unfolding require
last_require true = tt
last_require false = refl

module _ (workers : ℕ) (args : ClientArgs) (i : ℕ) where
  abbrev fields : List Arg
  fields = log_fields workers args i

  names-length :
      (length (sprintf "./log-%lu-%lu-%d-%d-%d-%lu-%lu-%lu-%d.txt" fields) ≡ 18 + digits fields)
      × (length (sprintf "./log-%lu-%lu-%d-%d-%d-%lu-%lu-%lu-%d-cache.txt" fields)
          ≡ 24 + digits fields)
      × (length (sprintf "./log-%lu-%lu-%d-%d-%d-%lu-%lu-%lu-%d-server.txt" fields)
          ≡ 25 + digits fields)
  unfolding log_fields
  names-length = (
    simp (length-append) (omega arith),
    simp (length-append) (omega arith),
    simp (length-append) (omega arith),
  )

  fit_all :
      digits fields ≤ 24 → (host : Host) → Runs NameFits (λ u. Unit) (start_rx host workers args i)
  unfolding start_rx pin_to_cpu
  fit_all few host =
      let (all, cache, server) = names-length in
      (
        tt,
        after_require (host.affinity_ok (i * 2 + 1)) _ _ (tt, tt)
            (
              tt,
              (
                omega (arith, all, few),
                after_require (host.opened 0) [] _ tt (
                  omega (arith, cache, few),
                  after_require (host.opened 1) [] _ tt
                      (omega (arith, server, few), last_require (host.opened 2)),
                ),
              ),
            ),
      )

  -- The fields of an Rx worker have a number of at most three digits for the client, and of one digit for
  -- the protocol, for the distribution and for the worker; the seconds and the rate have together at
  -- most twelve digits. Then every file that the worker opens has a name that `log_file_name` has room for,
  -- with the NUL, whatever the system answers.
  pub start_rx-NameFits :
      (a b : ℕ)
      → u64_of args.protocol_id < 10
      → u64_of args.server_id < 10 ^ 3
      → i < 10
      → workers < 10 ^ 2
      → u64_of args.dist < 10
      → args.time_exp < 10 ^ suc a
      → args.target_qps < 10 ^ suc b
      → a + b ≤ 10
      → (host : Host) → Runs NameFits (λ u. Unit) (start_rx host workers args i)
  unfolding log_fields
  start_rx-NameFits a b protocol server thread few dist seconds rate short host =
      let p = length-decimal_of-le 20 0 (u64_of args.protocol_id) protocol in
      let s = length-decimal_of-le 20 2 (u64_of args.server_id) server in
      let t = length-decimal_of-le 20 0 i thread in
      let n = length-decimal_of-le 20 0 num_srv (omega arith) in
      let w = length-decimal_of-le 20 1 workers few in
      let d = length-decimal_of-le 20 0 (u64_of args.dist) dist in
      let e = length-decimal_of-le 20 a args.time_exp seconds in
      let q = length-decimal_of-le 20 b args.target_qps rate in
      let h = length-decimal_of-le 20 2 num_hotkey (omega arith) in
      fit_all (omega (arith, p, s, t, n, w, d, e, q, h, short)) host

  -- Seconds below 0 are a `uint64_t` of twenty digits, and the name of the second file is too long.
  pub start_rx-overflow :
      10 ^ 19 ≤ args.time_exp
      → (host : Host) → host.affinity_ok (i * 2 + 1) ≡ true
      → host.opened 0 ≡ true
      → ¬ Runs NameFits (λ u. Unit) (start_rx host workers args i)
  unfolding start_rx pin_to_cpu log_fields require
  start_rx-overflow large host pinned opened =
      rw (pinned, opened)
        λ runs.
          let (set, (running, (first, (second, others)))) = runs in
          let some_digit = length-decimal_of-pos 19 in
          let twenty = length-decimal_of-ge 20 19 args.time_exp (omega arith) large in
          let (all, cache, server) = names-length in
          absurd (
            omega (
              arith,
              second,
              cache,
              twenty,
              some_digit (u64_of args.protocol_id),
              some_digit (u64_of args.server_id),
              some_digit i,
              some_digit num_srv,
              some_digit workers,
              some_digit (u64_of args.dist),
              some_digit args.target_qps,
              some_digit num_hotkey,
            ))
