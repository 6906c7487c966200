-- ===== src/Os.antt =====
-- What the host programs ask of the system, as a program that makes calls and returns or exits.
-- The answers of the system are inputs: the record `Host`.
pub mod Laws
use Prim.Native.String.{String}
use orbit_cache_public.Prelude.{
  ℕ, zero, suc, ◌+◌, Bool, List, [], ◌∷◌, Option, none, some, if◌then◌else◌,
}
use orbit_cache_public.Prelude.Int.{ℤ}

-- An argument of `printf`, and what is printed: the format with its arguments.
pub data Arg : Type 0 where
  num : ℕ → Arg
  int : ℤ → Arg
  txt : List ℕ → Arg

pub data Thread : Type 0 where
  worker_t tx_t rx_t : Thread

-- A socket is its descriptor; `bind` names the port. `query_address` is the `socket`, `ioctl` and
-- `close` that get the address of the interface.
pub data Call : Type 0 where
  printf : String → List Arg → Call
  eprintf : String → List Arg → Call
  perror : String → Call
  udp_socket tcp_socket : Call
  query_address : Call
  setsockopt : ℕ → String → Call
  bind : ℕ → ℕ → Call
  connect : ℕ → List ℕ → ℕ → Call
  send : ℕ → List ℕ → Call
  sendto : ℕ → List ℕ → ℕ → List ℕ → Call
  close : ℕ → Call
  usleep : ℕ → Call
  fopen : String → List Arg → Call
  set_affinity : ℕ → Call
  create : Thread → ℕ → Call
  join : Thread → ℕ → Call

-- `alive n` is whether the process is still there after the `n`th call that creates or joins a thread: a
-- thread that runs may have ended the process, with the status 1. `address_ok` is `inet_pton`, and `sockets n` is the answer to the `n`th `socket` of a program, `none`
-- where it fails.
pub record Host : Type 0 where
  pub address : List ℕ
  pub sockets : ℕ → Option ℕ
  pub bind_ok : ℕ → Bool
  pub address_ok : List ℕ → Bool
  pub connect_ok : Bool
  pub affinity_ok : ℕ → Bool
  pub opened : ℕ → Bool
  pub send_ok : ℕ → Bool
  pub alive : ℕ → Bool

pub data Prog {ℓ} (A : Type ℓ) : Type ℓ where
  returns : A → Prog A
  exits : ℕ → Prog A
  calls : Call → Prog A → Prog A

infixl 5 ◌>>=◌ ◌>>◌
abbrev pub ◌>>=◌ {ℓ κ} : {A : Type ℓ} {B : Type κ} → Prog A → (A → Prog B) → Prog B
returns a >>= f = f a
exits n >>= f = exits n
calls c p >>= f = calls c (p >>= f)

abbrev pub ◌>>◌ {ℓ} : {B : Type ℓ} → Prog (Unit {0}) → Prog B → Prog B
p >> q = p >>= λ _. q

abbrev pub does : Call → Prog (Unit {0})
does c = calls c (returns tt)

-- The calls, and then the end of the process.
abbrev pub fails {ℓ} : {A : Type ℓ} → List Call → ℕ → Prog A
fails [] n = exits n
fails (c ∷ cs) n = calls c (fails cs n)

-- The process ends with these calls unless the test holds.
unfoldable pub require : Bool → List Call → Prog (Unit {0})
require b cs = if b then returns tt else fails cs 1

unfoldable pub opens : Option ℕ → List Call → Prog ℕ
opens (some sock) cs = returns sock
opens none cs = fails cs 1

-- `for (i = from; i < from + left; i++)`
abbrev pub for_from : ℕ → ℕ → (ℕ → Prog (Unit {0})) → Prog (Unit {0})
for_from zero i body = returns tt
for_from (suc left) i body = body i >> for_from left (i + 1) body
