-- ===== src/Server/Report.antt =====
-- server.c, a round of the OrbitCache receive loop: the receive limit, the report of the hot keys to the
-- controller, one request, and the popularity of its key. `dynamic` is the macro `DYNAMIC`.
pub mod Laws
use orbit_cache_public.Prelude.{
  ℕ, zero, suc, ◌+◌, ◌-◌, ◌*◌, ◌^◌, List, [], ◌∷◌, ◌++◌, Bool, true, false, not, ◌==◌, ltb, leb,
  u64, if◌then◌else◌, Option, none, some, to_bytes,
}
use orbit_cache_public.Text.{strncpy_bytes}
use orbit_cache_public.Run.{Run, ok, fault, ◌>>=◌}
use orbit_cache_public.Packet.{op_fetch}
use orbit_cache_public.Packet.Orbitcache.{OrbitcacheHdr}
use orbit_cache_public.Popularity.Sketch.{CountMinSketch, update_cms}
use orbit_cache_public.Popularity.TopK.{TopKItem, TopK, item_at, update_top_k, reset_report}
use orbit_cache_public.Store.HashTable.{Tommy}
use orbit_cache_public.Store.{Store}
use orbit_cache_public.Server.Memory.{Memory, Served}
use orbit_cache_public.Server.Orbitcache.{org_key_str, serve_orbitcache}
use orbit_cache_public.Server.Window.{limit_rps, second, Window, Round, refresh}

-- `HOTKEY_REPORT_INTERVAL`, in seconds.
abbrev pub hotkey_report_interval : ℕ
hotkey_report_interval = 1

pub record ReportHdr : Type 0 where
  pub key : List ℕ
  pub popularity : ℕ

-- The packed struct as bytes, in the order of the host.
unfoldable pub report_bytes : ReportHdr → List ℕ
report_bytes r = r.key ++ to_bytes 4 r.popularity

abbrev pub report_of : TopKItem → ReportHdr
report_of item = record { key = strncpy_bytes 16 item.key; popularity = item.popularity }

-- The loop over the items in use, from `i` on: those that are popular enough are sent.
unfoldable pub report_loop : ℕ → ℕ → List TopKItem → List (List ℕ)
report_loop zero i items = []
report_loop (suc left) i items =
    let rest = report_loop left (i + 1) items in
    let r = report_of (item_at items i) in
    if ltb 100 r.popularity then report_bytes r ∷ rest else rest

-- What a worker knows of the popularity of keys, and when it reported last.
pub record Hot : Type 0 where
  pub cms : CountMinSketch
  pub top_k : TopK
  pub start_time_dynamic : ℕ

-- The report, once in an interval: `now` and `later` are the two readings of the clock.
unfoldable pub report_hot : ℕ → ℕ → Hot → List (List ℕ) × Hot
report_hot now later hot =
    if ltb (hotkey_report_interval * second) (u64 (now + 2 ^ 64 - hot.start_time_dynamic))
    then (let (cms, top_k) = reset_report hot.cms hot.top_k in
        (
          report_loop hot.top_k.count 0 hot.top_k.items,
          record { cms = cms; top_k = top_k; start_time_dynamic = later },
        ))
    else ([], hot)

-- The popularity update, for the buffer as the handler leaves it.
unfoldable pub count_key : OrbitcacheHdr → Hot → Hot
count_key buf hot =
    let cms = update_cms hot.cms (org_key_str buf) in
    if not (buf.op == op_fetch)
    then record hot { cms = cms; top_k = update_top_k cms hot.top_k (org_key_str buf) }
    else hot

-- What a round is given: the clock, and the datagram as the buffer holds it, of `n` bytes.
pub record Input : Type 0 where
  pub clock : Round
  pub report_now : ℕ
  pub report_later : ℕ
  pub n : ℕ
  pub buf : OrbitcacheHdr

pub record Loop (tommy : Tommy) : Type 0 where
  pub window : Window
  pub hot : Hot
  pub hashlin : Store tommy

pub record Sends : Type 0 where
  pub replies : List (List ℕ)
  pub reports : List (List ℕ)

module _ (dynamic : Bool) (tommy : Tommy) (memory : Memory) where
  -- The request of a round in which a datagram came.
  unfoldable pub serve_round :
      Input → Window → Hot → List (List ℕ) → Store tommy → Run (Loop tommy × Sends)
  serve_round i w hot reports hashlin = do
    served ← serve_orbitcache tommy memory i.n i.buf hashlin
    ok (
      record {
        window = record w { rx_counter = w.rx_counter + 1 };
        hot = if dynamic then count_key served.buf hot else hot;
        hashlin = served.hashlin;
      },
      record { replies = served.sent; reports = reports },
    )

  -- A round that is over the limit does not report either.
  unfoldable pub orbitcache_round : Input → Loop tommy → Run (Loop tommy × Sends)
  orbitcache_round i st =
      let w = refresh i.clock st.window in
      if leb limit_rps w.rx_counter
      then ok (record st { window = w }, record { replies = []; reports = [] })
      else let (reports, hot) =
          if dynamic then report_hot i.report_now i.report_later st.hot else ([], st.hot) in
        if i.clock.arrived
        then serve_round i w hot reports st.hashlin
        else ok (record st { window = w; hot = hot }, record { replies = []; reports = reports })
