-- ===== src/Packet/Netcache.antt =====
-- `struct netcache_hdr`: its bytes, and a datagram that is sent and received.
use orbit_cache_public.Prelude.{
  ℕ, ◌+◌, ◌^◌, ◌≤◌, ◌<◌, ◌≡◌, refl, ap, sym, ◌∙◌, List, [], ◌∷◌, ◌++◌, take, drop, replicate,
  length, length-append, length-take, take-append_of_length, drop-append_of_length, take_of_length,
  of_bytes-to_bytes_8, of_bytes-to_bytes_32, of_bytes-to_bytes_64, arith,
}
use orbit_cache_public.Text.{overwrite}
use orbit_cache_public.Text.Laws.{length-overwrite}
use orbit_cache_public.Packet.{words, word_at, max_value_size}
use orbit_cache_public.Packet.Overwrite.{take-append_add, overwrite-append_append}

pub record NetcacheHdr : Type 0 where
  pub op : ℕ
  pub seq : ℕ
  pub hkey_hi : ℕ
  pub hkey_lo : ℕ
  pub cached : ℕ
  pub latency : ℕ
  pub par_id : ℕ
  pub org_key : List ℕ
  pub value : List ℕ

-- All bytes 0, as after `= {0}` or `memset`.
abbrev pub blank_netcache : NetcacheHdr
blank_netcache = record {
  op = 0;
  seq = 0;
  hkey_hi = 0;
  hkey_lo = 0;
  cached = 0;
  latency = 0;
  par_id = 0;
  org_key = replicate 16 0;
  value = replicate max_value_size 0;
}

-- `sizeof(struct netcache_hdr) - MAX_VALUE_SIZE`: the part before the value.
abbrev pub netcache_head : ℕ
netcache_head = 43

-- `sizeof(struct netcache_hdr)`
abbrev pub sizeof_netcache : ℕ
sizeof_netcache = 1459

-- The words before the key.
abbrev head_words : NetcacheHdr → List ℕ
head_words h = words (
    (1, h.op)
    ∷ (4, h.seq)
    ∷ (8, h.hkey_hi)
    ∷ (8, h.hkey_lo)
    ∷ (1, h.cached)
    ∷ (4, h.latency)
    ∷ (1, h.par_id)
    ∷ [])

-- The struct as it lies in memory.
pub pack : NetcacheHdr → List ℕ
pack h = head_words h ++ (h.org_key ++ h.value)

pub unpack : List ℕ → NetcacheHdr
unpack bytes = record {
  op = word_at 0 1 bytes;
  seq = word_at 1 4 bytes;
  hkey_hi = word_at 5 8 bytes;
  hkey_lo = word_at 13 8 bytes;
  cached = word_at 21 1 bytes;
  latency = word_at 22 4 bytes;
  par_id = word_at 26 1 bytes;
  org_key = take 16 (drop 27 bytes);
  value = take max_value_size (drop 43 bytes);
}

-- `sendto(sock, &h, size, ...)`: the datagram.
unfoldable pub send_netcache : ℕ → NetcacheHdr → List ℕ
unfolding pack
send_netcache size h = take size (pack h)

-- `recvfrom(sock, &buf, sizeof(buf), ...)`: the buffer after it; the datagram is cut to the size.
unfoldable pub recv_netcache : List ℕ → NetcacheHdr → NetcacheHdr
unfolding pack unpack
recv_netcache datagram buf = unpack (overwrite (take sizeof_netcache datagram) (pack buf))

-- Each word fits its field, and the arrays have their sizes.
pub record IsNetcacheHdr (h : NetcacheHdr) : Type 0 where
  pub op_fits : h.op < 2 ^ 8
  pub seq_fits : h.seq < 2 ^ 32
  pub hkey_hi_fits : h.hkey_hi < 2 ^ 64
  pub hkey_lo_fits : h.hkey_lo < 2 ^ 64
  pub cached_fits : h.cached < 2 ^ 8
  pub latency_fits : h.latency < 2 ^ 32
  pub par_id_fits : h.par_id < 2 ^ 8
  pub key_length : length h.org_key ≡ 16
  pub value_length : length h.value ≡ max_value_size

unpack-pack_value :
    (h : NetcacheHdr) (w : List ℕ)
    → IsNetcacheHdr h
    → length w ≡ max_value_size
    → unpack (head_words h ++ (h.org_key ++ w)) ≡ record h { value = w }
unfolding unpack
unpack-pack_value h w i e = λ j. record {
  op = of_bytes-to_bytes_8 h.op i.op_fits j;
  seq = of_bytes-to_bytes_32 h.seq i.seq_fits j;
  hkey_hi = of_bytes-to_bytes_64 h.hkey_hi i.hkey_hi_fits j;
  hkey_lo = of_bytes-to_bytes_64 h.hkey_lo i.hkey_lo_fits j;
  cached = of_bytes-to_bytes_8 h.cached i.cached_fits j;
  latency = of_bytes-to_bytes_32 h.latency i.latency_fits j;
  par_id = of_bytes-to_bytes_8 h.par_id i.par_id_fits j;
  org_key = take-append_of_length 16 h.org_key w i.key_length j;
  value =
      (ap (take max_value_size) (drop-append_of_length 16 h.org_key w i.key_length)
          ∙ take_of_length max_value_size w (omega arith))
        j;
}

bytes_of_overwrite :
    (h buf : NetcacheHdr) (n : ℕ)
    → IsNetcacheHdr h
    → IsNetcacheHdr buf
    → n ≤ max_value_size
    → overwrite (take sizeof_netcache (send_netcache (netcache_head + n) h)) (pack buf)
      ≡ head_words h ++ (h.org_key ++ overwrite (take n h.value) buf.value)
unfolding send_netcache
bytes_of_overwrite h buf n i b le =
    ap (λ d. overwrite d (pack buf))
      (take_of_length sizeof_netcache (take (netcache_head + n) (pack h))
        (omega (arith, length-take {0} (netcache_head + n) (pack h))))
    ∙ ap (λ d. overwrite d (pack buf)) sent
    ∙ overwrite-append_append (head_words h) (head_words buf) (h.org_key ++ take n h.value)
        (buf.org_key ++ buf.value) refl
    ∙ ap (λ d. head_words h ++ d)
        (overwrite-append_append h.org_key buf.org_key (take n h.value) buf.value
          (i.key_length ∙ sym b.key_length))
  where
    sent : take (netcache_head + n) (pack h) ≡ head_words h ++ (h.org_key ++ take n h.value)
    sent =
        take-append_add (head_words h) (h.org_key ++ h.value) (16 + n) (netcache_head + n)
          (omega arith)
        ∙ ap (λ d. head_words h ++ d)
            (take-append_add h.org_key h.value n (16 + n) (omega (arith, i.key_length)))

-- A datagram of the head and `n` bytes of the value, received over any buffer, gives the words and
-- the key that were sent; the value has the `n` bytes sent in front, and behind them what the
-- buffer held before.
pub recv_netcache-send_netcache :
    (h buf : NetcacheHdr) (n : ℕ)
    → IsNetcacheHdr h
    → IsNetcacheHdr buf
    → n ≤ max_value_size
    → recv_netcache (send_netcache (netcache_head + n) h) buf
      ≡ record h { value = overwrite (take n h.value) buf.value }
unfolding recv_netcache
recv_netcache-send_netcache h buf n i b le =
    ap unpack (bytes_of_overwrite h buf n i b le)
    ∙ unpack-pack_value h (overwrite (take n h.value) buf.value) i
        (length-overwrite (take n h.value) buf.value ∙ b.value_length)

-- What `recvfrom` returns for a datagram of the head and `n` bytes of the value.
pub length-send_netcache :
    (h : NetcacheHdr) (n : ℕ)
    → IsNetcacheHdr h
    → n ≤ max_value_size
    → length (take sizeof_netcache (send_netcache (netcache_head + n) h)) ≡ netcache_head + n
unfolding send_netcache pack
length-send_netcache h n i le = omega (
  arith,
  length-take {0} sizeof_netcache (take (netcache_head + n) (pack h)),
  length-take {0} (netcache_head + n) (pack h),
  length-append {0} (head_words h) (h.org_key ++ h.value),
  length-append {0} h.org_key h.value,
  i.key_length,
  i.value_length,
)

pub value-IsNetcacheHdr :
    {h : NetcacheHdr} {w : List ℕ}
    → IsNetcacheHdr h
    → length w ≡ max_value_size
    → IsNetcacheHdr (record h { value = w })
value-IsNetcacheHdr i e = record {
  op_fits = i.op_fits;
  seq_fits = i.seq_fits;
  hkey_hi_fits = i.hkey_hi_fits;
  hkey_lo_fits = i.hkey_lo_fits;
  cached_fits = i.cached_fits;
  latency_fits = i.latency_fits;
  par_id_fits = i.par_id_fits;
  key_length = i.key_length;
  value_length = e;
}

-- The fields that a server writes into a reply.
pub tags-IsNetcacheHdr :
    {h : NetcacheHdr} {op seq : ℕ}
    → IsNetcacheHdr h
    → op < 256
    → seq < 2 ^ 32
    → IsNetcacheHdr (record h { op = op; seq = seq })
tags-IsNetcacheHdr i op_lt seq_lt = record {
  op_fits = op_lt;
  seq_fits = seq_lt;
  hkey_hi_fits = i.hkey_hi_fits;
  hkey_lo_fits = i.hkey_lo_fits;
  cached_fits = i.cached_fits;
  latency_fits = i.latency_fits;
  par_id_fits = i.par_id_fits;
  key_length = i.key_length;
  value_length = i.value_length;
}
