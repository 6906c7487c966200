-- ===== src/Packet/Nocache.antt =====
-- `struct nocache_hdr`: its bytes, and a datagram that is sent and received.
use orbit_cache_public.Prelude.{
  ℕ, ◌+◌, ◌^◌, ◌≤◌, ◌<◌, ◌≡◌, refl, ap, sym, ◌∙◌, List, [], ◌∷◌, ◌++◌, take, drop, replicate,
  length, length-append, length-take, take-append_of_length, drop-append_of_length, take_of_length,
  of_bytes-to_bytes_8, of_bytes-to_bytes_32, arith,
}
use orbit_cache_public.Text.{overwrite}
use orbit_cache_public.Text.Laws.{length-overwrite}
use orbit_cache_public.Packet.{words, word_at, max_value_size}
use orbit_cache_public.Packet.Overwrite.{take-append_add, overwrite-append_append}

pub record NocacheHdr : Type 0 where
  pub op : ℕ
  pub seq : ℕ
  pub cached : ℕ
  pub latency : ℕ
  pub par_id : ℕ
  pub org_key : List ℕ
  pub value : List ℕ

-- All bytes 0, as after `= {0}` or `memset`.
abbrev pub blank_nocache : NocacheHdr
blank_nocache = record {
  op = 0;
  seq = 0;
  cached = 0;
  latency = 0;
  par_id = 0;
  org_key = replicate 16 0;
  value = replicate max_value_size 0;
}

-- `sizeof(struct nocache_hdr) - MAX_VALUE_SIZE`: the part before the value.
abbrev pub nocache_head : ℕ
nocache_head = 27

-- `sizeof(struct nocache_hdr)`
abbrev pub sizeof_nocache : ℕ
sizeof_nocache = 1443

-- The words before the key.
abbrev head_words : NocacheHdr → List ℕ
head_words h = words ((1, h.op) ∷ (4, h.seq) ∷ (1, h.cached) ∷ (4, h.latency) ∷ (1, h.par_id) ∷ [])

-- The struct as it lies in memory.
pub pack : NocacheHdr → List ℕ
pack h = head_words h ++ (h.org_key ++ h.value)

pub unpack : List ℕ → NocacheHdr
unpack bytes = record {
  op = word_at 0 1 bytes;
  seq = word_at 1 4 bytes;
  cached = word_at 5 1 bytes;
  latency = word_at 6 4 bytes;
  par_id = word_at 10 1 bytes;
  org_key = take 16 (drop 11 bytes);
  value = take max_value_size (drop 27 bytes);
}

-- `sendto(sock, &h, size, ...)`: the datagram.
unfoldable pub send_nocache : ℕ → NocacheHdr → List ℕ
unfolding pack
send_nocache size h = take size (pack h)

-- `recvfrom(sock, &buf, sizeof(buf), ...)`: the buffer after it; the datagram is cut to the size.
unfoldable pub recv_nocache : List ℕ → NocacheHdr → NocacheHdr
unfolding pack unpack
recv_nocache datagram buf = unpack (overwrite (take sizeof_nocache datagram) (pack buf))

-- Each word fits its field, and the arrays have their sizes.
pub record IsNocacheHdr (h : NocacheHdr) : Type 0 where
  pub op_fits : h.op < 2 ^ 8
  pub seq_fits : h.seq < 2 ^ 32
  pub cached_fits : h.cached < 2 ^ 8
  pub latency_fits : h.latency < 2 ^ 32
  pub par_id_fits : h.par_id < 2 ^ 8
  pub key_length : length h.org_key ≡ 16
  pub value_length : length h.value ≡ max_value_size

unpack-pack_value :
    (h : NocacheHdr) (w : List ℕ)
    → IsNocacheHdr h
    → length w ≡ max_value_size
    → unpack (head_words h ++ (h.org_key ++ w)) ≡ record h { value = w }
unfolding unpack
unpack-pack_value h w i e = λ j. record {
  op = of_bytes-to_bytes_8 h.op i.op_fits j;
  seq = of_bytes-to_bytes_32 h.seq i.seq_fits j;
  cached = of_bytes-to_bytes_8 h.cached i.cached_fits j;
  latency = of_bytes-to_bytes_32 h.latency i.latency_fits j;
  par_id = of_bytes-to_bytes_8 h.par_id i.par_id_fits j;
  org_key = take-append_of_length 16 h.org_key w i.key_length j;
  value =
      (ap (take max_value_size) (drop-append_of_length 16 h.org_key w i.key_length)
          ∙ take_of_length max_value_size w (omega arith))
        j;
}

bytes_of_overwrite :
    (h buf : NocacheHdr) (n : ℕ)
    → IsNocacheHdr h
    → IsNocacheHdr buf
    → n ≤ max_value_size
    → overwrite (take sizeof_nocache (send_nocache (nocache_head + n) h)) (pack buf)
      ≡ head_words h ++ (h.org_key ++ overwrite (take n h.value) buf.value)
unfolding send_nocache
bytes_of_overwrite h buf n i b le =
    ap (λ d. overwrite d (pack buf))
      (take_of_length sizeof_nocache (take (nocache_head + n) (pack h))
        (omega (arith, length-take {0} (nocache_head + n) (pack h))))
    ∙ ap (λ d. overwrite d (pack buf)) sent
    ∙ overwrite-append_append (head_words h) (head_words buf) (h.org_key ++ take n h.value)
        (buf.org_key ++ buf.value) refl
    ∙ ap (λ d. head_words h ++ d)
        (overwrite-append_append h.org_key buf.org_key (take n h.value) buf.value
          (i.key_length ∙ sym b.key_length))
  where
    sent : take (nocache_head + n) (pack h) ≡ head_words h ++ (h.org_key ++ take n h.value)
    sent =
        take-append_add (head_words h) (h.org_key ++ h.value) (16 + n) (nocache_head + n)
          (omega arith)
        ∙ ap (λ d. head_words h ++ d)
            (take-append_add h.org_key h.value n (16 + n) (omega (arith, i.key_length)))

-- A datagram of the head and `n` bytes of the value, received over any buffer, gives the words and
-- the key that were sent; the value has the `n` bytes sent in front, and behind them what the
-- buffer held before.
pub recv_nocache-send_nocache :
    (h buf : NocacheHdr) (n : ℕ)
    → IsNocacheHdr h
    → IsNocacheHdr buf
    → n ≤ max_value_size
    → recv_nocache (send_nocache (nocache_head + n) h) buf
      ≡ record h { value = overwrite (take n h.value) buf.value }
unfolding recv_nocache
recv_nocache-send_nocache h buf n i b le =
    ap unpack (bytes_of_overwrite h buf n i b le)
    ∙ unpack-pack_value h (overwrite (take n h.value) buf.value) i
        (length-overwrite (take n h.value) buf.value ∙ b.value_length)

-- What `recvfrom` returns for a datagram of the head and `n` bytes of the value.
pub length-send_nocache :
    (h : NocacheHdr) (n : ℕ)
    → IsNocacheHdr h
    → n ≤ max_value_size
    → length (take sizeof_nocache (send_nocache (nocache_head + n) h)) ≡ nocache_head + n
unfolding send_nocache pack
length-send_nocache h n i le = omega (
  arith,
  length-take {0} sizeof_nocache (take (nocache_head + n) (pack h)),
  length-take {0} (nocache_head + n) (pack h),
  length-append {0} (head_words h) (h.org_key ++ h.value),
  length-append {0} h.org_key h.value,
  i.key_length,
  i.value_length,
)

pub value-IsNocacheHdr :
    {h : NocacheHdr} {w : List ℕ}
    → IsNocacheHdr h
    → length w ≡ max_value_size
    → IsNocacheHdr (record h { value = w })
value-IsNocacheHdr i e = record {
  op_fits = i.op_fits;
  seq_fits = i.seq_fits;
  cached_fits = i.cached_fits;
  latency_fits = i.latency_fits;
  par_id_fits = i.par_id_fits;
  key_length = i.key_length;
  value_length = e;
}

-- The fields that a server writes into a reply.
pub tags-IsNocacheHdr :
    {h : NocacheHdr} {op : ℕ} → IsNocacheHdr h → op < 256 → IsNocacheHdr (record h { op = op })
tags-IsNocacheHdr i op_lt = record {
  op_fits = op_lt;
  seq_fits = i.seq_fits;
  cached_fits = i.cached_fits;
  latency_fits = i.latency_fits;
  par_id_fits = i.par_id_fits;
  key_length = i.key_length;
  value_length = i.value_length;
}
