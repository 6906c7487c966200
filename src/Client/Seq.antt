-- ===== src/Client/Seq.antt =====
-- The table of sent keys (header.h, `seq_hdr` to `seq_get`), a global array of 50 million entries,
-- zero at the start. It is read and written by index alone, so it is a function from indices.
pub mod Laws
use orbit_cache_public.Prelude.{
  ℕ, ◌-◌, ◌%◌, List, Option, none, some, ◌==◌, if◌then◌else◌, replicate, set,
}
use orbit_cache_public.Text.{overwrite, strncpy_bytes}

abbrev pub key_size : ℕ
key_size = 16

abbrev pub max_seq_hdrs : ℕ
max_seq_hdrs = 50000000

pub record SeqHdr : Type 0 where
  pub seq : ℕ
  pub org_key : List ℕ

abbrev pub SeqHdrs : Type 0
SeqHdrs = ℕ → SeqHdr

abbrev pub initial_seq_hdrs : SeqHdrs
initial_seq_hdrs index = record { seq = 0; org_key = replicate key_size 0 }

-- The entry is written in place: the copy covers all but the last byte, which becomes a NUL.
abbrev written : SeqHdr → ℕ → List ℕ → SeqHdr
written entry seq2 org_key = record {
  seq = seq2;
  org_key = set (overwrite (strncpy_bytes (key_size - 1) org_key) entry.org_key) (key_size - 1) 0;
}

unfoldable pub seq_put : SeqHdrs → ℕ → List ℕ → SeqHdrs
seq_put seq_hdrs seq2 org_key i =
    let index = seq2 % max_seq_hdrs in
    if i == index then written (seq_hdrs index) seq2 org_key else seq_hdrs i

-- `none` is NULL; else the result points to the array of the entry.
unfoldable pub seq_get : SeqHdrs → ℕ → Option (List ℕ)
seq_get seq_hdrs seq2 =
    let entry = seq_hdrs (seq2 % max_seq_hdrs) in
    if entry.seq == seq2 then some entry.org_key else none
