-- ===== src/Handler/Chunks/Sending.antt =====
-- What `writeChunks` (proxy/handler/https.go) puts on the wire.
use mathlib.Core.List.{append-nil, append_assoc}
use spoof_dpi_turkiye.Prelude.{
  ℕ, ◌+◌, ◌≤◌, ◌<◌, ◌≡◌, refl, ap, ◌∙◌, sym, List, [], ◌∷◌, ◌++◌, ◌⊎◌, inl, inr, arith, Bytes, true,
  false, drop, subst, Option, none, some, length, take, concat, take-append-drop, length-take,
  length-append, Option-cases,
}
use spoof_dpi_turkiye.Handler.Chunks.{
  Conn, next_fault, write, write_from, write_chunks, split_in_chunks,
}
use spoof_dpi_turkiye.Handler.Chunks.Split.{concat-split_in_chunks}

-- The outcome of sending `whole` in `count` chunks, behind `total` bytes and `i` chunks: a prefix is
-- on the wire and counted, and it is all of it unless a chunk is named.
pub record Sends (whole : Bytes) (total i count : ℕ) (c : Conn) (r : Conn × ℕ × Option ℕ)
    : Type 0 where
  pub prefix : Bytes
  pub left : Bytes
  pub splits : prefix ++ left ≡ whole
  pub wire : r.0.sent ≡ c.sent ++ prefix
  pub counted : r.1 ≡ total + length prefix
  pub ends : ((r.2 ≡ none) × (left ≡ [])) ⊎ ((k : ℕ) × (r.2 ≡ some k) × (i < k) × (k ≤ i + count))

pub write-prefix :
    (c : Conn) (b : Bytes)
    → (p : Bytes) × (q : Bytes) × (p ++ q ≡ b)
      × ((write c b).0.sent ≡ c.sent ++ p)
      × ((write c b).1 ≡ length p)
      × (((write c b).2 ≡ true) ⊎ (((write c b).2 ≡ false) × (q ≡ [])))
unfolding write
write-prefix c b = elim (Option-cases (next_fault c.faults)) [
  | inl e ↦ (b, [], append-nil b, rw (e, write), rw (e, write), rw (e, write) (inr (refl, refl)))
  | inr (k, e) ↦ (
    take k b,
    drop k b,
    take-append-drop k b,
    rw (e, write),
    rw (e, write) (sym (length-take k b)),
    rw (e, write) (inl refl),
  )
]

write_from-Sends :
    (c : Conn) (total i : ℕ) (chunks : List Bytes)
    → Sends (concat chunks) total i (length chunks) c (write_from c total i chunks)
unfolding write_from
write_from-Sends c total i [] = record {
  prefix = [];
  left = [];
  splits = refl;
  wire = sym (append-nil c.sent);
  counted = omega arith;
  ends = inl (refl, refl);
}
write_from-Sends c total i (b ∷ chunks) =
    let (p, q, split, wire, n, ended) = write-prefix c b in
    elim ended [
      | inl failed ↦ rw failed (record {
        prefix = p;
        left = q ++ concat chunks;
        splits = sym (append_assoc p q (concat chunks)) ∙ ap (λ t. t ++ concat chunks) split;
        wire = wire;
        counted = omega (arith, n);
        ends = inr (i + 1, refl, omega arith, omega arith);
      })
      | inr (good, all) ↦
          let next = write_from-Sends (write c b).0 (total + (write c b).1) (i + 1) chunks in
          let whole : p ≡ b = sym (append-nil p) ∙ ap (◌++◌ p) (sym all) ∙ split in
          rw good (record {
            prefix = p ++ next.prefix;
            left = next.left;
            splits =
                append_assoc p next.prefix next.left
                ∙ ap (◌++◌ p) next.splits
                ∙ ap (λ t. t ++ concat chunks) whole;
            wire = next.wire ∙ ap (λ t. t ++ next.prefix) wire ∙ append_assoc c.sent p next.prefix;
            counted = omega (arith, n, next.counted, length-append p next.prefix);
            ends = ground (arith, next.ends);
          })
    ]

-- When the ClientHello is sent in chunks of any window, over a connection whose writes fail in any
-- way, the server has received a prefix of it and nothing else, in order; the count is that of the
-- bytes received; and either there is no error and the prefix is the whole, or the error names one
-- of the chunks.
pub write_chunks-Sends :
    (c : Conn) (raw : Bytes) (size : ℕ)
    → Sends raw 0 0
        (length (split_in_chunks raw size))
        c
        (write_chunks c (split_in_chunks raw size))
unfolding write_chunks
write_chunks-Sends c raw size =
    subst
      (λ t.
        Sends t 0 0 (length (split_in_chunks raw size)) c
          (write_chunks c (split_in_chunks raw size)))
      (concat-split_in_chunks raw size) (write_from-Sends c 0 0 (split_in_chunks raw size))
