-- ===== src/StreamHub/InStep.antt =====
-- What src/core/stream_hub.rs sends on its watch channel agrees with its ring.
use vcp_media_server.Prelude.{
  ℕ, zero, suc, ◌+◌, ◌-◌, ◌^◌, ◌<◌, ◌≡◌, refl, sym, ap, subst, ◌∙◌, some, List, [], ◌∷◌, arith,
  length, Option-cases, inl, inr,
}
use vcp_media_server.Prelude.Words.{add64}
use vcp_media_server.Media.{MediaFrame}
use vcp_media_server.FrameRing
use vcp_media_server.FrameRing.{
  FrameRing, evict_if_needed, evict_oldest_gop, evict_gop_from, remove_seq_range,
  evict_front_until_keyframe_or_empty, append_frame, latest_seq,
}
use vcp_media_server.FrameRing.Invariant.{IsValid, push-IsValid}
use vcp_media_server.StreamHub.{StreamHub, publish, hub_latest_seq}

evict_gop_from-write_seq :
    (r : FrameRing) (g : List ℕ) → (evict_gop_from r g).write_seq ≡ r.write_seq
unfolding evict_gop_from remove_seq_range
evict_gop_from-write_seq r [] = refl
evict_gop_from-write_seq r (g ∷ gs) = refl

evict_if_needed-write_seq :
    (fuel : ℕ) (r s : FrameRing) → evict_if_needed fuel r ≡ some s → s.write_seq ≡ r.write_seq
unfolding evict_if_needed evict_oldest_gop evict_front_until_keyframe_or_empty
evict_if_needed-write_seq zero r s e = cc
evict_if_needed-write_seq (suc fuel) r s e = ground (
  arith,
  evict_if_needed-write_seq fuel (evict_oldest_gop r) s,
  evict_if_needed-write_seq fuel (evict_front_until_keyframe_or_empty r) s,
  evict_gop_from-write_seq r r.gop_starts,
)

pub push-write_seq :
    (fuel : ℕ) (r s : FrameRing) (f : MediaFrame) (seq : ℕ)
    → FrameRing.push fuel r f ≡ some (seq, s)
    → s.write_seq ≡ add64 r.write_seq 1
unfolding FrameRing.push append_frame
push-write_seq fuel r s f seq e = elim (Option-cases (evict_if_needed fuel (append_frame r f))) [
  | inl n ↦ absurd (ground (arith, n))
  | inr (t, n) ↦ ground (arith, n, evict_if_needed-write_seq fuel (append_frame r f) t n)
]

-- A publish that returns stores under the ring's next number, answers this number, sends it on the channel
-- and makes it the hub's latest; the ring stays valid. The counters must not wrap in `u64`.
publish_in_step :
    (fuel : ℕ) (hub hub' : StreamHub) (f : MediaFrame) (seq : ℕ)
    → IsValid hub.ring
    → hub.ring.write_seq + 1 < 2 ^ 64
    → hub.ring.bytes_used + length f.bytes < 2 ^ 64
    → publish fuel hub f ≡ some (seq, hub')
    → (seq ≡ hub.ring.write_seq)
      × (hub'.seq_tx ≡ seq ∷ hub.seq_tx)
      × (hub_latest_seq hub' ≡ seq)
      × IsValid hub'.ring
unfolding publish hub_latest_seq latest_seq
publish_in_step fuel hub hub' f seq v hs hb e =
    elim (Option-cases (FrameRing.push fuel hub.ring f)) [
      | inl n ↦ absurd (ground (arith, n, e))
      | inr ((k, ring), n) ↦
          let (number, valid, fits, kept) = push-IsValid fuel hub.ring f k ring v hs hb n in
          let next = push-write_seq fuel hub.ring ring f k n in
          let h : StreamHub = record hub { ring = ring; seq_tx = k ∷ hub.seq_tx } in
          let same : (k ≡ seq) × (h ≡ hub') = ground (arith, n, e) in
          let newest : ring.write_seq - 1 ≡ k = omega (arith, number, next) in
          (
            sym same.0 ∙ number,
            subst (λ u. u.seq_tx ≡ seq ∷ hub.seq_tx) same.1 (ap (λ x. x ∷ hub.seq_tx) same.0),
            subst (λ u. hub_latest_seq u ≡ seq) same.1 (newest ∙ same.0),
            subst (λ u. IsValid u.ring) same.1 valid,
          )
    ]
