-- ===== src/Echo/Server/Watching.antt =====
-- The watching task: what its two windows hold after any number of seconds.
use coasio.Common.{
  ℕ, ◌≡◌, refl, ap, ◌∙◌, List, [], ◌∷◌, map, Option, none, some, arith, Option-cases, inl, inr,
}
use coasio.Echo.{Doubles, Metrics, add_sample, get_percentiles}
use coasio.Echo.Window.{add_samples, last}
use coasio.Echo.Percentiles.{samples_window}
use coasio.Echo.Server.{Stats, Monitor, fresh_monitor, minus, monitor_tick}

-- What a counter grew by from one second to the next, from `n` on.
abbrev pub growth : (Stats → ℕ) → ℕ → List Stats → List ℕ
growth count n [] = []
growth count n (s ∷ ss) = minus (count s) n ∷ growth count (count s) ss

module _ {D : Type 0} (kib : ℕ → D) where
  abbrev pub watch : List Stats → Monitor D → Option (Monitor D)
  watch [] m = some m
  watch (s ∷ ss) m = elim (monitor_tick kib s m) [ none ↦ none | some m₁ ↦ watch ss m₁ ]

  watch_lem :
      (ss : List Stats) (m : Monitor D) (i o : Metrics D)
      → add_samples (map kib (growth (λ s. s.total_bytes_received) m.last_received ss)) m.in_metrics
        ≡ some i
      → add_samples (map kib (growth (λ s. s.total_bytes_sent) m.last_sent ss)) m.out_metrics
        ≡ some o
      → (m₁ : Monitor D) × (watch ss m ≡ some m₁) × (m₁.in_metrics ≡ i) × (m₁.out_metrics ≡ o)
  unfolding monitor_tick
  watch_lem [] m i o a b = (m, refl, cc, cc)
  watch_lem (s ∷ ss) m i o a b =
      elim (Option-cases
        (add_sample (kib (minus s.total_bytes_received m.last_received)) m.in_metrics)) [
          | inl e ↦ absurd (ground (arith, e, a))
          | inr (i₁, e) ↦
              elim (Option-cases
                (add_sample (kib (minus s.total_bytes_sent m.last_sent)) m.out_metrics)) [
                  | inl f ↦ absurd (ground (arith, f, b))
                  | inr (o₁, f) ↦
                      let m₁ : Monitor D = record {
                        last_received = s.total_bytes_received;
                        last_sent = s.total_bytes_sent;
                        in_metrics = i₁;
                        out_metrics = o₁;
                      } in
                      let (m₂, ran, p, q) =
                        watch_lem ss m₁ i o (ground (arith, e, a)) (ground (arith, f, b)) in
                      (m₂, ground (arith, e, f, ran), p, q)
                ]
        ]

module _ {D : Type 0} (d : Doubles D) (kib : ℕ → D) where
  -- After any number of seconds, the percentiles that the watching task computes are those of
  -- what the received and the sent bytes grew by in each of the last sixty seconds, as speeds.
  pub watch_window :
      (ss : List Stats)
      → (m : Monitor D) × (watch kib ss fresh_monitor ≡ some m)
        × (get_percentiles d m.in_metrics.samples
            ≡ get_percentiles d (last 60 (map kib (growth (λ s. s.total_bytes_received) 0 ss))))
        × (get_percentiles d m.out_metrics.samples
            ≡ get_percentiles d (last 60 (map kib (growth (λ s. s.total_bytes_sent) 0 ss))))
  watch_window ss =
      let (i, ran_i, _, same_i) =
        samples_window d 60 (map kib (growth (λ s. s.total_bytes_received) 0 ss)) (omega arith) in
      let (o, ran_o, _, same_o) =
        samples_window d 60 (map kib (growth (λ s. s.total_bytes_sent) 0 ss)) (omega arith) in
      let (m, ran, e, f) = watch_lem kib ss fresh_monitor i o ran_i ran_o in
      (
        m,
        ran,
        ap (λ (x : Metrics D). get_percentiles d x.samples) e ∙ same_i,
        ap (λ (x : Metrics D). get_percentiles d x.samples) f ∙ same_o,
      )
