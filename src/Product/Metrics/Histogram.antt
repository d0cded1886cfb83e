-- ===== src/Product/Metrics/Histogram.antt =====
-- The counters against a description of the turns: each bucket holds the turns that were no longer.
use sigil_pi.Prelude.{ℕ, ◌≡◌, refl, ap, ◌∙◌, arith, List, [], ◌∷◌, map, length, leb, sum_by}
use sigil_pi.Prelude.Table.{count_where}
use sigil_pi.Product.Metrics.{
  Metrics, no_metrics, bounds, observe, Finish, turn_start, turn_finish, tokens_in, tokens_out,
}

-- The turns in the order in which they finished, the last one first.
abbrev pub finished : List Finish → Metrics
finished [] = no_metrics
finished (f ∷ fs) = turn_finish f (turn_start (finished fs))

-- For each bound, the number of turns that took no longer.
abbrev pub histogram : (Finish → ℕ) → List ℕ → List Finish → List ℕ
histogram time bs fs = map (λ b. count_where (λ f. leb (time f) b) fs) bs

observe-histogram :
    (time : Finish → ℕ) (f : Finish) (fs : List Finish) (bs : List ℕ)
    → observe (time f) bs (histogram time bs fs) ≡ histogram time bs (f ∷ fs)
unfolding observe count_where
observe-histogram time f fs [] = refl
observe-histogram time f fs (b ∷ bs) = ground (arith, observe-histogram time f fs bs)

zeros-histogram : (time : Finish → ℕ) (bs : List ℕ) → map (λ b. 0) bs ≡ histogram time bs []
unfolding count_where
zeros-histogram time [] = refl
zeros-histogram time (b ∷ bs) = ap (λ l. 0 ∷ l) (zeros-histogram time bs)

-- What the counters say of the turns `fs`.
pub record Describes (fs : List Finish) (m : Metrics) : Type 0 where
  pub turns : m.turns ≡ length fs
  pub errors : m.turn_errors ≡ count_where (λ f. f.error) fs
  pub durations : m.turn_duration ≡ sum_by (λ f. f.duration) fs
  pub duration_buckets : m.turn_duration_buckets ≡ histogram (λ f. f.duration) bounds fs
  pub waits : m.queue_wait ≡ sum_by (λ f. f.queue_wait) fs
  pub wait_buckets : m.queue_wait_buckets ≡ histogram (λ f. f.queue_wait) bounds fs
  pub input_tokens : m.input_tokens ≡ sum_by (λ f. tokens_in f.usage) fs
  pub output_tokens : m.output_tokens ≡ sum_by (λ f. tokens_out f.usage) fs
  pub tool_calls : m.tool_calls ≡ sum_by (λ f. f.tool_calls) fs
  pub retries : m.retries ≡ sum_by (λ f. f.retries) fs
  pub active : m.active_turns ≡ 0

-- After any turns one after the other, the counters are those of the turns: their number, errors,
-- times, tokens, calls and retries, each histogram bucket the number of turns whose time is at most
-- its bound, and no turn is active.
pub finished-Describes : (fs : List Finish) → Describes fs (finished fs)
unfolding turn_finish count_where
finished-Describes [] = record {
  turns = refl;
  errors = refl;
  durations = refl;
  duration_buckets = zeros-histogram (λ f. f.duration) bounds;
  waits = refl;
  wait_buckets = zeros-histogram (λ f. f.queue_wait) bounds;
  input_tokens = refl;
  output_tokens = refl;
  tool_calls = refl;
  retries = refl;
  active = refl;
}
finished-Describes (f ∷ fs) =
    let ih = finished-Describes fs in
    record {
      turns = omega (arith, ih.turns);
      errors = ground (arith, ih.errors);
      durations = omega (arith, ih.durations);
      duration_buckets =
          ap (observe f.duration bounds) ih.duration_buckets
          ∙ observe-histogram (λ f. f.duration) f fs bounds;
      waits = omega (arith, ih.waits);
      wait_buckets =
          ap (observe f.queue_wait bounds) ih.wait_buckets
          ∙ observe-histogram (λ f. f.queue_wait) f fs bounds;
      input_tokens = omega (arith, ih.input_tokens);
      output_tokens = omega (arith, ih.output_tokens);
      tool_calls = omega (arith, ih.tool_calls);
      retries = omega (arith, ih.retries);
      active = omega (arith, ih.active);
    }
