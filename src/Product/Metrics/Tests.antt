-- ===== src/Product/Metrics/Tests.antt =====
-- Two turns, one of them failed.
use sigil_pi.Prelude.{◌≡◌, refl, true, false, none, some, List, [], ◌∷◌}
use sigil_pi.Product.Metrics.{Finish, turn_finish, observe}
use sigil_pi.Product.Metrics.Histogram.{finished, Describes, finished-Describes}

abbrev two : List Finish
two =
    record {
      duration = 26000;
      queue_wait = 0;
      usage = some (3, 4);
      tool_calls = 1;
      retries = 0;
      error = false;
    }
    ∷ record {
      duration = 130000000;
      queue_wait = 10000;
      usage = none;
      tool_calls = 0;
      retries = 2;
      error = true;
    }
    ∷ []

two-buckets :
    (finished two).turn_duration_buckets ≡ 0 ∷ 0 ∷ 1 ∷ 1 ∷ 1 ∷ 1 ∷ 1 ∷ 1 ∷ 1 ∷ 1 ∷ 1 ∷ 1 ∷ 1 ∷ []
unfolding turn_finish observe
two-buckets = refl

finished-Describes_run : Describes two (finished two)
finished-Describes_run = finished-Describes two
