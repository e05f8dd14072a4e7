-- ===== src/Gwstats/Tests.antt =====
-- gwstats.py at concrete inputs.
use spark_controlplane.Prelude.{◌≡◌, refl, false, none, some, List, [], ◌∷◌, pair_eq, string_eq}
use spark_controlplane.Dict.{get_or, set}
use spark_controlplane.Gwstats.{RequestRecord, Key, no_requests, new_stats, record_request, flush}
use spark_controlplane.Gwstats.Conservation.{
  Event, request, window_end, run, plus, sum_of, get_or-run,
}

abbrev refused : RequestRecord
refused = record {
  ts = 1;
  client = "ann";
  model = "qwen";
  instance_name = none;
  status = 429;
  duration_ms = 3;
  ttfb_ms = none;
  streamed = false;
  prompt_tokens = none;
  completion_tokens = none;
  error = some "rate";
}

abbrev served : RequestRecord
served = record refused { status = 200; ttfb_ms = some 40; prompt_tokens = some 7; error = none }

abbrev events : List Event
events = request refused ∷ window_end ∷ request served ∷ request served ∷ []

abbrev key : Key
key = ("ann", "qwen")

get_or-run_test :
    (let (windows, s) = run events ([], new_stats) in
      get_or key no_requests s.totals
      ≡ plus (sum_of key windows) (get_or key no_requests s.buckets))
get_or-run_test = get_or-run key events

totals_test : (get_or key no_requests (run events ([], new_stats)).1.totals).requests ≡ 3
unfolding run get_or set
totals_test = refl

-- A window whose commit fails is lost.
flush_test : flush false false 9 5 (record_request served new_stats) [] ≡ record {
  written = none;
  stats = record (record_request served new_stats) { buckets = [] };
  rows = [];
}
unfolding flush record_request set get_or
flush_test = refl
