-- ===== src/Gwstats.antt =====
-- backend/app/services/gwstats.py: the counters of the gateway's requests. A time is a whole number
-- of microseconds.
pub mod Conservation
mod Tests
use spark_controlplane.Prelude.{
  ℕ, zero, suc, ◌+◌, ◌-◌, ◌*◌, String, Bool, true, false, not, ◌&&◌, ◌||◌, Option, none, some, List,
  [], ◌∷◌, ◌++◌, length, keep_if, leb, ltb, ◌==◌, nat_eq, string_eq, pair_eq, if◌then◌else◌,
}
use spark_controlplane.Dict.{Dict, get, set, get_or}

pub record RequestRecord : Type 0 where
  pub ts : ℕ
  pub client : String
  pub model : String
  pub instance_name : Option String
  pub status : ℕ
  pub duration_ms : ℕ
  pub ttfb_ms : Option ℕ
  pub streamed : Bool
  pub prompt_tokens : Option ℕ
  pub completion_tokens : Option ℕ
  pub error : Option String

-- `_Bucket`
pub record Bucket : Type 0 where
  pub requests : ℕ
  pub errors : ℕ
  pub rejected : ℕ
  pub prompt_tokens : ℕ
  pub completion_tokens : ℕ
  pub duration_ms_total : ℕ
  pub ttfb_ms_total : ℕ
  pub ttfb_count : ℕ

abbrev pub no_requests : Bucket
no_requests = record {
  requests = 0;
  errors = 0;
  rejected = 0;
  prompt_tokens = 0;
  completion_tokens = 0;
  duration_ms_total = 0;
  ttfb_ms_total = 0;
  ttfb_count = 0;
}

abbrev pub Key : Type 0
Key = String × String

pub record Stats : Type 0 where
  pub buckets : Dict Key Bucket
  pub recent : List RequestRecord
  pub totals : Dict Key Bucket

abbrev pub new_stats : Stats
new_stats = record { buckets = []; recent = []; totals = [] }

abbrev pub recent_max : ℕ
recent_max = 200

abbrev pub one_if : Bool → ℕ
one_if b = if b then 1 else 0

-- None and 0 add nothing.
abbrev pub or_none : Option ℕ → ℕ
or_none none = 0
or_none (some n) = n

abbrev pub is_given : Option ℕ → Bool
is_given none = false
is_given (some n) = true

-- What one request does to one bucket.
unfoldable pub count_in : RequestRecord → Bucket → Bucket
count_in r b = record {
  requests = b.requests + 1;
  errors = b.errors + one_if (leb 400 r.status);
  rejected = b.rejected + one_if ((r.status == 401) || (r.status == 429));
  prompt_tokens = b.prompt_tokens + or_none r.prompt_tokens;
  completion_tokens = b.completion_tokens + or_none r.completion_tokens;
  duration_ms_total = b.duration_ms_total + r.duration_ms;
  ttfb_ms_total = b.ttfb_ms_total + or_none r.ttfb_ms;
  ttfb_count = b.ttfb_count + one_if (is_given r.ttfb_ms);
}

unfoldable pub count_for : RequestRecord → Dict Key Bucket → Dict Key Bucket
unfolding count_in get_or
count_for r d =
    let key : Key = (r.client, r.model) in set key (count_in r (get_or key no_requests d)) d

-- `deque(maxlen=…).append`: the first goes when it is full.
unfoldable pub push : ℕ → RequestRecord → List RequestRecord → List RequestRecord
push maxlen r [] = r ∷ []
push maxlen r (q ∷ qs) = if leb maxlen (length (q ∷ qs)) then qs ++ r ∷ [] else (q ∷ qs) ++ r ∷ []

-- Stats.record
unfoldable pub record_request : RequestRecord → Stats → Stats
unfolding count_for push
record_request r s = record {
  buckets = count_for r s.buckets;
  recent = push recent_max r s.recent;
  totals = count_for r s.totals;
}

unfoldable pub drain : Stats → Dict Key Bucket × Stats
drain s = (s.buckets, record s { buckets = [] })

unfoldable pub reset : Stats → Stats
reset s = new_stats

pub record GatewaySample : Type 0 where
  pub ts : ℕ
  pub client : String
  pub model : String
  pub counts : Bucket

-- text[:n]
abbrev pub truncate : ℕ → String → String
truncate zero s = String.[]
truncate (suc n) String.[] = String.[]
truncate (suc n) (String.◌∷◌ c s) = String.◌∷◌ c (truncate n s)

unfoldable pub samples : ℕ → Dict Key Bucket → List GatewaySample
samples now [] = []
samples now (((client, model), b) ∷ d) =
    record { ts = now; client = truncate 64 client; model = truncate 128 model; counts = b }
    ∷ samples now d

-- The table of samples behind the process's counters.
pub record Flushed : Type 0 where
  pub written : Option ℕ
  pub stats : Stats
  pub rows : List GatewaySample

-- GatewayStatsCollector.flush: `idle` says that no key was used, `committed` that the commit
-- succeeds; if not, it raises, `written` is none, and the drained window is lost.
unfoldable pub flush : Bool → Bool → ℕ → ℕ → Stats → List GatewaySample → Flushed
unfolding drain samples
flush idle committed now retention s rows =
    let (drained, s') = drain s in
    if (length drained == 0) && idle
    then record { written = some 0; stats = s'; rows = rows }
    else if committed
    then record {
      written = some (length drained);
      stats = s';
      rows = keep_if (λ r. not (ltb r.ts (now - retention))) (rows ++ samples now drained);
    }
    else record { written = none; stats = s'; rows = rows }
