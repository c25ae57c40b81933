-- ===== src/Stream/Tests.antt =====
-- Streams of concrete libpq results: those below 100 have two rows, the others end the stream.
use ruby_pg.Stream.{array_rows}
use ruby_pg.Result.Rows.{row_values}
use ruby_pg.Common.{gather}
use ruby_pg.Common.{ℕ, Bool, true, List, [], ◌∷◌, Outcome, ok, raises, RubyError, ◌≡◌, refl, arith}
use ruby_pg.Result.{FieldName}
use ruby_pg.Result.Samples.{sample, sample_pq, sample_cast}
use ruby_pg.Tuple.{Tuple}
use ruby_pg.Stream.{Streaming, Yielder, stream_any}
use ruby_pg.Stream.Owners.{Accounted, stream_any-Accounted}

abbrev start : Streaming ℕ ℕ
start = record { self = sample; copies = []; freed = []; received = 7 ∷ [] }

abbrev accept : List FieldName → Outcome (Unit {0})
accept row = ok tt

abbrev refuse : Tuple Bool ℕ FieldName FieldName → Outcome (Unit {0})
refuse t = raises RubyError.arg_error

abbrev by_row : Yielder Bool ℕ FieldName
by_row = Yielder.array accept

start-Accounted : Accounted start
start-Accounted = (λ q. omega arith, refl)

rows_test : (stream_any sample_pq sample_cast by_row (8 ∷ 100 ∷ []) start).0 ≡ ok tt
unfolding stream_any array_rows row_values gather
rows_test = refl

freed_test : (stream_any sample_pq sample_cast by_row (8 ∷ 100 ∷ []) start).1.freed ≡ 8 ∷ 7 ∷ []
unfolding stream_any array_rows row_values gather
freed_test = refl

stream_any-Accounted_example :
    Accounted (stream_any sample_pq sample_cast (Yielder.tuple true refuse) (8 ∷ 100 ∷ []) start).1
stream_any-Accounted_example =
    stream_any-Accounted sample_pq sample_cast (Yielder.tuple true refuse) (8 ∷ 100 ∷ []) start
      start-Accounted
