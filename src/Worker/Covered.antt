-- ===== src/Worker/Covered.antt =====
-- worker.py, run: the keys of the jobs table, among which the open jobs are.
use sb_poc.Prelude.{length, ◌≤◌, Bool, true, List, [], ◌∷◌, map, ◌≡◌, arith, lookup, String_eq}
use sb_poc.Queue.{Key, Key_eq}
use sb_poc.Queue.Postgres.{Jobs, view}
use sb_poc.Worker.Open.{is_open, among, count}

abbrev pub keys_of : Jobs → List Key
keys_of jobs = map (λ p. p.0) jobs

-- An open job is among the keys of the table.
pub open_among :
    (k : Key) (jobs : Jobs) → is_open (view k jobs) ≡ true → among k (keys_of jobs) ≡ true
unfolding lookup
open_among k [] h = absurd (cc)
open_among k ((j, x) ∷ jobs) h = ground (arith, h, open_among k jobs)

pub count_le : (p : Key → Bool) (jobs : Jobs) → count p (keys_of jobs) ≤ length jobs
unfolding count
count_le p [] = omega arith
count_le p (x ∷ jobs) = ground (arith, count_le p jobs)
