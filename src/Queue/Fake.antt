-- ===== src/Queue/Fake.antt =====
-- queue.py, FakeQueue: the queue in memory.
pub mod Claims
use sb_poc.Prelude.{
  ℕ, suc, ◌+◌, String, String_eq, ℤ, at_least, Bool, true, false, ◌&&◌, Option, none, some, List,
  [], ◌∷◌, Table, lookup, put, update, lookup-put, lookup-update, map_option, ◌==◌, ◌≡◌, ◌≢◌, refl,
  ◌∙◌, Result, ok, if◌then◌else◌, arith,
}
use sb_poc.Queue.{
  Key, Key_eq, key_beq_iff, ClaimedJob, JobStatus, queued, claimed, done, dead, JobView,
  is_claimable, fresh, has_hash, close_as, claim_view, claimed_job, Queue, QueueLaws,
}

-- `_FakeRow` has the fields of a view.
abbrev pub FakeQueue : Type 0
FakeQueue = Table Key JobView

-- `row is not None and row.content_hash == content_hash`
abbrev pub unchanged : String → Option JobView → Bool
unchanged h none = false
unchanged h (some v) = v.content_hash == h

-- `_FakeRow(blob_key, content_hash)`
abbrev pub new_row : String → String → JobView
new_row blob_key content_hash = record {
  blob_key = blob_key;
  content_hash = content_hash;
  status = queued;
  delivery_count = 0;
  claimed_at = none;
}

unfoldable pub enqueue : ℕ → Key → String → String → FakeQueue → Bool × FakeQueue
unfolding lookup put
enqueue now key blob_key content_hash rows =
    if unchanged content_hash (lookup key rows)
    then (false, rows)
    else (true, put key (new_row blob_key content_hash) rows)

abbrev pub claimed_row : ℕ → JobView → JobView
claimed_row now v = record v {
  status = claimed;
  claimed_at = some now;
  delivery_count = v.delivery_count + 1;
}

-- The loop's body when the job is taken.
abbrev pub taken_row : ℕ → Key → JobView → List ClaimedJob × FakeQueue → List ClaimedJob × FakeQueue
taken_row now k v r = (claimed_job k (claimed_row now v) ∷ r.0, (k, claimed_row now v) ∷ r.1)

abbrev pub passed_row : Key → JobView → List ClaimedJob × FakeQueue → List ClaimedJob × FakeQueue
passed_row k v r = (r.0, (k, v) ∷ r.1)

-- The loop over the rows, with `taken` jobs claimed so far.
unfoldable pub claim_from : ℕ → ℤ → ℤ → ℕ → FakeQueue → List ClaimedJob × FakeQueue
claim_from now batch lease taken [] = ([], [])
claim_from now batch lease taken ((k, v) ∷ rows) =
    if at_least taken batch then ([], (k, v) ∷ rows) else elim (is_claimable now lease v) [
      | true ↦ taken_row now k v (claim_from now batch lease (suc taken) rows)
      | false ↦ passed_row k v (claim_from now batch lease taken rows)
    ]

unfoldable pub claim : ℕ → String → ℤ → ℤ → FakeQueue → Result (List ClaimedJob × FakeQueue)
unfolding claim_from
claim now worker_id batch lease rows = ok (claim_from now batch lease 0 rows)

unfoldable pub mark_done : Key → FakeQueue → FakeQueue
unfolding update
mark_done key rows = update key (λ v. record v { status = done }) rows

abbrev pub fake_queue : Queue FakeQueue
fake_queue = record { enqueue = enqueue; claim = claim; mark_done = mark_done }

unchanged-has_hash : (h : String) (o : Option JobView) → unchanged h o ≡ has_hash h o
unchanged-has_hash h none = refl
unchanged-has_hash h (some v) = refl

fake_enqueue_tracked :
    (now : ℕ) (k : Key) (b h : String) (s : FakeQueue)
    → has_hash h (lookup k s) ≡ true
    → enqueue now k b h s ≡ (false, s)
unfolding enqueue
fake_enqueue_tracked now k b h s e = rw (unchanged-has_hash h (lookup k s) ∙ e)

fake_enqueue_new :
    (now : ℕ) (k : Key) (b h : String) (s : FakeQueue)
    → has_hash h (lookup k s) ≡ false
    → ((enqueue now k b h s).0 ≡ true) × (lookup k (enqueue now k b h s).1 ≡ some (fresh b h))
unfolding enqueue
fake_enqueue_new now k b h s e =
    rw (unchanged-has_hash h (lookup k s) ∙ e)
      (refl, rw (lookup-put k k (fresh b h) s) (ground (arith, key_beq_iff k k)))

fake_enqueue_other :
    (now : ℕ) (k j : Key) (b h : String) (s : FakeQueue)
    → k ≢ j
    → lookup j (enqueue now k b h s).1 ≡ lookup j s
unfolding enqueue
fake_enqueue_other now k j b h s n = ground (arith, lookup-put k j (fresh b h) s, key_beq_iff k j)

fake_mark_done_self :
    (k : Key) (s : FakeQueue) → lookup k (mark_done k s) ≡ map_option (close_as done) (lookup k s)
unfolding mark_done
fake_mark_done_self k s = rw (lookup-update k k (close_as done) s) (ground (arith, key_beq_iff k k))

fake_mark_done_other : (k j : Key) (s : FakeQueue) → k ≢ j → lookup j (mark_done k s) ≡ lookup j s
unfolding mark_done
fake_mark_done_other k j s n = ground (arith, lookup-update k j (close_as done) s, key_beq_iff k j)

-- The queue in memory keeps the promises of the protocol: a job that is tracked with the same content
-- hash is not enqueued again, any other is queued afresh, closing a job changes its status alone, and
-- no operation on one job changes another.
pub fake_queue-QueueLaws : QueueLaws fake_queue lookup
fake_queue-QueueLaws = record {
  enqueue_tracked = fake_enqueue_tracked;
  enqueue_new = fake_enqueue_new;
  enqueue_other = fake_enqueue_other;
  mark_done_self = fake_mark_done_self;
  mark_done_other = fake_mark_done_other;
}
