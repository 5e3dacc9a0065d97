-- ===== src/Queue/History.antt =====
-- queue.py, the protocol: what was done with a queue, and what follows from it about each job.
pub mod Told
pub mod Implemented
use sb_poc.Prelude.{
  ℕ, suc, ◌+◌, String, String_eq, ℤ, Bool, true, false, ◌&&◌, ◌||◌, not, Option, none, some, List,
  [], ◌∷◌, All, ◌==◌, ◌≡◌, Result, ok, is_some, if◌then◌else◌,
}
use sb_poc.Queue.{
  Key, key_beq, ClaimedJob, JobView, JobStatus, done, Queue, QueueLaws, claims, IsClaim,
}

-- A call of an operation, with what it returned.
pub data Event : Type 0 where
  enqueued : Key → String → Bool → Event
  handed_out : List ClaimedJob → Event
  marked : Key → Event

-- The content hash that the job was last enqueued with. The latest event comes first.
abbrev pub last_hash : Key → List Event → Option String
last_hash k [] = none
last_hash k (enqueued j h a ∷ es) = if key_beq j k then some h else last_hash k es
last_hash k (handed_out jobs ∷ es) = last_hash k es
last_hash k (marked j ∷ es) = last_hash k es

abbrev pub is_text : Option String → String → Bool
is_text none h = false
is_text (some g) h = g == h

-- The job is enqueued with a hash other than the last one.
abbrev pub changes : Key → Key → String → List Event → Bool
changes k j h es = key_beq j k && not (is_text (last_hash k es) h)

-- How often the job was handed out since its content last changed.
abbrev pub hand_outs : Key → List Event → ℕ
hand_outs k [] = 0
hand_outs k (enqueued j h a ∷ es) = if changes k j h es then 0 else hand_outs k es
hand_outs k (handed_out jobs ∷ es) = if claims k jobs then suc (hand_outs k es) else hand_outs k es
hand_outs k (marked j ∷ es) = hand_outs k es

-- The job was marked as done, and not enqueued with other content or handed out since then.
abbrev pub is_finished : Key → List Event → Bool
is_finished k [] = false
is_finished k (enqueued j h a ∷ es) = if changes k j h es then false else is_finished k es
is_finished k (handed_out jobs ∷ es) = if claims k jobs then false else is_finished k es
is_finished k (marked j ∷ es) = (key_beq j k && is_some (last_hash k es)) || is_finished k es

-- A job that is handed out after these events.
pub record IsDue (es : List Event) (j : ClaimedJob) : Type 0 where
  pub hash : last_hash j.key es ≡ some j.content_hash
  pub unfinished : is_finished j.key es ≡ false
  pub count : j.delivery_count ≡ suc (hand_outs j.key es)

-- The answers of the queue fit the events before them.
abbrev pub Truthful : List Event → Type 0
Truthful [] = Unit
Truthful (enqueued k h a ∷ es) = (a ≡ not (is_text (last_hash k es) h)) × Truthful es
Truthful (handed_out jobs ∷ es) = All (IsDue es) jobs × Truthful es
Truthful (marked k ∷ es) = Truthful es

abbrev pub is_done : JobStatus → Bool
is_done done = true
is_done _ = false

-- What a queue shows of a job fits the events.
abbrev pub Remembers : Key → List Event → Option JobView → Type 0
Remembers k es none = last_hash k es ≡ none
Remembers k es (some v) =
    (last_hash k es ≡ some v.content_hash)
    × (v.delivery_count ≡ hand_outs k es)
    × (is_done v.status ≡ is_finished k es)

module _ {S : Type 0} (q : Queue S) (start : S) where
  -- The states that a queue gets to from `start`, with the events on the way.
  pub data Lived : List Event → S → Type 0 where
    begun : Lived [] start
    enqueuing :
        {es : List Event} {s : S} (now : ℕ) (k : Key) (b h : String)
        → Lived es s
        → Lived (enqueued k h (q.enqueue now k b h s).0 ∷ es) (q.enqueue now k b h s).1
    claiming :
        {es : List Event} {s s' : S} {jobs : List ClaimedJob} (now : ℕ) (worker_id : String)
        (batch lease : ℤ)
        → Lived es s
        → q.claim now worker_id batch lease s ≡ ok (jobs, s')
        → Lived (handed_out jobs ∷ es) s'
    marking :
        {es : List Event} {s : S} (k : Key) → Lived es s → Lived (marked k ∷ es) (q.mark_done k s)

-- What an implementation of the protocol does to each job, as long as its state is good.
pub record HistoryLaws {S : Type 0} (q : Queue S) (view : Key → S → Option JobView) (start : S)
    (Good : S → Type 0) : Type 0 where
  pub queue : QueueLaws q view
  pub start-view : (k : Key) → view k start ≡ none
  pub start-Good : Good start
  pub enqueue-Good :
      (now : ℕ) (k : Key) (b h : String) (s : S) → Good s → Good (q.enqueue now k b h s).1
  pub mark_done-Good : (k : Key) (s : S) → Good s → Good (q.mark_done k s)
  pub claims_lem :
      (now : ℕ) (worker_id : String) (batch lease : ℤ) (jobs : List ClaimedJob) (s s' : S)
      → q.claim now worker_id batch lease s ≡ ok (jobs, s')
      → Good s
      → IsClaim view now lease s s' jobs × Good s'
