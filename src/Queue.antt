-- ===== src/Queue.antt =====
-- src/pipeline/queue.py: the protocol of a queue, and the part that its implementations share.
pub mod History
pub mod Fake
pub mod Leases
pub mod Postgres
use sb_poc.Prelude.{
  Bool-cases, inl, inr, subst, ℕ, suc, ◌+◌, ◌*◌, String, String_eq, ℤ, pos, negsuc, Bool, true,
  false, ◌&&◌, not, Option, none, some, Eq, ◌==◌, ◌≡◌, ◌≢◌, ◌↔◌, refl, arith, eq_iff, ltb, Result,
  second, if◌then◌else◌, List, [], ◌∷◌, ◌||◌, map_option, All,
}

-- (tenant_id, conversation_id)
pub record Key : Type 0 where
  pub tenant_id : String
  pub conversation_id : String

abbrev pub key_beq : Key → Key → Bool
key_beq a b = (a.tenant_id == b.tenant_id) && (a.conversation_id == b.conversation_id)

pub key_beq_iff : (a b : Key) → (key_beq a b ≡ true) ↔ (a ≡ b)
key_beq_iff a b =
    ground (arith, eq_iff a.tenant_id b.tenant_id, eq_iff a.conversation_id b.conversation_id)

instance abbrev pub Key_eq : Eq Key
Key_eq = record { beq = key_beq; beq_iff = key_beq_iff }

-- A statement about a key holds if it holds of another key and, where the two differ, of this one.
pub own_or_other : (P : Key → Type 0) (k j : Key) → P k → (k ≢ j → P j) → P j
own_or_other P k j own other = elim (Bool-cases (key_beq k j)) [
  | inl here ↦ subst P ((key_beq_iff k j).0 here) own
  | inr there ↦ other (λ e. absurd (ground (arith, (key_beq_iff k j).1 e)))
]

pub record ClaimedJob : Type 0 where
  pub key : Key
  pub blob_key : String
  pub content_hash : String
  pub delivery_count : ℕ

pub data JobStatus : Type 0 where
  queued claimed done dead : JobStatus

-- What every implementation keeps of a job.
pub record JobView : Type 0 where
  pub blob_key : String
  pub content_hash : String
  pub status : JobStatus
  pub delivery_count : ℕ
  pub claimed_at : Option ℕ

-- `now - claimed_at > lease`, with the lease in seconds
unfoldable pub lease_over : ℕ → ℕ → ℤ → Bool
lease_over now since (pos lease) = ltb (since + lease * second) now
lease_over now since (negsuc n) = ltb since (now + suc n * second)

abbrev pub lease_over_at : ℕ → ℤ → Option ℕ → Bool
lease_over_at now lease none = false
lease_over_at now lease (some since) = lease_over now since lease

-- A job that is queued, or whose claim is older than the lease.
unfoldable pub is_claimable : ℕ → ℤ → JobView → Bool
unfolding lease_over
is_claimable now lease v = elim v.status [
  | queued ↦ true
  | claimed ↦ lease_over_at now lease v.claimed_at
  | _ ↦ false
]

-- The operations of the protocol, on a state of the queue. The clock is an argument.
pub record Queue (S : Type 0) : Type 0 where
  pub enqueue : ℕ → Key → String → String → S → Bool × S
  pub claim : ℕ → String → ℤ → ℤ → S → Result (List ClaimedJob × S)
  pub mark_done : Key → S → S

-- An entry with this content hash is tracked.
abbrev pub has_hash : String → Option JobView → Bool
has_hash h none = false
has_hash h (some v) = v.content_hash == h

abbrev pub fresh : String → String → JobView
fresh blob_key h = record {
  blob_key = blob_key;
  content_hash = h;
  status = queued;
  delivery_count = 0;
  claimed_at = none;
}

abbrev pub close_as : JobStatus → JobView → JobView
close_as status v = record v { status = status }

-- What the protocol promises of `enqueue` and `mark_done`, by the view of each job.
pub record QueueLaws {S : Type 0} (q : Queue S) (view : Key → S → Option JobView) : Type 0 where
  pub enqueue_tracked :
      (now : ℕ) (k : Key) (b h : String) (s : S)
      → has_hash h (view k s) ≡ true
      → q.enqueue now k b h s ≡ (false, s)
  pub enqueue_new :
      (now : ℕ) (k : Key) (b h : String) (s : S)
      → has_hash h (view k s) ≡ false
      → ((q.enqueue now k b h s).0 ≡ true) × (view k (q.enqueue now k b h s).1 ≡ some (fresh b h))
  pub enqueue_other :
      (now : ℕ) (k j : Key) (b h : String) (s : S)
      → k ≢ j
      → view j (q.enqueue now k b h s).1 ≡ view j s
  pub mark_done_self :
      (k : Key) (s : S) → view k (q.mark_done k s) ≡ map_option (close_as done) (view k s)
  pub mark_done_other : (k j : Key) (s : S) → k ≢ j → view j (q.mark_done k s) ≡ view j s

-- A job of this key is among the claimed ones.
abbrev pub claims : Key → List ClaimedJob → Bool
claims k [] = false
claims k (j ∷ js) = j.key == k || claims k js

abbrev pub is_claimable_at : ℕ → ℤ → Option JobView → Bool
is_claimable_at now lease none = false
is_claimable_at now lease (some v) = is_claimable now lease v

-- What a claim makes of a job.
abbrev pub claim_view : ℕ → JobView → JobView
claim_view now v = record v {
  status = claimed;
  claimed_at = some now;
  delivery_count = v.delivery_count + 1;
}

abbrev pub claimed_job : Key → JobView → ClaimedJob
claimed_job k v = record {
  key = k;
  blob_key = v.blob_key;
  content_hash = v.content_hash;
  delivery_count = v.delivery_count;
}

-- What the protocol promises of a claim that takes the state `s` to `s'`: it takes jobs that were
-- claimable, marks them as claimed now with one more delivery, hands out what it has marked, and
-- leaves all other jobs alone.
pub record IsClaim {S : Type 0} (view : Key → S → Option JobView) (now : ℕ) (lease : ℤ) (s s' : S)
    (jobs : List ClaimedJob) : Type 0 where
  pub claimable : (k : Key) → claims k jobs ≡ true → is_claimable_at now lease (view k s) ≡ true
  pub effect :
      (k : Key)
      → view k s' ≡ (if claims k jobs then map_option (claim_view now) (view k s) else view k s)
  pub handed_out :
      All (λ j. (v : JobView) × (view j.key s' ≡ some v) × (j ≡ claimed_job j.key v)) jobs
