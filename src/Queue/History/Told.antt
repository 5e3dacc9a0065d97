-- ===== src/Queue/History/Told.antt =====
-- queue.py, the protocol: the history of a queue tells what it answers and what it shows.
use sb_poc.Prelude.{
  ℕ, String, String_eq, ℤ, Bool, true, false, not, Option, none, some, List, [], ◌∷◌, All, ◌≡◌, ◌≢◌,
  refl, sym, subst, ◌∙◌, arith, eq_iff, Bool-cases, inl, inr, map_option, if◌then◌else◌,
}
use sb_poc.Queue.{
  Key, Key_eq, key_beq_iff, own_or_other, ClaimedJob, JobView, done, Queue, has_hash, fresh,
  close_as, claims, claim_view, claimed_job, is_claimable, is_claimable_at, IsClaim,
}
use sb_poc.Queue.History.{
  Event, enqueued, handed_out, marked, last_hash, is_text, IsDue, Truthful, is_done, Remembers,
  Lived, begun, enqueuing, claiming, marking, HistoryLaws,
}

Remembers-has_hash :
    (k : Key) (es : List Event) (h : String) (o : Option JobView)
    → Remembers k es o
    → has_hash h o ≡ is_text (last_hash k es) h
Remembers-has_hash k es h none m = rw m refl
Remembers-has_hash k es h (some v) m = rw (m.0) refl

Remembers-fresh :
    (k : Key) (es : List Event) (b h : String) (a : Bool)
    → is_text (last_hash k es) h ≡ false
    → Remembers k (enqueued k h a ∷ es) (some (fresh b h))
Remembers-fresh k es b h a e = ground (arith, e, key_beq_iff k k)

Remembers-enqueued_same :
    (k : Key) (es : List Event) (h : String) (a : Bool) (o : Option JobView)
    → is_text (last_hash k es) h ≡ true
    → Remembers k es o
    → Remembers k (enqueued k h a ∷ es) o
Remembers-enqueued_same k es h a none e m = absurd (ground (arith, e, m))
Remembers-enqueued_same k es h a (some v) e m =
    ground (arith, e, m.0, m.1, m.2, key_beq_iff k k, eq_iff v.content_hash h)

Remembers-enqueued_other :
    (k j : Key) (es : List Event) (h : String) (a : Bool) (o : Option JobView)
    → k ≢ j
    → Remembers j es o
    → Remembers j (enqueued k h a ∷ es) o
Remembers-enqueued_other k j es h a none n m = ground (arith, n, key_beq_iff k j, m)
Remembers-enqueued_other k j es h a (some v) n m = ground (arith, n, key_beq_iff k j, m.0, m.1, m.2)

Remembers-marked :
    (k : Key) (es : List Event) (o : Option JobView)
    → Remembers k es o
    → Remembers k (marked k ∷ es) (map_option (close_as done) o)
Remembers-marked k es none m = m
Remembers-marked k es (some v) m = ground (arith, key_beq_iff k k, m.0, m.1, m.2)

Remembers-marked_other :
    (k j : Key) (es : List Event) (o : Option JobView)
    → k ≢ j
    → Remembers j es o
    → Remembers j (marked k ∷ es) o
Remembers-marked_other k j es none n m = m
Remembers-marked_other k j es (some v) n m = ground (arith, n, key_beq_iff k j, m.0, m.1, m.2)

Remembers-handed_out :
    (k : Key) (es : List Event) (jobs : List ClaimedJob) (now : ℕ) (o : Option JobView)
    → Remembers k es o
    → Remembers k
        (handed_out jobs ∷ es)
        (if claims k jobs then map_option (claim_view now) o else o)
Remembers-handed_out k es jobs now none m = elim (Bool-cases (claims k jobs)) [
  | inl e ↦ rw e m
  | inr e ↦ rw e m
]
Remembers-handed_out k es jobs now (some v) m = elim (Bool-cases (claims k jobs)) [
  | inl e ↦ rw e (m.0, ground (arith, e, m.1), ground (arith, e))
  | inr e ↦ rw e (m.0, ground (arith, e, m.1), ground (arith, e, m.2))
]

claimable-is_done :
    (now : ℕ) (lease : ℤ) (v : JobView) → is_claimable now lease v ≡ true → is_done v.status ≡ false
unfolding is_claimable
claimable-is_done now lease v h = ground arith

-- A job that is handed out was due.
claimed-IsDue :
    (es : List Event) (now : ℕ) (lease : ℤ) (j : ClaimedJob) (o : Option JobView) (v : JobView)
    → Remembers j.key es o
    → is_claimable_at now lease o ≡ true
    → map_option (claim_view now) o ≡ some v
    → j ≡ claimed_job j.key v
    → IsDue es j
claimed-IsDue es now lease j none v m able e same = absurd (cc)
claimed-IsDue es now lease j (some w) v m able e same = record {
  hash = m.0 ∙ ground (arith, e, same);
  unfinished = sym (m.2) ∙ claimable-is_done now lease w able;
  count = ground (arith, e, same, m.1);
}

module _ {S : Type 0} (view : Key → S → Option JobView) (es : List Event) (now : ℕ) (lease : ℤ)
    (s s' : S) (jobs : List ClaimedJob) (c : IsClaim view now lease s s' jobs)
    (known : (k : Key) → Remembers k es (view k s)) where
  All-IsDue :
      (js : List ClaimedJob)
      → ((k : Key) → claims k js ≡ true → claims k jobs ≡ true)
      → All (λ j. (v : JobView) × (view j.key s' ≡ some v) × (j ≡ claimed_job j.key v)) js
      → All (IsDue es) js
  All-IsDue [] within a = tt
  All-IsDue (j ∷ js) within ((v, there, same), a) =
      let taken = within j.key (ground (arith, key_beq_iff j.key j.key)) in
      let marked : map_option (claim_view now) (view j.key s) ≡ some v =
        ground (arith, c.effect j.key, taken, there) in
      (
        claimed-IsDue es now lease j (view j.key s) v (known j.key) (c.claimable j.key taken) marked
            same,
        All-IsDue js (λ k h. within k (ground (arith, h))) a,
      )

  claim-Remembers : (k : Key) → Remembers k (handed_out jobs ∷ es) (view k s')
  claim-Remembers k =
      subst (Remembers k (handed_out jobs ∷ es)) (sym (c.effect k))
        (Remembers-handed_out k es jobs now (view k s) (known k))

-- What the history of a queue tells of its state.
pub record IsTold {S : Type 0} (view : Key → S → Option JobView) (es : List Event) (s : S)
    : Type 0 where
  pub truthful : Truthful es
  pub known : (k : Key) → Remembers k es (view k s)

module _ {S : Type 0} (q : Queue S) (view : Key → S → Option JobView) (start : S)
    (Good : S → Type 0) (laws : HistoryLaws q view start Good) where
  open laws use {queue}

  module _ (es : List Event) (s : S) (known : (k : Key) → Remembers k es (view k s)) where
    enqueue-answer :
        (now : ℕ) (k : Key) (b h : String)
        → (q.enqueue now k b h s).0 ≡ not (is_text (last_hash k es) h)
    enqueue-answer now k b h = elim (Bool-cases (is_text (last_hash k es) h)) [
      | inl e ↦
          rw
            (
              queue.enqueue_tracked now k b h s
                  (Remembers-has_hash k es h (view k s) (known k) ∙ e),
              e,
            )
            refl
      | inr e ↦
          (queue.enqueue_new now k b h s (Remembers-has_hash k es h (view k s) (known k) ∙ e)).0
          ∙ rw e refl
    ]

    enqueue-Remembers :
        (now : ℕ) (k : Key) (b h : String) (a : Bool) (j : Key)
        → Remembers j (enqueued k h a ∷ es) (view j (q.enqueue now k b h s).1)
    enqueue-Remembers now k b h a j =
        own_or_other (λ x. Remembers x (enqueued k h a ∷ es) (view x (q.enqueue now k b h s).1)) k j
          (elim (Bool-cases (is_text (last_hash k es) h)) [
            | inl e ↦
                rw
                  (queue.enqueue_tracked now k b h s
                    (Remembers-has_hash k es h (view k s) (known k) ∙ e))
                  (Remembers-enqueued_same k es h a (view k s) e (known k))
            | inr e ↦
                rw
                  ((queue.enqueue_new now k b h s
                    (Remembers-has_hash k es h (view k s) (known k) ∙ e)).1)
                  (Remembers-fresh k es b h a e)
          ])
          (λ n.
            rw (queue.enqueue_other now k j b h s n)
              (Remembers-enqueued_other k j es h a (view j s) n (known j)))

    mark_done-Remembers : (k j : Key) → Remembers j (marked k ∷ es) (view j (q.mark_done k s))
    mark_done-Remembers k j =
        own_or_other (λ x. Remembers x (marked k ∷ es) (view x (q.mark_done k s))) k j
          (rw (queue.mark_done_self k s) (Remembers-marked k es (view k s) (known k)))
          (λ n.
            rw (queue.mark_done_other k j s n)
              (Remembers-marked_other k j es (view j s) n (known j)))

  pub history-IsTold : (es : List Event) (s : S) → Lived q start es s → IsTold view es s × Good s
  history-IsTold _ _ begun = (
    record { truthful = tt; known = λ k. subst (Remembers k []) (sym (laws.start-view k)) refl },
    laws.start-Good,
  )
  history-IsTold _ _ (enqueuing {es} {s} now k b h l) =
      let (t, good) = history-IsTold es s l in
      (
        record {
          truthful = (enqueue-answer es s t.known now k b h, t.truthful);
          known = enqueue-Remembers es s t.known now k b h (q.enqueue now k b h s).0;
        },
        laws.enqueue-Good now k b h s good,
      )
  history-IsTold _ _ (claiming {es} {s} {s'} {jobs} now w batch lease l e) =
      let (t, good) = history-IsTold es s l in
      let (c, good') = laws.claims_lem now w batch lease jobs s s' e good in
      (
        record {
          truthful = (
            All-IsDue view es now lease s s' jobs c t.known jobs (λ k h. h) c.handed_out,
            t.truthful,
          );
          known = claim-Remembers view es now lease s s' jobs c t.known;
        },
        good',
      )
  history-IsTold _ _ (marking {es} {s} k l) =
      let (t, good) = history-IsTold es s l in
      (
        record { truthful = t.truthful; known = mark_done-Remembers es s t.known k },
        laws.mark_done-Good k s good,
      )
