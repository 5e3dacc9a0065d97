-- ===== src/Queue/Postgres/Complete.antt =====
-- queue.py, PgJobQueue.claim: what it means that no row comes back.
use sb_poc.Prelude.{
  ℕ, suc, String, ℤ, pos, Bool, true, false, ◌&&◌, not, some, [], ◌∷◌, lookup, ◌≡◌, refl, ap, ◌∙◌,
  ok, ok-injective, arith, take, keep_if, Bool-cases, inl, inr,
}
use sb_poc.Queue.{Key, Key_eq, is_claimable}
use sb_poc.Queue.Postgres.{
  Job, Jobs, by_enqueued_at, claimable, contains, returning, claim_unlocked,
}
use sb_poc.Queue.Postgres.Oldest.{contains-by_enqueued_at, contains-keep_if}

none_returned :
    (k : Key) (now n : ℕ) (ps : Jobs) → returning now (take (suc n) ps) ≡ [] → contains k ps ≡ false
none_returned k now n [] h = refl
none_returned k now n (p ∷ ps) h = absurd (cc)

-- A claim of at least one job that hands out none has left no claimable row unlocked.
pub claim_unlocked_complete :
    (locked : Key → Bool) (now n : ℕ) (lease : ℤ) (worker_id : String) (s s' : Jobs) (k : Key)
    (j : Job)
    → claim_unlocked locked now worker_id (pos (suc n)) lease s ≡ ok ([], s')
    → lookup k s ≡ some j
    → locked k ≡ false
    → is_claimable now lease j.shown ≡ false
unfolding claim_unlocked claimable
claim_unlocked_complete locked now n lease worker_id s s' k j e h free =
    elim (Bool-cases (is_claimable now lease j.shown)) [
      | inr over ↦ over
      | inl able ↦
          let test : (is_claimable now lease j.shown && not (locked k)) ≡ true =
            ground (arith, able, free) in
          let candidates = keep_if (λ p. is_claimable now lease p.1.shown && not (locked p.0)) s in
          let there : contains k (by_enqueued_at candidates) ≡ true =
            contains-by_enqueued_at k candidates ∙ contains-keep_if k j _ s h test in
          let gone =
            none_returned k now n (by_enqueued_at candidates) (ap (λ r. r.0) (ok-injective e)) in
          absurd (ground (arith, there, gone))
    ]
