-- ===== src/Bench/Rounds.antt =====
-- scripts/bench.py, replicate: the rounds over the conversations.
use Prim.Native.Nat.{◌%◌}
use native.Mathlib.Nat.{mod-lt}
use sb_poc.Prelude.{
  ℕ, zero, suc, ◌+◌, ◌≤◌, ◌<◌, String, ℤ, pos, negsuc, true, false, some, List, [], ◌∷◌, ◌≡◌, refl,
  ap, ◌∙◌, arith, length, take, get_elem?, at_least, All, subst, Bool-cases, >>=-eq-ok,
  ok-injective, inl, inr, Result, ok,
}
use sb_poc.Json.{Value}
use sb_poc.Text.{Unicode}
use sb_poc.Schema.{parse_conversation}
use sb_poc.Bench.{
  bench_texts, append_texts, load_conversations, conversation_at, replicate_from, replicate,
}

-- The number of turns of the conversations.
abbrev pub turns : List (List String) → ℕ
turns [] = 0
turns (c ∷ cs) = length c + turns cs

abbrev pub NonEmpty : List (List String) → Type 0
NonEmpty convs = All (λ c. 1 ≤ length c) convs

-- The conversations come in turn, from the one at `i` on; they reach the target, and no fewer of them do.
pub record IsRoundRobin (convs : List (List String)) (target : ℤ) (i total : ℕ)
    (out : List (List String)) : Type 0 where
  pub enough : at_least (total + turns out) target ≡ true
  pub in_turn : (j : ℕ) → j < length out → get_elem? out j ≡ some (conversation_at convs (i + j))
  pub needed : (n : ℕ) → n < length out → at_least (total + turns (take n out)) target ≡ false

at_least_more : (m n : ℕ) (z : ℤ) → m ≤ n → at_least m z ≡ true → at_least n z ≡ true
at_least_more m n (pos k) h e = ground arith
at_least_more m n (negsuc k) h e = refl

element_long :
    (convs : List (List String)) (i : ℕ)
    → NonEmpty convs
    → i < length convs
    → (c : List String) × (get_elem? convs i ≡ some c) × (1 ≤ length c)
element_long [] i a h = absurd (omega arith)
element_long (c ∷ convs) zero a h = (c, refl, a.0)
element_long (c ∷ convs) (suc i) a h = element_long convs i a.1 (omega arith)

conversation_long :
    (convs : List (List String)) (i : ℕ)
    → 0 < length convs
    → NonEmpty convs
    → 1 ≤ length (conversation_at convs i)
conversation_long convs i h a =
    let (c, e, long) = element_long convs (i % length convs) a (mod-lt i h) in
    ground (arith, e, long)

module _ (convs : List (List String)) (target : ℤ) (some_convs : 0 < length convs)
    (a : NonEmpty convs) where
  done-IsRoundRobin :
      (i total : ℕ) → at_least total target ≡ true → IsRoundRobin convs target i total []
  done-IsRoundRobin i total h = record {
    enough = at_least_more total (total + 0) target (omega arith) h;
    in_turn = λ j l. absurd (omega arith);
    needed = λ n l. absurd (omega arith);
  }

  more-IsRoundRobin :
      (i total : ℕ) (out : List (List String))
      → at_least total target ≡ false
      → IsRoundRobin convs target (suc i) (total + length (conversation_at convs i)) out
      → IsRoundRobin convs target i total (conversation_at convs i ∷ out)
  more-IsRoundRobin i total out h r = record {
    enough = subst (λ z. at_least z target ≡ true) (omega arith) r.enough;
    in_turn = in_turn;
    needed = needed;
  }
    where
      in_turn :
          (j : ℕ)
          → j < suc (length out)
          → get_elem? (conversation_at convs i ∷ out) j ≡ some (conversation_at convs (i + j))
      in_turn zero l = ap (λ z. some (conversation_at convs z)) (omega arith)
      in_turn (suc j) l =
          r.in_turn j (omega arith) ∙ ap (λ z. some (conversation_at convs z)) (omega arith)

      needed :
          (n : ℕ)
          → n < suc (length out)
          → at_least (total + turns (take n (conversation_at convs i ∷ out))) target ≡ false
      needed zero l = subst (λ z. at_least z target ≡ false) (omega arith) h
      needed (suc n) l =
          subst (λ z. at_least z target ≡ false) (omega arith) (r.needed n (omega arith))

  replicate_from-IsRoundRobin :
      (fuel i total : ℕ)
      → at_least (total + fuel) target ≡ true
      → (out : List (List String)) × (replicate_from convs target fuel i total ≡ some out)
        × IsRoundRobin convs target i total out
  unfolding replicate_from
  replicate_from-IsRoundRobin zero i total h =
      let reached : at_least total target ≡ true =
        at_least_more (total + 0) total target (omega arith) h in
      rw reached ([], refl, done-IsRoundRobin i total reached)
  replicate_from-IsRoundRobin (suc fuel) i total h = elim (Bool-cases (at_least total target)) [
    | inl e ↦ rw e ([], refl, done-IsRoundRobin i total e)
    | inr e ↦
        let conv = conversation_at convs i in
        let long = conversation_long convs i some_convs a in
        let (out, e1, r) = replicate_from-IsRoundRobin fuel (suc i) (total + length conv) (
          at_least_more (total + suc fuel) (total + length conv + fuel) target (omega (arith, long))
            h) in
        rw (e, e1) (conv ∷ out, refl, more-IsRoundRobin i total out e r)
  ]

append_texts-NonEmpty :
    (texts : List String) (convs : List (List String))
    → NonEmpty convs
    → NonEmpty (append_texts texts convs)
append_texts-NonEmpty [] convs a = a
append_texts-NonEmpty (t ∷ ts) convs a = (omega arith, a)

load_conversations-NonEmpty :
    (u : Unicode) (files : List (Result Value)) (convs : List (List String))
    → load_conversations u files ≡ ok convs
    → NonEmpty convs
unfolding load_conversations
load_conversations-NonEmpty u [] convs h = subst NonEmpty (ok-injective h) tt
load_conversations-NonEmpty u (file ∷ files) convs h =
    let (raw, e, h1) = >>=-eq-ok file _ h in
    let (rest, e1, h2) = >>=-eq-ok (load_conversations u files) _ h1 in
    subst NonEmpty (ok-injective h2) (
      append_texts-NonEmpty (bench_texts u (parse_conversation u raw)) rest
        (load_conversations-NonEmpty u files rest e1))

pub replicate-IsRoundRobin :
    (u : Unicode) (files : List (Result Value)) (c : List String) (cs : List (List String))
    (target : ℤ) (fuel : ℕ)
    → load_conversations u files ≡ ok (c ∷ cs)
    → at_least fuel target ≡ true
    → (out : List (List String)) × (replicate fuel (c ∷ cs) target ≡ ok (some out))
      × IsRoundRobin (c ∷ cs) target 0 0 out
unfolding replicate
replicate-IsRoundRobin u files c cs target fuel loaded h =
    let (out, e, r) =
      replicate_from-IsRoundRobin (c ∷ cs) target (omega arith)
        (load_conversations-NonEmpty u files (c ∷ cs) loaded) fuel 0 0
        (subst (λ z. at_least z target ≡ true) (omega arith) h) in
    (out, rw e refl, r)
