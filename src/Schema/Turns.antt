-- ===== src/Schema/Turns.antt =====
-- schema.py, _parse_turn and the loop of parse_conversation: which turns are kept, and where.
use sb_poc.Prelude.{
  ℕ, suc, ◌+◌, ◌≤◌, ◌<◌, ◌≡◌, ◌≢◌, refl, String, Bool, true, false, ◌&&◌, Option, none, some, List,
  [], ◌∷◌, arith, length, All,
}
use sb_poc.Json.{Value, null, str, obj, Fields, find, get}
use sb_poc.Text.{Unicode}
use sb_poc.Schema.{
  TurnResult, kept, dropped, ParsedTurn, DroppedTurn, recognised_roles, check_ts, check_text,
  check_role, parse_turn, parse_turns, file_turn,
}

abbrev pub is_kept : TurnResult → Bool
is_kept (kept t) = true
is_kept (dropped d) = false

abbrev pub has_role : Value → Bool
has_role (str r) = recognised_roles r
has_role _ = false

abbrev pub has_text : Option Value → Bool
has_text (some (str s)) = true
has_text _ = false

abbrev pub is_present : Value → Bool
is_present null = false
is_present _ = true

-- The three conditions under which scoring can use an element of the array.
abbrev pub is_usable : Value → Bool
is_usable (obj fs) =
    has_role (get "role" fs) && has_text (find "text" fs) && is_present (get "ts" fs)
is_usable _ = false

module _ (u : Unicode) (i : ℕ) where
  check_ts-is_present :
      (r s : String) (fs : Fields) (v : Value) → is_kept (check_ts u i r s fs v) ≡ is_present v
  unfolding check_ts
  check_ts-is_present r s fs null = refl
  check_ts-is_present r s fs _ = refl

  check_text-has_text :
      (r : String) (fs : Fields) (o : Option Value)
      → is_kept (check_text u i r fs o) ≡ (has_text o && is_present (get "ts" fs))
  unfolding check_text
  check_text-has_text r fs none = refl
  check_text-has_text r fs (some (str s)) = check_ts-is_present r s fs (get "ts" fs)
  check_text-has_text r fs (some null) = refl
  check_text-has_text r fs (some _) = refl

  check_role-has_role :
      (fs : Fields) (v : Value)
      → is_kept (check_role u i fs v)
        ≡ (has_role v && has_text (find "text" fs) && is_present (get "ts" fs))
  unfolding check_role
  check_role-has_role fs (str r) = ground (arith, check_text-has_text r fs (find "text" fs))
  check_role-has_role fs null = refl
  check_role-has_role fs _ = refl

  -- A turn is kept exactly when it is an object with a recognised role, a text that is a string and
  -- a timestamp that is there and not null.
  pub is_kept-is_usable : (v : Value) → is_kept (parse_turn u i v) ≡ is_usable v
  unfolding parse_turn
  is_kept-is_usable (obj fs) = check_role-has_role fs (get "role" fs)
  is_kept-is_usable null = refl
  is_kept-is_usable _ = refl

-- The positions from `lo` on, each greater than the one before it.
abbrev pub Ascending : ℕ → List ℕ → Type 0
Ascending lo [] = Unit
Ascending lo (i ∷ is) = (lo ≤ i) × Ascending (suc i) is

abbrev pub kept_at : List ParsedTurn → List ℕ
kept_at [] = []
kept_at (t ∷ ts) = t.index ∷ kept_at ts

abbrev pub dropped_at : List DroppedTurn → List ℕ
dropped_at [] = []
dropped_at (d ∷ ds) = d.index ∷ dropped_at ds

-- The two lists hold the positions `lo ≤ i < hi` of the array, each once, each list in array order.
pub record Partition (lo hi : ℕ) (ks ds : List ℕ) : Type 0 where
  pub complete : length ks + length ds + lo ≡ hi
  pub kept_order : Ascending lo ks
  pub dropped_order : Ascending lo ds
  pub kept_below : All (λ i. i < hi) ks
  pub dropped_below : All (λ i. i < hi) ds
  pub disjoint : All (λ i. All (λ j. i ≢ j) ds) ks

weaken : (lo : ℕ) (is : List ℕ) → Ascending (suc lo) is → Ascending lo is
weaken lo [] h = tt
weaken lo (i ∷ is) h = (omega arith, h.1)

-- Positions from a later one on are none of the earlier ones.
apart : (i lo : ℕ) (is : List ℕ) → i < lo → Ascending lo is → All (λ j. i ≢ j) is
apart i lo [] l h = tt
apart i lo (j ∷ is) l h = (omega arith, apart i (suc j) is (omega arith) h.1)

apart_front :
    (i lo : ℕ) (ks ds : List ℕ)
    → i < lo
    → Ascending lo ks
    → All (λ k. All (λ j. k ≢ j) ds) ks
    → All (λ k. All (λ j. k ≢ j) (i ∷ ds)) ks
apart_front i lo [] ds l h a = tt
apart_front i lo (k ∷ ks) ds l h a =
    ((omega arith, a.0), apart_front i (suc k) ks ds (omega arith) h.1 a.1)

Partition-kept :
    (lo hi : ℕ) (ks ds : List ℕ) → Partition (suc lo) hi ks ds → Partition lo hi (lo ∷ ks) ds
Partition-kept lo hi ks ds p = record {
  complete = omega arith;
  kept_order = (omega arith, p.kept_order);
  dropped_order = weaken lo ds p.dropped_order;
  kept_below = (omega arith, p.kept_below);
  dropped_below = p.dropped_below;
  disjoint = (apart lo (suc lo) ds (omega arith) p.dropped_order, p.disjoint);
}

Partition-dropped :
    (lo hi : ℕ) (ks ds : List ℕ) → Partition (suc lo) hi ks ds → Partition lo hi ks (lo ∷ ds)
Partition-dropped lo hi ks ds p = record {
  complete = omega arith;
  kept_order = weaken lo ks p.kept_order;
  dropped_order = (omega arith, p.dropped_order);
  kept_below = p.kept_below;
  dropped_below = (omega arith, p.dropped_below);
  disjoint = apart_front lo (suc lo) ks ds (omega arith) p.kept_order p.disjoint;
}

shift : (n lo : ℕ) → suc n + lo ≡ n + suc lo
shift n lo = omega arith

module _ (u : Unicode) where
  abbrev index : TurnResult → ℕ
  index (kept t) = t.index
  index (dropped d) = d.index

  index-check_ts :
      (i : ℕ) (r s : String) (fs : Fields) (v : Value) → index (check_ts u i r s fs v) ≡ i
  unfolding check_ts
  index-check_ts i r s fs null = refl
  index-check_ts i r s fs _ = refl

  index-check_text :
      (i : ℕ) (r : String) (fs : Fields) (o : Option Value) → index (check_text u i r fs o) ≡ i
  unfolding check_text
  index-check_text i r fs none = refl
  index-check_text i r fs (some (str s)) = index-check_ts i r s fs (get "ts" fs)
  index-check_text i r fs (some null) = refl
  index-check_text i r fs (some _) = refl

  index-check_role : (i : ℕ) (fs : Fields) (v : Value) → index (check_role u i fs v) ≡ i
  unfolding check_role
  index-check_role i fs (str r) = ground (arith, index-check_text i r fs (find "text" fs))
  index-check_role i fs null = refl
  index-check_role i fs _ = refl

  -- A turn carries the position that it was given, kept or not.
  index-parse_turn : (i : ℕ) (v : Value) → index (parse_turn u i v) ≡ i
  unfolding parse_turn
  index-parse_turn i (obj fs) = index-check_role i fs (get "role" fs)
  index-parse_turn i null = refl
  index-parse_turn i _ = refl

  file_turn-Partition :
      (lo hi : ℕ) (r : TurnResult) (ks : List ParsedTurn) (ds : List DroppedTurn)
      → index r ≡ lo
      → Partition (suc lo) hi (kept_at ks) (dropped_at ds)
      → Partition lo hi (kept_at (file_turn r (ks, ds)).0) (dropped_at (file_turn r (ks, ds)).1)
  file_turn-Partition lo hi (kept t) ks ds e p =
      rw e (Partition-kept lo hi (kept_at ks) (dropped_at ds) p)
  file_turn-Partition lo hi (dropped d) ks ds e p =
      rw e (Partition-dropped lo hi (kept_at ks) (dropped_at ds) p)

  -- The loop over the turns from position `lo` on loses no element and repeats none: the positions of
  -- the kept turns and those of the dropped turns split the positions of the array, and each list is
  -- in the order of the array.
  pub parse_turns-Partition :
      (lo : ℕ) (vs : List Value)
      → Partition lo
          (length vs + lo)
          (kept_at (parse_turns u lo vs).0)
          (dropped_at (parse_turns u lo vs).1)
  unfolding parse_turns
  parse_turns-Partition lo [] = record {
    complete = omega arith;
    kept_order = tt;
    dropped_order = tt;
    kept_below = tt;
    dropped_below = tt;
    disjoint = tt;
  }
  parse_turns-Partition lo (v ∷ vs) =
      file_turn-Partition lo (length (v ∷ vs) + lo) (parse_turn u lo v)
        (parse_turns u (suc lo) vs).0 (parse_turns u (suc lo) vs).1 (index-parse_turn lo v)
        (rw (shift (length vs) lo) (parse_turns-Partition (suc lo) vs))
